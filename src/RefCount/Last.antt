-- ===== src/RefCount/Last.antt =====
-- lib/refcount.c: when an object is queued.
use svr.Base.{
  ℕ, ◌+◌, ◌-◌, ◌%◌, ◌^◌, ◌<◌, List, [], ◌∷◌, ◌++◌, map, some, false, ◌==◌, ==_iff, if◌then◌else◌,
  ◌≡◌, refl, subst, ◌∙◌, arith, Bool, ◌≢◌, Bool-cases, inl, inr,
}
use svr.BlockAlloc.{Allocator, double_free}
use svr.BlockAlloc.Destroy.{free_allocator-double_free}
use svr.RefCount.{RefCounter, Queue, new, ref, unref, collect, close}

-- SVR_REF and SVR_UNREF.
pub data Op : Type 0 where
  take drop_ : Op

unfoldable pub run : List Op → Queue → RefCounter → Queue × RefCounter
run [] q c = (q, c)
run (take ∷ ops) q c = run ops q (ref c)
run (drop_ ∷ ops) q c = let r = unref q c in run ops r.0 r.1

-- With `n` references held, only a holder takes another or drops one, and no more are held than the
-- counter counts.
abbrev pub Held : ℕ → List Op → Type 0
Held n [] = Unit {0}
Held n (take ∷ ops) = (0 < n) × (n + 1 < 2 ^ 32) × Held (n + 1) ops
Held n (drop_ ∷ ops) = (0 < n) × Held (n - 1) ops

-- The references that are held in the end.
abbrev pub left_of : ℕ → List Op → ℕ
left_of n [] = n
left_of n (take ∷ ops) = left_of (n + 1) ops
left_of n (drop_ ∷ ops) = left_of (n - 1) ops

-- Once no reference is held nothing more can happen.
run_done :
    (ops : List Op) (q : Queue) (c : RefCounter)
    → Held 0 ops
    → (run ops q c ≡ (q, c)) × (left_of 0 ops ≡ 0)
unfolding run
run_done [] q c h = (refl, refl)
run_done (take ∷ ops) q c h = absurd (let l = h.0 in omega arith)
run_done (drop_ ∷ ops) q c h = absurd (let l = h.0 in omega arith)

done :
    (ops : List Op) (q other : Queue) (object : ℕ)
    → Held 0 ops
    → run ops q (record { ref_count = 0; object = object }) ≡ (
      (if left_of 0 ops == 0 then q else other),
      record { ref_count = left_of 0 ops; object = object },
    )
done ops q other object h =
    let (stays, none_left) = run_done ops q (record { ref_count = 0; object = object }) h in
    rw (stays, none_left) refl

run_lem :
    (ops : List Op) (n : ℕ) (q : Queue) (object : ℕ)
    → 0 < n
    → n < 2 ^ 32
    → Held n ops
    → run ops q (record { ref_count = n; object = object }) ≡ (
      (if left_of n ops == 0 then q ++ some object ∷ [] else q),
      record { ref_count = left_of n ops; object = object },
    )
unfolding run ref unref
run_lem [] n q object pos small h = let held : (n == 0) ≡ false = ground arith in rw held refl
run_lem (take ∷ ops) n q object pos small h =
    let fits : (n + 1) % 2 ^ 32 ≡ n + 1 = let b = h.1 in omega arith in
    rw fits (run_lem ops (n + 1) q object (omega arith) h.1 h.2)
run_lem (drop_ ∷ ops) n q object pos small h =
    let less : (n + 2 ^ 32 - 1) % 2 ^ 32 ≡ n - 1 = omega arith in
    elim (Bool-cases (n - 1 == 0)) [
      | inr more ↦ rw (less, more) (run_lem ops (n - 1) q object (ground arith) (omega arith) h.1)
      | inl last_ ↦
          let zero_left : n - 1 ≡ 0 = (==_iff (n - 1) 0).0 last_ in
          rw (less, zero_left)
            (done ops (q ++ some object ∷ []) q object
              (subst (λ (k : ℕ). Held k ops) zero_left h.1))
    ]

collect_all : (xs : List ℕ) → collect (map some xs) ≡ (xs, [])
unfolding collect
collect_all [] = refl
collect_all (x ∷ xs) = rw (collect_all xs) refl

collect-append : (xs : List ℕ) (o : ℕ) → collect (map some xs ++ some o ∷ []) ≡ (xs ++ o ∷ [], [])
unfolding collect
collect-append [] o = refl
collect-append (x ∷ xs) o = rw (collect-append xs o) refl

-- A new object whose references are taken and dropped by those who hold one, fewer than 2 ^ 32 at a time:
-- the counter is the number of references held. The object is put in the queue once, when the last is
-- dropped, and not before; so the collector, as long as the counters have not been closed, cleans up what was
-- in the queue and then the object if no reference is left, and does not touch it otherwise.
pub collect-run :
    (ops : List Op) (queued : List ℕ) (object : ℕ)
    → Held 1 ops
    → (q : Queue) × (run ops (map some queued) (new object)
        ≡ (q, record { ref_count = left_of 1 ops; object = object }))
      × (collect q ≡ ((if left_of 1 ops == 0 then queued ++ object ∷ [] else queued), []))
collect-run ops queued object h =
    let ends = run_lem ops 1 (map some queued) object (omega arith) (omega arith) h in
    elim (Bool-cases (left_of 1 ops == 0)) [
      | inl dropped ↦ (
        map some queued ++ some object ∷ [],
        ends ∙ rw dropped refl,
        rw dropped (collect-append queued object),
      )
      | inr held ↦ (map some queued, ends ∙ rw held refl, rw held (collect_all queued))
    ]

-- Once a counter has been allocated, closing the counters frees a chunk of them twice.
close-double_free :
    (q : Queue) (counters : Allocator) (allocated : ℕ → Bool)
    → counters.chunks ≢ []
    → (close q counters allocated).1 ≡ double_free
unfolding close
close-double_free q counters allocated h = free_allocator-double_free counters allocated h
