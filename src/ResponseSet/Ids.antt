-- ===== src/ResponseSet/Ids.antt =====
-- Which ids `SVR_ResponseSet_getRequestId` gives.
use svr.Base.{
  ℕ, zero, suc, ◌+◌, ◌-◌, ◌%◌, ◌≤◌, ◌<◌, ◌++◌, Option, none, some, true, false, leb, ◌==◌,
  if◌then◌else◌, get_elem?, replicate, length, ◌≡◌, ◌≢◌, refl, ap, ◌∙◌, ◌⊎◌, inl, inr, arith,
  Bool-cases, length-set, length-append, get_elem?-in, get_elem?-lt, get_elem?-append_left,
  get_elem?-append_right, get_elem?-set_ne, get_elem?-set_self, subst,
}
use svr.ResponseSet.Round.{passed, after_slot, passed-next, came_round}
use svr.ResponseSet.{
  ResponseSet, grow_size, Requested, given, all_in_use, new, grow, take_id, search, get_request_id,
}

module _ {A : Type 0} where
  -- The arrays have the recorded size, and the next id is in it.
  pub record IsValid (set_ : ResponseSet A) : Type 0 where
    pub pending_size : length set_.response_pending ≡ set_.set_size
    pub response_size : length set_.response ≡ set_.set_size
    pub next_lt : set_.next_request_id < set_.set_size

  pub new-IsValid : (n : ℕ) → IsValid (new {A = A} n)
  unfolding new
  new-IsValid n = record { pending_size = refl; response_size = refl; next_lt = omega arith }

  take_id-IsValid : (set_ : ResponseSet A) (id : ℕ) → IsValid set_ → IsValid (take_id set_ id)
  unfolding take_id
  take_id-IsValid set_ id v = record {
    pending_size = length-set set_.response_pending id true ∙ v.pending_size;
    response_size = length-set set_.response id none ∙ v.response_size;
    next_lt = let n = v.next_lt in omega arith;
  }

  grow-IsValid : (junk : Option A) (set_ : ResponseSet A) → IsValid set_ → IsValid (grow junk set_)
  unfolding grow
  grow-IsValid junk set_ v = record {
    pending_size =
        let p = v.pending_size in
        omega (arith, length-append set_.response_pending (replicate grow_size false));
    response_size =
        let p = v.response_size in
        omega (arith, length-append set_.response (replicate grow_size junk));
    next_lt = let n = v.next_lt in omega arith;
  }

  -- How many are ahead, the one that the search has come to included.
  abbrev ahead : ResponseSet A → ℕ → ℕ
  ahead set_ id =
      if leb set_.next_request_id id
      then set_.set_size - id + set_.next_request_id
      else set_.next_request_id - id

  abbrev pub AllPending : ResponseSet A → Type 0
  AllPending set_ = (i : ℕ) → i < set_.set_size → get_elem? set_.response_pending i ≡ some true

  -- What a call leaves: an id that was not pending, in the set as it was or after it has grown, which
  -- it does only when each of its slots is pending.
  pub record Given (set_ : ResponseSet A) (id : ℕ) (after : ResponseSet A) : Type 0 where
    pub valid : IsValid after
    pub id_lt : id < after.set_size
    pub was_free : get_elem? set_.response_pending id ≢ some true
    pub is_pending : get_elem? after.response_pending id ≡ some true
    pub is_empty : get_elem? after.response id ≡ some none
    pub others :
        (j : ℕ)
        → j < set_.set_size
        → id ≢ j
        → (get_elem? after.response_pending j ≡ get_elem? set_.response_pending j)
          × (get_elem? after.response j ≡ get_elem? set_.response j)
    pub grown : (after.set_size ≡ set_.set_size) ⊎ ((id ≡ set_.set_size) × AllPending set_)
    pub bounded : set_.set_size ≤ set_.max_request_id → after.set_size ≤ set_.max_request_id
    pub same_max : after.max_request_id ≡ set_.max_request_id

  -- The outcomes of a search.
  pub data Outcome (set_ : ResponseSet A) (r : Requested A) : Type 0 where
    gave :
        (id : ℕ) (after : ResponseSet A) → r ≡ given id after → Given set_ id after → Outcome set_ r
    refused :
        r ≡ all_in_use
        → AllPending set_
        → set_.max_request_id ≤ set_.set_size + grow_size
        → Outcome set_ r

  take_id-Given :
      (set_ : ResponseSet A) (id : ℕ)
      → IsValid set_
      → get_elem? set_.response_pending id ≡ some false
      → id < set_.set_size
      → Given set_ id (take_id set_ id)
  unfolding take_id
  take_id-Given set_ id v free h = record {
    valid = take_id-IsValid set_ id v;
    id_lt = h;
    was_free = λ e. absurd (ground arith);
    is_pending =
        get_elem?-set_self set_.response_pending id true (let p = v.pending_size in omega arith);
    is_empty = get_elem?-set_self set_.response id none (let p = v.response_size in omega arith);
    others = λ j l n.
        (get_elem?-set_ne set_.response_pending true n, get_elem?-set_ne set_.response none n);
    grown = inl refl;
    bounded = λ b. b;
    same_max = refl;
  }

  -- The first new slot is free.
  grow-Given :
      (junk : Option A) (set_ : ResponseSet A)
      → IsValid set_
      → AllPending set_
      → set_.set_size + grow_size < set_.max_request_id
      → Given set_ set_.set_size (take_id (grow junk set_) set_.set_size)
  unfolding grow take_id
  grow-Given junk set_ v all room =
      let p = v.pending_size in
      let q = v.response_size in
      let l = length-append set_.response_pending (replicate grow_size false) in
      let m = length-append set_.response (replicate grow_size junk) in
      record {
        valid = take_id-IsValid (grow junk set_) set_.set_size (grow-IsValid junk set_ v);
        id_lt = omega arith;
        was_free = λ e.
            absurd (let o = get_elem?-lt set_.response_pending set_.set_size true e in omega arith);
        is_pending = get_elem?-set_self _ set_.set_size true (omega arith);
        is_empty = get_elem?-set_self _ set_.set_size none (omega arith);
        others = λ j h n. (
          get_elem?-set_ne _ true n ∙ get_elem?-append_left set_.response_pending _ j (omega arith),
          get_elem?-set_ne _ none n ∙ get_elem?-append_left set_.response _ j (omega arith),
        );
        grown = inr (refl, all);
        bounded = λ b. omega arith;
        same_max = refl;
      }

  search-grown :
      (junk : Option A) (set_ : ResponseSet A) (fuel : ℕ)
      → IsValid set_
      → 0 < fuel
      → search junk fuel (grow junk set_) set_.set_size
        ≡ some (given set_.set_size (take_id (grow junk set_) set_.set_size))
  unfolding search
  search-grown junk set_ zero v h = absurd (omega arith)
  search-grown junk set_ (suc fuel) v h = rw free
    where
      at :
          get_elem?
            (set_.response_pending ++ replicate grow_size false)
            (length set_.response_pending + 0)
          ≡ some false
      at = get_elem?-append_right set_.response_pending (replicate grow_size false) 0

      index : length set_.response_pending + 0 ≡ set_.set_size
      index = let p = v.pending_size in omega arith

      free : get_elem? (grow junk set_).response_pending set_.set_size ≡ some false
      free =
          unfold grow in
          subst (λ i. get_elem? (set_.response_pending ++ replicate grow_size false) i ≡ some false)
            index at

  ahead-next :
      (set_ : ResponseSet A) (id : ℕ)
      → IsValid set_
      → id < set_.set_size
      → ((id + 1) % set_.set_size == set_.next_request_id) ≡ false
      → ahead set_ ((id + 1) % set_.set_size) < ahead set_ id
  ahead-next set_ id v h e =
      let n = v.next_lt in
      elim (after_slot id set_.set_size h) [
        | inl (m, inside) ↦ ground arith
        | inr (m, last) ↦ ground arith
      ]

  ahead-pos :
      (set_ : ResponseSet A) (id : ℕ) → IsValid set_ → id < set_.set_size → 0 < ahead set_ id
  ahead-pos set_ id v h = let n = v.next_lt in ground arith

  search-Outcome :
      (junk : Option A) (fuel : ℕ) (set_ : ResponseSet A) (id : ℕ)
      → IsValid set_
      → id < set_.set_size
      → ((i : ℕ)
          → i < set_.set_size
          → passed set_.next_request_id id i ≡ true
          → get_elem? set_.response_pending i ≡ some true)
      → ahead set_ id + 1 ≤ fuel
      → (r : Requested A) × (search junk fuel set_ id ≡ some r) × Outcome set_ r
  unfolding search
  search-Outcome junk zero set_ id v h p f = absurd (omega arith)
  search-Outcome junk (suc fuel) set_ id v h p f =
      let (b, at) = get_elem?-in set_.response_pending id (let l = v.pending_size in omega arith) in
      elim (Bool-cases b) [
        | inr free ↦
            let is_free : get_elem? set_.response_pending id ≡ some false = at ∙ ap some free in
            (
              given id (take_id set_ id),
              rw is_free,
              gave id (take_id set_ id) refl (take_id-Given set_ id v is_free h),
            )
        | inl taken ↦
            let is_taken : get_elem? set_.response_pending id ≡ some true = at ∙ ap some taken in
            elim (Bool-cases ((id + 1) % set_.set_size == set_.next_request_id)) [
              | inr more ↦
                  let (r, e, o) =
                    search-Outcome junk fuel set_ ((id + 1) % set_.set_size) v (omega arith)
                      (λ i j q.
                        elim (passed-next set_.next_request_id id set_.set_size i h v.next_lt j more
                          q) [
                            | inl before ↦ p i j before
                            | inr here ↦
                                subst (λ k. get_elem? set_.response_pending k ≡ some true) here
                                  is_taken
                          ])
                      (omega (arith, ahead-next set_ id v h more)) in
                  (r, rw (is_taken, more, e), o)
              | inl round ↦
                  let all : AllPending set_ = λ i j.
                    elim (came_round set_.next_request_id id set_.set_size i h v.next_lt j round) [
                      | inl before ↦ p i j before
                      | inr here ↦
                          subst (λ k. get_elem? set_.response_pending k ≡ some true) here is_taken
                    ] in
                  elim (Bool-cases (leb set_.max_request_id (set_.set_size + grow_size))) [
                    | inl full ↦
                        (all_in_use, rw (is_taken, round, full), refused refl all (ground arith))
                    | inr room ↦ (
                      given set_.set_size (take_id (grow junk set_) set_.set_size),
                      rw (
                        is_taken,
                        round,
                        room,
                        search-grown junk set_ fuel v
                            (let a = ahead-pos set_ id v h in omega arith),
                      ),
                      gave set_.set_size (take_id (grow junk set_) set_.set_size) refl
                          (grow-Given junk set_ v all (ground arith)),
                    )
                  ]
            ]
      ]

  -- The search for an id ends, on a set whose arrays have the recorded size. It gives an id that was not pending, which
  -- is pending afterwards with no response and no change to the others, and it grows the set only when each slot is
  -- pending, and not beyond its bound; or it refuses, when each slot is pending and the set, grown by its step, would
  -- reach the bound, though ids below the bound may be unused.
  pub get_request_id-Outcome :
      (junk : Option A) (set_ : ResponseSet A)
      → IsValid set_
      → (r : Requested A) × (get_request_id junk set_ ≡ some r) × Outcome set_ r
  unfolding get_request_id
  get_request_id-Outcome junk set_ v =
      search-Outcome junk (set_.set_size + 2) set_ set_.next_request_id v v.next_lt
        (λ i h q. absurd (ground arith)) (ground arith)
