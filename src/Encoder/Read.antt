-- ===== src/Encoder/Read.antt =====
-- `SVR_Encoder_readData` as an operation on the queue of unread bytes.
use svr.Base.{
  ℕ, ◌+◌, ◌-◌, ◌%◌, ◌≤◌, ◌<◌, ◌^◌, [], ◌++◌, Bytes, length, ◌≡◌, refl, sym, ap, ◌∙◌, arith,
  length-append, some, take, drop, min, length-take, length-drop, take-append-drop, append_assoc,
  append-nil, load, load_at, load_zero, take_cut, drop_cut, take-nil, drop-nil, dec_lt,
  take-append_le, drop-append_le, take-append_ge, drop-append_ge, mod-eq-sub-mod, subst,
  mod-eq_of_lt,
}
use svr.Encoder.{Encoder, data_ready, read_data, u32}
use svr.Encoder.Holds.{Holds, unallocated, linear, wrapped, data_ready-length}

-- What a read of `n` bytes returns, and how it leaves the encoder.
abbrev pub Reads : Encoder → Bytes → ℕ → Type 0
Reads e q n =
    (e' : Encoder) × (read_data e n ≡ some (take n q, e'))
    × Holds e' (drop n q)
    × (e'.buffer_size ≡ e.buffer_size)

read_data_lem :
    (e : Encoder) (n j f : ℕ) {front back : Bytes}
    → min (data_ready e) n ≡ j
    → min j (e.buffer_size - e.read_index) ≡ f
    → load e.buffer e.read_index f ≡ some front
    → load e.buffer 0 (j - f) ≡ some back
    → read_data e n
      ≡ some (front ++ back, record e { read_index = u32 ((e.read_index + j) % e.buffer_size) })
unfolding read_data
read_data_lem e n j f p q r s = rw (p, q, r, s)

load-none : (p : Bytes) (off n : ℕ) → n ≡ 0 → load p off n ≡ some []
load-none p off n e = rw (e, load_zero p off)

read-linear :
    (e : Encoder) (q pre post : Bytes) (n : ℕ)
    → e.buffer ≡ pre ++ (q ++ post)
    → e.read_index ≡ length pre
    → e.write_index ≡ length pre + length q
    → e.buffer_size ≡ length pre + length q + length post
    → 0 < length post
    → e.buffer_size ≤ 2 ^ 32
    → data_ready e ≡ length q
    → Reads e q n
read-linear e q pre post n b r w s p small ready = (
  after,
  read_data_lem e n j j (omega arith) (omega arith) front
        (load-none e.buffer 0 (j - j) (omega arith))
      ∙ rw (append-nil (take j q), take_cut n j q (omega arith), next),
  linear (pre ++ take j q) post
      (b
        ∙ rw (append_assoc pre (take j q) (drop n q ++ post))
            (ap (◌++◌ pre) (parts ∙ append_assoc (take j q) (drop n q) post)))
      (omega (arith, length-append pre (take j q), length-take j q))
      (omega (arith, length-append pre (take j q), length-take j q, length-drop n q))
      (omega (arith, length-append pre (take j q), length-take j q, length-drop n q)) p small,
  refl,
)
  where
    j : ℕ
    j = min (length q) n

    after : Encoder
    after = record e { read_index = length pre + j }

    parts : q ++ post ≡ (take j q ++ drop n q) ++ post
    parts =
        ap (λ (xs : Bytes). xs ++ post)
          (sym (take-append-drop j q) ∙ ap (◌++◌ (take j q)) (drop_cut n j q (omega arith)))

    front : load e.buffer e.read_index j ≡ some (take j q)
    front =
        rw (b, parts, append_assoc (take j q) (drop n q) post)
          (load_at pre (take j q) (drop n q ++ post) e.read_index j r
            (omega (arith, length-take j q)))

    next : u32 ((e.read_index + j) % e.buffer_size) ≡ length pre + j
    next = rw (mod-eq_of_lt {n = e.read_index + j} {m = e.buffer_size} (omega arith)) (omega arith)

module _ (e : Encoder) (hi gap lo : Bytes) (n : ℕ) (b : e.buffer ≡ hi ++ (gap ++ lo))
    (w : e.write_index ≡ length hi) (r : e.read_index ≡ length hi + length gap)
    (s : e.buffer_size ≡ length hi + length gap + length lo) (g : 0 < length gap)
    (l : 0 < length lo) (m : e.buffer_size ≤ 2 ^ 32)
    (ready : data_ready e ≡ length lo + length hi) where
  -- The read ends before the end of the buffer.
  read-before_end : n < length lo → Reads e (lo ++ hi) n
  read-before_end h = (
    after,
    read_data_lem e n n n (omega arith) (omega arith) front
          (load-none e.buffer 0 (n - n) (omega arith))
        ∙ rw (append-nil (take n lo), take-append_le n lo hi (omega arith), next),
    wrapped hi (gap ++ take n lo) (drop n lo)
        (b
          ∙ ap (◌++◌ hi) (
              ap (◌++◌ gap) (sym (take-append-drop n lo))
              ∙ sym (append_assoc gap (take n lo) (drop n lo))))
        w (omega (arith, length-append gap (take n lo), length-take n lo))
        (omega (arith, length-append gap (take n lo), length-take n lo, length-drop n lo))
        (drop-append_le n lo hi (omega arith)) (omega (arith, length-append gap (take n lo)))
        (omega (arith, length-drop n lo)) m,
    refl,
  )
    where
      after : Encoder
      after = record e { read_index = length hi + length gap + n }

      parts : hi ++ (gap ++ lo) ≡ (hi ++ gap) ++ (take n lo ++ drop n lo)
      parts = sym (append_assoc hi gap lo) ∙ ap (◌++◌ (hi ++ gap)) (sym (take-append-drop n lo))

      front : load e.buffer e.read_index n ≡ some (take n lo)
      front =
          rw (b, parts)
            (load_at (hi ++ gap) (take n lo) (drop n lo) e.read_index n
              (omega (arith, length-append hi gap)) (omega (arith, length-take n lo)))

      next : u32 ((e.read_index + n) % e.buffer_size) ≡ length hi + length gap + n
      next =
          rw (mod-eq_of_lt {n = e.read_index + n} {m = e.buffer_size} (omega arith)) (omega arith)

  -- The read reaches the end, and goes on at the start.
  read-past_end : length lo ≤ n → Reads e (lo ++ hi) n
  read-past_end h = (
    after,
    read_data_lem e n (length lo + k) (length lo) (omega arith) (omega arith) front back
        ∙ rw (
          ← take-append_ge (length lo + k) k lo hi refl,
          take_cut n (length lo + k) (lo ++ hi) (omega (arith, length-append lo hi)),
          next,
        ),
    subst (Holds after)
        (sym (drop-append_ge (length lo + k) k lo hi refl)
          ∙ drop_cut n (length lo + k) (lo ++ hi) (omega (arith, length-append lo hi)))
        (linear (take k hi) (gap ++ lo) (b ∙ split_hi) (omega (arith, length-take k hi))
          (omega (arith, length-take k hi, length-drop k hi))
          (omega (arith, length-take k hi, length-drop k hi, length-append gap lo))
          (omega (arith, length-append gap lo)) m),
    refl,
  )
    where
      k : ℕ
      k = min (length hi) (n - length lo)

      after : Encoder
      after = record e { read_index = k }

      parts : hi ++ (gap ++ lo) ≡ (hi ++ gap) ++ (lo ++ [])
      parts = sym (append_assoc hi gap lo) ∙ ap (◌++◌ (hi ++ gap)) (sym (append-nil lo))

      front : load e.buffer e.read_index (length lo) ≡ some lo
      front =
          rw (b, parts)
            (load_at (hi ++ gap) lo [] e.read_index (length lo)
              (omega (arith, length-append hi gap)) refl)

      split_hi : hi ++ (gap ++ lo) ≡ take k hi ++ (drop k hi ++ (gap ++ lo))
      split_hi =
          ap (λ (xs : Bytes). xs ++ (gap ++ lo)) (sym (take-append-drop k hi))
          ∙ append_assoc (take k hi) (drop k hi) (gap ++ lo)

      back : load e.buffer 0 (length lo + k - length lo) ≡ some (take k hi)
      back =
          rw (b, split_hi)
            (load_at [] (take k hi) (drop k hi ++ (gap ++ lo)) 0 (length lo + k - length lo) refl
              (omega (arith, length-take k hi)))

      next : u32 ((e.read_index + (length lo + k)) % e.buffer_size) ≡ k
      next =
          rw
            (
              mod-eq-sub-mod {n = e.read_index + (length lo + k)} {m = e.buffer_size} (omega arith),
              mod-eq_of_lt {n = e.read_index + (length lo + k) - e.buffer_size} {m = e.buffer_size}
                  (omega arith),
            )
            (omega arith)

-- An encoder that holds a queue of bytes reads the first of them, as many as are asked for and are
-- there, and holds the rest afterwards.
pub read_data-Holds : (e : Encoder) (q : Bytes) (n : ℕ) → Holds e q → Reads e q n
read_data-Holds e q n (unallocated b r w s h) =
    rw h (e, empty ∙ rw (take-nil n, ← r), rw (drop-nil n) (unallocated b r w s refl), refl)
  where
    ready : data_ready e ≡ 0
    ready = data_ready-length e q (unallocated b r w s h) ∙ rw h

    empty : read_data e n ≡ some ([], record e { read_index = 0 })
    empty =
        read_data_lem e n 0 0 (omega (arith, ready)) (omega arith) (load_zero e.buffer e.read_index)
          (load_zero e.buffer 0)
        ∙ rw (r, s)
read_data-Holds e q n (linear pre post b r w s p m) =
    read-linear e q pre post n b r w s p m (data_ready-length e q (linear pre post b r w s p m))
read_data-Holds e q n (wrapped hi gap lo b w r s h g l m) = rw h (elim (dec_lt n (length lo)) [
  | yes before ↦ read-before_end e hi gap lo n b w r s g l m ready before
  | no past ↦ read-past_end e hi gap lo n b w r s g l m ready (omega arith)
])
  where
    ready : data_ready e ≡ length lo + length hi
    ready = data_ready-length e q (wrapped hi gap lo b w r s h g l m) ∙ rw h (length-append lo hi)
