-- ===== src/Encoder/Provide.antt =====
-- `SVR_Encoder_provideData` as an operation on the queue of unread bytes.
use svr.Base.{
  ℕ, ◌+◌, ◌-◌, ◌≤◌, ◌<◌, ◌^◌, [], ◌++◌, Bytes, length, ◌≡◌, refl, ap, ◌∙◌, arith, length-append,
  some, take, drop, take_all, length-drop, append_assoc, store, store_lem, dec_le, ltb, leb, true,
  false,
}
use svr.Encoder.{Encoder, read_data, realloc, grow, provide_data, u32}
use svr.Encoder.Holds.{Holds, unallocated, linear, wrapped, data_ready-length, length-lt-size}
use svr.Encoder.Read.{read_data-Holds}
use svr.Encoder.Write.{write_in-Holds}

leb-true : {a b : ℕ} → a ≤ b → leb a b ≡ true
leb-true h = ground arith

leb-false : {a b : ℕ} → ¬ (a ≤ b) → leb a b ≡ false
leb-false h = ground arith

module _ (fresh : ℕ → Bytes) (length-fresh : (n : ℕ) → length (fresh n) ≡ n) where
  realloc_lem : (p : Bytes) (n : ℕ) → length p ≤ n → realloc fresh p n ≡ p ++ fresh (n - length p)
  unfolding realloc
  realloc_lem p n h = ground arith

  length-realloc : (p : Bytes) (n : ℕ) → length p ≤ n → length (realloc fresh p n) ≡ n
  length-realloc p n h = omega (
    arith,
    ap length (realloc_lem p n h),
    length-append p (fresh (n - length p)),
    length-fresh (n - length p),
  )

  -- A grown encoder holds the same bytes, and has room for `n` more.
  abbrev Grows : Encoder → Bytes → ℕ → Type 0
  Grows e q n =
      (e' : Encoder) × (grow fresh e (length q) n ≡ some e')
      × Holds e' q
      × (e'.buffer_size ≡ length q + n + 1)

  grow_in_place :
      (e : Encoder) (q : Bytes) (n : ℕ)
      → e.read_index ≤ e.write_index
      → grow fresh e (length q) n
        ≡ some (record e {
          buffer = realloc fresh e.buffer (length q + n + 1);
          buffer_size = length q + n + 1;
        })
  unfolding grow
  grow_in_place e q n h = ground arith

  grow_moved :
      (e : Encoder) (q : Bytes) (n : ℕ) (e1 : Encoder) {p : Bytes}
      → e.write_index < e.read_index
      → read_data e (length q) ≡ some (take (length q) q, e1)
      → store (realloc fresh e.buffer (length q + n + 1)) 0 q ≡ some p
      → grow fresh e (length q) n
        ≡ some (record {
          buffer = p;
          read_index = 0;
          write_index = u32 (length q);
          buffer_size = length q + n + 1;
        })
  unfolding grow
  grow_moved e q n e1 {p} h read stored =
      rw (test, read, take_all (length q) q (omega arith), stored)
    where
      test : ltb e.write_index e.read_index ≡ true
      test = ground arith

  grow-Holds :
      (e : Encoder) (q : Bytes) (n : ℕ)
      → Holds e q
      → e.buffer_size ≤ length q + n
      → length q + n + 1 ≤ 2 ^ 32
      → Grows e q n
  grow-Holds e q n (unallocated b r w s h) more fits = (
    _,
    grow_in_place e q n (omega arith),
    linear [] (realloc fresh e.buffer (length q + n + 1)) (rw h) r (omega (arith, ap length h))
        (omega (arith, size, ap length h)) (omega (arith, size)) fits,
    refl,
  )
    where
      size : length (realloc fresh e.buffer (length q + n + 1)) ≡ length q + n + 1
      size = length-realloc e.buffer (length q + n + 1) (omega (arith, ap length b))
  grow-Holds e q n (linear pre post b r w s p m) more fits = (
    _,
    grow_in_place e q n (omega arith),
    linear pre (post ++ fresh (length q + n + 1 - length e.buffer))
        (realloc_lem e.buffer (length q + n + 1) (omega (arith, size)) ∙ rw b (simp append_assoc)) r
        w
        (omega (
          arith,
          size,
          length-append post (fresh (length q + n + 1 - length e.buffer)),
          length-fresh (length q + n + 1 - length e.buffer),
        ))
        (omega (arith, length-append post (fresh (length q + n + 1 - length e.buffer)))) fits,
    refl,
  )
    where
      size : length e.buffer ≡ e.buffer_size
      size = omega (arith, ap length b, length-append pre (q ++ post), length-append q post)
  grow-Holds e q n (wrapped hi gap lo b w r s h g l m) more fits =
      let (e1, read, _, _) = read_data-Holds e q (length q) (wrapped hi gap lo b w r s h g l m) in
      (
        _,
        grow_moved e q n e1 (omega arith) read stored,
        linear [] (drop (0 + length q) roomy) refl refl (omega arith)
            (omega (arith, length-drop (0 + length q) roomy, grown))
            (omega (arith, length-drop (0 + length q) roomy, grown)) fits,
        refl,
      )
    where
      size : length e.buffer ≡ e.buffer_size
      size = omega (arith, ap length b, length-append hi (gap ++ lo), length-append gap lo)

      roomy : Bytes
      roomy = realloc fresh e.buffer (length q + n + 1)

      grown : length roomy ≡ length q + n + 1
      grown = length-realloc e.buffer (length q + n + 1) (omega (arith, size))

      stored : store roomy 0 q ≡ some (q ++ drop (0 + length q) roomy)
      stored = store_lem roomy 0 q (omega (arith, grown))

  -- An encoder that holds a queue of bytes holds that queue with the new bytes behind it after
  -- `SVR_Encoder_provideData`, which always succeeds while all of it fits an `unsigned int`.
  pub provide_data-Holds :
      (e : Encoder) (q bs : Bytes)
      → Holds e q
      → length q + length bs + 1 ≤ 2 ^ 32
      → (e' : Encoder) × (provide_data fresh e bs ≡ some e') × Holds e' (q ++ bs)
  unfolding provide_data
  provide_data-Holds e q bs h fits = elim (dec_le (e.buffer_size - length q) (length bs)) [
    | yes full ↦
        let (e1, grown, h1, s1) = grow-Holds e q (length bs) h (omega arith) fits in
        let (e2, written, h2, _) = write_in-Holds e1 q bs h1 (omega arith) in
        (e2, rw (data_ready-length e q h) (rw (leb-true full) (rw (grown, written))), h2)
    | no space ↦
        let (e2, written, h2, _) = write_in-Holds e q bs h (omega (arith, length-lt-size e q h)) in
        (e2, rw (data_ready-length e q h) (rw (leb-false space) (rw written)), h2)
  ]
