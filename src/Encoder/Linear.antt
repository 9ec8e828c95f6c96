-- ===== src/Encoder/Linear.antt =====
-- The `memcpy`s of `SVR_Encoder_provideData` where the unread bytes are in one piece.
use svr.Base.{
  ℕ, ◌+◌, ◌-◌, ◌%◌, ◌≤◌, ◌<◌, ◌^◌, [], ◌++◌, Bytes, length, ◌≡◌, refl, sym, ap, ◌∙◌, arith,
  length-append, some, take, drop, length-take, length-drop, take-append-drop, append_assoc,
  append-nil, store, store_at, mod-eq_of_lt, mod-eq-sub-mod,
}
use svr.Encoder.{Encoder, u32}
use svr.Encoder.Holds.{linear, wrapped}
use svr.Encoder.Copies.{Writes, write_in_lem, copy_once, copy_twice}

module _ (e : Encoder) (q pre post bs : Bytes) (b : e.buffer ≡ pre ++ (q ++ post))
    (r : e.read_index ≡ length pre) (w : e.write_index ≡ length pre + length q)
    (s : e.buffer_size ≡ length pre + length q + length post) (p : 0 < length post)
    (m : e.buffer_size ≤ 2 ^ 32) (room : length q + length bs < e.buffer_size) where
  grouped : pre ++ (q ++ post) ≡ (pre ++ q) ++ post
  grouped = sym (append_assoc pre q post)

  -- There is room before the end, and some is left.
  pub write-inside : length bs < length post → Writes e q bs
  write-inside h = (
    after,
    write_in_lem e bs _ _ (copy_once e bs _ (omega arith) ∙ stored) next,
    linear pre (drop (length bs) post) (simp append_assoc) r (omega (arith, length-append q bs))
        (omega (arith, length-append q bs, length-drop (length bs) post))
        (omega (arith, length-drop (length bs) post)) m,
    refl,
  )
    where
      filled : Bytes
      filled = (pre ++ q) ++ (bs ++ drop (length bs) post)

      after : Encoder
      after = record e { buffer = filled; write_index = length pre + length q + length bs }

      split : pre ++ (q ++ post) ≡ (pre ++ q) ++ (take (length bs) post ++ drop (length bs) post)
      split = grouped ∙ ap (◌++◌ (pre ++ q)) (sym (take-append-drop (length bs) post))

      stored : store e.buffer e.write_index bs ≡ some filled
      stored =
          rw (b, split)
            (store_at (pre ++ q) (take (length bs) post) (drop (length bs) post) bs e.write_index
              (omega (arith, length-append pre q)) (omega (arith, length-take (length bs) post)))

      next : u32 ((e.write_index + length bs) % e.buffer_size) ≡ length pre + length q + length bs
      next =
          rw (mod-eq_of_lt {n = e.write_index + length bs} {m = e.buffer_size} (omega arith))
            (omega arith)

  split_post : pre ++ (q ++ post) ≡ (pre ++ q) ++ (post ++ [])
  split_post = grouped ∙ ap (◌++◌ (pre ++ q)) (sym (append-nil post))

  -- The last bytes of the buffer are filled.
  pub write-to_end : length bs ≡ length post → Writes e q bs
  write-to_end h = (
    after,
    write_in_lem e bs _ _ (copy_once e bs _ (omega arith) ∙ stored) next,
    wrapped [] pre (q ++ bs) (simp (append_assoc, append-nil)) refl (omega arith)
        (omega (arith, length-append q bs)) (sym (append-nil (q ++ bs))) (omega arith)
        (omega (arith, length-append q bs)) m,
    refl,
  )
    where
      filled : Bytes
      filled = (pre ++ q) ++ (bs ++ [])

      after : Encoder
      after = record e { buffer = filled; write_index = 0 }

      stored : store e.buffer e.write_index bs ≡ some filled
      stored =
          rw (b, split_post)
            (store_at (pre ++ q) post [] bs e.write_index (omega (arith, length-append pre q))
              (sym h))

      next : u32 ((e.write_index + length bs) % e.buffer_size) ≡ 0
      next =
          rw
            (
              mod-eq-sub-mod {n = e.write_index + length bs} {m = e.buffer_size} (omega arith),
              mod-eq_of_lt {n = e.write_index + length bs - e.buffer_size} {m = e.buffer_size}
                  (omega arith),
            )
            (omega arith)

  -- The bytes go on at the start of the buffer.
  pub write-round : length post < length bs → Writes e q bs
  write-round h = (
    after,
    write_in_lem e bs _ _
        (copy_twice e bs half filled (e.buffer_size - e.write_index) (omega arith) (rw end_is first)
          (rw end_is second))
        next,
    wrapped (drop n bs) (drop k pre) (q ++ take n bs) refl refl
        (omega (arith, length-drop k pre, length-drop n bs))
        (omega (
          arith,
          length-append q (take n bs),
          length-take n bs,
          length-drop k pre,
          length-drop n bs,
        ))
        (ap (◌++◌ q) (sym (take-append-drop n bs)) ∙ sym (append_assoc q (take n bs) (drop n bs)))
        (omega (arith, length-drop k pre, length-drop n bs))
        (omega (arith, length-append q (take n bs), length-take n bs)) m,
    refl,
  )
    where
      n : ℕ
      n = length post

      k : ℕ
      k = length bs - length post

      end_is : e.buffer_size - e.write_index ≡ n
      end_is = omega arith

      half : Bytes
      half = (pre ++ q) ++ (take n bs ++ [])

      filled : Bytes
      filled = drop n bs ++ (drop k pre ++ (q ++ take n bs))

      after : Encoder
      after = record e { buffer = filled; write_index = length (drop n bs) }

      first : store e.buffer e.write_index (take n bs) ≡ some half
      first =
          rw (b, split_post)
            (store_at (pre ++ q) post [] (take n bs) e.write_index
              (omega (arith, length-append pre q)) (omega (arith, length-take n bs)))

      again : half ≡ take k pre ++ (drop k pre ++ (q ++ take n bs))
      again =
          ap (◌++◌ (pre ++ q)) (append-nil (take n bs))
          ∙ append_assoc pre q (take n bs)
          ∙ ap (λ (xs : Bytes). xs ++ (q ++ take n bs)) (sym (take-append-drop k pre))
          ∙ append_assoc (take k pre) (drop k pre) (q ++ take n bs)

      second : store half 0 (drop n bs) ≡ some filled
      second = rw again (
          store_at [] (take k pre) (drop k pre ++ (q ++ take n bs)) (drop n bs) 0 refl
            (omega (arith, length-take k pre, length-drop n bs)))

      next : u32 ((e.write_index + length bs) % e.buffer_size) ≡ length (drop n bs)
      next =
          rw
            (
              mod-eq-sub-mod {n = e.write_index + length bs} {m = e.buffer_size} (omega arith),
              mod-eq_of_lt {n = e.write_index + length bs - e.buffer_size} {m = e.buffer_size}
                  (omega arith),
            )
            (omega (arith, length-drop n bs))
