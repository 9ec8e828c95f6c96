-- ===== src/Encoder/Write.antt =====
-- The `memcpy`s of `SVR_Encoder_provideData` in each position of the indices.
use svr.Base.{
  ℕ, ◌+◌, ◌%◌, ◌≤◌, ◌<◌, ◌^◌, [], ◌∷◌, ◌++◌, Bytes, length, ◌≡◌, refl, sym, ap, ◌∙◌, arith,
  length-append, some, take, drop, length-take, length-drop, take-append-drop, append_assoc, store,
  store_at, store-nil, mod-eq_of_lt, dec_lt,
}
use svr.Encoder.{Encoder, u32}
use svr.Encoder.Holds.{Holds, unallocated, linear, wrapped}
use svr.Encoder.Copies.{Writes, write_in_lem, copy_once}
use svr.Encoder.Linear.{write-inside, write-to_end, write-round}

-- The bytes go into the gap.
write-gap :
    (e : Encoder) (hi gap lo bs : Bytes)
    → e.buffer ≡ hi ++ (gap ++ lo)
    → e.write_index ≡ length hi
    → e.read_index ≡ length hi + length gap
    → e.buffer_size ≡ length hi + length gap + length lo
    → 0 < length lo
    → e.buffer_size ≤ 2 ^ 32
    → length bs < length gap
    → Writes e (lo ++ hi) bs
write-gap e hi gap lo bs b w r s l m h = (
  record e { buffer = filled; write_index = length hi + length bs },
  write_in_lem e bs _ _ (copy_once e bs _ (omega arith) ∙ stored) next,
  wrapped (hi ++ bs) (drop n gap) lo (simp append_assoc) (omega (arith, length-append hi bs))
      (omega (arith, length-append hi bs, length-drop n gap))
      (omega (arith, length-append hi bs, length-drop n gap)) (append_assoc lo hi bs)
      (omega (arith, length-drop n gap)) l m,
  refl,
)
  where
    n : ℕ
    n = length bs

    filled : Bytes
    filled = hi ++ (bs ++ (drop n gap ++ lo))

    split : hi ++ (gap ++ lo) ≡ hi ++ (take n gap ++ (drop n gap ++ lo))
    split = ap (◌++◌ hi) (
        ap (λ (xs : Bytes). xs ++ lo) (sym (take-append-drop n gap))
        ∙ append_assoc (take n gap) (drop n gap) lo)

    stored : store e.buffer e.write_index bs ≡ some filled
    stored =
        rw (b, split)
          (store_at hi (take n gap) (drop n gap ++ lo) bs e.write_index w
            (omega (arith, length-take n gap)))

    next : u32 ((e.write_index + length bs) % e.buffer_size) ≡ length hi + length bs
    next =
        rw (mod-eq_of_lt {n = e.write_index + length bs} {m = e.buffer_size} (omega arith))
          (omega arith)

-- Where there is room, the bytes are appended.
pub write_in-Holds :
    (e : Encoder) (q bs : Bytes) → Holds e q → length q + length bs < e.buffer_size → Writes e q bs
write_in-Holds e q [] (unallocated b r w s h) room = (
  record e { write_index = 0 },
  write_in_lem e [] _ _ (copy_once e [] _ (omega arith) ∙ store-nil e.buffer e.write_index)
      (rw (w, s)),
  unallocated b r refl s (rw h),
  refl,
)
write_in-Holds e q (x ∷ bs) (unallocated b r w s h) room = absurd (omega arith)
write_in-Holds e q bs (linear pre post b r w s p m) room = elim (dec_lt (length bs) (length post)) [
  | yes inside ↦ write-inside e q pre post bs b r w s p m room inside
  | no beyond ↦ elim (dec_lt (length post) (length bs)) [
    | yes round ↦ write-round e q pre post bs b r w s p m room round
    | no short ↦ write-to_end e q pre post bs b r w s p m room (omega arith)
  ]
]
write_in-Holds e q bs (wrapped hi gap lo b w r s h g l m) room =
    rw h (write-gap e hi gap lo bs b w r s l m (omega (arith, ap length h, length-append lo hi)))
