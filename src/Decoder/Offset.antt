-- ===== src/Decoder/Offset.antt =====
-- lib/encoding.c: the offset of the two loops into the data, an `int`.
use svr.Base.{
  ℕ, ◌+◌, ◌^◌, ◌%◌, ◌<◌, ◌++◌, true, Bytes, ltb, take, drop, ◌≡◌, sym, ap, ◌∙◌, arith,
  take-append-drop, append_assoc, drop-drop, mod-eq_of_lt,
}
use svr.Decoder.{size_of_int}

-- An `int` that has not overflowed.
pub size_of_int_lem : (n : ℕ) → n < 2 ^ 31 → size_of_int n ≡ n
unfolding size_of_int
size_of_int_lem n h =
    let fits : n % 2 ^ 32 ≡ n = mod-eq_of_lt (omega arith) in
    let positive : ltb n (2 ^ 31) ≡ true = ground arith in rw (fits, positive)

-- What a round has taken and what is left.
pub received_rest :
    (before after : Bytes) (offset n : ℕ) (bs : Bytes)
    → after ≡ before ++ take n (drop offset bs)
    → after ++ drop (offset + n) bs ≡ before ++ drop offset bs
received_rest before after offset n bs e =
    ap (λ (xs : Bytes). xs ++ drop (offset + n) bs) e
    ∙ append_assoc before (take n (drop offset bs)) (drop (offset + n) bs)
    ∙ ap (λ (xs : Bytes). before ++ (take n (drop offset bs) ++ xs)) (sym (drop-drop n offset bs))
    ∙ ap (λ (xs : Bytes). before ++ xs) (take-append-drop n (drop offset bs))
