-- ===== src/Pack/RoundTrip.antt =====
-- `SVR_pack` and `SVR_unpack` against the wire format of Pack.Encoding.
use svr.Base.{
  ℕ, suc, ◌+◌, ◌%◌, ◌≤◌, List, [], ◌∷◌, ◌++◌, Bytes, store, load, length, ◌≡◌, refl, sym, ap, ◌∙◌,
  arith, some, none, inl, inr, take, drop, length-append, append_assoc, drop-drop, Option-cases,
  store-append, store_lem, drop-store, load_lem, append-nil, ◌>>=◌, add-zero, add_assoc, store-nil,
  Option, map, drop-append_left,
}
use svr.Pack.{
  Arg, Value, num, string, text, pack, pack_one, pack_string, pack_b, pack_h, pack_i, pack_s,
  pack_d, unpack, unpack_one, scan, PackState, htons, htonl,
}
use svr.Pack.Encoding.{
  Item, u8, u16, u32, cstr, fixed, char_of, args_of_item, encode_item, format_of, args_of, encode,
  value_of, IsText, CanUnpackItem, CanUnpack,
}

one_more : (n : ℕ) → 1 + n ≡ suc n
one_more n = omega arith

pack_string-eq-store :
    (s p : Bytes) (off : ℕ)
    → pack_string s p off ≡ (do q ← store p off (s ++ 0 ∷ []); some (q, off + length (s ++ 0 ∷ [])))
unfolding pack_string
pack_string-eq-store [] p off = refl
pack_string-eq-store (c ∷ s) p off = elim (Option-cases (store p off (c ∷ []))) [
  | inl e ↦ rw (store-append p off (c ∷ []) (s ++ 0 ∷ []), e)
  | inr (q, e) ↦
      rw
        (
          store-append p off (c ∷ []) (s ++ 0 ∷ []),
          e,
          pack_string-eq-store s q (off + 1),
          add_assoc off 1,
        )
        (rw (one_more (length (s ++ 0 ∷ []))))
]

load_all : (bs : Bytes) → load bs 0 (length bs) ≡ some bs
load_all bs = load_lem bs 0 bs [] (sym (append-nil bs))

pair_bind :
    (m : Option Bytes) (rest : List Arg) (n : ℕ)
    → ◌>>=◌ {A = Bytes × ℕ} {B = PackState} (do q ← m; some (q, n)) (λ r. some (rest, r))
      ≡ (do q ← m; some (rest, (q, n)))
pair_bind none rest n = refl
pair_bind (some q) rest n = refl

-- One round of the loop stores the bytes of its item.
pack_one-item :
    (x : Item) (rest : List Arg) (p : Bytes) (off : ℕ)
    → pack_one (char_of x) (args_of_item x rest) p off
      ≡ (do q ← store p off (encode_item x); some (rest, (q, off + length (encode_item x))))
unfolding pack_one pack_b pack_h pack_i pack_s pack_d
pack_one-item (u8 n) rest p off = refl
pack_one-item (u16 n) rest p off = refl
pack_one-item (u32 n) rest p off = refl
pack_one-item (cstr s) rest p off = rw (pack_string-eq-store s p off) (pair_bind _ rest _)
pack_one-item (fixed bs) rest p off = rw (load_all bs)

-- `SVR_pack` is one store of the encoding of its arguments, for every buffer and offset: it
-- succeeds when that store does, and the new offset is past the last byte written.
pub pack-eq-store :
    (xs : List Item) (p : Bytes) (off : ℕ)
    → pack (format_of xs) (args_of xs) p off
      ≡ (do q ← store p off (encode xs); some (q, off + length (encode xs)))
unfolding pack
pack-eq-store [] p off = rw (store-nil, add-zero)
pack-eq-store (x ∷ xs) p off = elim (Option-cases (store p off (encode_item x))) [
  | inl e ↦
      rw (pack_one-item x (args_of xs) p off, store-append p off (encode_item x) (encode xs), e)
  | inr (q, e) ↦
      rw (pack_one-item x (args_of xs) p off, store-append p off (encode_item x) (encode xs), e)
        (rw (pack-eq-store xs q (off + length (encode_item x)), length-append, add_assoc off))
]

-- The other direction: what is found at the offset decides what is read.
scan-text : (s rest : Bytes) → IsText s → scan (s ++ 0 ∷ rest) ≡ some (s, length s + 1)
unfolding scan
scan-text [] rest h = refl
scan-text (c ∷ s) rest h = ground (arith, scan-text s rest h.1)

unpack_one-item :
    (x : Item) (p : Bytes) (off : ℕ) (rest : Bytes)
    → CanUnpackItem x
    → drop off p ≡ encode_item x ++ rest
    → unpack_one (char_of x) p off ≡ some (value_of x ∷ [], off + length (encode_item x))
unfolding unpack_one
unpack_one-item (u8 n) p off rest h e = rw (load_lem p off (n % 256 ∷ []) rest e)
unpack_one-item (u16 n) p off rest h e =
    rw (load_lem p off (htons n) rest e)
      (ap {B = Option (List Value × ℕ)} (λ (k : ℕ). some (num k ∷ [], off + 2)) (omega arith))
unpack_one-item (u32 n) p off rest h e =
    rw (load_lem p off (htonl n) rest e)
      (ap {B = Option (List Value × ℕ)} (λ (k : ℕ). some (num k ∷ [], off + 4)) (omega arith))
unpack_one-item (cstr s) p off rest h e =
    rw (e, append_assoc s (0 ∷ []) rest, scan-text s rest h, length-append s (0 ∷ []))
unpack_one-item (fixed bs) p off rest h e = absurd h

-- Where the encoding of some items stands in a buffer, `SVR_unpack` finds their values.
pub unpack-encode :
    (xs : List Item) (p : Bytes) (off : ℕ) (rest : Bytes)
    → CanUnpack xs
    → drop off p ≡ encode xs ++ rest
    → unpack (format_of xs) p off ≡ some (map value_of xs, off + length (encode xs))
unfolding unpack
unpack-encode [] p off rest h e = rw add-zero
unpack-encode (x ∷ xs) p off rest h e =
    rw (unpack_one-item x p off (encode xs ++ rest) h.0 (e ∙ append_assoc (encode_item x) _ _)) (
      rw (
        unpack-encode xs p (off + length (encode_item x)) rest h.1 next,
        length-append (encode_item x) (encode xs),
        add_assoc off,
      ))
  where
    next : drop (off + length (encode_item x)) p ≡ encode xs ++ rest
    next =
        sym (drop-drop (length (encode_item x)) off p)
        ∙ ap (drop (length (encode_item x))) (e ∙ append_assoc (encode_item x) _ _)
        ∙ drop-append_left _ (encode_item x) _ refl

-- Integers and C strings, so no block of the format character D, which only `SVR_pack` knows: what fits in the buffer
-- is packed at the offset with the bytes around it unchanged, and unpacking at that offset gives every value back, cut
-- to its width, and the same new offset.
pub unpack-pack :
    (xs : List Item) (p : Bytes) (off : ℕ)
    → CanUnpack xs
    → off + length (encode xs) ≤ length p
    → (q : Bytes) × (pack (format_of xs) (args_of xs) p off ≡ some (q, off + length (encode xs)))
      × (q ≡ take off p ++ (encode xs ++ drop (off + length (encode xs)) p))
      × (unpack (format_of xs) q off ≡ some (map value_of xs, off + length (encode xs)))
unpack-pack xs p off h fits = (
  take off p ++ (encode xs ++ drop (off + length (encode xs)) p),
  rw (pack-eq-store xs p off, store_lem p off (encode xs) fits),
  refl,
  unpack-encode xs _ off (drop (off + length (encode xs)) p) h
      (drop-store p off (encode xs) fits (store_lem p off (encode xs) fits)),
)

-- The calls with format "s".
pub pack-text :
    (s p : Bytes) (off : ℕ)
    → pack (b's' ∷ []) (string s ∷ []) p off
      ≡ (do q ← store p off (s ++ 0 ∷ []); some (q, off + (length s + 1)))
pack-text s p off =
    pack-eq-store (cstr s ∷ []) p off ∙ rw (append-nil (s ++ 0 ∷ []), length-append s (0 ∷ []))

pub unpack-text :
    (s p : Bytes) (off : ℕ) (rest : Bytes)
    → IsText s
    → drop off p ≡ (s ++ 0 ∷ []) ++ rest
    → unpack (b's' ∷ []) p off ≡ some (text s ∷ [], off + (length s + 1))
unpack-text s p off rest h e =
    unpack-encode (cstr s ∷ []) p off rest (h, tt) (rw (append-nil (s ++ 0 ∷ [])) e)
    ∙ rw (append-nil (s ++ 0 ∷ []), length-append s (0 ∷ []))
