-- ===== src/Message/Overrun.antt =====
-- Packing and unpacking where lib/message.c leaves its buffers: a `uint16_t` sum that wraps, and a
-- component count that the data does not bear out.
use svr.Base.{
  ℕ, zero, suc, ◌+◌, ◌%◌, ◌≤◌, ◌<◌, List, [], ◌∷◌, ◌++◌, none, some, Bytes, length, ◌≡◌, refl, ap,
  arith, drop, store, store_out, store_lem, ◌==◌, if◌then◌else◌, Option-cases, inl, inr,
  length-drop, drop-drop, Bool-cases,
}
use svr.Pack.{unpack, unpack_one, scan, Value}
use svr.Pack.Encoding.{Item, u16, encode}
use svr.Pack.RoundTrip.{pack-eq-store}
use svr.Message.{
  Message, PackedMessage, Header, prefix_len, header_format, header_of, total_length, pack_message,
  unpack_components, unpack_message,
}
use svr.Message.RoundTrip.{
  data_length, component_items, length-encode, total_length_lem, pack_components_all,
}

-- A message whose components take 65536 bytes or more, terminators counted, is written past the
-- end of the buffer that is reserved for it.
pub pack_message-overflow :
    (fresh : ℕ → Bytes) (m : Message)
    → ((n : ℕ) → length (fresh n) ≡ n)
    → m.count ≡ length m.components
    → 65536 ≤ data_length m.components
    → pack_message fresh m ≡ none
unfolding pack_message
pack_message-overflow fresh m h counted big = rw (total) (
    rw (pack-eq-store cut_header p 0, first)
      (rw (pack_components_all m.components m.count _ (0 + 8) counted, second)))
  where
    total : total_length m.components m.count 0 0 ≡ some (data_length m.components % 65536)
    total =
        rw (counted, total_length_lem m.components m.components 0 0 refl (omega arith))
          (ap some (omega arith))

    cut_header : List Item
    cut_header =
        u16 (data_length m.components % 65536)
        ∷ u16 m.request_id
        ∷ u16 m.count
        ∷ u16 m.payload_size
        ∷ []

    p : Bytes
    p = fresh (data_length m.components % 65536 + prefix_len)

    room : length p ≡ data_length m.components % 65536 + prefix_len
    room = h (data_length m.components % 65536 + prefix_len)

    first : store p 0 (encode cut_header) ≡ some (encode cut_header ++ drop (0 + 8) p)
    first = store_lem p 0 (encode cut_header) (omega arith)

    second :
        store (encode cut_header ++ drop (0 + 8) p) (0 + 8) (encode (component_items m.components))
        ≡ none
    second =
        store_out _ (0 + 8) (encode (component_items m.components))
          (omega (arith, length-encode m.components))
          (omega (arith, length-encode m.components, length-drop (0 + 8) p))

-- How many terminators are left.
abbrev pub terminators : Bytes → ℕ
terminators [] = 0
terminators (c ∷ p) = if c == 0 then suc (terminators p) else terminators p

scan-none : (p : Bytes) → terminators p ≡ 0 → scan p ≡ none
unfolding scan
scan-none [] e = refl
scan-none (c ∷ p) e = ground (arith, scan-none p)

scan-drop :
    (p : Bytes) (r : Bytes × ℕ) → scan p ≡ some r → terminators p ≡ suc (terminators (drop r.1 p))
unfolding scan
scan-drop [] r e = cc
scan-drop (c ∷ p) r e = elim (Bool-cases (c == 0)) [
  | inl end ↦ let one : r.1 ≡ 1 = ground (arith) in rw (end, one)
  | inr more ↦ elim (Option-cases (scan p)) [
    | inl out ↦ ground arith
    | inr (r', found) ↦
        let next : r.1 ≡ suc r'.1 = ground arith in rw (more, next) (scan-drop p r' found)
  ]
]

-- `SVR_PackedMessage_unpack` runs past the end of the data if the count in the header is greater
-- than the number of terminators that follow it.
unpack_components-overrun :
    (n : ℕ) (p : Bytes) (off : ℕ) → terminators (drop off p) < n → unpack_components n p off ≡ none
unfolding unpack_components unpack unpack_one
unpack_components-overrun zero p off h = absurd (omega arith)
unpack_components-overrun (suc n) p off h = elim (Option-cases (scan (drop off p))) [
  | inl e ↦ rw e
  | inr (r, e) ↦ rw (e) (
      rw (
        unpack_components-overrun n p (off + r.1) (
          let left = scan-drop (drop off p) r e in
          let next = ap terminators (drop-drop r.1 off p) in omega arith)))
]

-- `SVR_PackedMessage_unpack` reads past the end of the data whenever the header announces more
-- components than there are terminators after it.
pub unpack_message-overrun :
    (packed : PackedMessage) (header : Header) (vals : List Value)
    → unpack header_format packed.contents 0 ≡ some (vals, 8)
    → header_of vals ≡ some header
    → terminators (drop 8 packed.contents) < header.count
    → unpack_message packed ≡ none
unfolding unpack_message
unpack_message-overrun packed header vals e v h =
    rw (e, v, unpack_components-overrun header.count packed.contents 8 h)
