-- ===== src/Message/RoundTrip.antt =====
-- Packing and unpacking a message that the format can hold (lib/message.c).
use svr.Base.{
  ℕ, ◌+◌, ◌%◌, ◌<◌, List, [], ◌∷◌, ◌++◌, some, Bytes, length, ◌>>=◌, get_elem?, ◌≡◌, refl, sym, ap,
  ◌∙◌, arith, map, drop, get_elem?-drop, store, store_lem, store_rest, store-append, store-nil,
  length-append, append_assoc, append-nil, add-zero, add_assoc, drop-append_left, drop-drop, inl,
  inr, Option-cases, mod-eq_of_lt,
}
use svr.Pack.Encoding.{Item, u16, cstr, IsText, encode}
use svr.Pack.RoundTrip.{pack-eq-store, unpack-encode, pack-text, unpack-text}
use svr.Message.{
  Message, PackedMessage, prefix_len, total_length, pack_components, pack_message,
  unpack_components, unpack_message,
}

-- The bytes that the components take: each with its terminator.
abbrev pub data_length : List Bytes → ℕ
data_length [] = 0
data_length (s ∷ cs) = length s + 1 + data_length cs

abbrev pub header_items : Message → List Item
header_items m =
    u16 (data_length m.components) ∷ u16 m.request_id ∷ u16 m.count ∷ u16 m.payload_size ∷ []

abbrev pub component_items : List Bytes → List Item
component_items = map cstr

abbrev pub AllText : List Bytes → Type 0
AllText [] = Unit {0}
AllText (s ∷ cs) = IsText s × AllText cs

-- What the header can hold.
pub record Fits (m : Message) : Type 0 where
  pub counted : m.count ≡ length m.components
  pub small_count : m.count < 65536
  pub small_id : m.request_id < 65536
  pub small_payload : m.payload_size < 65536
  pub small_data : data_length m.components < 65536

pub length-encode : (cs : List Bytes) → length (encode (component_items cs)) ≡ data_length cs
length-encode [] = refl
length-encode (s ∷ cs) = omega (
  arith,
  length-append (s ++ 0 ∷ []) (encode (component_items cs)),
  length-append s (0 ∷ []),
  length-encode cs,
)

pub total_length_lem :
    (cs rest : List Bytes) (i acc : ℕ)
    → drop i cs ≡ rest
    → acc < 65536
    → total_length cs (length rest) i acc ≡ some ((acc + data_length rest) % 65536)
unfolding total_length
total_length_lem cs [] i acc e h = ap some (omega arith)
total_length_lem cs (s ∷ rest) i acc e h =
    let at = get_elem?-drop cs i e in
    rw (at.0, total_length_lem cs rest (i + 1) ((acc + (length s + 1)) % 65536) at.1 (omega arith))
      (ap some (omega arith))

pub pack_components_lem :
    (cs rest : List Bytes) (i : ℕ) (p : Bytes) (off : ℕ)
    → drop i cs ≡ rest
    → pack_components cs (length rest) i p off
      ≡ (do q ← store p off (encode (component_items rest)); some (q, off + data_length rest))
unfolding pack_components
pack_components_lem cs [] i p off e = rw (store-nil, add-zero)
pack_components_lem cs (s ∷ rest) i p off e = elim (Option-cases (store p off (s ++ 0 ∷ []))) [
  | inl out ↦ rw (
    at.0,
    pack-text s p off,
    store-append p off (s ++ 0 ∷ []) (encode (component_items rest)),
    out,
  )
  | inr (q, stored) ↦
      rw
        (
          at.0,
          pack-text s p off,
          store-append p off (s ++ 0 ∷ []) (encode (component_items rest)),
          stored,
        )
        (rw (
          pack_components_lem cs rest (i + 1) q (off + (length s + 1)) at.1,
          length-append s (0 ∷ []),
          add_assoc off,
        ))
]
  where
    at : (get_elem? cs i ≡ some s) × (drop (i + 1) cs ≡ rest)
    at = get_elem?-drop cs i e

unpack_components_lem :
    (cs : List Bytes) (p : Bytes) (off : ℕ) (rest : Bytes)
    → AllText cs
    → drop off p ≡ encode (component_items cs) ++ rest
    → unpack_components (length cs) p off ≡ some cs
unfolding unpack_components
unpack_components_lem [] p off rest t e = refl
unpack_components_lem (s ∷ cs) p off rest t e =
    rw (unpack-text s p off tail t.0 split)
      (rw (unpack_components_lem cs p (off + (length s + 1)) rest t.1 next))
  where
    tail : Bytes
    tail = encode (component_items cs) ++ rest

    split : drop off p ≡ (s ++ 0 ∷ []) ++ tail
    split = e ∙ append_assoc (s ++ 0 ∷ []) _ rest

    next : drop (off + (length s + 1)) p ≡ encode (component_items cs) ++ rest
    next =
        sym (drop-drop (length s + 1) off p)
        ∙ ap (drop (length s + 1)) split
        ∙ drop-append_left _ (s ++ 0 ∷ []) tail (sym (length-append s (0 ∷ [])))

-- What the format says a packed message is.
abbrev pub wire : Message → Bytes
wire m = encode (header_items m) ++ encode (component_items m.components)

pub length-wire : (m : Message) → length (wire m) ≡ data_length m.components + prefix_len
length-wire m = omega (arith, length-encode m.components)

total_length_all :
    (cs : List Bytes) (n : ℕ)
    → n ≡ length cs
    → data_length cs < 65536
    → total_length cs n 0 0 ≡ some (data_length cs)
total_length_all cs n e h =
    rw (e, total_length_lem cs cs 0 0 refl (omega arith)) (ap some (omega arith))

pub pack_components_all :
    (cs : List Bytes) (n : ℕ) (p : Bytes) (off : ℕ)
    → n ≡ length cs
    → pack_components cs n 0 p off
      ≡ (do q ← store p off (encode (component_items cs)); some (q, off + data_length cs))
pack_components_all cs n p off e = rw e (pack_components_lem cs cs 0 p off refl)

unpack_components_all :
    (cs : List Bytes) (n : ℕ) (p : Bytes) (off : ℕ) (rest : Bytes)
    → n ≡ length cs
    → AllText cs
    → drop off p ≡ encode (component_items cs) ++ rest
    → unpack_components n p off ≡ some cs
unpack_components_all cs n p off rest e t h = rw e (unpack_components_lem cs p off rest t h)

module _ (fresh : ℕ → Bytes) (length-fresh : (n : ℕ) → length (fresh n) ≡ n) where
  -- `SVR_Message_pack` fills its buffer exactly, with the bytes that the format says.
  pub pack_message_lem :
      (m : Message)
      → Fits m
      → pack_message fresh m
        ≡ some (record {
          len = data_length m.components + prefix_len;
          contents = wire m;
          payload_size = m.payload_size;
          payload = m.payload;
        })
  unfolding pack_message
  pack_message_lem m f = rw (total_length_all m.components m.count f.counted f.small_data) (
      rw (pack-eq-store (header_items m) p 0, first)
        (rw (pack_components_all m.components m.count _ (0 + 8) f.counted, second)))
    where
      p : Bytes
      p = fresh (data_length m.components + prefix_len)

      body : Bytes
      body = encode (component_items m.components)

      first : store p 0 (encode (header_items m)) ≡ some (encode (header_items m) ++ drop (0 + 8) p)
      first =
          store_lem p 0 (encode (header_items m))
            (omega (arith, length-fresh (data_length m.components + prefix_len)))

      second : store (encode (header_items m) ++ drop (0 + 8) p) (0 + 8) body ≡ some (wire m)
      second =
          store_rest p (encode (header_items m)) body (0 + 8) first
            (omega (
              arith,
              length-fresh (data_length m.components + prefix_len),
              length-encode m.components,
            ))
            refl

-- Unpacking what the format says gives the message back.
pub unpack_wire :
    (m : Message) (packed : PackedMessage)
    → Fits m
    → AllText m.components
    → packed.contents ≡ wire m
    → unpack_message packed ≡ some (record m { payload = [] })
unfolding unpack_message
unpack_wire m packed f t e =
    rw (e, unpack-encode (header_items m) (wire m) 0 body (tt, (tt, (tt, (tt, tt)))) refl)
      (rw (mod-eq_of_lt f.small_id, mod-eq_of_lt f.small_count, mod-eq_of_lt f.small_payload)
        (rw (
          unpack_components_all m.components m.count (wire m) (0 + 8) [] f.counted t
            (sym (append-nil body)))))
  where
    body : Bytes
    body = encode (component_items m.components)

-- A message whose fields fit the header and whose components are C strings that take fewer than 65536 bytes with their
-- terminators is packed into a buffer of the announced length, which holds the header, with the length of the
-- components alone, and then the components; and unpacking that buffer gives the message back without its payload,
-- which travels apart from it.
pub unpack-pack_message :
    (fresh : ℕ → Bytes) (m : Message)
    → ((n : ℕ) → length (fresh n) ≡ n)
    → Fits m
    → AllText m.components
    → (packed : PackedMessage) × (pack_message fresh m ≡ some packed)
      × (packed.contents ≡ wire m)
      × (packed.len ≡ length packed.contents)
      × (packed.payload ≡ m.payload)
      × (unpack_message packed ≡ some (record m { payload = [] }))
unpack-pack_message fresh m h f t = (
  record {
    len = data_length m.components + prefix_len;
    contents = wire m;
    payload_size = m.payload_size;
    payload = m.payload;
  },
  pack_message_lem fresh h m f,
  refl,
  sym (length-wire m),
  refl,
  unpack_wire m _ f t refl,
)
