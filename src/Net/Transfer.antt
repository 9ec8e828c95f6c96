-- ===== src/Net/Transfer.antt =====
-- Both ends of a connection: lib/net.c over lib/message.c.
use svr.Base.{
  ℕ, ◌+◌, ◌≤◌, ◌<◌, List, [], ◌∷◌, ◌++◌, some, Bytes, length, ◌≡◌, refl, sym, arith, append_assoc,
  true, false, ◌==◌, ==_iff, if◌then◌else◌, Bool-cases, inl, inr, take_all, drop, drop-append_left,
}
use svr.Pack.{ntohs, htons}
use svr.Message.{Message, PackedMessage, prefix_len, new_packed}
use svr.Message.RoundTrip.{
  Fits, AllText, data_length, wire, length-wire, pack_message_lem, unpack_wire,
}
use svr.Net.{Answer, moved, returned, receive_message, receive_payload, send_message}
use svr.Net.Send.{Progress, send_packed-returns}
use svr.Net.Receive.{recv_at_once, recv_done}

-- The first two bytes announce the length of the rest.
ntohs-htons : (n : ℕ) → n < 65536 → ntohs (htons n) ≡ n
ntohs-htons n h = omega arith

module _ (fresh : ℕ → Bytes) (m : Message) (f : Fits m) (t : AllText m.components) where
  -- The bytes of a message, followed by anything: `SVR_Net_receiveMessage` returns the message and
  -- leaves what follows, if the kernel answers each of its two calls at once.
  pub receive_message-wire :
      (a b : ℕ) (answers : List Answer) (rest : Bytes)
      → 2 ≤ a
      → data_length m.components + prefix_len ≤ b
      → receive_message fresh (moved a ∷ moved b ∷ answers) (wire m ++ rest)
        ≡ (returned (some (record m { payload = [] })) answers, rest)
  unfolding receive_message
  receive_message-wire a b answers rest ha hb =
      rw
        (recv_at_once true a (moved b ∷ answers) 2 (htons (data_length m.components)) after refl
          (omega arith) ha)
        (rw (
          ntohs-htons (data_length m.components) f.small_data,
          recv_at_once false b answers (data_length m.components + prefix_len) (wire m) rest
              (sym (length-wire m)) (omega arith) hb,
          unpack_wire m packed f t refl,
          drop-append_left _ (wire m) rest (sym (length-wire m)),
        ))
    where
      after : Bytes
      after = drop 2 (wire m) ++ rest

      packed : PackedMessage
      packed = record (new_packed fresh (data_length m.components + prefix_len)) {
        contents = wire m;
      }

  -- The payload behind a message. Without a payload the kernel is not asked.
  receive_payload-wire :
      (c : ℕ) (answers : List Answer) (rest : Bytes)
      → length m.payload ≡ m.payload_size
      → m.payload_size ≤ c
      → receive_payload (moved c ∷ answers) (record m { payload = [] }) (m.payload ++ rest)
        ≡ (returned m.payload (if m.payload_size == 0 then moved c ∷ answers else answers), rest)
  unfolding receive_payload
  receive_payload-wire c answers rest sized hc = elim (Bool-cases (m.payload_size == 0)) [
    | inl none_ ↦
        let zero_size : m.payload_size ≡ 0 = (==_iff m.payload_size 0).0 none_ in
        let empty : m.payload ≡ [] = sym (take_all 0 m.payload (omega arith)) in
        rw (empty, zero_size) (recv_done false (moved c ∷ answers) 0 0 rest (omega arith))
    | inr some_ ↦ rw (
      recv_at_once false c answers m.payload_size m.payload rest (sym sized) (ground arith) hc,
      drop-append_left m.payload_size m.payload rest (sym sized),
      some_,
    )
  ]

  -- What one end sends the other end receives: for a message, with a payload or without, whose fields fit the
  -- header, whose components are C strings that take fewer than 65536 bytes with their terminators, and whose payload
  -- has the announced size; with buffers of the requested lengths; if the sender's kernel makes progress on each call
  -- and is asked often enough, and the receiver's answers each call at once. Then `SVR_Net_sendMessage` succeeds, and
  -- from what it puts on the wire `SVR_Net_receiveMessage` makes the message and `SVR_Net_receivePayload` the
  -- payload, and whatever follows on the wire is left for the next message.
  pub receive-send :
      ((n : ℕ) → length (fresh n) ≡ n)
      → (sends : List Answer) (a b c : ℕ) (answers : List Answer) (rest : Bytes)
      → length m.payload ≡ m.payload_size
      → Progress sends
      → data_length m.components + prefix_len + m.payload_size ≤ length sends
      → 2 ≤ a
      → data_length m.components + prefix_len ≤ b
      → m.payload_size ≤ c
      → (left : List Answer) × (out : Bytes) × (send_message fresh sends m
          ≡ some (returned (data_length m.components + prefix_len + m.payload_size) left, out))
        × (receive_message fresh (moved a ∷ moved b ∷ moved c ∷ answers) (out ++ rest)
            ≡ (returned (some (record m { payload = [] })) (moved c ∷ answers), m.payload ++ rest))
        × (receive_payload (moved c ∷ answers) (record m { payload = [] }) (m.payload ++ rest) ≡ (
          returned m.payload (if m.payload_size == 0 then moved c ∷ answers else answers),
          rest,
        ))
  unfolding send_message
  receive-send h sends a b c answers rest sized p enough ha hb hc =
      let (left, sent) =
        send_packed-returns sends packed
          (record { has_contents = length-wire m; has_payload = sized }) p enough in
      (
        left,
        wire m ++ m.payload,
        rw (pack_message_lem fresh h m f, sent),
        rw (append_assoc (wire m) m.payload rest)
            (receive_message-wire a b (moved c ∷ answers) (m.payload ++ rest) ha hb),
        receive_payload-wire c answers rest sized hc,
      )
    where
      packed : PackedMessage
      packed = record {
        len = data_length m.components + prefix_len;
        contents = wire m;
        payload_size = m.payload_size;
        payload = m.payload;
      }
