-- ===== src/Tests/Wire.antt =====
-- Packing, messages and connections at concrete inputs.
use svr.Base.{
  false, true, ℕ, ◌+◌, ◌≤◌, List, [], ◌∷◌, ◌++◌, none, some, Bytes, length, take, drop, replicate,
  length-replicate, ◌≡◌, refl, map, arith, load,
}
use svr.Pack.{pack, unpack, unpack_one, num}
use svr.Pack.Encoding.{Item, u8, u16, cstr, encode, format_of, args_of, value_of}
use svr.Pack.RoundTrip.{unpack-pack}
use svr.Message.{Message, PackedMessage, pack_message, unpack_message, header_format}
use svr.Message.RoundTrip.{unpack-pack_message, Fits, AllText, wire, data_length}
use svr.Message.Overrun.{pack_message-overflow, unpack_message-overrun}
use svr.Net.{
  Answer, moved, failed, returned, send_packed, recv_all, send_message, receive_message,
  receive_payload,
}
use svr.Net.Send.{send_packed-Sent, send_packed-returns, Sent, IsPacked}
use svr.Net.Receive.{recv_all-Received, Received, peek-in_parts}
use svr.Net.Transfer.{receive-send}

-- A zeroed arena.
abbrev zeros : ℕ → Bytes
zeros n = replicate n 0

length-zeros : (n : ℕ) → length (zeros n) ≡ n
length-zeros n = length-replicate n 0

abbrev items : List Item
items = u8 300 ∷ cstr (b'h' ∷ b'i' ∷ []) ∷ u16 258 ∷ []

abbrev open_request : Message
open_request = record {
  request_id = 7;
  payload = 1 ∷ 2 ∷ [];
  payload_size = 2;
  components = (b'a' ∷ []) ∷ (b'b' ∷ b'c' ∷ []) ∷ [];
  count = 2;
}

open_request-Fits : Fits open_request
open_request-Fits = record {
  counted = refl;
  small_count = omega arith;
  small_id = omega arith;
  small_payload = omega arith;
  small_data = omega arith;
}

open_request-AllText : AllText open_request.components
open_request-AllText = (
  ((λ e. absurd (omega arith)), tt),
  (((λ e. absurd (omega arith)), ((λ e. absurd (omega arith)), tt)), tt),
)

unpack-pack_example :
    (q : Bytes) × (pack (format_of items) (args_of items) (zeros 8) 1
      ≡ some (q, 1 + length (encode items)))
    × (q ≡ take 1 (zeros 8) ++ (encode items ++ drop (1 + length (encode items)) (zeros 8)))
    × (unpack (format_of items) q 1 ≡ some (map value_of items, 1 + length (encode items)))
unpack-pack_example =
    unpack-pack items (zeros 8) 1
      (tt, (((λ e. absurd (omega arith)), ((λ e. absurd (omega arith)), tt)), (tt, tt)))
      (omega arith)

unpack-pack_message_example :
    (packed : PackedMessage) × (pack_message zeros open_request ≡ some packed)
    × (packed.contents ≡ wire open_request)
    × (packed.len ≡ length packed.contents)
    × (packed.payload ≡ open_request.payload)
    × (unpack_message packed ≡ some (record open_request { payload = [] }))
unpack-pack_message_example =
    unpack-pack_message zeros open_request length-zeros open_request-Fits open_request-AllText

-- One component of 65535 bytes.
abbrev oversized : Message
oversized = record open_request { components = replicate 65535 1 ∷ []; count = 1 }

pack_message-overflow_example : pack_message zeros oversized ≡ none
pack_message-overflow_example =
    pack_message-overflow zeros oversized length-zeros refl oversized_length
  where
    oversized_length : 65536 ≤ data_length oversized.components
    oversized_length = omega (arith, length-replicate {A = ℕ} 65535 1)

-- A header that announces a component, and no data.
abbrev truncated : PackedMessage
truncated = record {
  len = 8;
  contents = 0 ∷ 0 ∷ 0 ∷ 0 ∷ 0 ∷ 1 ∷ 0 ∷ 0 ∷ [];
  payload_size = 0;
  payload = [];
}

truncated-header :
    unpack header_format truncated.contents 0 ≡ some (num 0 ∷ num 0 ∷ num 1 ∷ num 0 ∷ [], 8)
unfolding unpack unpack_one load
truncated-header = refl

unpack_message-overrun_example : unpack_message truncated ≡ none
unpack_message-overrun_example =
    unpack_message-overrun truncated
      (record { data_length = 0; request_id = 0; count = 1; payload_size = 0 })
      (num 0 ∷ num 0 ∷ num 1 ∷ num 0 ∷ []) truncated-header refl (omega arith)

abbrev packed_ab : PackedMessage
packed_ab = record { len = 2; contents = b'a' ∷ b'b' ∷ []; payload_size = 1; payload = b'c' ∷ [] }

packed_ab-IsPacked : IsPacked packed_ab
packed_ab-IsPacked = record { has_contents = refl; has_payload = refl }

send_packed-Sent_example :
    Sent (packed_ab.contents ++ packed_ab.payload) (send_packed (moved 1 ∷ failed ∷ []) packed_ab)
send_packed-Sent_example = send_packed-Sent (moved 1 ∷ failed ∷ []) packed_ab packed_ab-IsPacked

send_packed-returns_example :
    (left : List Answer) × (send_packed (moved 1 ∷ moved 1 ∷ moved 5 ∷ []) packed_ab
      ≡ (returned 3 left, b'a' ∷ b'b' ∷ b'c' ∷ []))
send_packed-returns_example =
    send_packed-returns (moved 1 ∷ moved 1 ∷ moved 5 ∷ []) packed_ab packed_ab-IsPacked
      (omega arith, (omega arith, (omega arith, tt))) (omega arith)

recv_all-Received_example :
    Received 3
      (b'a' ∷ b'b' ∷ b'c' ∷ b'd' ∷ [])
      (recv_all false (moved 1 ∷ moved 9 ∷ []) 3 0 (b'a' ∷ b'b' ∷ b'c' ∷ b'd' ∷ []))
recv_all-Received_example =
    recv_all-Received (moved 1 ∷ moved 9 ∷ []) 3 0 (b'a' ∷ b'b' ∷ b'c' ∷ b'd' ∷ [])

peek-in_parts_example :
    recv_all true (moved 1 ∷ moved 1 ∷ []) 2 0 (3 ∷ 4 ∷ []) ≡ (returned (3 ∷ 3 ∷ []) [], 3 ∷ 4 ∷ [])
peek-in_parts_example = peek-in_parts [] 3 4 []

abbrev sends : List Answer
sends = replicate 15 (moved 1)

receive-send_example :
    (left : List Answer) × (out : Bytes) × (send_message zeros sends open_request
      ≡ some (returned 15 left, out))
    × (receive_message zeros (moved 2 ∷ moved 99 ∷ moved 2 ∷ []) (out ++ [])
        ≡ (returned (some (record open_request { payload = [] })) (moved 2 ∷ []), 1 ∷ 2 ∷ []))
    × (receive_payload (moved 2 ∷ []) (record open_request { payload = [] }) (1 ∷ 2 ∷ [])
        ≡ (returned (1 ∷ 2 ∷ []) [], []))
receive-send_example =
    receive-send zeros open_request open_request-Fits open_request-AllText length-zeros sends 2 99 2
      [] [] refl
      (
        omega arith,
        (
          omega arith,
          (
            omega arith,
            (
              omega arith,
              (
                omega arith,
                (
                  omega arith,
                  (
                    omega arith,
                    (
                      omega arith,
                      (
                        omega arith,
                        (
                          omega arith,
                          (
                            omega arith,
                            (omega arith, (omega arith, (omega arith, (omega arith, tt)))),
                          ),
                        ),
                      ),
                    ),
                  ),
                ),
              ),
            ),
          ),
        ),
      )
      (omega arith) (omega arith) (omega arith) (omega arith)
