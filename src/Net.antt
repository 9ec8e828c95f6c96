-- ===== src/Net.antt =====
-- lib/net.c: sending and receiving over a stream socket. The kernel's side of `send` and `recv` is
-- a list of answers, one for each call: a failure, or the number of bytes that it moves. A list
-- that runs out is a call that never returns (`blocked`).
pub mod Send
pub mod Transfer
pub mod Receive
use svr.Base.{
  ℕ, ◌+◌, ◌-◌, ◌*◌, ◌<◌, List, [], ◌∷◌, ◌++◌, Option, none, some, Bytes, length, ◌>>=◌, take, drop,
  ltb, ◌==◌, if◌then◌else◌, min, Bool, true, false,
}
use svr.Pack.{ntohs}
use svr.Message.{Message, PackedMessage, prefix_len, new_packed, pack_message, unpack_message}

pub data Answer : Type 0 where
  failed : Answer
  moved : ℕ → Answer

-- How a call of this module ends, with the answers that are left.
pub data Outcome (A : Type 0) : Type 0 where
  returned : A → List Answer → Outcome A
  error : Outcome A
  blocked : Outcome A

-- A send loop of `SVR_Net_sendPackedMessage`, over a buffer of `n` bytes: the outcome, and what
-- has gone out on the wire. `sent_bytes` moves on by what `send` accepted.
unfoldable pub send_all : List Answer → Bytes → ℕ → ℕ → Outcome (Unit {0}) × Bytes
send_all [] buffer n sent = if ltb sent n then (blocked, []) else (returned tt [], [])
send_all (failed ∷ answers) buffer n sent =
    if ltb sent n then (error, []) else (returned tt (failed ∷ answers), [])
send_all (moved k ∷ answers) buffer n sent =
    let rest = send_all answers buffer n (sent + k) in
    if ltb sent n
    then (rest.0, take k (drop sent buffer) ++ rest.1)
    else (returned tt (moved k ∷ answers), [])

abbrev pub sum_sent : ℕ → Outcome (Unit {0}) → Outcome ℕ
sum_sent n (returned _ left) = returned n left
sum_sent n error = error
sum_sent n blocked = blocked

-- After the first loop, the second sends the payload, and the result is the number of bytes.
abbrev pub send_payload : PackedMessage → Outcome (Unit {0}) × Bytes → Outcome ℕ × Bytes
send_payload packed (returned _ answers, wire) =
    let second = send_all answers packed.payload packed.payload_size 0 in
    (sum_sent (packed.len + packed.payload_size) second.0, wire ++ second.1)
send_payload packed (error, wire) = (error, wire)
send_payload packed (blocked, wire) = (blocked, wire)

-- `SVR_Net_sendPackedMessage`
unfoldable pub send_packed : List Answer → PackedMessage → Outcome ℕ × Bytes
send_packed answers packed = send_payload packed (send_all answers packed.contents packed.len 0)

-- `SVR_Net_sendMessage`; `none` is a fault while packing.
unfoldable pub send_message : (ℕ → Bytes) → List Answer → Message → Option (Outcome ℕ × Bytes)
send_message fresh answers m = do packed ← pack_message fresh m; some (send_packed answers packed)

-- `recv` returns the first bytes of `incoming`, all that the peer will send: as many as it is asked
-- for, as the answer says and as there are. Zero bytes mean that the peer has shut down.
abbrev pub recv_size : ℕ → ℕ → Bytes → ℕ
recv_size k wanted incoming = min k (min wanted (length incoming))

-- With MSG_PEEK the bytes stay where they are.
abbrev pub after_recv : Bool → ℕ → Bytes → Bytes
after_recv true n incoming = incoming
after_recv false n incoming = drop n incoming

abbrev pub prepend : Bytes → Outcome Bytes × Bytes → Outcome Bytes × Bytes
prepend bs (returned more answers, incoming) = (returned (bs ++ more) answers, incoming)
prepend bs (error, incoming) = (error, incoming)
prepend bs (blocked, incoming) = (blocked, incoming)

-- `SVR_Net_recv` from `read` bytes on, an `int` that stays far below 2 ^ 31, as its callers ask for fewer than 65544 bytes: the bytes that go to `buffer + read`, or an `error` for a
-- result of 0 or less; and what is still to come.
unfoldable pub recv_all : Bool → List Answer → ℕ → ℕ → Bytes → Outcome Bytes × Bytes
recv_all peek [] len read incoming =
    if ltb read len then (blocked, incoming) else (returned [] [], incoming)
recv_all peek (failed ∷ answers) len read incoming =
    if ltb read len then (error, incoming) else (returned [] (failed ∷ answers), incoming)
recv_all peek (moved k ∷ answers) len read incoming =
    let n = recv_size k (len - read) incoming in
    let rest =
      prepend (take n incoming)
        (recv_all peek answers len (read + n) (after_recv peek n incoming)) in
    if ltb read len
    then (if n == 0 then (error, incoming) else rest)
    else (returned [] (moved k ∷ answers), incoming)

-- The rest of `SVR_Net_receiveMessage`, once `message_length` is known: `returned none` is a fault
-- while unpacking, `error` is the result NULL.
abbrev pub receive_body : (ℕ → Bytes) → ℕ → Outcome Bytes × Bytes → Outcome (Option Message) × Bytes
receive_body fresh message_length (returned bs answers, incoming) = (
  returned
      (unpack_message (record (new_packed fresh (message_length + prefix_len)) { contents = bs }))
      answers,
  incoming,
)
receive_body fresh message_length (error, incoming) = (error, incoming)
receive_body fresh message_length (blocked, incoming) = (blocked, incoming)

abbrev pub receive_sized : (ℕ → Bytes) → Outcome Bytes × Bytes → Outcome (Option Message) × Bytes
receive_sized fresh (returned bs answers, incoming) =
    receive_body fresh (ntohs bs) (recv_all false answers (ntohs bs + prefix_len) 0 incoming)
receive_sized fresh (error, incoming) = (error, incoming)
receive_sized fresh (blocked, incoming) = (blocked, incoming)

-- `SVR_Net_receiveMessage`
unfoldable pub receive_message :
    (ℕ → Bytes) → List Answer → Bytes → Outcome (Option Message) × Bytes
unfolding new_packed
receive_message fresh answers incoming = receive_sized fresh (recv_all true answers 2 0 incoming)

-- `SVR_Net_receivePayload`: the bytes that go to `message->payload`.
unfoldable pub receive_payload : List Answer → Message → Bytes → Outcome Bytes × Bytes
receive_payload answers m incoming = recv_all false answers m.payload_size 0 incoming
