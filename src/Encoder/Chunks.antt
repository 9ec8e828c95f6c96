-- ===== src/Encoder/Chunks.antt =====
-- The loop that sends what an encoder has, a buffer at a time (server/stream.c and lib/source.c).
use svr.Base.{
  ℕ, zero, suc, ◌+◌, ◌≤◌, ◌<◌, List, [], ◌∷◌, ◌++◌, Option, some, Bytes, length, ◌>>=◌, ◌==◌, false,
  if◌then◌else◌, take, drop, ◌≡◌, refl, ap, ◌∙◌, arith, length-take, length-drop, take-append-drop,
}
use svr.Encoder.{Encoder, data_ready, read_data}
use svr.Encoder.Holds.{Holds, data_ready-length}
use svr.Encoder.Read.{read_data-Holds}

-- The payloads that are sent, and the encoder. `looping` would be a loop that has not ended in its
-- rounds.
pub data Chunked : Type 0 where
  sent : List Bytes → Encoder → Chunked
  looping : Chunked

abbrev pub before : Bytes → Chunked → Chunked
before payload (sent payloads e) = sent (payload ∷ payloads) e
before payload looping = looping

abbrev pub chunk_round : ℕ → Encoder → (Encoder → Option Chunked) → Option Chunked
chunk_round size e again =
    if data_ready e == 0
    then some (sent [] e)
    else (do r ← read_data e size; rest ← again r.1; some (before r.0 rest))

unfoldable pub send_chunks : ℕ → ℕ → Encoder → Option Chunked
send_chunks zero size e = some looping
send_chunks (suc fuel) size e = chunk_round size e (send_chunks fuel size)

-- A round for each byte, and one to see the end.
abbrev pub send_ready : ℕ → Encoder → Option Chunked
send_ready size e = send_chunks (data_ready e + 1) size e

abbrev pub joined : List Bytes → Bytes
joined [] = []
joined (p ∷ ps) = p ++ joined ps

abbrev pub AllFit : ℕ → List Bytes → Type 0
AllFit size [] = Unit {0}
AllFit size (p ∷ ps) = (0 < length p) × (length p ≤ size) × AllFit size ps

abbrev pub Sends : ℕ → Bytes → Option Chunked → Type 0
Sends size q r =
    (payloads : List Bytes) × (e' : Encoder) × (r ≡ some (sent payloads e'))
    × Holds e' []
    × (joined payloads ≡ q)
    × AllFit size payloads

send_chunks-Sends :
    (fuel size : ℕ) (e : Encoder) (q : Bytes)
    → Holds e q
    → 0 < size
    → length q < fuel
    → Sends size q (send_chunks fuel size e)
unfolding send_chunks
send_chunks-Sends zero size e q h s f = absurd (omega arith)
send_chunks-Sends (suc fuel) size e [] h s f =
    let none_left : data_ready e ≡ 0 = data_ready-length e [] h in
    ([], e, rw none_left refl, h, refl, tt)
send_chunks-Sends (suc fuel) size e (b ∷ q) h s f =
    let (mid, first, h', _) = read_data-Holds e (b ∷ q) size h in
    let (payloads, e', rest, h'', j, fits) =
      send_chunks-Sends fuel size mid (drop size (b ∷ q)) h' s
        (omega (arith, length-drop size (b ∷ q))) in
    let some_left : (data_ready e == 0) ≡ false = ground (arith, data_ready-length e (b ∷ q) h) in
    (
      take size (b ∷ q) ∷ payloads,
      e',
      rw (some_left, first, rest) refl,
      h'',
      ap (λ (xs : Bytes). take size (b ∷ q) ++ xs) j ∙ take-append-drop size (b ∷ q),
      (omega (arith, length-take size (b ∷ q)), omega (arith, length-take size (b ∷ q)), fits),
    )

-- With a buffer of at least one byte, the loop ends: the payloads that it sends, none of them empty or
-- longer than the buffer, are in order what the encoder held, and the encoder is empty.
pub send_ready-Sends :
    (size : ℕ) (e : Encoder) (q : Bytes) → Holds e q → 0 < size → Sends size q (send_ready size e)
send_ready-Sends size e q h s =
    send_chunks-Sends (data_ready e + 1) size e q h s (omega (arith, data_ready-length e q h))
