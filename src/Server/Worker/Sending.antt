-- ===== src/Server/Worker/Sending.antt =====
-- server/stream.c: what the worker sends of an encoded frame, and what becomes of the rest.
use svr.Base.{ℕ, ◌+◌, List, [], ◌∷◌, ◌++◌, Option, some, Bool, false, Bytes, length, ◌≡◌}
use svr.Base.Dict.{Dictionary}
use svr.Encoder.{Encoder}
use svr.Encoder.Holds.{Holds}
use svr.Encoder.Chunks.{Chunked, sent, joined, AllFit}
use svr.Server.State.{paused, Stream}

module _ (D : Dictionary) (goes : ℕ → Bool) (s : Stream D) where
  abbrev size : ℕ
  size = s.payload_buffer_size

  -- How the sending ends, for messages from number `i` on and an encoder that holds `q`.
  pub data Outcome (i : ℕ) (q : Bytes) (r : Option (Chunked × Stream D)) : Type 0 where
    complete :
        (payloads : List Bytes) (e : Encoder)
        → r ≡ some (sent payloads e, s)
        → joined payloads ≡ q
        → AllFit size payloads
        → Holds e []
        → Outcome i q r
    broken :
        (payloads : List Bytes) (lost rest : Bytes) (e : Encoder) (s' : Stream D)
        → r ≡ some (sent payloads e, s')
        → s' ≡ record s { state = paused }
        → goes (i + length payloads) ≡ false
        → q ≡ joined payloads ++ (lost ++ rest)
        → AllFit size (lost ∷ payloads)
        → Holds e rest
        → Outcome i q r
