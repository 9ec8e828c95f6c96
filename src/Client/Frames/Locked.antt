-- ===== src/Client/Frames/Locked.antt =====
-- lib/stream.c: data for a stream that is not there.
use svr.Base.{List, Option, none, some, Bytes, true, false, ◌≡◌, refl, Option-cases, inl, inr}
use svr.Base.Dict.{Dictionary}
use svr.Message.{Message}
use svr.Decoder.{Decoder}
use svr.Client.Frames.{Library, get_by_name, provide_data, set_orphaned, destroy}
use svr.Client.Streams.{Stream, close}

module _ (D : Dictionary) {S : Type 0} (encodings : D.Dict Bytes)
    (ask_server : S → List Bytes → Option (Message × S))
    (decode : Bytes → Decoder → Bytes → Option Decoder) where
  -- On a list of streams that is not locked, data for a stream that the client does not have, or the news that
  -- it is orphaned, leaves the list locked: whatever data or news comes next, for any stream, is waited for
  -- forever, and so is the end of each `SVR_Stream_destroy`.
  pub unknown-locks :
      (l : Library D S) (name bs : Bytes)
      → l.list_locked ≡ false
      → get_by_name D l name ≡ none
      → (l' : Library D S) × (provide_data D decode l name bs ≡ some l')
        × (set_orphaned D l name ≡ some l')
        × ((name' bs' : Bytes) → provide_data D decode l' name' bs' ≡ none)
        × ((name' : Bytes) → set_orphaned D l' name' ≡ none)
        × ((st : Stream) → destroy D encodings ask_server l' st ≡ none)
  unfolding provide_data set_orphaned destroy
  unknown-locks l name bs free missing = (
    record l { list_locked = true },
    rw (free, missing) refl,
    rw (free, missing) refl,
    λ name' bs'. refl,
    λ name'. refl,
    λ st. elim (Option-cases (close D encodings ask_server l.server st)) [
      | inl silent ↦ rw silent refl
      | inr (r, answered) ↦ rw answered refl
    ],
  )
