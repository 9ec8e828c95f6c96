-- ===== src/Client/Routing.antt =====
-- lib/messagerouting.c and lib/messagehandlers.c: what a client does with a message that answers no
-- request. The search for the handler is that of the server (Server.Routing).
pub mod Data
use svr.Base.{
  ℕ, ◌-◌, ◌^◌, List, [], ◌∷◌, Option, none, some, Bytes, Bool, ◌==◌, ◌||◌, not, same, if◌then◌else◌,
  ◌>>=◌, get_elem?,
}
use svr.Base.Dict.{Dictionary}
use svr.Message.{Message}
use svr.Decoder.{Decoder}
use svr.Server.Routing.{Row, find}
use svr.Words.{data_word, orphaned_word, kicked_word}
use svr.Client.Frames.{Library, set_orphaned, provide_data}

pub data Callback : Type 0 where
  stream_orphaned data_ kick : Callback

-- `request_types`, as `qsort` leaves it.
unfoldable pub request_types : List (Row Callback)
request_types = (data_word, data_) ∷ (kicked_word, kick) ∷ (orphaned_word, stream_orphaned) ∷ []

-- -1
abbrev pub minus_one : ℕ
minus_one = 2 ^ 32 - 1

module _ (D : Dictionary) {S : Type 0} (decode : Bytes → Decoder → Bytes → Option Decoder) where
  -- `SVR_MessageHandler_streamOrphaned`
  unfoldable pub handle_orphaned : Library D S → Message → Option (ℕ × Library D S)
  handle_orphaned l m =
      if m.count == 2
      then (do name ← get_elem? m.components 1; l' ← set_orphaned D l name; some (0, l'))
      else some (minus_one, l)

  -- `SVR_MessageHandler_data`
  unfoldable pub handle_data : Library D S → Message → Option (ℕ × Library D S)
  handle_data l m = if not (m.count == 2) || (m.payload_size == 0) then some (minus_one, l) else (do
    word ← get_elem? m.components 0
    name ← get_elem? m.components 1
    (if same word data_word
        then (do l' ← provide_data D decode l name m.payload; some (0, l'))
        else some (minus_one, l)))

  -- `request_type->callback(message)`; `SVR_MessageHandler_kick` only logs.
  unfoldable pub handle : Callback → Library D S → Message → Option (ℕ × Library D S)
  handle stream_orphaned = handle_orphaned
  handle data_ = handle_data
  handle kick = λ l m. some (0, l)

  abbrev pub dispatch : Library D S → Message → Option Callback → Option (ℕ × Library D S)
  dispatch l m none = some (minus_one, l)
  dispatch l m (some r) = handle r l m

  -- `SVR_MessageRouter_processMessage`
  unfoldable pub process_message : Library D S → Message → Option (ℕ × Library D S)
  process_message l m =
      if m.count == 0
      then some (minus_one, l)
      else (do word ← get_elem? m.components 0; dispatch l m (find word request_types))

  -- The messages that `SVR_Comm_receiveThread` gets, one after the other.
  unfoldable pub process_all : List Message → Library D S → Option (Library D S)
  process_all [] l = some l
  process_all (m ∷ ms) l = do r ← process_message l m; process_all ms r.1
