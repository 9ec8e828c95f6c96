-- ===== src/Client/Comm.antt =====
-- lib/comm.c: requests and their responses. `sent` is what has been written to the socket (Net), and
-- `junk` is what `realloc` leaves in the new slots of the response set.
pub mod Answers
use svr.Base.{
  ℕ, zero, suc, ◌+◌, ◌-◌, ◌%◌, ◌^◌, List, [], ◌∷◌, ◌++◌, Option, none, some, Bytes, Bool, true,
  false, ◌==◌, ◌&&◌, ltb, if◌then◌else◌, ◌>>=◌, get_elem?, same,
}
use svr.FrameProperties.{atoi}
use svr.Message.{Message}
use svr.ResponseSet.{
  ResponseSet, Requested, given, all_in_use, spinning, Answered, get_request_id, get_response,
  set_response,
}
use svr.ResponseSet
use svr.Server.Words.{response_word}

-- The static variables.
pub record Comm : Type 0 where
  pub response_set : ResponseSet Message
  pub payload_buffer_size : ℕ
  pub sent : List Message

-- MAX_REQUEST_ID
abbrev pub max_request_id : ℕ
max_request_id = 65535

-- The state that `SVR_Comm_init` leaves, once connected.
abbrev pub connected : Comm
connected = record {
  response_set = ResponseSet.new max_request_id;
  payload_buffer_size = 0;
  sent = [];
}

-- How `SVR_Comm_sendMessage` of a request goes on: it waits for the response with this id; or there
-- is no id, and it reads the response of the id -1.
pub data Asked : Type 0 where
  waiting_for : ℕ → Comm → Asked
  out_of_ids : Asked
  searching : Asked

abbrev pub send : Comm → Message → Comm
send c m = record c { sent = c.sent ++ m ∷ [] }

abbrev pub send_with : Comm → Message → Requested Message → Asked
send_with c m (given id set_) =
    waiting_for id (send (record c { response_set = set_ }) (record m { request_id = id + 1 }))
send_with c m all_in_use = out_of_ids
send_with c m spinning = searching

-- `SVR_Comm_sendMessage` of a request, up to the wait, and the end of the wait.
unfoldable pub ask : Option Message → Comm → Message → Option Asked
ask junk c m = do r ← get_request_id junk c.response_set; some (send_with c m r)

unfoldable pub await : Comm → ℕ → Option (Answered Message)
await c id = get_response c.response_set id

-- `SVR_Comm_parseResponse`; -1 is 2 ^ 32 - 1.
unfoldable pub parse_response : Message → Option ℕ
parse_response response =
    if response.count == 2
    then (do
      word ← get_elem? response.components 0
      code ← get_elem? response.components 1
      some (if same word response_word then atoi code else 2 ^ 32 - 1))
    else some (2 ^ 32 - 1)

-- The growing of the payload buffer.
abbrev pub make_room : Comm → ℕ → Comm
make_room c payload_size =
    if ltb c.payload_buffer_size payload_size
    then record c { payload_buffer_size = payload_size }
    else c

module _ {S : Type 0} (process_message : S → Message → Option S) where
  -- A message in `SVR_Comm_receiveThread`, with its payload. `process_message` is that of
  -- Client.Routing.
  abbrev pub deliver : Comm → S → Message → Option (Comm × S)
  deliver c s m = if m.request_id == 0 then (do s' ← process_message s m; some (c, s')) else (do
    r ← set_response c.response_set (m.request_id - 1) m
    some (record c { response_set = r.1 }, s))

  unfoldable pub receive : Comm → S → Message → Option (Comm × S)
  receive c s m = deliver (make_room c m.payload_size) s m

  unfoldable pub receive_all : List Message → Comm → S → Option (Comm × S)
  receive_all [] c s = some (c, s)
  receive_all (m ∷ ms) c s = do r ← receive c s m; receive_all ms r.0 r.1
