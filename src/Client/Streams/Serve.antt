-- ===== src/Client/Streams/Serve.antt =====
-- lib/comm.c against server/messagerouting.c: the answer of the server to a request of a client. That
-- requests and responses arrive as they were sent is shown in Net and Client.Comm.
use svr.Base.{
  ℕ, suc, ◌+◌, ◌^◌, ◌<◌, List, [], ◌∷◌, ◌++◌, Option, some, Bytes, false, ◌==◌, ◌>>=◌, get_elem?,
  length, ◌≡◌, refl, ap, ◌∙◌, arith, get_elem?-append_right,
}
use svr.Base.Dict.{Dictionary}
use svr.OptionString.{Options}
use svr.FrameProperties.{FrameProperties, to_string, decimal}
use svr.FrameProperties.RoundTrip.{atoi-decimal}
use svr.Message.{Message}
use svr.Server.State.{World, Sent, connected, paused, success, invalid_argument}
use svr.Server.State
use svr.Server.Clients.{reply, get_stream, send_message}
use svr.Server.Handlers.{source_name}
use svr.Server.Requests.{handle, handle_stream, about_stream, StreamRequest}
use svr.Server.Routing.{process_message, find}
use svr.Server.Table.{request_types}
use svr.Server.Words.{get_info_word, response_word}
use svr.Client.Comm.{parse_response}

abbrev pub incoming : List Bytes → Message
incoming components = record {
  request_id = 1;
  payload = [];
  payload_size = 0;
  components = components;
  count = length components;
}

abbrev pub received_reply : Sent → Message
received_reply m = record {
  request_id = m.request_id;
  payload = [];
  payload_size = 0;
  components = m.components;
  count = length m.components;
}

pub parse_response-code :
    (n : ℕ) → n < 2 ^ 32 → parse_response (incoming (response_word ∷ decimal n ∷ [])) ≡ some n
unfolding parse_response
parse_response-code n h = ap some (atoi-decimal n h)

module _ (D : Dictionary)
    (open_type : Bytes → Bytes → Options D → World D → Option ℕ × World D) where
  -- The server's answer to a request: the first message that handling it sends.
  unfoldable pub serve : World D → List Bytes → Option (Message × World D)
  serve w components = do
    w' ← process_message D open_type request_types w (incoming components)
    answer ← get_elem? w'.client.sent (length w.client.sent)
    some (received_reply answer, w')

  -- A handler that replies once.
  pub serve-reply :
      (w w1 : World D) (word : Bytes) (arguments components : List Bytes)
      → process_message D open_type request_types w (incoming (word ∷ arguments))
        ≡ some (reply D w1 (incoming (word ∷ arguments)) components)
      → w1.client.state ≡ connected
      → w1.client.sent ≡ w.client.sent
      → serve w (word ∷ arguments)
        ≡ some (incoming components, reply D w1 (incoming (word ∷ arguments)) components)
  unfolding serve send_message
  serve-reply w w1 word arguments components e open_ sent_before =
      let answer : Sent = record { request_id = 1; components = components } in
      let index : length w.client.sent ≡ length w.client.sent + 0 = omega arith in
      let there : get_elem? (w.client.sent ++ answer ∷ []) (length w.client.sent) ≡ some answer =
        ap (get_elem? (w.client.sent ++ answer ∷ [])) index
        ∙ get_elem?-append_right w.client.sent (answer ∷ []) 0 in
      rw (e, open_, sent_before, there) refl

  pub reply-keeps :
      (w : World D) (m : Message) (cs : List Bytes) (name : Bytes)
      → w.client.state ≡ connected
      → (get_stream D (reply D w m cs) name ≡ get_stream D w name)
        × ((reply D w m cs).client.state ≡ connected)
  unfolding send_message
  reply-keeps w m cs name open_ = (rw open_ refl, rw open_ refl)

  -- A request that the table leads to.
  pub routed :
      (w : World D) (word : Bytes) (arguments : List Bytes) {r : StreamRequest}
      → find word request_types ≡ some (about_stream r)
      → process_message D open_type request_types w (incoming (word ∷ arguments))
        ≡ handle_stream D r w (incoming (word ∷ arguments))
  unfolding process_message handle
  routed w word arguments e =
      let not_empty : (suc (length arguments) == 0) ≡ false = ground arith in rw (e, not_empty) refl

  -- The answer to Stream.getInfo.
  unfoldable pub info :
      (w : World D) (ss : State.Stream D) (e : Bytes) (p : FrameProperties) → List Bytes
  info w ss e p = get_info_word ∷ source_name D w ss.source ∷ e ∷ to_string p ∷ []
