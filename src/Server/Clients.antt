-- ===== src/Server/Clients.antt =====
-- server/client.c: what a client holds, what is sent to it, and how it is closed. The sending
-- itself is Net; here a message that is sent goes to the end of the list `sent`.
pub mod Closing
use svr.Base.{
  ℕ, ◌+◌, ◌-◌, ◌%◌, ◌^◌, List, [], ◌∷◌, ◌++◌, Option, none, some, Bytes, if◌then◌else◌, Bool, true,
  false, ◌>>=◌,
}
use svr.Base.Dict.{Dictionary}
use svr.FrameProperties.{decimal}
use svr.Message.{Message}
use svr.Server.State.{ClientState, connected, closed, Sent, Source, Stream, Client, World}
use svr.Server.Streams
use svr.Server.Sources
use svr.Server.Words.{response_word, kick_word}

abbrev pub is_closed : ClientState → Bool
is_closed closed = true
is_closed connected = false

module _ (D : Dictionary) where
  abbrev pub put_client : World D → Client D → World D
  put_client w c = record w { client = c }

  -- `SVRD_Client_sendMessage`
  unfoldable pub send_message : World D → Sent → World D
  send_message w m =
      if is_closed w.client.state
      then w
      else put_client w (record w.client { sent = w.client.sent ++ m ∷ [] })

  -- `SVRD_Client_reply` and `SVRD_Client_replyCode`
  abbrev pub reply : World D → Message → List Bytes → World D
  reply w request components =
      send_message w (record { request_id = request.request_id; components = components })

  abbrev pub reply_code : World D → Message → ℕ → World D
  reply_code w request code = reply w request (response_word ∷ decimal code ∷ [])

  -- `SVRD_Client_getStream` and `SVRD_Client_getSource`
  abbrev pub get_stream : World D → Bytes → Option (Stream D)
  get_stream w name = D.get (Stream D) w.client.streams name

  abbrev pub get_source : World D → Bytes → Option ℕ
  get_source w name = D.get ℕ w.client.sources name

  abbrev pub put_stream : World D → Bytes → Stream D → World D
  put_stream w name s =
      put_client w (record w.client { streams = D.set (Stream D) w.client.streams name s })

  -- `SVRD_Client_provideSource` and `SVRD_Client_unprovideSource`
  unfoldable pub provide_source : World D → ℕ → World D
  provide_source w id =
      put_client w (record w.client { sources = D.set ℕ w.client.sources (w.store id).name id })

  unfoldable pub unprovide_source : World D → ℕ → World D
  unprovide_source w id =
      put_client w (record w.client { sources = D.remove ℕ w.client.sources (w.store id).name })

  -- `SVRD_Client_openStream`. The stream takes a reference to the client.
  unfoldable pub open_stream : World D → Bytes → Option (World D)
  open_stream w name = if is_closed w.client.state then some w else (do
    s ← Streams.new D w.encodings name
    some (
        put_client w (record w.client {
          streams = D.set (Stream D) w.client.streams name (Streams.set_client D s);
          ref_count = (w.client.ref_count + 1) % 2 ^ 32;
        })))

  -- `SVRD_Client_closeStream`. It keeps the client locked when there is no such stream.
  abbrev pub close_found : World D → Bytes → Option (Stream D) → Option (World D)
  close_found w name none = some w
  close_found w name (some s) = do
    stopped ← Streams.pause D s
    destroyed ← Streams.destroy D stopped
    some (
        put_client w (record w.client {
          streams = D.remove (Stream D) w.client.streams name;
          ref_count = (w.client.ref_count + 2 ^ 32 - 1) % 2 ^ 32;
        }))

  unfoldable pub close_stream : World D → Bytes → Option (World D)
  close_stream w name = close_found w name (get_stream w name)

  -- The loops of `SVRD_Client_markForClosing`.
  unfoldable pub close_streams : List Bytes → World D → Option (World D)
  close_streams [] w = some w
  close_streams (name ∷ names) w = do w' ← close_stream w name; close_streams names w'

  unfoldable pub destroy_sources : List Bytes → World D → Option (World D)
  destroy_sources [] w = some w
  destroy_sources (name ∷ names) w = do
    id ← get_source w name
    destroy_sources names (Sources.destroy D w id)

  -- `SVRD_Client_markForClosing`
  unfoldable pub mark_for_closing : World D → Option (World D)
  mark_for_closing w = if is_closed w.client.state then some w else (do
    let w1 = put_client w (record w.client { state = closed })
    w2 ← close_streams (D.keys (Stream D) w1.client.streams) w1
    destroy_sources (D.keys ℕ w2.client.sources) w2)

  -- `SVRD_Client_kick`
  unfoldable pub kick : World D → Bytes → Option (World D)
  kick w reason =
      mark_for_closing
        (send_message w (record { request_id = 0; components = kick_word ∷ reason ∷ [] }))
