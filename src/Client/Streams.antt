-- ===== src/Client/Streams.antt =====
-- lib/stream.c: the streams of a client, and the requests about them. An encoding is its name, and a
-- decoder stands with its encoding. `ask_server` is `SVR_Comm_sendMessage` of a request: the response,
-- and the server after it; `none` is the wait for a response that does not come. `none` is also the
-- use of a NULL pointer.
pub mod Serve
pub mod Mirror
use svr.Base.{
  ℕ, ◌+◌, ◌%◌, ◌^◌, List, [], ◌∷◌, ◌++◌, Option, none, some, Bytes, Bool, true, false, ◌==◌,
  if◌then◌else◌, ◌>>=◌, get_elem?, same,
}
use svr.Base.Dict.{Dictionary}
use svr.FrameProperties.{FrameProperties, from_string, decimal}
use svr.Message.{Message}
use svr.Decoder.{Image, Decoder}
use svr.Decoder
use svr.Encodings.{get_by_name}
use svr.Server.State.{StreamState, paused, unpaused, success}
use svr.Server.Words.{get_info_word}
use svr.Words.{
  stream_open_word, stream_attach_word, stream_close_word, set_encoding_word, resize_word,
  set_channels_word, set_priority_word, set_drop_rate_word, unpause_word, pause_word, one_word,
  zero_word,
}
use svr.Client.Numbers.{signed_decimal, int_of_short}
use svr.Client.Comm.{parse_response}

-- `SVR_Stream`
pub record Stream : Type 0 where
  pub stream_name : Bytes
  pub source_name : Bytes
  pub current_frame : Option Image
  pub state : StreamState
  pub frame_properties : Option FrameProperties
  pub encoding : Option Bytes
  pub decoder : Option (Bytes × Decoder)
  pub orphaned : Bool

-- "stream"
abbrev pub stream_prefix : Bytes
stream_prefix = b's' ∷ b't' ∷ b'r' ∷ b'e' ∷ b'a' ∷ b'm' ∷ []

-- The fields that `SVR_Stream_new` sets, with the number of the stream.
abbrev pub blank : ℕ → Bytes → Stream
blank number source_name = record {
  stream_name = stream_prefix ++ decimal number;
  source_name = source_name;
  current_frame = none;
  state = paused;
  frame_properties = none;
  encoding = none;
  decoder = none;
  orphaned = false;
}

-- `SVR_Stream_getFrameProperties` and `SVR_Stream_isOrphaned`
abbrev pub get_frame_properties : Stream → Option FrameProperties
get_frame_properties st = st.frame_properties

abbrev pub is_orphaned : Stream → Bool
is_orphaned st = st.orphaned

-- `SVR_Stream_returnFrame`
abbrev pub return_to : Option (Bytes × Decoder) → Image → Option (Bytes × Decoder)
return_to none f = none
return_to (some (e, d)) f = some (e, Decoder.return_frame d f)

unfoldable pub return_frame : Stream → Image → Stream
return_frame st f = record st { decoder = return_to st.decoder f }

-- `SVR_Stream_getFrame` is a wait for a new frame, or the frame and the stream.
pub data Got : Type 0 where
  waiting : Got
  got : Option Image → Stream → Got

abbrev pub hand_out : Stream → Got
hand_out st = got st.current_frame (record st { current_frame = none })

abbrev pub has_to_wait : Option Image → Bool → StreamState → Bool
has_to_wait none true unpaused = true
has_to_wait _ _ _ = false

unfoldable pub get_frame : Stream → Bool → Got
get_frame st wait = if has_to_wait st.current_frame wait st.state then waiting else hand_out st

module _ (D : Dictionary) (encodings : D.Dict Bytes) {S : Type 0}
    (ask_server : S → List Bytes → Option (Message × S)) where
  -- `SVR_Comm_sendMessage` with `SVR_Comm_parseResponse`
  abbrev pub request : S → List Bytes → Option (ℕ × S)
  request s components = do r ← ask_server s components; code ← parse_response r.0; some (code, r.1)

  abbrev pub store_info : Stream → Message → S → Option (ℕ × Stream × S)
  store_info st response s = do
    e ← get_elem? response.components 2
    p ← get_elem? response.components 3
    some (
      0,
      record st { encoding = get_by_name D encodings e; frame_properties = some (from_string p) },
      s,
    )

  abbrev pub no_info : Stream → Message → S → Option (ℕ × Stream × S)
  no_info st response s = do code ← parse_response response; some (code, st, s)

  -- `SVR_Stream_updateInfo`
  unfoldable pub update_info : S → Stream → Option (ℕ × Stream × S)
  update_info s st = do
    r ← ask_server s (get_info_word ∷ st.stream_name ∷ [])
    (if r.0.count == 4
        then (do
          word ← get_elem? r.0.components 0
          (if same word get_info_word then store_info st r.0 r.1 else no_info st r.0 r.1))
        else no_info st r.0 r.1)

  -- A request that changes how the stream looks, and then `SVR_Stream_updateInfo`.
  unfoldable pub configure : S → Stream → List Bytes → Option (ℕ × Stream × S)
  configure s st components = do
    r ← request s components
    (if r.0 == success then update_info r.1 st else some (r.0, st, r.1))

  -- `SVR_Stream_setEncoding`, `SVR_Stream_resize`, `SVR_Stream_setGrayscale`, `SVR_Stream_setPriority`
  -- and `SVR_Stream_setDropRate`
  unfoldable pub set_encoding : S → Stream → Bytes → Option (ℕ × Stream × S)
  set_encoding s st descriptor =
      configure s st (set_encoding_word ∷ st.stream_name ∷ descriptor ∷ [])

  unfoldable pub resize : S → Stream → ℕ → ℕ → Option (ℕ × Stream × S)
  resize s st width height =
      configure s st
        (resize_word ∷ st.stream_name ∷ signed_decimal width ∷ signed_decimal height ∷ [])

  unfoldable pub set_grayscale : S → Stream → Bool → Option (ℕ × Stream × S)
  set_grayscale s st grayscale =
      configure s st
        (set_channels_word ∷ st.stream_name ∷ (if grayscale then one_word else zero_word) ∷ [])

  unfoldable pub set_priority : S → Stream → ℕ → Option (ℕ × Stream × S)
  set_priority s st priority =
      configure s st
        (set_priority_word ∷ st.stream_name ∷ signed_decimal (int_of_short priority) ∷ [])

  unfoldable pub set_drop_rate : S → Stream → ℕ → Option (ℕ × Stream × S)
  set_drop_rate s st drop_rate =
      configure s st (set_drop_rate_word ∷ st.stream_name ∷ signed_decimal drop_rate ∷ [])

  -- `SVR_Stream_close`
  unfoldable pub close : S → Stream → Option (ℕ × S)
  close s st = request s (stream_close_word ∷ st.stream_name ∷ [])

  -- `SVR_Stream_unpause`: a new decoder first, in any case.
  unfoldable pub unpause : S → Stream → Option (ℕ × Stream × S)
  unpause s st = do
    e ← st.encoding
    p ← st.frame_properties
    let reopened = record st { decoder = some (e, Decoder.new p) }
    r ← request s (unpause_word ∷ st.stream_name ∷ [])
    some (r.0, (if r.0 == 0 then record reopened { state = unpaused } else reopened), r.1)

  -- `SVR_Stream_pause`
  unfoldable pub pause : S → Stream → Option (ℕ × Stream × S)
  pause s st = do
    r ← request s (pause_word ∷ st.stream_name ∷ [])
    some (r.0, (if r.0 == 0 then record st { state = paused } else st), r.1)

  -- The requests of `SVR_Stream_open`.
  unfoldable pub open_on_server : S → Stream → Option (ℕ × Stream × S)
  open_on_server s st = do
    opened ← request s (stream_open_word ∷ st.stream_name ∷ [])
    (if opened.0 == success
        then (do
          attached ← request opened.1 (stream_attach_word ∷ st.stream_name ∷ st.source_name ∷ [])
          (if attached.0 == success
              then update_info attached.1 st
              else some (attached.0, st, attached.1)))
        else some (opened.0, st, opened.1))
