-- ===== src/Client/Sources.antt =====
-- lib/source.c: the sources that a client provides, and its other requests about sources. A frame is an
-- image with its properties. `ask_server` is `SVR_Comm_sendMessage` of a request, as in Client.Streams;
-- the messages that are not requests are collected in `sent`. `encode` is the encoding's.
pub mod Frames
use svr.Base.{
  ℕ, ◌*◌, ◌-◌, ◌^◌, ◌%◌, List, [], ◌∷◌, ◌++◌, Option, none, some, Bytes, Bool, true, false, ◌==◌,
  ◌&&◌, not, if◌then◌else◌, ◌>>=◌, drop, map, take, length,
}
use svr.Base.Dict.{Dictionary}
use svr.OptionString.{Options, Parsed, parsed, failed, stuck, parse}
use svr.FrameProperties.{FrameProperties, to_string}
use svr.Message.{Message}
use svr.Encoder.{Encoder}
use svr.Encoder
use svr.Encoder.Chunks.{Chunked, sent, looping, send_ready}
use svr.Decoder.{Image}
use svr.Encodings.{raw_name, jpeg_name}
use svr.Server.State.{success, no_such_encoding, invalid_argument, invalid_state, parse_error}
use svr.Server.Streams.{encoding_of}
use svr.Server.Words.{client_word, server_word}
use svr.Server.Worker.{Frame}
use svr.Words.{
  source_open_word, source_close_word, source_encoding_word, source_properties_word,
  list_sources_word, data_word,
}
use svr.Client.Streams.{request}

-- `SVR_getSourcesList`: the components behind the first.
abbrev pub sources_of : Message → List Bytes
sources_of response = drop 1 response.components

abbrev pub fits : Frame → FrameProperties → Bool
fits f p =
    (f.0.width == p.width)
    && (f.0.height == p.height)
    && (f.0.depth == p.depth)
    && (f.0.channels == p.channels)

module _ (D : Dictionary) where
  -- `SVR_Source`
  pub record Source : Type 0 where
    pub name : Bytes
    pub encoding : Option Bytes
    pub encoding_options : Option (Options D)
    pub encoder : Option Encoder
    pub frame_properties : Option FrameProperties
    pub payload_buffer_size : ℕ

  -- The fields that `SVR_Source_new` sets.
  abbrev pub blank : Bytes → Source
  blank name = record {
    name = name;
    encoding = none;
    encoding_options = none;
    encoder = none;
    frame_properties = none;
    payload_buffer_size = 4 * 1024;
  }

  abbrev pub encoder_of : Source → Encoder
  encoder_of src = elim src.encoder [ none ↦ Encoder.new | some e ↦ e ]

  -- The bytes that a message carries, whose `payload_size` is a `uint16_t`.
  abbrev pub carried : Bytes → Bytes
  carried p = take (length p % 65536) p

  -- The messages of the loop of `SVR_Source_sendFrame`: each payload in a Data message.
  abbrev pub messages_of : Source → Chunked → Option (List (List Bytes × Bytes) × Source)
  messages_of src (sent payloads e) = some (
    map (λ (p : Bytes). (data_word ∷ src.name ∷ [], carried p)) payloads,
    record src { encoder = some e },
  )
  messages_of src looping = none

  -- The end of `SVR_Source_sendFrame`.
  unfoldable pub send_encoded :
      (Encoder → Image → Option Encoder)
      → Source
      → FrameProperties
      → Frame
      → Option (ℕ × List (List Bytes × Bytes) × Source)
  send_encoded encode src p f =
      if fits f p
      then (do
        e ← encode (encoder_of src) f.1
        chunked ← send_ready src.payload_buffer_size e
        r ← messages_of src chunked
        some (success, r.0, r.1))
      else some (invalid_argument, [], record src { encoder = some (encoder_of src) })

  module _ (encodings : D.Dict Bytes) {S : Type 0}
      (ask_server : S → List Bytes → Option (Message × S)) where
    abbrev pub ask : S → List Bytes → Option (ℕ × S)
    ask s components = request D encodings ask_server s components

    -- `SVR_Source_setEncoding`
    abbrev pub encoded : Source → Bytes → Options D → ℕ × S → ℕ × Source × S
    encoded src e options (code, s) = (
      code,
      (if code == success
          then record src { encoding = some e; encoding_options = some options }
          else src),
      s,
    )

    abbrev pub choose_encoding :
        S → Source → Bytes → Options D → Option Bytes → Option (ℕ × Source × S)
    choose_encoding s src descriptor options none = some (no_such_encoding, src, s)
    choose_encoding s src descriptor options (some e) = do
      r ← ask s (source_encoding_word ∷ src.name ∷ descriptor ∷ [])
      some (encoded src e options r)

    abbrev pub use_options : S → Source → Bytes → Parsed (Options D) → Option (ℕ × Source × S)
    use_options s src descriptor (parsed options) = do
      found ← encoding_of D encodings options
      choose_encoding s src descriptor options found
    use_options s src descriptor (failed r) = some (parse_error, src, s)
    use_options s src descriptor stuck = none

    unfoldable pub set_encoding : S → Source → Bytes → Option (ℕ × Source × S)
    set_encoding s src descriptor = use_options s src descriptor (parse D descriptor)

    -- `SVR_Source_new`: jpeg, and raw if that fails.
    abbrev pub default_encoding : S → Source → Option (Source × S)
    default_encoding s src = do
      first ← set_encoding s src jpeg_name
      (if first.0 == success
          then some (first.1, first.2)
          else (do second ← set_encoding first.2 first.1 raw_name; some (second.1, second.2)))

    unfoldable pub new : S → Bytes → Option (Option Source × S)
    new s name = do
      r ← ask s (source_open_word ∷ client_word ∷ name ∷ [])
      (if r.0 == success
          then (do made ← default_encoding r.1 (blank name); some (some made.0, made.1))
          else some (none, r.1))

    -- `SVR_Source_destroy`, before the memory is freed.
    unfoldable pub destroy : S → Source → Option (ℕ × S)
    destroy s src = ask s (source_close_word ∷ src.name ∷ [])

    -- `SVR_Source_setFrameProperties`
    unfoldable pub set_frame_properties : S → Source → FrameProperties → Option (ℕ × Source × S)
    set_frame_properties s src p = do
      r ← ask s (source_properties_word ∷ src.name ∷ to_string p ∷ [])
      some (r.0, (if r.0 == success then record src { frame_properties = some p } else src), r.1)

    -- `SVR_Source_sendFrame`: the code, the messages that it sends, the source and the server.
    abbrev pub Sending : Type 0
    Sending = ℕ × List (List Bytes × Bytes) × Source × S

    abbrev pub send_with :
        (Encoder → Image → Option Encoder)
        → S
        → Source
        → Frame
        → Option FrameProperties
        → Option Sending
    send_with encode s src f none = none
    send_with encode s src f (some p) = do r ← send_encoded encode src p f; some (r.0, r.1, r.2, s)

    -- The properties of the first frame, as `uint16_t`s and `uint8_t`s.
    abbrev pub derived : FrameProperties → FrameProperties
    derived p = record {
      width = p.width % 65536;
      height = p.height % 65536;
      depth = p.depth % 256;
      channels = p.channels % 256;
    }

    abbrev pub first_properties :
        S → Source → Frame → Option FrameProperties → Option (ℕ × Source × S)
    first_properties s src f none = set_frame_properties s src (derived f.0)
    first_properties s src f (some p) = some (success, src, s)

    unfoldable pub send_frame :
        (Encoder → Image → Option Encoder) → S → Source → Frame → Option Sending
    send_frame encode s src f = elim src.encoding [
      | none ↦ some (invalid_state, [], src, s)
      | some e ↦ (do
        r ← first_properties s src f src.frame_properties
        (if r.0 == success
            then send_with encode r.2 r.1 f r.1.frame_properties
            else some (r.0, [], r.1, r.2)))
    ]

    -- `SVR_openServerSource` and `SVR_closeServerSource`
    unfoldable pub open_server_source : S → Bytes → Bytes → Option (ℕ × S)
    open_server_source s name descriptor =
        ask s (source_open_word ∷ server_word ∷ name ∷ descriptor ∷ [])

    unfoldable pub close_server_source : S → Bytes → Option (ℕ × S)
    close_server_source s name = ask s (source_close_word ∷ name ∷ [])

    unfoldable pub get_sources_list : S → Option (List Bytes × S)
    get_sources_list s = do r ← ask_server s (list_sources_word ∷ []); some (sources_of r.0, r.1)
