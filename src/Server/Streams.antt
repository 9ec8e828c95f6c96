-- ===== src/Server/Streams.antt =====
-- server/stream.c: the operations on a stream. `none` is the use of a NULL pointer. An operation
-- that returns a code gives it with the stream; one that also touches a source gives the store.
pub mod Ready
pub mod Kept
pub mod Operations
pub mod Reachable
pub mod Opened
use svr.Base.{
  ℕ, zero, suc, ◌+◌, ◌-◌, ◌*◌, ◌%◌, ◌^◌, List, [], ◌∷◌, Option, none, some, Bytes, ◌==◌,
  if◌then◌else◌, Bool, true, false, ◌||◌, ◌&&◌, not, ◌>>=◌, is_some,
}
use svr.Base.Dict.{Dictionary}
use svr.OptionString.{Options, Parsed, parsed, failed, stuck, parse, name_key}
use svr.FrameProperties.{FrameProperties}
use svr.FrameProperties
use svr.Server.State.{
  StreamState, paused, unpaused, Source, Stream, success, no_such_encoding, invalid_argument,
  invalid_state, parse_error,
}

abbrev pub is_unpaused : StreamState → Bool
is_unpaused unpaused = true
is_unpaused paused = false

abbrev pub update : (ℕ → Source) → ℕ → Source → ℕ → Source
update store i s j = if i == j then s else store j

-- `SVR_REF` and `SVR_UNREF` of a source, a `uint32_t`. At zero the object goes to the collector.
abbrev pub ref_source : (ℕ → Source) → ℕ → ℕ → Source
ref_source store i =
    update store i (record (store i) { ref_count = ((store i).ref_count + 1) % 2 ^ 32 })

abbrev pub unref_source : (ℕ → Source) → ℕ → ℕ → Source
unref_source store i =
    update store i (record (store i) { ref_count = ((store i).ref_count + 2 ^ 32 - 1) % 2 ^ 32 })

abbrev pub raw_name : Bytes
raw_name = b'r' ∷ b'a' ∷ b'w' ∷ []

module _ (D : Dictionary) where
  -- `SVR_Encoding_getByName(Dictionary_get(options, "%name"))`: the outer option is a fault, for the
  -- name NULL of a string with no object.
  unfoldable pub encoding_of : D.Dict Bytes → Options D → Option (Option Bytes)
  encoding_of encodings options = do
    entry ← D.get (Option Bytes) options name_key
    name ← entry
    some (D.get Bytes encodings name)

  abbrev pub choose_encoding : Stream D → Options D → Option Bytes → ℕ × Stream D
  choose_encoding s options none = (no_such_encoding, s)
  choose_encoding s options (some e) =
      (success, record s { encoding = some e; encoding_options = some options })

  abbrev pub use_options : D.Dict Bytes → Stream D → Parsed (Options D) → Option (ℕ × Stream D)
  use_options encodings s (parsed options) = do
    found ← encoding_of encodings options
    some (choose_encoding s options found)
  use_options encodings s (failed r) = some (parse_error, s)
  use_options encodings s stuck = none

  -- `SVRD_Stream_setEncoding`
  unfoldable pub set_encoding : D.Dict Bytes → Stream D → Bytes → Option (ℕ × Stream D)
  set_encoding encodings s descriptor =
      if is_unpaused s.state
      then some (invalid_state, s)
      else use_options encodings s (parse D descriptor)

  abbrev pub blank : Bytes → Stream D
  blank name = record {
    name = name;
    has_client = false;
    source = none;
    encoding = none;
    encoding_options = none;
    encoder = none;
    frame_properties = some FrameProperties.new;
    state = paused;
    payload_buffer_size = 8 * 1024;
    drop_rate = 0;
    drop_counter = 0;
    priority = 1;
    temp_frame = (none, none);
    worker_started = false;
  }

  -- `SVRD_Stream_new`
  unfoldable pub new : D.Dict Bytes → Bytes → Option (Stream D)
  new encodings name = do r ← set_encoding encodings (blank name) raw_name; some r.1

  -- `SVRD_Stream_attachSource`
  unfoldable pub attach_source : (ℕ → Source) → Stream D → ℕ → ℕ × (ℕ → Source) × Stream D
  attach_source store s id =
      if is_unpaused s.state || not (is_some (store id).frame_properties)
      then (invalid_state, store, s)
      else (
        success,
        elim s.source [ none ↦ store | some old ↦ unref_source store old ],
        record s { source = some id; frame_properties = (store id).frame_properties },
      )

  -- `SVRD_Stream_detachSource`
  unfoldable pub detach_source : Stream D → ℕ × Stream D
  detach_source s =
      if is_unpaused s.state
      then (invalid_state, s)
      else (success, record s { source = none; frame_properties = none })

  -- `SVRD_Stream_setDropRate` and `SVRD_Stream_setPriority` (a `short`).
  unfoldable pub set_drop_rate : Stream D → ℕ → ℕ × Stream D
  set_drop_rate s rate = (success, record s { drop_rate = rate; drop_counter = 0 })

  unfoldable pub set_priority : Stream D → ℕ → ℕ × Stream D
  set_priority s priority = (success, record s { priority = priority % 65536 })

  -- `SVRD_Stream_reallocateTemporaryFrames`, from the properties of the stream and of its source.
  unfoldable pub temporary_frames :
      FrameProperties → FrameProperties → Option FrameProperties × Option FrameProperties
  temporary_frames p src =
      let resize = not (p.width == src.width) || not (p.height == src.height) in
      let color_convert = not (p.channels == src.channels) in
      if resize && color_convert
      then (some (record p { channels = src.channels }), some p)
      else if resize || color_convert
      then (some p, none)
      else (none, none)

  unfoldable pub reallocate_temporary_frames : (ℕ → Source) → Stream D → Option (Stream D)
  reallocate_temporary_frames store s = do
    id ← s.source
    src ← (store id).frame_properties
    p ← s.frame_properties
    some (record s { temp_frame = temporary_frames p src })

  abbrev pub has_source : Stream D → Bool
  has_source s = is_some s.source

  -- `SVRD_Stream_resize`
  unfoldable pub resize : (ℕ → Source) → Stream D → ℕ → ℕ → Option (ℕ × Stream D)
  resize store s width height =
      if is_unpaused s.state || not (has_source s) then some (invalid_state, s) else (do
        p ← s.frame_properties
        s' ← reallocate_temporary_frames store (record s {
          frame_properties = some (record p { width = width % 65536; height = height % 65536 });
        })
        some (success, s'))

  -- `SVRD_Stream_setChannels`
  unfoldable pub set_channels : (ℕ → Source) → Stream D → ℕ → Option (ℕ × Stream D)
  set_channels store s channels =
      if not (channels == 1) && not (channels == 3)
      then some (invalid_argument, s)
      else if is_unpaused s.state || not (has_source s)
      then some (invalid_state, s)
      else (do
        p ← s.frame_properties
        s' ←
            reallocate_temporary_frames store
              (record s { frame_properties = some (record p { channels = channels % 256 }) })
        some (success, s'))

  -- `SVRD_Stream_pause`. It wakes up the readers of the source, and so needs one.
  unfoldable pub pause : Stream D → Option (Stream D)
  pause s =
      if is_unpaused s.state then (do id ← s.source; some (record s { state = paused })) else some s

  -- `SVRD_Stream_initializeEncoder`, and the start of the worker, in `SVRD_Stream_unpause`.
  unfoldable pub unpause : Stream D → Stream D
  unpause s =
      if not (is_unpaused s.state) && s.has_client && is_some s.encoding && has_source s
      then record s { state = unpaused; encoder = s.frame_properties; worker_started = true }
      else s

  -- `SVRD_Stream_setClient` of a stream that has none yet, and `SVRD_Stream_destroy`, up to the
  -- references to the client that they take and drop. `destroy` gives the stream before it is freed.
  unfoldable pub set_client : Stream D → Stream D
  set_client s = record s { has_client = true }

  unfoldable pub destroy : Stream D → Option (Stream D)
  destroy s = do
    stopped ← pause s
    some (record (detach_source stopped).1 { encoder = none; temp_frame = (none, none) })

  -- `SVRD_Stream_sourceClosing`. The message goes to the client of the stream, and so needs one.
  abbrev pub tell_client : Stream D → Option (Stream D)
  tell_client s = if s.has_client then some s else none

  unfoldable pub source_closing : Stream D → Option (Stream D)
  source_closing s = do stopped ← pause s; tell_client (detach_source stopped).1
