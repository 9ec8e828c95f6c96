-- ===== src/Server/Sources.antt =====
-- server/source.c: the sources that are registered, and the operations on one of them.
use svr.Base.{
  ℕ, ◌+◌, Option, none, some, Bytes, if◌then◌else◌, Bool, true, false, ◌||◌, ◌&&◌, not, ◌>>=◌,
  is_some,
}
use svr.Base.Dict.{Dictionary}
use svr.OptionString.{Options, Parsed, parsed, failed, stuck, parse, name_key}
use svr.FrameProperties.{FrameProperties}
use svr.Server.State.{
  Source, World, success, no_such_encoding, invalid_argument, invalid_state, parse_error,
  unknown_error,
}
use svr.Server.Streams.{update, ref_source, unref_source, encoding_of}

-- `SVRD_Source_setFrameProperties`
unfoldable pub set_frame_properties : Source → FrameProperties → ℕ × Source
set_frame_properties src p =
    if src.decoder
    then (invalid_state, src)
    else (success, record src { frame_properties = some p })

-- `SVRD_Source_provideData`: the code, and the source with a decoder. The frames that the decoder
-- makes of the data are the encoding's.
unfoldable pub provide_data : Source → ℕ × Source
provide_data src =
    if not src.decoder && (not (is_some src.encoding) || not (is_some src.frame_properties))
    then (invalid_state, src)
    else (success, record src { decoder = true })

-- `SVRD_Source_new`, the object.
abbrev pub blank : Bytes → Source
blank name = record {
  name = name;
  encoding = none;
  decoder = false;
  frame_properties = none;
  kind = none;
  closed = false;
  ref_count = 1;
}

module _ (D : Dictionary) where
  abbrev pub choose_encoding : Source → Option Bytes → ℕ × Source
  choose_encoding src none = (no_such_encoding, src)
  choose_encoding src (some e) = (success, record src { encoding = some e })

  abbrev pub use_options : D.Dict Bytes → Source → Parsed (Options D) → Option (ℕ × Source)
  use_options encodings src (parsed options) = do
    found ← encoding_of D encodings options
    some (choose_encoding src found)
  use_options encodings src (failed r) = some (parse_error, src)
  use_options encodings src stuck = none

  -- `SVRD_Source_setEncoding`
  unfoldable pub set_encoding : D.Dict Bytes → Source → Bytes → Option (ℕ × Source)
  set_encoding encodings src descriptor =
      if src.decoder
      then some (invalid_state, src)
      else use_options encodings src (parse D descriptor)

  abbrev pub put_source : World D → ℕ → Source → World D
  put_source w id src = record w { store = update w.store id src }

  -- `SVRD_Source_exists`
  abbrev pub exists : World D → Bytes → Bool
  exists w name = is_some (D.get ℕ w.sources name)

  -- `SVRD_Source_getByName`, with the reference that it takes; `SVRD_Source_getLockedSource` is the same
  -- up to the lock.
  unfoldable pub get_by_name : World D → Bytes → Option (ℕ × World D)
  get_by_name w name = do
    id ← D.get ℕ w.sources name
    some (id, record w { store = ref_source w.store id })

  -- `SVRD_Source_new`: `none` for a name that is taken.
  unfoldable pub new : World D → Bytes → Option (ℕ × World D)
  new w name =
      if exists w name
      then none
      else some (
        w.next,
        record w {
          store = update w.store w.next (blank name);
          next = w.next + 1;
          sources = D.set ℕ w.sources name w.next;
        },
      )

  -- `SVRD_Source_destroy`. The provider's `close` stops its thread.
  unfoldable pub destroy : World D → ℕ → World D
  destroy w id =
      if (w.store id).closed
      then w
      else (let w' = put_source w id (record (w.store id) { closed = true }) in
          if not (exists w' (w.store id).name) then w' else record w' {
            sources = D.remove ℕ w'.sources (w.store id).name;
            store = unref_source w'.store id;
          })

  -- The types of source are the programs under server/sources: `open_type` opens a source of a type,
  -- with the world afterwards, or returns NULL.
  module _ (open_type : Bytes → Bytes → Options D → World D → Option ℕ × World D) where
    abbrev pub opened : Bytes → Option ℕ × World D → ℕ × Option ℕ × World D
    opened type (none, w) = (unknown_error, none, w)
    opened type (some id, w) =
        (success, some id, put_source w id (record (w.store id) { kind = some type }))

    abbrev pub open_named : World D → Bytes → Options D → Option Bytes → ℕ × Option ℕ × World D
    open_named w name options none = (invalid_argument, none, w)
    open_named w name options (some type) = opened type (open_type type name options w)

    abbrev pub open_parsed : World D → Bytes → Parsed (Options D) → Option (ℕ × Option ℕ × World D)
    open_parsed w name (parsed options) = do
      entry ← D.get (Option Bytes) options name_key
      type ← entry
      some (open_named w name options (D.get Bytes w.source_types type))
    open_parsed w name (failed r) = some (parse_error, none, w)
    open_parsed w name stuck = none

    -- `SVRD_Source_openInstance`
    unfoldable pub open_instance : World D → Bytes → Bytes → Option (ℕ × Option ℕ × World D)
    open_instance w name descriptor = open_parsed w name (parse D descriptor)
