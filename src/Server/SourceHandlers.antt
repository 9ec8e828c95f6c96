-- ===== src/Server/SourceHandlers.antt =====
-- server/messagehandlers.c: the requests about sources.
use svr.Base.{
  ℕ, ◌==◌, List, [], ◌∷◌, ◌++◌, Option, none, some, Bytes, if◌then◌else◌, ◌>>=◌, get_elem?, same,
  not, is_some,
}
use svr.Base.Dict.{Dictionary}
use svr.OptionString.{Options}
use svr.FrameProperties.{from_string}
use svr.Message.{Message}
use svr.Server.State.{Source, World, success, no_such_source, name_clash, invalid_argument}
use svr.Server.Streams.{unref_source}
use svr.Server.Sources
use svr.Server.Clients.{reply, reply_code, get_source, provide_source, unprovide_source, kick}
use svr.Server.Handlers.{on_found, with_source}
use svr.Server.Words.{
  invalid_message, sources_list_word, client_word, server_word, jpeg_word, client_prefix,
  server_prefix,
}

module _ (D : Dictionary) where
  abbrev pub unref : World D → ℕ → World D
  unref w id = record w { store = unref_source w.store id }

  -- `SVRD_Source_rOpen` of a source that the client provides: the result of setting the encoding is
  -- not looked at.
  abbrev pub open_client_source : World D → Message → Bytes → Option (World D)
  open_client_source w m name = on_found D w m name_clash (Sources.new D w name) (λ r. do
    e ← Sources.set_encoding D r.1.encodings (r.1.store r.0) jpeg_word
    some (reply_code D (provide_source D (Sources.put_source D r.1 r.0 e.1) r.0) m success))

  -- `open_type` opens a source of a type of the server.
  module _ (open_type : Bytes → Bytes → Options D → World D → Option ℕ × World D) where
    abbrev pub answer_open : Message → ℕ × Option ℕ × World D → World D
    answer_open m (err, none, w) = reply_code D w m err
    answer_open m (err, some id, w) = reply_code D w m success

    abbrev pub open_client : World D → Message → Option (World D)
    open_client w m = do
      origin ← get_elem? m.components 1
      name ← get_elem? m.components 2
      (if not (same origin client_word)
          then some (reply_code D w m invalid_argument)
          else if Sources.exists D w name
          then some (reply_code D w m name_clash)
          else open_client_source w m name)

    abbrev pub open_server : World D → Message → Option (World D)
    open_server w m = do
      origin ← get_elem? m.components 1
      name ← get_elem? m.components 2
      descriptor ← get_elem? m.components 3
      (if not (same origin server_word)
          then some (reply_code D w m invalid_argument)
          else if Sources.exists D w name
          then some (reply_code D w m name_clash)
          else (do r ← Sources.open_instance D open_type w name descriptor; some (answer_open m r)))

    -- `SVRD_Source_rOpen`
    unfoldable pub source_open : World D → Message → Option (World D)
    source_open w m =
        if m.count == 3
        then open_client w m
        else if m.count == 4
        then open_server w m
        else kick D w invalid_message

  abbrev pub reply_source : World D → Message → ℕ → ℕ × Source → World D
  reply_source w m id (code, src) = reply_code D (Sources.put_source D w id src) m code

  -- `SVRD_Source_rSetEncoding`
  unfoldable pub source_set_encoding : World D → Message → Option (World D)
  source_set_encoding w m =
      if m.count == 3
      then (do
        name ← get_elem? m.components 1
        descriptor ← get_elem? m.components 2
        with_source D w m name (λ id. do
          r ← Sources.set_encoding D w.encodings (w.store id) descriptor
          some (reply_source w m id r)))
      else kick D w invalid_message

  -- `SVRD_Source_rSetFrameProperties`
  unfoldable pub source_set_frame_properties : World D → Message → Option (World D)
  source_set_frame_properties w m =
      if m.count == 3
      then (do
        name ← get_elem? m.components 1
        properties ← get_elem? m.components 2
        with_source D w m name (λ id. some (
            reply_source w m id
              (Sources.set_frame_properties (w.store id) (from_string properties)))))
      else kick D w invalid_message

  -- `SVRD_Source_rData`: no reply if the source is there.
  unfoldable pub source_data : World D → Message → Option (World D)
  source_data w m =
      if m.count == 2
      then (do
        name ← get_elem? m.components 1
        with_source D w m name
            (λ id. some (Sources.put_source D w id (Sources.provide_data (w.store id)).1)))
      else kick D w invalid_message

  abbrev pub close_source : World D → Message → ℕ → World D
  close_source w m id = reply_code D (unref (Sources.destroy D w id) id) m success

  -- `SVRD_Source_rClose`
  unfoldable pub source_close : World D → Message → Option (World D)
  source_close w m =
      if m.count == 2
      then (do
        name ← get_elem? m.components 1
        on_found D w m no_such_source (Sources.get_by_name D w name) (λ r.
            if is_some (r.1.store r.0).kind
            then some (close_source r.1 m r.0)
            else if not (is_some (get_source D r.1 name))
            then some (unref (reply_code D r.1 m invalid_argument) r.0)
            else some (close_source (unprovide_source D r.1 r.0) m r.0)))
      else kick D w invalid_message

  -- The entry of a source in the list, and the loop over the names.
  abbrev pub entry_of : Source → Bytes
  entry_of src = (if is_some src.kind then server_prefix else client_prefix) ++ src.name

  abbrev pub list_more : World D → Option ℕ → List Bytes → List Bytes
  list_more w none more = more
  list_more w (some id) more = entry_of (w.store id) ∷ more

  unfoldable pub list_sources : World D → List Bytes → List Bytes
  list_sources w [] = []
  list_sources w (name ∷ names) = list_more w (D.get ℕ w.sources name) (list_sources w names)

  -- `SVRD_Source_rGetSourcesList`. A message with arguments is not answered. The reference that the
  -- loop takes of a source it drops again.
  unfoldable pub get_sources_list : World D → Message → Option (World D)
  get_sources_list w m =
      if not (m.count == 1)
      then some w
      else some (reply D w m (sources_list_word ∷ list_sources w (D.keys ℕ w.sources)))

  -- `SVRD_Event_rRegister` and `SVRD_Event_rUnregister`
  unfoldable pub event_register : World D → Message → Option (World D)
  event_register w m = some w

  unfoldable pub event_unregister : World D → Message → Option (World D)
  event_unregister w m = some w
