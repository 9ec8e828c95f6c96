-- ===== src/Server/Handlers.antt =====
-- server/messagehandlers.c: the requests of a client. A handler gets the client and the rest of the
-- server in one world, and leaves the world, or `none` where it uses a NULL pointer.
pub mod Leaks
use svr.Base.{
  ℕ, ◌==◌, [], ◌∷◌, Option, none, some, Bytes, if◌then◌else◌, ◌>>=◌, get_elem?, not, is_some,
}
use svr.Base.Dict.{Dictionary}
use svr.FrameProperties.{atoi, to_string}
use svr.Message.{Message}
use svr.Server.State.{Source, Stream, World, success, no_such_stream, no_such_source, name_clash}
use svr.Server.Streams
use svr.Server.Sources
use svr.Server.Clients.{
  reply, reply_code, get_stream, get_source, put_stream, open_stream, close_stream, kick,
}
use svr.Server.Words.{invalid_message, get_info_word}

module _ (D : Dictionary) where
  -- The lookups, with the code that answers a name that is not there.
  abbrev pub on_found :
      {A : Type 0} → World D → Message → ℕ → Option A → (A → Option (World D)) → Option (World D)
  on_found w m code none act = some (reply_code D w m code)
  on_found w m code (some a) act = act a

  abbrev pub with_stream :
      World D → Message → Bytes → (Stream D → Option (World D)) → Option (World D)
  with_stream w m name act = on_found w m no_such_stream (get_stream D w name) act

  abbrev pub with_source : World D → Message → Bytes → (ℕ → Option (World D)) → Option (World D)
  with_source w m name act = on_found w m no_such_source (get_source D w name) act

  abbrev pub reply_stream : World D → Message → Bytes → ℕ × Stream D → World D
  reply_stream w m name (code, s) = reply_code D (put_stream D w name s) m code

  -- `SVRD_Stream_rOpen`
  unfoldable pub stream_open : World D → Message → Option (World D)
  stream_open w m =
      if m.count == 2
      then (do
        name ← get_elem? m.components 1
        (if is_some (get_stream D w name)
            then some (reply_code D w m name_clash)
            else (do w' ← open_stream D w name; some (reply_code D w' m success))))
      else kick D w invalid_message

  -- `SVRD_Stream_rClose`
  unfoldable pub stream_close : World D → Message → Option (World D)
  stream_close w m =
      if m.count == 2
      then (do
        name ← get_elem? m.components 1
        with_stream w m name (λ s. do w' ← close_stream D w name; some (reply_code D w' m success)))
      else kick D w invalid_message

  abbrev pub source_name : World D → Option ℕ → Bytes
  source_name w none = []
  source_name w (some id) = (w.store id).name

  -- `SVRD_Stream_rGetInfo`
  unfoldable pub stream_get_info : World D → Message → Option (World D)
  stream_get_info w m =
      if m.count == 2
      then (do
        name ← get_elem? m.components 1
        with_stream w m name (λ s. do
          e ← s.encoding
          p ← s.frame_properties
          some (reply D w m (get_info_word ∷ source_name w s.source ∷ e ∷ to_string p ∷ []))))
      else kick D w invalid_message

  -- `SVRD_Stream_rPause`
  unfoldable pub stream_pause : World D → Message → Option (World D)
  stream_pause w m =
      if m.count == 2
      then (do
        name ← get_elem? m.components 1
        with_stream w m name
            (λ s. do s' ← Streams.pause D s; some (reply_stream w m name (success, s'))))
      else kick D w invalid_message

  -- `SVRD_Stream_rUnpause`
  unfoldable pub stream_unpause : World D → Message → Option (World D)
  stream_unpause w m =
      if m.count == 2
      then (do
        name ← get_elem? m.components 1
        with_stream w m name (λ s. some (reply_stream w m name (success, Streams.unpause D s))))
      else kick D w invalid_message

  -- `SVRD_Stream_rResize`
  unfoldable pub stream_resize : World D → Message → Option (World D)
  stream_resize w m =
      if m.count == 4
      then (do
        name ← get_elem? m.components 1
        width ← get_elem? m.components 2
        height ← get_elem? m.components 3
        with_stream w m name (λ s. do
          r ← Streams.resize D w.store s (atoi width) (atoi height)
          some (reply_stream w m name r)))
      else kick D w invalid_message

  -- `SVRD_Stream_rSetChannels`
  unfoldable pub stream_set_channels : World D → Message → Option (World D)
  stream_set_channels w m =
      if m.count == 3
      then (do
        name ← get_elem? m.components 1
        channels ← get_elem? m.components 2
        with_stream w m name (λ s. do
          r ← Streams.set_channels D w.store s (atoi channels)
          some (reply_stream w m name r)))
      else kick D w invalid_message

  -- The end of `SVRD_Stream_rAttachSource`: a source that is not attached is released.
  abbrev pub attached : World D → Message → Bytes → ℕ → ℕ × (ℕ → Source) × Stream D → World D
  attached w m name id (err, store, s) =
      let store' = if not (err == success) then Streams.unref_source store id else store in
      reply_stream (record w { store = store' }) m name (err, s)

  -- `SVRD_Stream_rAttachSource`
  unfoldable pub stream_attach_source : World D → Message → Option (World D)
  stream_attach_source w m =
      if m.count == 3
      then (do
        name ← get_elem? m.components 1
        source ← get_elem? m.components 2
        with_stream w m name (λ s.
            on_found w m no_such_source (Sources.get_by_name D w source)
              (λ r. some (attached r.1 m name r.0 (Streams.attach_source D r.1.store s r.0)))))
      else kick D w invalid_message

  -- `SVRD_Stream_rSetPriority`
  unfoldable pub stream_set_priority : World D → Message → Option (World D)
  stream_set_priority w m =
      if m.count == 3
      then (do
        name ← get_elem? m.components 1
        priority ← get_elem? m.components 2
        with_stream w m name
            (λ s. some (reply_stream w m name (Streams.set_priority D s (atoi priority)))))
      else kick D w invalid_message

  -- `SVRD_Stream_rSetDropRate`
  unfoldable pub stream_set_drop_rate : World D → Message → Option (World D)
  stream_set_drop_rate w m =
      if m.count == 3
      then (do
        name ← get_elem? m.components 1
        rate ← get_elem? m.components 2
        with_stream w m name
            (λ s. some (reply_stream w m name (Streams.set_drop_rate D s (atoi rate)))))
      else kick D w invalid_message

  -- `SVRD_Stream_rSetEncoding`
  unfoldable pub stream_set_encoding : World D → Message → Option (World D)
  stream_set_encoding w m =
      if m.count == 3
      then (do
        name ← get_elem? m.components 1
        descriptor ← get_elem? m.components 2
        with_stream w m name (λ s. do
          r ← Streams.set_encoding D w.encodings s descriptor
          some (reply_stream w m name r)))
      else kick D w invalid_message
