-- ===== src/Client/Frames.antt =====
-- lib/stream.c: the streams of a client under their names, and the data that arrives for them. The list
-- lock is a mutex that its holder cannot take again: an operation on a library whose list is locked
-- waits forever, which is `none`, as is the use of a NULL pointer. `SVR_LOCK` of a stream makes an
-- operation one step.
pub mod Newest
pub mod Raw
pub mod Locked
use svr.Base.{
  ℕ, ◌+◌, ◌%◌, ◌^◌, List, [], ◌∷◌, ◌++◌, Option, none, some, Bytes, Bool, true, false, ◌==◌,
  if◌then◌else◌, ◌>>=◌,
}
use svr.Base.Dict.{Dictionary}
use svr.Message.{Message}
use svr.Decoder.{Image, Decoder, get_frame, return_frame}
use svr.Server.State.{paused, success}
use svr.Client.Streams.{Stream, blank, return_to, open_on_server, close}

-- `frame = SVR_Decoder_getFrame(decoder); SVR_Decoder_returnFrame(decoder, frame)`
abbrev pub give_back : Option Image × Decoder → Decoder
give_back (none, d) = d
give_back (some f, d) = return_frame d f

-- The loop of `SVR_Stream_provideData`, over the frames that are ready: all but one are returned.
unfoldable pub drain : List Image → Decoder → Decoder
drain [] d = d
drain (f ∷ []) d = d
drain (f ∷ g ∷ fs) d = drain (g ∷ fs) (give_back (get_frame d))

abbrev pub with_current : Option Image → Decoder → Decoder
with_current none d = d
with_current (some f) d = return_frame d f

-- The frames that are ready, once the data is decoded.
abbrev pub take_newest : Stream → Bytes → Decoder → List Image → Stream
take_newest st e d [] = record st { decoder = some (e, d) }
take_newest st e d (f ∷ fs) =
    let last_ = get_frame (drain (f ∷ fs) (with_current st.current_frame d)) in
    record st { current_frame = last_.0; decoder = some (e, last_.1) }

module _ (decode : Bytes → Decoder → Bytes → Option Decoder) where
  -- What `SVR_Stream_provideData` does to the stream.
  unfoldable pub provide : Stream → Bytes → Option Stream
  provide st bs = do
    decoder ← st.decoder
    d ← decode decoder.0 decoder.1 bs
    some (take_newest st decoder.0 d d.ready_frames)

module _ (D : Dictionary) where
  -- The static variables. `server` is what the requests are answered by.
  pub record Library (S : Type 0) : Type 0 where
    pub streams : D.Dict Stream
    pub list_locked : Bool
    pub last_stream_num : ℕ
    pub new_global_data : Bool
    pub server : S

  module _ {S : Type 0} where
    abbrev pub lock_list : Library S → Option (Library S)
    lock_list l = if l.list_locked then none else some (record l { list_locked = true })

    abbrev pub unlock_list : Library S → Library S
    unlock_list l = record l { list_locked = false }

    -- `SVR_Stream_init`
    abbrev pub init : S → Library S
    init s = record {
      streams = D.new Stream;
      list_locked = false;
      last_stream_num = 0;
      new_global_data = false;
      server = s;
    }

    abbrev pub put : Library S → Bytes → Stream → Library S
    put l name st = record l { streams = D.set Stream l.streams name st }

    -- The end of `SVR_Stream_setOrphaned` and of `SVR_Stream_provideData`.
    abbrev pub notify : Library S → Library S
    notify l = record l { new_global_data = true }

    -- `SVR_Stream_getByName`
    abbrev pub get_by_name : Library S → Bytes → Option Stream
    get_by_name l name = D.get Stream l.streams name

    -- `SVR_Stream_setOrphaned`. For an unknown name it returns with the list locked.
    abbrev pub orphan : Library S → Bytes → Option Stream → Library S
    orphan l name none = l
    orphan l name (some st) =
        notify (put (unlock_list l) name (record st { orphaned = true; state = paused }))

    unfoldable pub set_orphaned : Library S → Bytes → Option (Library S)
    set_orphaned l name = do
      locked ← lock_list l
      some (orphan locked name (get_by_name locked name))

    -- `SVR_Stream_provideData`. For an unknown name it returns with the list locked.
    abbrev pub provide_found :
        (Bytes → Decoder → Bytes → Option Decoder)
        → Library S
        → Bytes
        → Bytes
        → Option Stream
        → Option (Library S)
    provide_found decode l name bs none = some l
    provide_found decode l name bs (some st) = do
      st' ← provide decode st bs
      some (notify (put (unlock_list l) name st'))

    unfoldable pub provide_data :
        (Bytes → Decoder → Bytes → Option Decoder) → Library S → Bytes → Bytes → Option (Library S)
    provide_data decode l name bs = do
      locked ← lock_list l
      provide_found decode locked name bs (get_by_name locked name)

    -- `SVR_Stream_sync` returns at once when there is new data; none is a wait.
    unfoldable pub sync : Library S → Option (Library S)
    sync l = if l.new_global_data then some (record l { new_global_data = false }) else none

    module _ (encodings : D.Dict Bytes) (ask_server : S → List Bytes → Option (Message × S)) where
      -- The end of `SVR_Stream_open`, and of `SVR_Stream_new`, which returns NULL if it fails.
      abbrev pub save : Library S → ℕ × Stream × S → Option (Option Stream × Library S)
      save l (code, st, s) =
          if code == success
          then (do
            locked ← lock_list (record l { server = s })
            some (some st, unlock_list (put locked st.stream_name st)))
          else some (none, record l { server = s })

      -- `SVR_Stream_new`
      unfoldable pub new : Library S → Bytes → Option (Option Stream × Library S)
      new l source_name = do
        r ← open_on_server D encodings ask_server l.server (blank l.last_stream_num source_name)
        save (record l { last_stream_num = (l.last_stream_num + 1) % 2 ^ 32 }) r

      -- `SVR_Stream_destroy`
      unfoldable pub destroy : Library S → Stream → Option (Library S)
      destroy l st = do
        r ← close D encodings ask_server l.server st
        locked ← lock_list (record l { server = r.1 })
        some (
            unlock_list (record locked { streams = D.remove Stream locked.streams st.stream_name }))
