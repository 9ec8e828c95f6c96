-- ===== src/Server/Streams/Operations.antt =====
-- The operations on a stream, as steps. The store is that of the sources; the reference counts in it,
-- which attaching a source changes, no operation on a stream looks at.
use svr.Base.{ℕ, Option, some, Bytes, ◌≡◌, refl}
use svr.Base.Dict.{Dictionary}
use svr.Server.State.{Source, Stream}
use svr.Server.Streams.{
  set_encoding, attach_source, detach_source, set_drop_rate, set_priority, resize, set_channels,
  pause, unpause, source_closing,
}
use svr.Server.Streams.Kept.{
  attach-has_client, unpause-has_client, resize-has_client, set_channels-has_client,
  pause-has_client, detach-has_client, closing-has_client,
}
use svr.Server.Streams.Ready.{second}

module _ (D : Dictionary) where
  -- The operations, with their arguments.
  pub data StreamOp : Type 0 where
    pausing unpausing detaching closing : StreamOp
    attaching : ℕ → StreamOp
    encoding : D.Dict Bytes → Bytes → StreamOp
    resizing : ℕ → ℕ → StreamOp
    channelling : ℕ → StreamOp
    dropping : ℕ → StreamOp
    preferring : ℕ → StreamOp

  module _ (store : ℕ → Source) where
    unfoldable pub apply : StreamOp → Stream D → Option (Stream D)
    apply pausing s = pause D s
    apply unpausing s = some (unpause D s)
    apply detaching s = some (detach_source D s).1
    apply closing s = source_closing D s
    apply (attaching id) s = some (attach_source D store s id).2
    apply (encoding encodings descriptor) s = second D store (set_encoding D encodings s descriptor)
    apply (resizing width height) s = second D store (resize D store s width height)
    apply (channelling channels) s = second D store (set_channels D store s channels)
    apply (dropping rate) s = some (set_drop_rate D s rate).1
    apply (preferring priority) s = some (set_priority D s priority).1

    -- Setting the encoding faults on a descriptor without a name.
    abbrev pub IsEncoding : StreamOp → Type 0
    IsEncoding (encoding encodings descriptor) = Unit {0}
    IsEncoding _ = ⊥

    -- No operation takes the client away.
    pub apply-has_client :
        (op : StreamOp) (s s' : Stream D)
        → ¬ IsEncoding op
        → apply op s ≡ some s'
        → s'.has_client ≡ s.has_client
    unfolding apply set_drop_rate set_priority
    apply-has_client (encoding encodings descriptor) s s' n e = absurd (n tt)
    apply-has_client pausing s s' n e = pause-has_client D store s s' e
    apply-has_client closing s s' n e = closing-has_client D store s s' e
    apply-has_client unpausing s s' n e =
        let is : unpause D s ≡ s' = cc in rw (← is) (unpause-has_client D store s)
    apply-has_client detaching s s' n e =
        let is : (detach_source D s).1 ≡ s' = cc in rw (← is) (detach-has_client D store s)
    apply-has_client (attaching id) s s' n e =
        let is : (attach_source D store s id).2 ≡ s' = cc in
        rw (← is) (attach-has_client D store s id)
    apply-has_client (resizing w h) s s' n e = resize-has_client D store s w h s' e
    apply-has_client (channelling c) s s' n e = set_channels-has_client D store s c s' e
    apply-has_client (dropping d) s s' n e =
        let is : (set_drop_rate D s d).1 ≡ s' = cc in rw (← is) refl
    apply-has_client (preferring p) s s' n e =
        let is : (set_priority D s p).1 ≡ s' = cc in rw (← is) refl
