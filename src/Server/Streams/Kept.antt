-- ===== src/Server/Streams/Kept.antt =====
-- No operation takes a stream's client away.
use svr.Base.{ℕ, some, ◌≡◌, arith}
use svr.Base.Dict.{Dictionary}
use svr.Server.State.{Source, Stream}
use svr.Server.Streams.{
  reallocate_temporary_frames, resize, set_channels, attach_source, unpause, pause, detach_source,
  source_closing,
}
use svr.Server.Streams.Ready.{second}

module _ (D : Dictionary) (store : ℕ → Source) where
  pub attach-has_client :
      (s : Stream D) (id : ℕ) → (attach_source D store s id).2.has_client ≡ s.has_client
  unfolding attach_source
  attach-has_client s id = ground arith

  pub unpause-has_client : (s : Stream D) → (unpause D s).has_client ≡ s.has_client
  unfolding unpause
  unpause-has_client s = ground arith

  pub reallocate-has_client :
      (s s' : Stream D)
      → reallocate_temporary_frames D store s ≡ some s'
      → s'.has_client ≡ s.has_client
  unfolding reallocate_temporary_frames
  reallocate-has_client s s' e = ground arith

  pub resize-has_client :
      (s : Stream D) (width height : ℕ) (s' : Stream D)
      → second D store (resize D store s width height) ≡ some s'
      → s'.has_client ≡ s.has_client
  unfolding resize reallocate_temporary_frames
  resize-has_client s width height s' e = ground arith

  pub set_channels-has_client :
      (s : Stream D) (channels : ℕ) (s' : Stream D)
      → second D store (set_channels D store s channels) ≡ some s'
      → s'.has_client ≡ s.has_client
  unfolding set_channels reallocate_temporary_frames
  set_channels-has_client s channels s' e = ground arith

  pub pause-has_client : (s m : Stream D) → pause D s ≡ some m → m.has_client ≡ s.has_client
  unfolding pause
  pause-has_client s m e = ground arith

  pub detach-has_client : (s : Stream D) → (detach_source D s).1.has_client ≡ s.has_client
  unfolding detach_source
  detach-has_client s = ground arith

  pub closing-has_client :
      (s m : Stream D) → source_closing D s ≡ some m → m.has_client ≡ s.has_client
  unfolding source_closing pause detach_source
  closing-has_client s m e = ground arith
