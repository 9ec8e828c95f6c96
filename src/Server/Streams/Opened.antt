-- ===== src/Server/Streams/Opened.antt =====
-- server/stream.c: a stream that a client has opened does not fault.
use svr.Base.{ℕ, List, [], ◌∷◌, some, true, Bytes, ◌≡◌, refl}
use svr.Base.Dict.{Dictionary}
use svr.Server.State.{Source, Stream}
use svr.Server.Streams.{new, set_client}
use svr.Server.Streams.Ready.{IsReady}
use svr.Server.Streams.Operations.{StreamOp, IsEncoding}
use svr.Server.Streams.Reachable.{apply_all, apply-returns, new-IsReady}

module _ (D : Dictionary) (store : ℕ → Source) where
  -- None of the operations sets the encoding.
  abbrev pub KeepsEncoding : List (StreamOp D) → Type 0
  KeepsEncoding [] = Unit {0}
  KeepsEncoding (op ∷ ops) = (¬ IsEncoding D store op) × KeepsEncoding ops

  apply_all-returns :
      (ops : List (StreamOp D)) (s : Stream D)
      → KeepsEncoding ops
      → s.has_client ≡ true
      → IsReady D store s
      → (s' : Stream D) × (apply_all D store ops s ≡ some s')
        × IsReady D store s'
        × (s'.has_client ≡ true)
  unfolding apply_all
  apply_all-returns [] s k c r = (s, refl, r, c)
  apply_all-returns (op ∷ ops) s k c r =
      let (mid, first, r', c') = apply-returns D store op s k.0 c r in
      let (s', rest, r'', c'') = apply_all-returns ops mid k.1 c' r' in
      (s', rw first rest, r'', c'')

  -- On a stream that a client has opened any sequence of operations, pausing, unpausing, attaching and detaching
  -- sources, the closing of its source, resizing, setting channels, drop rate and priority, uses no NULL pointer, as
  -- long as none of them sets the encoding; and the stream is ready afterwards and has its client.
  pub opened-returns :
      (encodings : D.Dict Bytes) (name : Bytes) (s : Stream D) (ops : List (StreamOp D))
      → new D encodings name ≡ some s
      → KeepsEncoding ops
      → (s' : Stream D) × (apply_all D store ops (set_client D s) ≡ some s')
        × IsReady D store s'
        × (s'.has_client ≡ true)
  unfolding set_client
  opened-returns encodings name s ops made k =
      apply_all-returns ops (set_client D s) k refl (new-IsReady D store encodings name s made)
