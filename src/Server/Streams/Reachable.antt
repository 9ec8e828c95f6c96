-- ===== src/Server/Streams/Reachable.antt =====
-- Every sequence of operations on a stream.
use svr.Base.{
  ℕ, List, [], ◌∷◌, Option, none, some, true, Bool-cases, Bytes, ◌>>=◌, ◌≡◌, refl, sym, ◌∙◌, arith,
  Option-cases, inl, inr,
}
use svr.Base.Dict.{Dictionary}
use svr.Server.State.{Source, Stream}
use svr.Server.Streams.{
  new, blank, attach_source, detach_source, set_drop_rate, set_priority, unpause, set_client,
  source_closing, raw_name,
}
use svr.Server.Streams.Kept.{pause-has_client, detach-has_client}
use svr.Server.Streams.Ready.{
  IsReady, pause-IsReady, detach-IsReady, unpause-IsReady, attach-IsReady, resize-IsReady,
  set_channels-IsReady, set_encoding-IsReady,
}
use svr.Server.Streams.Operations.{
  StreamOp, pausing, unpausing, detaching, closing, attaching, encoding, resizing, channelling,
  dropping, preferring, apply, IsEncoding, apply-has_client,
}

module _ (D : Dictionary) (store : ℕ → Source) where
  -- An operation that can fault: that of a closing source does without a client.
  abbrev CanFault : StreamOp D → Type 0
  CanFault closing = Unit {0}
  CanFault op = IsEncoding D store op

  safe-returns :
      (op : StreamOp D) (s : Stream D)
      → ¬ CanFault op
      → IsReady D store s
      → (s' : Stream D) × (apply D store op s ≡ some s') × IsReady D store s'
  unfolding apply set_drop_rate set_priority
  safe-returns pausing s n r = let (s', e, r', _) = pause-IsReady D store s r in (s', e, r')
  safe-returns unpausing s n r = (unpause D s, refl, unpause-IsReady D store s r)
  safe-returns detaching s n r = ((detach_source D s).1, refl, detach-IsReady D store s r)
  safe-returns closing s n r = absurd (n tt)
  safe-returns (attaching id) s n r =
      ((attach_source D store s id).2, refl, attach-IsReady D store s id r)
  safe-returns (encoding encodings descriptor) s n r = absurd (n tt)
  safe-returns (resizing width height) s n r =
      let (code, s', e, r') = resize-IsReady D store s width height r in (s', rw e, r')
  safe-returns (channelling channels) s n r =
      let (code, s', e, r') = set_channels-IsReady D store s channels r in (s', rw e, r')
  safe-returns (dropping rate) s n r = (
    _,
    refl,
    record {
      has_client = r.has_client;
      has_encoding = r.has_encoding;
      has_source = r.has_source;
      has_encoder = r.has_encoder;
      has_properties = r.has_properties;
      provided = r.provided;
    },
  )
  safe-returns (preferring priority) s n r = (
    _,
    refl,
    record {
      has_client = r.has_client;
      has_encoding = r.has_encoding;
      has_source = r.has_source;
      has_encoder = r.has_encoder;
      has_properties = r.has_properties;
      provided = r.provided;
    },
  )

  returns :
      (op : StreamOp D) (s : Stream D)
      → ¬ IsEncoding D store op
      → s.has_client ≡ true
      → IsReady D store s
      → (s' : Stream D) × (apply D store op s ≡ some s') × IsReady D store s'
  unfolding apply source_closing
  returns closing s n c r =
      let (m, e, r', _) = pause-IsReady D store s r in
      let has : (detach_source D m).1.has_client ≡ true =
        detach-has_client D store m ∙ pause-has_client D store s m e ∙ c in
      ((detach_source D m).1, rw (e, has) refl, detach-IsReady D store m r')
  returns (encoding encodings descriptor) s n c r = absurd (n tt)
  returns pausing s n c r = safe-returns pausing s (λ n. n) r
  returns unpausing s n c r = safe-returns unpausing s (λ n. n) r
  returns detaching s n c r = safe-returns detaching s (λ n. n) r
  returns (attaching id) s n c r = safe-returns (attaching id) s (λ n. n) r
  returns (resizing w h) s n c r = safe-returns (resizing w h) s (λ n. n) r
  returns (channelling k) s n c r = safe-returns (channelling k) s (λ n. n) r
  returns (dropping d) s n c r = safe-returns (dropping d) s (λ n. n) r
  returns (preferring p) s n c r = safe-returns (preferring p) s (λ n. n) r

  -- On a ready stream that has a client no operation but the setting of the encoding can use a NULL
  -- pointer, and the stream is ready and has a client afterwards.
  pub apply-returns :
      (op : StreamOp D) (s : Stream D)
      → ¬ IsEncoding D store op
      → s.has_client ≡ true
      → IsReady D store s
      → (s' : Stream D) × (apply D store op s ≡ some s')
        × IsReady D store s'
        × (s'.has_client ≡ true)
  apply-returns op s n c r =
      let (s', e, r') = returns op s n c r in (s', e, r', apply-has_client D store op s s' n e ∙ c)

  closing-IsReady :
      (s s' : Stream D) → IsReady D store s → source_closing D s ≡ some s' → IsReady D store s'
  unfolding source_closing
  closing-IsReady s s' r e =
      let (m, stopped, r', _) = pause-IsReady D store s r in
      let after : Stream D = (detach_source D m).1 in
      elim (Bool-cases (detach_source D m).1.has_client) [
        | inl has ↦
            let step : source_closing D s ≡ some after = rw (stopped, has) refl in
            let is : after ≡ s' = cc in rw (← is) (detach-IsReady D store m r')
        | inr alone ↦
            let step : source_closing D s ≡ none = rw (stopped, alone) refl in absurd (ground arith)
      ]

  returned-IsReady :
      (op : StreamOp D) (s s' : Stream D)
      → ¬ CanFault op
      → IsReady D store s
      → apply D store op s ≡ some s'
      → IsReady D store s'
  returned-IsReady op s s' n r e =
      let (s'', e'', r'') = safe-returns op s n r in let is : s'' ≡ s' = cc in rw (← is) r''

  -- A stream that an operation leaves is ready if it was before.
  apply-IsReady :
      (op : StreamOp D) (s s' : Stream D)
      → IsReady D store s
      → apply D store op s ≡ some s'
      → IsReady D store s'
  unfolding apply
  apply-IsReady (encoding encodings descriptor) s s' r e =
      set_encoding-IsReady D store encodings descriptor s s' r e
  apply-IsReady pausing s s' r e = returned-IsReady pausing s s' (λ n. n) r e
  apply-IsReady unpausing s s' r e = returned-IsReady unpausing s s' (λ n. n) r e
  apply-IsReady detaching s s' r e = returned-IsReady detaching s s' (λ n. n) r e
  apply-IsReady closing s s' r e = closing-IsReady s s' r e
  apply-IsReady (attaching id) s s' r e = returned-IsReady (attaching id) s s' (λ n. n) r e
  apply-IsReady (resizing w h) s s' r e = returned-IsReady (resizing w h) s s' (λ n. n) r e
  apply-IsReady (channelling c) s s' r e = returned-IsReady (channelling c) s s' (λ n. n) r e
  apply-IsReady (dropping d) s s' r e = returned-IsReady (dropping d) s s' (λ n. n) r e
  apply-IsReady (preferring p) s s' r e = returned-IsReady (preferring p) s s' (λ n. n) r e

  -- The operations one after the other.
  unfoldable pub apply_all : List (StreamOp D) → Stream D → Option (Stream D)
  apply_all [] s = some s
  apply_all (op ∷ ops) s = do s' ← apply D store op s; apply_all ops s'

  apply_all-IsReady :
      (ops : List (StreamOp D)) (s s' : Stream D)
      → IsReady D store s
      → apply_all ops s ≡ some s'
      → IsReady D store s'
  unfolding apply_all
  apply_all-IsReady [] s s' r e = let is : s ≡ s' = cc in rw (← is) r
  apply_all-IsReady (op ∷ ops) s s' r e = elim (Option-cases (apply D store op s)) [
    | inl fault ↦ absurd (ground arith)
    | inr (mid, first) ↦
        let step : apply_all (op ∷ ops) s ≡ apply_all ops mid = rw first in
        apply_all-IsReady ops mid s' (apply-IsReady op s mid r first) (sym step ∙ e)
  ]

  blank-IsReady : (name : Bytes) → IsReady D store (blank D name)
  blank-IsReady name = record {
    has_client = λ q. absurd (ground arith);
    has_encoding = λ q. absurd (ground arith);
    has_source = λ q. absurd (ground arith);
    has_encoder = λ q. absurd (ground arith);
    has_properties = λ q. refl;
    provided = λ id q. absurd (ground arith);
  }

  set_client-IsReady : (s : Stream D) → IsReady D store s → IsReady D store (set_client D s)
  unfolding set_client
  set_client-IsReady s r = record {
    has_client = λ q. refl;
    has_encoding = r.has_encoding;
    has_source = r.has_source;
    has_encoder = r.has_encoder;
    has_properties = r.has_properties;
    provided = r.provided;
  }

  pub new-IsReady :
      (encodings : D.Dict Bytes) (name : Bytes) (s : Stream D)
      → new D encodings name ≡ some s
      → IsReady D store (set_client D s)
  unfolding new
  new-IsReady encodings name s made =
      set_client-IsReady s
        (set_encoding-IsReady D store encodings raw_name (blank D name) s (blank-IsReady name) made)

  -- A stream that a client opens is ready after any operations on it.
  pub opened-IsReady :
      (encodings : D.Dict Bytes) (name : Bytes) (s s' : Stream D) (ops : List (StreamOp D))
      → new D encodings name ≡ some s
      → apply_all ops (set_client D s) ≡ some s'
      → IsReady D store s'
  opened-IsReady encodings name s s' ops made e =
      apply_all-IsReady ops (set_client D s) s' (new-IsReady encodings name s made) e
