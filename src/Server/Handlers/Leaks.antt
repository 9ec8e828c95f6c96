-- ===== src/Server/Handlers/Leaks.antt =====
-- Requests after which a reference is kept or a NULL pointer is used.
use svr.Base.{
  ℕ, ◌+◌, ◌%◌, ◌^◌, [], ◌∷◌, none, some, Bytes, ==_iff, ◌≡◌, refl, ap, ◌∙◌, arith, Bool-cases,
  Option-cases, inl, inr,
}
use svr.Base.Dict.{Dictionary}
use svr.FrameProperties.{FrameProperties}
use svr.Message.{Message}
use svr.Server.State.{paused, Sent, Source, Stream, World, success}
use svr.Server.Streams
use svr.Server.Sources
use svr.Server.Clients.{send_message, reply_code, get_stream, close_stream}
use svr.Server.Clients.Closing.{without}
use svr.Server.Handlers.{stream_attach_source, stream_close, stream_get_info, reply_stream}

module _ (D : Dictionary) where
  send-store : (w : World D) (m : Sent) → (send_message D w m).store ≡ w.store
  unfolding send_message
  send-store w m = ground arith

  send-stream :
      (w : World D) (m : Sent) (name : Bytes)
      → get_stream D (send_message D w m) name ≡ get_stream D w name
  unfolding send_message
  send-stream w m name = ground arith

  ref_source_self :
      (store : ℕ → Source) (id : ℕ)
      → Streams.ref_source store id id
        ≡ record (store id) { ref_count = ((store id).ref_count + 1) % 2 ^ 32 }
  ref_source_self store id = rw ((==_iff id id).1 refl)

  -- What attaching makes of a stream.
  abbrev showing : World D → Stream D → ℕ → Stream D
  showing w s id = record s {
    source = some id;
    frame_properties = (Streams.ref_source w.store id id).frame_properties;
  }

  abbrev shown : World D → Message → Bytes → Stream D → ℕ → World D
  shown w m name s id =
      reply_stream D (record w { store = Streams.ref_source w.store id }) m name
        (success, showing w s id)

  attach-shown :
      (w : World D) (m : Message) (request name source : Bytes) (s : Stream D) (id : ℕ)
      (p : FrameProperties)
      → m.components ≡ request ∷ name ∷ source ∷ []
      → m.count ≡ 3
      → get_stream D w name ≡ some s
      → D.get ℕ w.sources source ≡ some id
      → s.state ≡ paused
      → s.source ≡ none
      → (w.store id).frame_properties ≡ some p
      → stream_attach_source D w m ≡ some (shown w m name s id)
  unfolding stream_attach_source Sources.get_by_name Streams.attach_source
  attach-shown w m request name source s id p cs count found at stopped free provided =
      let has : (Streams.ref_source w.store id id).frame_properties ≡ some p =
        ap (λ (src : Source). src.frame_properties) (ref_source_self w.store id) ∙ provided in
      rw (count, cs, found, at, stopped, has, free)

  close-store :
      (w : World D) (m : Message) (request name : Bytes) (s : Stream D)
      → m.components ≡ request ∷ name ∷ []
      → m.count ≡ 2
      → get_stream D w name ≡ some s
      → s.state ≡ paused
      → (w' : World D) × (stream_close D w m ≡ some w')
        × (w'.store ≡ w.store)
        × (get_stream D w' name ≡ none)
  unfolding stream_close close_stream Streams.destroy Streams.pause
  close-store w m request name s cs count found stopped = (
    reply_code D (without D w name) m success,
    rw (count, cs, found, stopped),
    send-store _ _,
    send-stream _ _ name ∙ D.get-remove_self (Stream D) w.client.streams name,
  )

  -- A client attaches a source that has frame properties to a paused stream of its own that has no source, and
  -- then closes the stream: after the first request the stream has the source, after the second the client has no
  -- stream of this name, and still the source counts a reference more than before.
  pub attach_close-leaks :
      (w : World D) (m n : Message) (request request' name source : Bytes) (s : Stream D) (id : ℕ)
      (p : FrameProperties)
      → m.components ≡ request ∷ name ∷ source ∷ []
      → m.count ≡ 3
      → n.components ≡ request' ∷ name ∷ []
      → n.count ≡ 2
      → get_stream D w name ≡ some s
      → D.get ℕ w.sources source ≡ some id
      → s.state ≡ paused
      → s.source ≡ none
      → (w.store id).frame_properties ≡ some p
      → (w1 : World D) × (w2 : World D) × (s1 : Stream D) × (stream_attach_source D w m ≡ some w1)
        × (get_stream D w1 name ≡ some s1)
        × (s1.source ≡ some id)
        × (stream_close D w1 n ≡ some w2)
        × (get_stream D w2 name ≡ none)
        × ((w2.store id).ref_count ≡ ((w.store id).ref_count + 1) % 2 ^ 32)
  attach_close-leaks w m n request request' name source s id p cs count ds count' found at stopped
        free provided =
      let w1 : World D = shown w m name s id in
      let held : get_stream D w1 name ≡ some (showing w s id) =
        send-stream _ _ name ∙ D.get-set_self (Stream D) w.client.streams name (showing w s id) in
      let (w2, closed, same_store, gone) =
        close-store w1 n request' name (showing w s id) ds count' held stopped in
      (
        w1,
        w2,
        showing w s id,
        attach-shown w m request name source s id p cs count found at stopped free provided,
        held,
        refl,
        closed,
        gone,
        ap (λ (store : ℕ → Source). (store id).ref_count) (same_store ∙ send-store _ _)
            ∙ ap (λ (src : Source). src.ref_count) (ref_source_self w.store id),
      )

  closing-cleared :
      (s s' : Stream D) → Streams.source_closing D s ≡ some s' → s'.frame_properties ≡ none
  unfolding Streams.source_closing Streams.pause Streams.detach_source
  closing-cleared s s' e = elim (Bool-cases s.has_client) [
    | inr alone ↦ elim (Bool-cases (Streams.is_unpaused s.state)) [
      | inl running ↦ elim (Option-cases s.source) [
        | inl fault ↦ absurd (ground arith)
        | inr (id, at) ↦
            let step : Streams.source_closing D s ≡ none = rw (running, at, alone) in
            absurd (ground arith)
      ]
      | inr stopped ↦
          let step : Streams.source_closing D s ≡ none = rw stopped (rw (stopped, alone)) in
          absurd (ground arith)
    ]
    | inl has ↦ elim (Bool-cases (Streams.is_unpaused s.state)) [
      | inl running ↦ elim (Option-cases s.source) [
        | inl fault ↦ absurd (ground arith)
        | inr (id, at) ↦
            let after : Stream D = record s {
              state = paused;
              source = none;
              frame_properties = none;
            } in
            let step : Streams.source_closing D s ≡ some after = rw (running, at, has) in
            let is : after ≡ s' = cc in rw (← is)
      ]
      | inr stopped ↦
          let after : Stream D = record s { source = none; frame_properties = none } in
          let step : Streams.source_closing D s ≡ some after = rw stopped (rw (stopped, has)) in
          let is : after ≡ s' = cc in rw (← is)
    ]
  ]

  -- A stream whose source has been closed has no frame properties, and a request for its information
  -- then uses a NULL pointer.
  pub source_closing-get_info :
      (w : World D) (m : Message) (request name : Bytes) (s s' : Stream D)
      → Streams.source_closing D s ≡ some s'
      → get_stream D w name ≡ some s'
      → m.components ≡ request ∷ name ∷ []
      → m.count ≡ 2
      → stream_get_info D w m ≡ none
  unfolding stream_get_info
  source_closing-get_info w m request name s s' closing found cs count =
      elim (Option-cases s'.encoding) [
        | inl unset ↦ rw (count, cs, found, unset)
        | inr (e, set_) ↦ rw (count, cs, found, set_, closing-cleared s s' closing)
      ]
