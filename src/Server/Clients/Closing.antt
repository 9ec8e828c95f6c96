-- ===== src/Server/Clients/Closing.antt =====
-- How `SVRD_Client_markForClosing` and `SVRD_Client_kick` leave a client.
use svr.Base.{
  ℕ, ◌+◌, ◌-◌, ◌%◌, ◌^◌, List, [], ◌∷◌, ◌++◌, none, some, Bytes, ◌≡◌, ◌≢◌, refl, sym, subst, ap,
  ◌∙◌, ◌⊎◌, inl, inr, arith, Option-cases, Bool-cases, Among, same, same-eq, ne-same,
}
use svr.Base.Dict.{Dictionary}
use svr.Server.State.{ClientState, connected, closed, Sent, Stream, Client, World}
use svr.Server.Streams
use svr.Server.Streams.Ready.{IsReady, pause-IsReady}
use svr.Server.Sources
use svr.Server.Clients.{
  put_client, send_message, get_stream, get_source, close_found, close_stream, close_streams,
  destroy_sources, mark_for_closing, kick,
}
use svr.Server.Words.{kick_word}

module _ (D : Dictionary) where
  -- What closing streams and sources does not touch.
  abbrev kept : World D → ClientState × List Sent
  kept w = (w.client.state, w.client.sent)

  -- What `SVRD_Client_closeStream` leaves of a client that has the stream.
  abbrev pub without : World D → Bytes → World D
  without w name = put_client D w (record w.client {
    streams = D.remove (Stream D) w.client.streams name;
    ref_count = (w.client.ref_count + 2 ^ 32 - 1) % 2 ^ 32;
  })

  destroy-client : (w : World D) (id : ℕ) → (Sources.destroy D w id).client ≡ w.client
  unfolding Sources.destroy
  destroy-client w id = ground arith

  destroy_sources-client :
      (names : List Bytes) (w w' : World D)
      → destroy_sources D names w ≡ some w'
      → w'.client ≡ w.client
  unfolding destroy_sources
  destroy_sources-client [] w w' e = let is : w ≡ w' = cc in rw (← is)
  destroy_sources-client (name ∷ names) w w' e = elim (Option-cases (get_source D w name)) [
    | inl fault ↦ absurd (ground arith)
    | inr (id, found) ↦
        let step : destroy_sources D (name ∷ names) w
            ≡ destroy_sources D names (Sources.destroy D w id) =
          rw found in
        destroy_sources-client names (Sources.destroy D w id) w' (sym step ∙ e)
        ∙ destroy-client w id
  ]

  -- Closing one stream removes it, and no other.
  close_stream-client :
      (w w' : World D) (name : Bytes)
      → close_stream D w name ≡ some w'
      → (kept w' ≡ kept w)
        × (get_stream D w' name ≡ none)
        × ((j : Bytes) → name ≢ j → get_stream D w' j ≡ get_stream D w j)
  unfolding close_stream
  close_stream-client w w' name e = elim (Option-cases (get_stream D w name)) [
    | inl missing ↦
        let step : close_found D w name (get_stream D w name) ≡ some w = rw missing in
        let is : w ≡ w' = cc in (rw (← is), rw (← is, missing), λ j n. rw (← is))
    | inr (s, found) ↦ elim (Option-cases (Streams.pause D s)) [
      | inl fault ↦ absurd (ground arith)
      | inr (stopped, paused) ↦ elim (Option-cases (Streams.destroy D stopped)) [
        | inl fault ↦ absurd (ground arith)
        | inr (destroyed, done) ↦
            let step : close_found D w name (get_stream D w name) ≡ some (without w name) =
              rw (found, paused, done) in
            let is : without w name ≡ w' = cc in
            (
              rw (← is),
              rw (← is) (D.get-remove_self (Stream D) w.client.streams name),
              λ j n. rw (← is) (D.get-remove_ne (Stream D) w.client.streams name j n),
            )
      ]
    ]
  ]

  keeps-none :
      (w w' : World D) (name j : Bytes)
      → close_stream D w name ≡ some w'
      → get_stream D w j ≡ none
      → get_stream D w' j ≡ none
  keeps-none w w' name j e h = elim (Bool-cases (same name j)) [
    | inl q ↦
        subst (λ x. get_stream D w' x ≡ none) (same-eq name j q) (close_stream-client w w' name e).1
    | inr q ↦ (close_stream-client w w' name e).2 j (ne-same name j q) ∙ h
  ]

  close_streams-client :
      (names : List Bytes) (w w' : World D)
      → close_streams D names w ≡ some w'
      → (kept w' ≡ kept w)
        × ((j : Bytes) → Among j names ⊎ (get_stream D w j ≡ none) → get_stream D w' j ≡ none)
  unfolding close_streams
  close_streams-client [] w w' e =
      let is : w ≡ w' = cc in
      (rw (← is), λ j h. elim h [ inl h1 ↦ absurd h1 | inr h2 ↦ rw (← is) h2 ])
  close_streams-client (name ∷ names) w w' e = elim (Option-cases (close_stream D w name)) [
    | inl fault ↦ absurd (ground arith)
    | inr (mid, first) ↦
        let step : close_streams D (name ∷ names) w ≡ close_streams D names mid = rw first in
        let (st, all) = close_streams-client names mid w' (sym step ∙ e) in
        (
          st ∙ (close_stream-client w mid name first).0,
          λ j h. elim h [
            | inl among ↦ elim among [
              | inl is ↦ all j (
                  inr (
                    subst (λ x. get_stream D mid x ≡ none) is
                      (close_stream-client w mid name first).1))
              | inr later ↦ all j (inl later)
            ]
            | inr missing ↦ all j (inr (keeps-none w mid name j first missing))
          ],
        )
  ]

  abbrev begin_closing : World D → World D
  begin_closing w = put_client D w (record w.client { state = closed })

  held :
      (w : World D) (name : Bytes)
      → Among name (D.keys (Stream D) w.client.streams)
        ⊎ (get_stream D (begin_closing w) name ≡ none)
  held w name = elim (Option-cases (get_stream D w name)) [
    | inl missing ↦ inr missing
    | inr (s, found) ↦ inl (D.get-Among (Stream D) w.client.streams name s found)
  ]

  -- Each stream that the client holds is ready.
  abbrev pub AllReady : World D → Type 0
  AllReady w = (name : Bytes) (s : Stream D) → get_stream D w name ≡ some s → IsReady D w.store s

  without-AllReady : (w : World D) (name : Bytes) → AllReady w → AllReady (without w name)
  without-AllReady w name r j t q = elim (Bool-cases (same name j)) [
    | inl is ↦
        let gone =
          subst (λ x. get_stream D (without w name) x ≡ none) (same-eq name j is)
            (D.get-remove_self (Stream D) w.client.streams name) in
        absurd (ground arith)
    | inr other ↦
        r j t (sym (D.get-remove_ne (Stream D) w.client.streams name j (ne-same name j other)) ∙ q)
  ]

  close_stream-returns :
      (w : World D) (name : Bytes)
      → AllReady w
      → (w' : World D) × (close_stream D w name ≡ some w')
        × AllReady w'
        × (w'.client.sources ≡ w.client.sources)
  unfolding close_stream Streams.destroy
  close_stream-returns w name r = elim (Option-cases (get_stream D w name)) [
    | inl missing ↦ (w, rw missing, r, refl)
    | inr (s, found) ↦
        let (stopped, first, r1, _) = pause-IsReady D w.store s (r name s found) in
        let (again, second, _, _) = pause-IsReady D w.store stopped r1 in
        (without w name, rw (found, first, second), without-AllReady w name r, refl)
  ]

  close_streams-returns :
      (names : List Bytes) (w : World D)
      → AllReady w
      → (w' : World D) × (close_streams D names w ≡ some w')
  unfolding close_streams
  close_streams-returns [] w r = (w, refl)
  close_streams-returns (name ∷ names) w r =
      let (mid, first, r1, _) = close_stream-returns w name r in
      let (w', rest) = close_streams-returns names mid r1 in (w', rw (first, rest))

  destroy_sources-returns :
      (names : List Bytes) (w : World D)
      → ((name : Bytes) → Among name names → (id : ℕ) × (get_source D w name ≡ some id))
      → (w' : World D) × (destroy_sources D names w ≡ some w')
  unfolding destroy_sources
  destroy_sources-returns [] w h = (w, refl)
  destroy_sources-returns (name ∷ names) w h =
      let (id, found) = h name (inl refl) in
      let (w', rest) =
        destroy_sources-returns names (Sources.destroy D w id)
          (λ j m. rw (destroy-client w id) (h j (inr m))) in
      (w', rw (found, rest))

  mark_for_closing-returns :
      (w : World D)
      → AllReady w
      → w.client.state ≡ connected
      → (w' : World D) × (mark_for_closing D w ≡ some w')
  unfolding mark_for_closing
  mark_for_closing-returns w r open_ =
      let (w2, shut) =
        close_streams-returns (D.keys (Stream D) w.client.streams) (begin_closing w) r in
      let (w', rest) =
        destroy_sources-returns (D.keys ℕ w2.client.sources) w2 (D.Among-get ℕ w2.client.sources) in
      (w', rw (open_, shut, rest))

  -- A client that was connected is closed afterwards and holds no stream.
  mark_for_closing-closes :
      (w w' : World D)
      → w.client.state ≡ connected
      → mark_for_closing D w ≡ some w'
      → (kept w' ≡ (closed, w.client.sent)) × ((name : Bytes) → get_stream D w' name ≡ none)
  unfolding mark_for_closing
  mark_for_closing-closes w w' open_ e =
      let names : List Bytes = D.keys (Stream D) w.client.streams in
      elim (Option-cases (close_streams D names (begin_closing w))) [
        | inl fault ↦ absurd (ground arith)
        | inr (w2, shut) ↦
            let step : mark_for_closing D w ≡ destroy_sources D (D.keys ℕ w2.client.sources) w2 =
              rw (open_, shut) in
            let same_client =
              destroy_sources-client (D.keys ℕ w2.client.sources) w2 w' (sym step ∙ e) in
            let (st, all) = close_streams-client names (begin_closing w) w2 shut in
            (
              ap (λ (c : Client D). (c.state, c.sent)) same_client ∙ st,
              λ name. rw same_client (all name (held w name)),
            )
      ]

  -- If each stream of a connected client is ready, then kicking it does not fault. The client is closed
  -- afterwards and holds no stream, the reason was the last message to it, and no message after it is sent.
  pub kick-closes :
      (w : World D) (reason : Bytes)
      → AllReady w
      → w.client.state ≡ connected
      → (w' : World D) × (kick D w reason ≡ some w')
        × (w'.client.state ≡ closed)
        × (w'.client.sent
            ≡ w.client.sent ++ record { request_id = 0; components = kick_word ∷ reason ∷ [] } ∷ [])
        × ((name : Bytes) → get_stream D w' name ≡ none)
        × ((m : Sent) → send_message D w' m ≡ w')
  unfolding kick send_message
  kick-closes w reason r open_ =
      let told : World D = put_client D w (record w.client {
        sent =
            w.client.sent ++ record { request_id = 0; components = kick_word ∷ reason ∷ [] } ∷ [];
      }) in
      let (w', e) = mark_for_closing-returns told r open_ in
      let (shut, gone) = mark_for_closing-closes told w' open_ e in
      let st : w'.client.state ≡ closed = ap (λ (p : ClientState × List Sent). p.0) shut in
      let say : send_message D w (record { request_id = 0; components = kick_word ∷ reason ∷ [] })
          ≡ told =
        rw open_ in
      (
        w',
        ap (mark_for_closing D) say ∙ e,
        st,
        ap (λ (p : ClientState × List Sent). p.1) shut,
        gone,
        λ m. rw st,
      )
