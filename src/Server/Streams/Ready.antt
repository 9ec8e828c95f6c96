-- ===== src/Server/Streams/Ready.antt =====
-- What the operations on a stream rely on and keep.
use svr.Base.{
  ℕ, ◌%◌, Option, none, some, Bytes, ◌==◌, true, false, ◌||◌, ◌&&◌, not, ◌>>=◌, is_some, ◌≡◌, refl,
  sym, ◌∙◌, arith, Bool-cases, Option-cases, inl, inr,
}
use svr.Base.Dict.{Dictionary}
use svr.OptionString.{Options, Parsed, parsed, failed, stuck, parse}
use svr.FrameProperties.{FrameProperties}
use svr.Server.State.{paused, Source, Stream, success, invalid_state, invalid_argument}
use svr.Server.Streams.{
  is_unpaused, encoding_of, choose_encoding, use_options, set_encoding, attach_source,
  detach_source, reallocate_temporary_frames, temporary_frames, resize, set_channels, pause,
  unpause,
}

module _ (D : Dictionary) (store : ℕ → Source) where
  -- A stream that runs has all that its worker uses, and one that has a source has frame properties,
  -- as the source has.
  pub record IsReady (s : Stream D) : Type 0 where
    pub has_client : is_unpaused s.state ≡ true → s.has_client ≡ true
    pub has_encoding : is_unpaused s.state ≡ true → is_some s.encoding ≡ true
    pub has_source : is_unpaused s.state ≡ true → is_some s.source ≡ true
    pub has_encoder : is_unpaused s.state ≡ true → is_some s.encoder ≡ true
    pub has_properties : is_some s.source ≡ true → is_some s.frame_properties ≡ true
    pub provided : (id : ℕ) → s.source ≡ some id → is_some (store id).frame_properties ≡ true

  abbrev pub second : {A B : Type 0} → Option (A × B) → Option B
  second o = do r ← o; some r.1

  pub pause-IsReady :
      (s : Stream D)
      → IsReady s
      → (s' : Stream D) × (pause D s ≡ some s') × IsReady s' × (is_unpaused s'.state ≡ false)
  unfolding pause
  pause-IsReady s r = elim (Bool-cases (is_unpaused s.state)) [
    | inl running ↦ elim (Option-cases s.source) [
      | inl e ↦ absurd (let has = r.has_source running in ground arith)
      | inr (id, e) ↦ (
        record s { state = paused },
        rw (running, e),
        record {
          has_client = λ q. absurd (ground arith);
          has_encoding = λ q. absurd (ground arith);
          has_source = λ q. absurd (ground arith);
          has_encoder = λ q. absurd (ground arith);
          has_properties = r.has_properties;
          provided = r.provided;
        },
        refl,
      )
    ]
    | inr stopped ↦ (s, rw stopped, r, stopped)
  ]

  pub detach-IsReady : (s : Stream D) → IsReady s → IsReady (detach_source D s).1
  unfolding detach_source
  detach-IsReady s r = elim (Bool-cases (is_unpaused s.state)) [
    | inl running ↦ rw running r
    | inr stopped ↦ rw stopped (record {
      has_client = r.has_client;
      has_encoding = r.has_encoding;
      has_source = λ q. absurd (ground arith);
      has_encoder = r.has_encoder;
      has_properties = λ q. absurd (ground arith);
      provided = λ id q. absurd (ground arith);
    })
  ]

  pub unpause-IsReady : (s : Stream D) → IsReady s → IsReady (unpause D s)
  unfolding unpause
  unpause-IsReady s r =
      elim (Bool-cases
        (not (is_unpaused s.state) && s.has_client && is_some s.encoding && is_some s.source)) [
          | inl go ↦ rw go (record {
            has_client = λ q. ground arith;
            has_encoding = λ q. ground arith;
            has_source = λ q. ground arith;
            has_encoder = λ q. r.has_properties (ground arith);
            has_properties = r.has_properties;
            provided = r.provided;
          })
          | inr stay ↦ rw stay r
        ]

  pub attach-IsReady : (s : Stream D) (id : ℕ) → IsReady s → IsReady (attach_source D store s id).2
  unfolding attach_source
  attach-IsReady s id r =
      elim (Bool-cases (is_unpaused s.state || not (is_some (store id).frame_properties))) [
        | inl refused ↦ rw refused r
        | inr fine ↦ rw fine (record {
          has_client = λ q. absurd (ground arith);
          has_encoding = λ q. absurd (ground arith);
          has_source = λ q. refl;
          has_encoder = λ q. absurd (ground arith);
          has_properties = λ q. ground arith;
          provided = λ j q. let same_id : id ≡ j = cc in rw (← same_id) (ground arith);
        })
      ]

  -- New properties and frames of a stream that does not run.
  restyle-IsReady :
      (s : Stream D) (p : FrameProperties)
      (frames : Option FrameProperties × Option FrameProperties)
      → IsReady s
      → IsReady (record s { frame_properties = some p; temp_frame = frames })
  restyle-IsReady s p frames r = record {
    has_client = r.has_client;
    has_encoding = r.has_encoding;
    has_source = r.has_source;
    has_encoder = r.has_encoder;
    has_properties = λ q. refl;
    provided = r.provided;
  }

  -- The frames are made from the properties of the stream and of its source, which are both there.
  reallocate-returns :
      (s : Stream D) (p : FrameProperties)
      → IsReady s
      → is_some s.source ≡ true
      → (frames : Option FrameProperties × Option FrameProperties) × (reallocate_temporary_frames D
            store
            (record s { frame_properties = some p })
          ≡ some (record s { frame_properties = some p; temp_frame = frames }))
  unfolding reallocate_temporary_frames
  reallocate-returns s p r h = elim (Option-cases s.source) [
    | inl e ↦ absurd (ground arith)
    | inr (id, e) ↦ elim (Option-cases (store id).frame_properties) [
      | inl missing ↦ absurd (let has = r.provided id e in ground arith)
      | inr (src, found) ↦ (temporary_frames D p src, rw (e, found))
    ]
  ]

  pub resize-IsReady :
      (s : Stream D) (width height : ℕ)
      → IsReady s
      → (code : ℕ) × (s' : Stream D) × (resize D store s width height ≡ some (code, s'))
        × IsReady s'
  unfolding resize
  resize-IsReady s width height r =
      elim (Bool-cases (is_unpaused s.state || not (is_some s.source))) [
        | inl refused ↦ (invalid_state, s, rw refused, r)
        | inr fine ↦ elim (Option-cases s.frame_properties) [
          | inl e ↦ absurd (let has = r.has_properties (ground arith) in ground arith)
          | inr (p, e) ↦
              let p' : FrameProperties = record p {
                width = width % 65536;
                height = height % 65536;
              } in
              let (frames, made) = reallocate-returns s p' r (ground arith) in
              (
                success,
                record s { frame_properties = some p'; temp_frame = frames },
                rw (fine, e, made),
                restyle-IsReady s p' frames r,
              )
        ]
      ]

  pub set_channels-IsReady :
      (s : Stream D) (channels : ℕ)
      → IsReady s
      → (code : ℕ) × (s' : Stream D) × (set_channels D store s channels ≡ some (code, s'))
        × IsReady s'
  unfolding set_channels
  set_channels-IsReady s channels r =
      elim (Bool-cases (not (channels == 1) && not (channels == 3))) [
        | inl bad ↦ (invalid_argument, s, rw bad, r)
        | inr good ↦ elim (Bool-cases (is_unpaused s.state || not (is_some s.source))) [
          | inl refused ↦ (invalid_state, s, rw (good, refused), r)
          | inr fine ↦ elim (Option-cases s.frame_properties) [
            | inl e ↦ absurd (let has = r.has_properties (ground arith) in ground arith)
            | inr (p, e) ↦
                let p' : FrameProperties = record p { channels = channels % 256 } in
                let (frames, made) = reallocate-returns s p' r (ground arith) in
                (
                  success,
                  record s { frame_properties = some p'; temp_frame = frames },
                  rw (good, fine, e, made),
                  restyle-IsReady s p' frames r,
                )
          ]
        ]
      ]

  choose-IsReady :
      (s : Stream D) (options : Options D) (found : Option Bytes)
      → IsReady s
      → IsReady (choose_encoding D s options found).1
  choose-IsReady s options none r = r
  choose-IsReady s options (some e) r = record {
    has_client = r.has_client;
    has_encoding = λ q. refl;
    has_source = r.has_source;
    has_encoder = r.has_encoder;
    has_properties = r.has_properties;
    provided = r.provided;
  }

  options-IsReady :
      (encodings : D.Dict Bytes) (s s' : Stream D) (options : Parsed (Options D))
      → IsReady s
      → second (use_options D encodings s options) ≡ some s'
      → IsReady s'
  options-IsReady encodings s s' (parsed options) r e =
      elim (Option-cases (encoding_of D encodings options)) [
        | inl fault ↦ absurd (ground arith)
        | inr (found, at) ↦
            let step : second (use_options D encodings s (parsed options))
                ≡ some (choose_encoding D s options found).1 =
              rw at in
            let is : (choose_encoding D s options found).1 ≡ s' = cc in
            rw (← is) (choose-IsReady s options found r)
      ]
  options-IsReady encodings s s' (failed rest) r e = let is : s ≡ s' = cc in rw (← is) r
  options-IsReady encodings s s' stuck r e = absurd (ground arith)

  pub set_encoding-IsReady :
      (encodings : D.Dict Bytes) (descriptor : Bytes) (s s' : Stream D)
      → IsReady s
      → second (set_encoding D encodings s descriptor) ≡ some s'
      → IsReady s'
  unfolding set_encoding
  set_encoding-IsReady encodings descriptor s s' r e = elim (Bool-cases (is_unpaused s.state)) [
    | inl running ↦
        let step : second (set_encoding D encodings s descriptor) ≡ some s = rw running in
        let is : s ≡ s' = cc in rw (← is) r
    | inr stopped ↦
        let step : second (set_encoding D encodings s descriptor)
            ≡ second (use_options D encodings s (parse D descriptor)) =
          rw stopped in
        options-IsReady encodings s s' (parse D descriptor) r (sym step ∙ e)
  ]
