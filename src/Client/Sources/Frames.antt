-- ===== src/Client/Sources/Frames.antt =====
-- lib/source.c: what `SVR_Source_sendFrame` sends.
use svr.Base.{
  ℕ, ◌+◌, ◌≤◌, ◌<◌, ◌^◌, List, [], ◌∷◌, Option, some, Bytes, true, false, length, map, ◌≡◌, refl,
  arith, Bool-cases, inl, inr, ◌%◌, take_all, mod-eq_of_lt,
}
use svr.Base.Dict.{Dictionary}
use svr.FrameProperties.{FrameProperties}
use svr.Message.{Message}
use svr.Encoder.{Encoder}
use svr.Encoder.Holds.{Holds}
use svr.Encoder.Provide.{provide_data-Holds}
use svr.Encoder.Chunks.{joined, AllFit, send_ready-Sends}
use svr.Encodings.{raw_encode}
use svr.Server.State.{success, invalid_argument}
use svr.Server.Worker.{Frame}
use svr.Words.{data_word}
use svr.Client.Sources.{Source, fits, encoder_of, carried, send_encoded, send_frame}

module _ (D : Dictionary) (encodings : D.Dict Bytes) {S : Type 0}
    (ask_server : S → List Bytes → Option (Message × S)) (fresh : ℕ → Bytes)
    (length-fresh : (n : ℕ) → length (fresh n) ≡ n) where
  abbrev Sent : Type 0
  Sent = List Bytes × Bytes

  -- A payload below 2 ^ 16 bytes is carried whole.
  all_carried :
      (size : ℕ) (components : List Bytes) (ps : List Bytes)
      → size < 65536
      → AllFit size ps
      → map {B = Sent} (λ x. (components, carried D x)) ps
        ≡ map {B = Sent} (λ x. (components, x)) ps
  all_carried size components [] small h = refl
  all_carried size components (p ∷ ps) small h =
      let l : length p ≤ size = h.1 in
      let fits_ : length p % 65536 ≡ length p = mod-eq_of_lt (omega arith) in
      let whole : carried D p ≡ p = rw fits_ (take_all (length p) p (omega arith)) in
      rw (whole, all_carried size components ps small h.2) refl

  -- How a frame goes out, for a source with the properties `p`.
  pub data Outcome (s : S) (src : Source D) (p : FrameProperties) (f : Frame)
      (r : Option (ℕ × List (List Bytes × Bytes) × Source D × S)) : Type 0 where
    went :
        (payloads : List Bytes) (e : Encoder)
        → r
          ≡ some (
            success,
            map (λ (x : Bytes). (data_word ∷ src.name ∷ [], x)) payloads,
            record src { encoder = some e },
            s,
          )
        → joined payloads ≡ f.1.image_data
        → AllFit src.payload_buffer_size payloads
        → Holds e []
        → fits f p ≡ true
        → Outcome s src p f r
    refused :
        r ≡ some (invalid_argument, [], record src { encoder = some (encoder_of D src) }, s)
        → fits f p ≡ false
        → Outcome s src p f r

  -- A raw source that has frame properties and a payload buffer of less than 2 ^ 16 bytes, and whose encoder holds
  -- nothing, with a frame of less than 2 ^ 32 bytes: a frame with these properties is sent, with nothing lost or added, in Data messages
  -- whose payloads are neither empty nor longer than the payload buffer, and the encoder holds nothing again; a
  -- frame that differs in width, height, depth or channels is refused with INVALIDARGUMENT, and nothing is sent.
  pub send_frame-Outcome :
      (s : S) (src : Source D) (encoding : Bytes) (p : FrameProperties) (f : Frame)
      → src.encoding ≡ some encoding
      → src.frame_properties ≡ some p
      → Holds (encoder_of D src) []
      → 0 < src.payload_buffer_size
      → src.payload_buffer_size < 65536
      → length f.1.image_data + 1 ≤ 2 ^ 32
      → Outcome s src p f (send_frame D encodings ask_server (raw_encode fresh) s src f)
  unfolding send_frame send_encoded raw_encode
  send_frame-Outcome s src encoding p f has_e has_p h room words small =
      elim (Bool-cases (fits f p)) [
        | inl good ↦
            let (e1, encoded, h1) =
              provide_data-Holds fresh length-fresh (encoder_of D src) [] f.1.image_data h
                (omega arith) in
            let (payloads, e2, sends, h2, same_data, sizes) =
              send_ready-Sends src.payload_buffer_size e1 f.1.image_data h1 room in
            let whole =
              all_carried src.payload_buffer_size (data_word ∷ src.name ∷ []) payloads words
                sizes in
            went payloads e2 (rw (has_e, has_p, good, encoded, sends) (rw whole refl)) same_data
              sizes h2 good
        | inr bad ↦ refused (rw (has_e, has_p, bad) refl) bad
      ]
