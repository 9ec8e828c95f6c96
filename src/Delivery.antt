-- ===== src/Delivery.antt =====
-- A frame on its way: the raw encoder of the server (server/stream.c, lib/encodings/raw.c), the payloads of
-- the Data messages, and the raw decoder of the client's stream (lib/stream.c). That a message arrives as
-- it was sent is shown in Net.
use svr.Base.{
  ℕ, ◌≤◌, ◌<◌, List, [], ◌∷◌, ◌++◌, Option, some, Bytes, length, ◌>>=◌, ◌≡◌, refl, sym, ap, ◌∙◌,
  subst, arith, append_assoc, append-nil, length-append,
}
use svr.FrameProperties.{FrameProperties}
use svr.Encoder.{Encoder}
use svr.Encoder.Holds.{Holds}
use svr.Encoder.Provide.{provide_data-Holds}
use svr.Encoder.Chunks.{sent, send_ready, joined, AllFit, send_ready-Sends}
use svr.Decoder.{Image, Decoder}
use svr.Decoder.Frames.{received}
use svr.Encodings.{raw_encode, decode}
use svr.Client.Streams.{Stream}
use svr.Client.Frames.{provide}
use svr.Client.Frames.Raw.{IsRaw, no_frame, frame, provide-IsRaw}

length-nil : (xs : Bytes) → length xs ≡ 0 → xs ≡ []
length-nil [] h = refl
length-nil (x ∷ xs) h = absurd (omega arith)

-- A frame that is the whole of the data.
whole :
    (size : ℕ) (data_ before f rest : Bytes)
    → data_ ≡ before ++ (f ++ rest)
    → length f ≡ size
    → length data_ ≤ size
    → (rest ≡ []) × (f ≡ data_)
whole size data_ before f rest e l h =
    let sum = ap length e in
    let no_before : before ≡ [] =
      length-nil before
        (omega (arith, sum, length-append before (f ++ rest), length-append f rest)) in
    let no_rest : rest ≡ [] =
      length-nil rest
        (omega (arith, sum, length-append before (f ++ rest), length-append f rest)) in
    (no_rest, sym (e ∙ rw (no_before, no_rest) (append-nil f)))

no_payloads : (size : ℕ) (ps : List Bytes) → AllFit size ps → length (joined ps) ≡ 0 → ps ≡ []
no_payloads size [] fits h = refl
no_payloads size (p ∷ ps) fits h =
    absurd (let l = fits.0 in omega (arith, length-append p (joined ps)))

module _ (create_image : FrameProperties → Image)
    (jpeg_decode : Decoder → Bytes → Option Decoder) where
  -- The payloads of Data messages, as they reach `SVR_Stream_provideData`.
  unfoldable pub provide_all : List Bytes → Stream → Option Stream
  provide_all [] st = some st
  provide_all (p ∷ ps) st = do
    st' ← provide (decode create_image jpeg_decode) st p
    provide_all ps st'

  abbrev pub Shows : ℕ → Bytes → Option Stream → Type 0
  Shows size data_ r =
      (st : Stream) × (d : Decoder) × (g : Image) × (r ≡ some st)
      × IsRaw create_image size st d
      × (received d ≡ [])
      × (st.current_frame ≡ some g)
      × (g.image_data ≡ data_)

  provide_all-Shows :
      (size limit : ℕ) (payloads : List Bytes) (st : Stream) (d : Decoder)
      → IsRaw create_image size st d
      → AllFit limit payloads
      → length (received d ++ joined payloads) ≡ size
      → length (received d) < size
      → Shows size (received d ++ joined payloads) (provide_all payloads st)
  unfolding provide_all
  provide_all-Shows size limit [] st d h fits total less =
      absurd (omega (arith, total, length-append (received d) []))
  provide_all-Shows size limit (p ∷ ps) st d h fits total less =
      let bound = h.decoder.bound in
      let parts = length-append p (joined ps) in
      let whole_ = length-append (received d) (p ++ joined ps) in
      let (mid, d1, first, h1, k) =
        provide-IsRaw create_image jpeg_decode size st d p h (omega (arith, total)) in
      let all : (received d ++ p) ++ joined ps ≡ received d ++ (p ++ joined ps) =
        append_assoc (received d) p (joined ps) in
      let total' : length ((received d ++ p) ++ joined ps) ≡ size = ap length all ∙ total in
      elim k [
        | no_frame same_frame got short ↦
            let (st', d', g, rest, h', empty, shown, same_data) =
              provide_all-Shows size limit ps mid d1 h1 fits.2
                (ap (λ (xs : Bytes). length (xs ++ joined ps)) got ∙ total')
                (omega (arith, ap length got)) in
            (
              st',
              d',
              g,
              rw first rest,
              h',
              empty,
              shown,
              same_data ∙ ap (λ (xs : Bytes). xs ++ joined ps) got ∙ all,
            )
        | frame before f shown cut full less' ↦
            let sum = length-append (received d ++ p) (joined ps) in
            let (empty, same_data) =
              whole size (received d ++ p) before f.image_data (received d1) cut full
                (omega (arith, sum, total')) in
            let nothing : ps ≡ [] =
              no_payloads limit ps fits.2 (omega (arith, sum, total', full, ap length same_data)) in
            (
              mid,
              d1,
              f,
              rw first
                  (subst (λ (l : List Bytes). provide_all l mid ≡ some mid) (sym nothing) refl),
              h1,
              empty,
              shown,
              same_data
                  ∙ sym (append-nil (received d ++ p))
                  ∙ ap (λ (l : List Bytes). (received d ++ p) ++ joined l) (sym nothing)
                  ∙ all,
            )
      ]

  -- A frame of `size` bytes, below 2 ^ 31, encoded raw by an encoder that is empty, and sent in payloads of at
  -- most `limit` bytes, one at least: the encoder is empty afterwards, and a client's raw stream with images of
  -- that size, at the start of a frame, then has this frame to hand out and is at the start of a frame again.
  pub delivered :
      (fresh : ℕ → Bytes)
      → ((n : ℕ) → length (fresh n) ≡ n)
      → (size limit : ℕ) (e : Encoder) (f : Image) (st : Stream) (d : Decoder) → Holds e []
      → length f.image_data ≡ size
      → 0 < limit
      → IsRaw create_image size st d
      → received d ≡ []
      → (e1 : Encoder) × (payloads : List Bytes) × (e2 : Encoder) × (raw_encode fresh e f ≡ some e1)
        × (send_ready limit e1 ≡ some (sent payloads e2))
        × Holds e2 []
        × AllFit limit payloads
        × Shows size f.image_data (provide_all payloads st)
  unfolding raw_encode
  delivered fresh length-fresh size limit e f st d holds full some_room h empty =
      let b = h.decoder.bound in
      let o = h.decoder.offset in
      let (e1, encoded, holds1) =
        provide_data-Holds fresh length-fresh e [] f.image_data holds (omega (arith, full)) in
      let (payloads, e2, went, holds2, same_data, fits) =
        send_ready-Sends limit e1 f.image_data holds1 some_room in
      let data_is : received d ++ joined payloads ≡ f.image_data = rw (empty, same_data) refl in
      (
        e1,
        payloads,
        e2,
        encoded,
        went,
        holds2,
        fits,
        subst (λ (xs : Bytes). Shows size xs (provide_all payloads st)) data_is
            (provide_all-Shows size limit payloads st d h fits (ap length data_is ∙ full)
              (omega (arith, ap length empty))),
      )
