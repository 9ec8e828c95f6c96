-- ===== src/Server/Worker/Frames.antt =====
-- server/stream.c: the temporary frames are those that the conversion of a frame needs.
use svr.Base.{
  ℕ, some, true, false, ◌==◌, ==_iff, ◌||◌, not, ◌≡◌, refl, ◌⊎◌, inl, inr, arith, Bool-cases,
}
use svr.Base.Dict.{Dictionary}
use svr.FrameProperties.{FrameProperties}
use svr.Decoder.{Image}
use svr.Server.Streams.{temporary_frames}
use svr.Server.Worker.{Frame, preprocess, cv_convert}

-- Gray or in colour.
abbrev pub OneOrThree : ℕ → Type 0
OneOrThree n = (n ≡ 1) ⊎ (n ≡ 3)

module _ (D : Dictionary) (resize_into convert_into : Image → FrameProperties → Image) where
  converts :
      (p : FrameProperties) (f : Frame)
      → f.0.depth ≡ p.depth
      → f.0.width ≡ p.width
      → f.0.height ≡ p.height
      → OneOrThree p.channels
      → OneOrThree f.0.channels
      → (p.channels == f.0.channels) ≡ false
      → cv_convert resize_into convert_into (p.channels == 1) f p ≡ some (p, convert_into f.1 p)
  converts p f d w h a b other =
      let depth = (==_iff f.0.depth p.depth).1 d in
      let width = (==_iff f.0.width p.width).1 w in
      let height = (==_iff f.0.height p.height).1 h in
      elim (Bool-cases (p.channels == 1)) [
        | inl gray ↦
            let three : (f.0.channels == 3) ≡ true = elim b [
              | inl one ↦ absurd (ground arith)
              | inr is ↦ (==_iff f.0.channels 3).1 is
            ] in
            rw (depth, width, height, gray, three) refl
        | inr colour ↦
            let three : (p.channels == 3) ≡ true = elim a [
              | inl one ↦ absurd (ground arith)
              | inr is ↦ (==_iff p.channels 3).1 is
            ] in
            let one : (f.0.channels == 1) ≡ true = elim b [
              | inl is ↦ (==_iff f.0.channels 1).1 is
              | inr is ↦ absurd (ground (arith, ==_iff p.channels 3))
            ] in
            rw (depth, width, height, colour, three, one) refl
      ]

  -- With the temporary frames that `SVRD_Stream_reallocateTemporaryFrames` makes for a stream and its source,
  -- of the same depth and of one or three channels each, `SVRD_Stream_preprocessFrame` of a frame of the source uses
  -- no NULL frame, gives `cvResize` images of the same depth and channels and `cvCvtColor` images of the same depth
  -- and size and of the channels of the conversion, and returns a frame of the stream's width, height, channels and
  -- depth.
  pub preprocess-temporary_frames :
      (p src : FrameProperties) (image : Image)
      → p.depth ≡ src.depth
      → OneOrThree p.channels
      → OneOrThree src.channels
      → (f : Frame) × (preprocess resize_into convert_into p src
            (temporary_frames D p src)
            (src, image)
          ≡ some f)
        × (f.0.width ≡ p.width)
        × (f.0.height ≡ p.height)
        × (f.0.channels ≡ p.channels)
        × (f.0.depth ≡ p.depth)
  unfolding preprocess temporary_frames
  preprocess-temporary_frames p src image deep a b =
      let depth : (src.depth == p.depth) ≡ true = (==_iff src.depth p.depth).1 (omega arith) in
      elim (Bool-cases (not (p.width == src.width) || not (p.height == src.height))) [
        | inl resize ↦ elim (Bool-cases (p.channels == src.channels)) [
          | inl same_color ↦
              let c = (==_iff p.channels src.channels).0 same_color in
              let d = (==_iff src.channels p.channels).1 (omega arith) in
              (
                (p, resize_into image p),
                rw (resize, same_color, depth, d) refl,
                refl,
                refl,
                refl,
                refl,
              )
          | inr other ↦
              let d = (==_iff src.channels src.channels).1 refl in
              let middle = record p { channels = src.channels } in
              (
                (p, convert_into (resize_into image middle) p),
                rw (resize, other, depth, d)
                    (converts p (middle, resize_into image middle) refl refl refl a b other),
                refl,
                refl,
                refl,
                refl,
              )
        ]
        | inr keep ↦
            let w : src.width ≡ p.width = ground arith in
            let h : src.height ≡ p.height = ground arith in
            elim (Bool-cases (p.channels == src.channels)) [
              | inl same_color ↦
                  let c = (==_iff p.channels src.channels).0 same_color in
                  ((src, image), rw (keep, same_color) refl, w, h, omega arith, omega arith)
              | inr other ↦ (
                (p, convert_into image p),
                rw (keep, other) (converts p (src, image) (omega arith) w h a b other),
                refl,
                refl,
                refl,
                refl,
              )
            ]
      ]
