-- ===== src/Decoder/Position.antt =====
-- lib/encoding.c: the position of a decoder in the rows of an image with padding.
use svr.Base.{
  ℕ, ◌+◌, ◌*◌, ◌<◌, List, [], ◌∷◌, ◌++◌, Bytes, ◌≡◌, refl, sym, ap, ◌∙◌, subst, take, append_assoc,
  append-nil,
}
use svr.FrameProperties.{FrameProperties}
use svr.Decoder.{Image, Decoder, get_current_frame}
use svr.Decoder.Frames.{IsDecoder, started, NoFrame}
use svr.Decoder.Rows.{span, unpad, unpad-nil}

-- Frames with rows of `w` bytes of pixels in `step` bytes.
abbrev pub InRows : ℕ → ℕ → List Image → Type 0
InRows w step [] = Unit {0}
InRows w step (f ∷ fs) = (f.width * f.n_channels ≡ w) × (f.width_step ≡ step) × InRows w step fs

-- The pixels of `rows` rows of each frame.
abbrev pub pixels : ℕ → ℕ → ℕ → List Image → Bytes
pixels w step rows [] = []
pixels w step rows (f ∷ fs) = unpad w step rows f.image_data ++ pixels w step rows fs

-- The pixels that have been written.
abbrev pub received_pixels : ℕ → ℕ → ℕ → Decoder → Bytes
received_pixels w step rows d =
    pixels w step rows d.ready_frames ++ unpad w step rows (started d.free_frames d.write_offset)

pixels-append :
    (w step rows : ℕ) (fs gs : List Image)
    → pixels w step rows (fs ++ gs) ≡ pixels w step rows fs ++ pixels w step rows gs
pixels-append w step rows [] gs = refl
pixels-append w step rows (f ∷ fs) gs =
    ap (λ (xs : Bytes). unpad w step rows f.image_data ++ xs) (pixels-append w step rows fs gs)
    ∙ sym (
        append_assoc (unpad w step rows f.image_data) (pixels w step rows fs)
          (pixels w step rows gs))

unpad_nothing : (w step rows : ℕ) (fs : List Image) → unpad w step rows (started fs 0) ≡ []
unpad_nothing w step rows [] = unpad-nil w step rows
unpad_nothing w step rows (f ∷ fs) = unpad-nil w step rows

-- Where the decoder writes next: column `c` of row `r`, among the pixels.
pub record IsPadded (create_image : FrameProperties → Image) (w step rows : ℕ) (d : Decoder)
    : Type 0 where
  pub decoder : IsDecoder create_image (span step rows) d
  pub created_width :
      (create_image d.frame_properties).width * (create_image d.frame_properties).n_channels ≡ w
  pub created_step : (create_image d.frame_properties).width_step ≡ step
  pub in_rows : InRows w step d.free_frames
  pub row : ℕ
  pub column : ℕ
  pub row_lt : row < rows
  pub column_lt : column < w
  pub position : d.write_offset ≡ span step row + column

module _ (create_image : FrameProperties → Image) (w step rows : ℕ) (narrow : w < step) where
  abbrev pub Filling : Decoder → Type 0
  Filling d =
      (f : Image) × (fs : List Image) × (get_current_frame create_image d
        ≡ (f, record d { free_frames = f ∷ fs }))
      × IsPadded create_image w step rows (record d { free_frames = f ∷ fs })
      × (started (f ∷ fs) d.write_offset ≡ started d.free_frames d.write_offset)

  pub Filling_lem :
      (d : Decoder) (free : List Image)
      → d.free_frames ≡ free
      → IsPadded create_image w step rows d
      → Filling d
  unfolding get_current_frame
  Filling_lem d [] e h =
      let f = create_image d.frame_properties in
      let zero_offset : d.write_offset ≡ 0 =
        subst (λ (l : List Image). NoFrame l d.write_offset) e h.decoder.fresh in
      let p = h.decoder in
      (
        f,
        [],
        rw e refl,
        record {
          decoder = record {
            created = p.created;
            created_data = p.created_data;
            ready = p.ready;
            free = (p.created, p.created_data, tt);
            offset = p.offset;
            fresh = tt;
            bound = p.bound;
          };
          created_width = h.created_width;
          created_step = h.created_step;
          in_rows = (h.created_width, h.created_step, tt);
          row = h.row;
          column = h.column;
          row_lt = h.row_lt;
          column_lt = h.column_lt;
          position = h.position;
        },
        rw (e, zero_offset) refl,
      )
  Filling_lem d (f ∷ fs) e h = (
    f,
    fs,
    rw e refl,
    subst (λ (l : List Image). IsPadded create_image w step rows (record d { free_frames = l })) e
        h,
    ap (λ (l : List Image). started l d.write_offset) (sym e),
  )

  -- A frame that has become ready.
  pub pixels-finished :
      (d : Decoder) (f : Image) (fs : List Image) (image : Image) (bs : Bytes)
      → unpad w step rows image.image_data
        ≡ unpad w step rows (take d.write_offset f.image_data) ++ bs
      → received_pixels w step rows (record d {
        ready_frames = d.ready_frames ++ image ∷ [];
        free_frames = fs;
        write_offset = 0;
      })
        ≡ received_pixels w step rows (record d { free_frames = f ∷ fs }) ++ bs
  pixels-finished d f fs image bs e =
      let before = pixels w step rows d.ready_frames in
      rw
        (
          unpad_nothing w step rows fs,
          append-nil (pixels w step rows (d.ready_frames ++ image ∷ [])),
          pixels-append w step rows d.ready_frames (image ∷ []),
          append-nil (unpad w step rows image.image_data),
          e,
        )
        (sym (append_assoc before (unpad w step rows (take d.write_offset f.image_data)) bs))
