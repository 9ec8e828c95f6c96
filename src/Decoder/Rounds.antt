-- ===== src/Decoder/Rounds.antt =====
-- lib/encoding.c: a round of `SVR_Decoder_writeUnpaddedFrameData`, and one that ends within a row.
use svr.Base.{
  ℕ, ◌+◌, ◌-◌, ◌%◌, ◌<◌, ◌==◌, true, false, List, ◌∷◌, ◌++◌, Bytes, length, ◌≡◌, refl, sym, ap, ◌∙◌,
  arith, ◌>>=◌, some, take, length-take, append_assoc, min,
}
use svr.FrameProperties.{FrameProperties}
use svr.Decoder.{
  Image, Decoder, unpadded_round, get_current_frame, complete_if, minus, u32, checked_mod,
  skip_padding, get_row_padding,
}
use svr.Decoder.Frames.{IsDecoder, filled, copy_in_lem, take-filled, minus_lem, checked_mod_lem}
use svr.Decoder.Filling.{going_on, moved}
use svr.Decoder.Rows.{span, unpad, unpad-append, mod-span, span_le}
use svr.Decoder.Position.{IsPadded, pixels, received_pixels}

module _ (create_image : FrameProperties → Image) (w step rows : ℕ) (narrow : w < step) where
  module _ (d : Decoder) (f : Image) (fs : List Image) (bs : Bytes)
      (e : get_current_frame create_image d ≡ (f, record d { free_frames = f ∷ fs }))
      (h : IsPadded create_image w step rows (record d { free_frames = f ∷ fs }))
      (some_bytes : 0 < length bs) where
    -- The decoder after the copy of `n` bytes.
    abbrev pub copied : ℕ → Decoder
    copied n = record d {
      free_frames = filled f d.write_offset (take n bs) ∷ fs;
      write_offset = d.write_offset + n;
    }

    pub round_lem :
        (n : ℕ)
        → n ≡ min (w - h.column) (length bs)
        → unpadded_round create_image (span step rows) step d bs ≡ (do
          skipped ← skip_padding create_image (span step rows) step f (h.column + n) (copied n)
          some (n, complete_if skipped))
    unfolding unpadded_round
    round_lem n is =
        let b = h.decoder.bound in
        let o = h.decoder.offset in
        let l = h.decoder.free.1 in
        let k = h.column_lt in
        let at = h.position in
        let done : checked_mod d.write_offset step ≡ some h.column =
          checked_mod_lem d.write_offset step (omega arith)
          ∙ ap some (rw at (mod-span step h.row h.column (omega arith))) in
        let s = span_le step h.row rows h.row_lt in
        let chunk : min (minus w h.column) (length bs) ≡ n = omega (arith, minus_lem w h.column) in
        let stored = copy_in_lem d f fs (take n bs) (omega (arith, length-take n bs)) in
        let fits : u32 (d.write_offset + n) ≡ d.write_offset + n = omega arith in
        let column : checked_mod (d.write_offset + n) step ≡ some (h.column + n) =
          checked_mod_lem (d.write_offset + n) step (omega arith)
          ∙ ap some (
              (let assoc : d.write_offset + n ≡ span step h.row + (h.column + n) = omega arith in
                rw assoc (mod-span step h.row (h.column + n) (omega arith)))) in
        rw (e, done, h.in_rows.0, chunk, stored, fits, column) refl

    module _ (n : ℕ) (is : n ≡ min (w - h.column) (length bs)) where
      -- The pixels of the frame, as far as they have been written.
      pub grown :
          unpad w step rows
            (take (d.write_offset + n) (filled f d.write_offset (take n bs)).image_data)
          ≡ unpad w step rows (take d.write_offset f.image_data) ++ take n bs
      grown =
          let o = h.decoder.offset in
          let l = h.decoder.free.1 in
          let at = h.position in
          let k = h.column_lt in
          ap (unpad w step rows) (
            take-filled f d.write_offset (d.write_offset + n) (take n bs) (omega arith)
              (omega (arith, length-take n bs)))
          ∙ unpad-append w step rows h.row h.column (take d.write_offset f.image_data) (take n bs)
              (omega (arith, length-take d.write_offset f.image_data))
              (omega (arith, length-take n bs)) (omega arith) h.row_lt

      -- The image goes on, from another position.
      pub goes_on :
          (offset : ℕ)
          → offset < span step rows
          → IsDecoder create_image (span step rows) (record d {
            free_frames = filled f d.write_offset (take n bs) ∷ fs;
            write_offset = offset;
          })
      goes_on offset small =
          let at = h.position in
          let k = h.column_lt in
          let s = span_le step h.row rows h.row_lt in
          moved create_image (span step rows)
            (record d { write_offset = d.write_offset + length (take n bs) })
            (filled f d.write_offset (take n bs)) fs offset
            (going_on create_image (span step rows) d f fs (take n bs) h.decoder
              (omega (arith, length-take n bs)))
            small

      abbrev pub Took : Decoder → Type 0
      Took d' =
          (unpadded_round create_image (span step rows) step d bs ≡ some (n, d'))
          × IsPadded create_image w step rows d'
          × (received_pixels w step rows d'
              ≡ received_pixels w step rows (record d { free_frames = f ∷ fs }) ++ take n bs)

      -- The padding is skipped at the end of a row only.
      skip_none :
          h.column + n < w
          → skip_padding create_image (span step rows) step f (h.column + n) (copied n)
            ≡ some (copied n)
      unfolding skip_padding
      skip_none inside =
          let other : (h.column + n == w) ≡ false = ground arith in rw (h.in_rows.0, other) refl

      pub skip_some :
          h.column + n ≡ w
          → (offset : ℕ) → u32 ((d.write_offset + n + (step - w)) % span step rows) ≡ offset
          → skip_padding create_image (span step rows) step f (h.column + n) (copied n)
            ≡ some (record d {
              free_frames = filled f d.write_offset (take n bs) ∷ fs;
              write_offset = offset;
            })
      unfolding skip_padding get_row_padding get_current_frame
      skip_some ends offset next =
          let same : (h.column + n == w) ≡ true = ground arith in
          let at = h.decoder.offset in
          let mod_ =
            checked_mod_lem (d.write_offset + n + (step - w)) (span step rows) (omega arith) in
          rw (h.in_rows.0, same, h.in_rows.1, mod_, next) refl

      pub in_row : h.column + n < w → (d' : Decoder) × Took d'
      in_row inside =
          let at = h.position in
          let o = h.decoder.offset in
          let s = span_le step h.row rows h.row_lt in
          let open_ : (d.write_offset + n == 0) ≡ false = let k = h.column_lt in ground arith in
          (
            copied n,
            (
              round_lem n is ∙ rw (skip_none inside, open_) refl,
              record {
                decoder = goes_on (d.write_offset + n) (omega arith);
                created_width = h.created_width;
                created_step = h.created_step;
                in_rows = h.in_rows;
                row = h.row;
                column = h.column + n;
                row_lt = h.row_lt;
                column_lt = inside;
                position = omega arith;
              },
              ap (λ (xs : Bytes). pixels w step rows d.ready_frames ++ xs) grown
                  ∙ sym (
                      append_assoc (pixels w step rows d.ready_frames)
                        (unpad w step rows (take d.write_offset f.image_data)) (take n bs)),
            ),
          )
