-- ===== src/Decoder/RowEnds.antt =====
-- lib/encoding.c: a round of `SVR_Decoder_writeUnpaddedFrameData` that ends a row or a frame.
use svr.Base.{
  ℕ, suc, ◌+◌, ◌-◌, ◌%◌, ◌<◌, ◌==◌, false, List, [], ◌∷◌, ◌++◌, Bytes, length, ◌≡◌, refl, sym, ap,
  ◌∙◌, arith, take, length-take, append_assoc, min, take_all, mod-eq_of_lt, mod-eq-sub-mod,
}
use svr.FrameProperties.{FrameProperties}
use svr.Decoder.{Image, Decoder, get_current_frame, current_frame_complete, u32}
use svr.Decoder.Frames.{filled, length-filled}
use svr.Decoder.Filling.{finished}
use svr.Decoder.Rows.{span, unpad, unpad-padding, span_le}
use svr.Decoder.Position.{IsPadded, pixels, pixels-finished}
use svr.Decoder.Rounds.{round_lem, grown, goes_on, skip_some, Took}

module _ (create_image : FrameProperties → Image) (w step rows : ℕ) (narrow : w < step) where
  module _ (d : Decoder) (f : Image) (fs : List Image) (bs : Bytes)
      (e : get_current_frame create_image d ≡ (f, record d { free_frames = f ∷ fs }))
      (h : IsPadded create_image w step rows (record d { free_frames = f ∷ fs }))
      (some_bytes : 0 < length bs) where
    module _ (n : ℕ) (is : n ≡ min (w - h.column) (length bs)) where
      pub row_end :
          h.column + n ≡ w
          → suc h.row < rows
          → (d' : Decoder) × Took create_image w step rows narrow d f fs bs e h some_bytes n is d'
      row_end ends more =
          let at = h.position in
          let k = h.column_lt in
          let b = h.decoder.bound in
          let s = span_le step (suc h.row) rows more in
          let next : u32 ((d.write_offset + n + (step - w)) % span step rows)
              ≡ span step (suc h.row) =
            (let there : d.write_offset + n + (step - w) ≡ span step (suc h.row) = omega arith in
              rw there (
                ap u32 (mod-eq_of_lt {n = span step (suc h.row)} {m = span step rows} (omega arith))
                ∙ omega arith)) in
          let open_ : (span step (suc h.row) == 0) ≡ false = ground arith in
          (
            record d {
              free_frames = filled f d.write_offset (take n bs) ∷ fs;
              write_offset = span step (suc h.row);
            },
            (
              round_lem create_image w step rows narrow d f fs bs e h some_bytes n is
                  ∙ rw
                      (
                        skip_some create_image w step rows narrow d f fs bs e h some_bytes n is ends
                            (span step (suc h.row)) next,
                        open_,
                      )
                      refl,
              record {
                decoder =
                    goes_on create_image w step rows narrow d f fs bs e h some_bytes n is
                      (span step (suc h.row)) (omega arith);
                created_width = h.created_width;
                created_step = h.created_step;
                in_rows = h.in_rows;
                row = suc h.row;
                column = 0;
                row_lt = more;
                column_lt = omega arith;
                position = omega arith;
              },
              ap (λ (xs : Bytes). pixels w step rows d.ready_frames ++ xs)
                    (unpad-padding w step rows h.row (d.write_offset + n) (span step (suc h.row))
                        (filled f d.write_offset (take n bs)).image_data (omega arith) (omega arith)
                        (omega arith) (omega arith) h.row_lt
                      ∙ grown create_image w step rows narrow d f fs bs e h some_bytes n is)
                  ∙ sym (
                      append_assoc (pixels w step rows d.ready_frames)
                        (unpad w step rows (take d.write_offset f.image_data)) (take n bs)),
            ),
          )

      pub frame_end :
          h.column + n ≡ w
          → suc h.row ≡ rows
          → (d' : Decoder) × Took create_image w step rows narrow d f fs bs e h some_bytes n is d'
      unfolding current_frame_complete
      frame_end ends last =
          let at = h.position in
          let k = h.column_lt in
          let b = h.decoder.bound in
          let l = h.decoder.free.1 in
          let whole : span step rows ≡ step + span step h.row = ap (span step) (sym last) in
          let next : u32 ((d.write_offset + n + (step - w)) % span step rows) ≡ 0 =
            (let there : d.write_offset + n + (step - w) ≡ span step rows = omega arith in
              rw there (
                ap u32 (
                  mod-eq-sub-mod {n = span step rows} {m = span step rows} (omega arith)
                  ∙ mod-eq_of_lt {n = span step rows - span step rows} {m = span step rows}
                      (omega arith))
                ∙ omega arith)) in
          let image = filled f d.write_offset (take n bs) in
          let all : take (span step rows) image.image_data ≡ image.image_data =
            take_all (span step rows) image.image_data
              (omega (arith, length-filled f d.write_offset (take n bs), length-take n bs)) in
          (
            record d {
              ready_frames = d.ready_frames ++ image ∷ [];
              free_frames = fs;
              write_offset = 0;
            },
            (
              round_lem create_image w step rows narrow d f fs bs e h some_bytes n is
                  ∙ rw
                      (skip_some create_image w step rows narrow d f fs bs e h some_bytes n is ends
                        0 next)
                      refl,
              record {
                decoder =
                    finished create_image (span step rows) d f fs (take n bs) h.decoder
                      (omega (arith, length-take n bs));
                created_width = h.created_width;
                created_step = h.created_step;
                in_rows = h.in_rows.2;
                row = 0;
                column = 0;
                row_lt = omega arith;
                column_lt = omega arith;
                position = refl;
              },
              pixels-finished create_image w step rows narrow d f fs image (take n bs) (
                  ap (unpad w step rows) (sym all)
                  ∙ unpad-padding w step rows h.row (d.write_offset + n) (span step rows)
                      image.image_data (omega arith) (omega arith) (omega arith) (omega arith)
                      h.row_lt
                  ∙ grown create_image w step rows narrow d f fs bs e h some_bytes n is),
            ),
          )
