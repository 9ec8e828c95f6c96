-- ===== src/Decoder/Unpadded.antt =====
-- lib/encoding.c: `SVR_Decoder_writeUnpaddedFrameData` puts each row of pixels where it belongs, and
-- leaves the padding between the rows.
use svr.Base.{
  ltb, true, Option, Bool-cases, inl, inr, ◌^◌, ◌≤◌, drop_all, ℕ, zero, suc, ◌+◌, ◌-◌, ◌<◌, ◌==◌,
  false, [], ◌∷◌, ◌++◌, Bytes, length, ◌≡◌, refl, sym, ap, ◌∙◌, arith, some, take, drop,
  length-drop, append-nil, min, dec_lt,
}
use svr.Decoder.Offset.{size_of_int_lem, received_rest}
use svr.FrameProperties.{FrameProperties}
use svr.Decoder.{
  Image, Decoder, Written, written, unpadded_round, unpadded_loop, write_unpadded,
  get_current_frame, get_row_padding, size_of_int,
}
use svr.Decoder.Rows.{span, unpad}
use svr.Decoder.Position.{IsPadded, received_pixels, Filling_lem, pixels}
use svr.Decoder.Rounds.{in_row}
use svr.Decoder.RowEnds.{row_end, frame_end}

module _ (create_image : FrameProperties → Image) (w step rows : ℕ) (narrow : w < step) where
  round_of :
      (d : Decoder) (bs : Bytes)
      → IsPadded create_image w step rows d
      → 0 < length bs
      → (n : ℕ) × (d' : Decoder) × (0 < n)
        × (n ≤ length bs)
        × (unpadded_round create_image (span step rows) step d bs ≡ some (n, d'))
        × IsPadded create_image w step rows d'
        × (received_pixels w step rows d' ≡ received_pixels w step rows d ++ take n bs)
  round_of d bs h some_bytes =
      let (f, fs, e, h', same) =
        Filling_lem create_image w step rows narrow d d.free_frames refl h in
      let k = h'.column_lt in
      let r = h'.row_lt in
      let n = min (w - h'.column) (length bs) in
      let from_start =
        ap
          (λ (xs : Bytes). (pixels w step rows d.ready_frames ++ unpad w step rows xs) ++ take n bs)
          same in
      elim (dec_lt (h'.column + n) w) [
        | yes inside ↦
            let (d', t) =
              in_row create_image w step rows narrow d f fs bs e h' some_bytes n refl inside in
            (n, d', omega arith, omega arith, t.0, t.1, t.2 ∙ from_start)
        | no ends ↦ elim (dec_lt (suc h'.row) rows) [
          | yes more ↦
              let (d', t) =
                row_end create_image w step rows narrow d f fs bs e h' some_bytes n refl
                  (omega arith) more in
              (n, d', omega arith, omega arith, t.0, t.1, t.2 ∙ from_start)
          | no last ↦
              let (d', t) =
                frame_end create_image w step rows narrow d f fs bs e h' some_bytes n refl
                  (omega arith) (omega arith) in
              (n, d', omega arith, omega arith, t.0, t.1, t.2 ∙ from_start)
        ]
      ]

  unpadded_loop-suc :
      (fuel : ℕ) (d mid : Decoder) (bs : Bytes) (offset n : ℕ) (r : Option Written)
      → ltb offset (length bs) ≡ true
      → unpadded_round create_image (span step rows) step d (drop offset bs) ≡ some (n, mid)
      → size_of_int (offset + n) ≡ offset + n
      → unpadded_loop create_image fuel (span step rows) step mid bs (offset + n) ≡ r
      → unpadded_loop create_image (suc fuel) (span step rows) step d bs offset ≡ r
  unfolding unpadded_loop
  unpadded_loop-suc fuel d mid bs offset n r more step_ next run = rw (more, step_, next) run

  unpadded_loop-received :
      (fuel : ℕ) (d : Decoder) (bs : Bytes) (offset : ℕ)
      → IsPadded create_image w step rows d
      → length bs < 2 ^ 31
      → offset ≤ length bs
      → length bs < offset + fuel
      → (d' : Decoder) × (unpadded_loop create_image fuel (span step rows) step d bs offset
          ≡ some (written d'))
        × IsPadded create_image w step rows d'
        × (received_pixels w step rows d' ≡ received_pixels w step rows d ++ drop offset bs)
  unfolding unpadded_loop
  unpadded_loop-received zero d bs offset h int_ o enough = absurd (omega arith)
  unpadded_loop-received (suc fuel) d bs offset h int_ o enough =
      elim (Bool-cases (ltb offset (length bs))) [
        | inr ends ↦
            let all : drop offset bs ≡ [] = drop_all offset bs (ground arith) in
            (d, rw ends refl, h, rw all (sym (append-nil (received_pixels w step rows d))))
        | inl more ↦
            let rest = drop offset bs in
            let l : length rest ≡ length bs - offset = length-drop offset bs in
            let (n, mid, p, q, step_, h', r) = round_of d rest h (ground arith) in
            let next : size_of_int (offset + n) ≡ offset + n =
              size_of_int_lem (offset + n) (omega arith) in
            let (d', run, h'', r') =
              unpadded_loop-received fuel mid bs (offset + n) h' int_ (omega arith) (omega arith) in
            (
              d',
              unpadded_loop-suc fuel d mid bs offset n (some (written d')) more step_ next run,
              h'',
              r'
                  ∙ received_rest (received_pixels w step rows d) (received_pixels w step rows mid)
                      offset n bs r,
            )
      ]

  -- On a decoder all of whose images have `rows` rows of `step` bytes, fewer than 2 ^ 31 in all, of which the
  -- first `w`, fewer than `step`, are pixels, and that is to write at a pixel,
  -- `SVR_Decoder_writeUnpaddedFrameData` returns for fewer than 2 ^ 31 bytes of data and leaves it so. The pixels of
  -- the frames that are ready and of the frame that is being filled are then what they were, followed by all of the
  -- data: the padding of each row is skipped, and nothing else is.
  pub write_unpadded-received :
      (d : Decoder) (bs : Bytes)
      → IsPadded create_image w step rows d
      → length bs < 2 ^ 31
      → (d' : Decoder) × (write_unpadded create_image d bs ≡ some (written d'))
        × IsPadded create_image w step rows d'
        × (received_pixels w step rows d' ≡ received_pixels w step rows d ++ bs)
  unfolding write_unpadded get_row_padding get_current_frame
  write_unpadded-received d bs h int_ =
      let (f, fs, e, h', same) =
        Filling_lem create_image w step rows narrow d d.free_frames refl h in
      let (d', run, h'', r) =
        unpadded_loop-received (length bs + 1) (record d { free_frames = f ∷ fs }) bs 0 h' int_
          (omega arith) (omega arith) in
      let padded : (step - w == 0) ≡ false = ground arith in
      (
        d',
        rw (e, h'.in_rows.0, h'.in_rows.1, padded, h'.decoder.free.0) run,
        h'',
        r
            ∙ ap (λ (xs : Bytes). (pixels w step rows d.ready_frames ++ unpad w step rows xs) ++ bs)
                same,
      )
