-- ===== src/Decoder/Padded.antt =====
-- lib/encoding.c: `SVR_Decoder_writePaddedFrameData` fills the frames in order.
use svr.Base.{
  ltb, true, Option, Bool-cases, inl, inr, ◌^◌, ◌≤◌, drop_all, ℕ, zero, suc, ◌+◌, ◌-◌, ◌%◌, ◌<◌,
  List, [], ◌∷◌, ◌++◌, ◌==◌, false, Bytes, length, ◌≡◌, refl, sym, ap, ◌∙◌, arith, some, take, drop,
  length-take, length-drop, append_assoc, append-nil, min, take_all, mod-eq_of_lt, mod-eq-sub-mod,
  dec_lt,
}
use svr.Decoder.Offset.{size_of_int_lem, received_rest}
use svr.FrameProperties.{FrameProperties}
use svr.Decoder.{
  Image, Decoder, Written, written, padded_round, padded_loop, write_padded, get_current_frame,
  complete_if, current_frame_complete, minus, u32, size_of_int,
}
use svr.Decoder.Frames.{
  checked_mod_lem, received, contents, IsDecoder, filled, copy_in_lem, take-filled, minus_lem,
  received-finished,
}
use svr.Decoder.Filling.{get_current_frame-Filling, going_on, finished}

module _ (create_image : FrameProperties → Image) (size : ℕ) where
  -- What a round has done, with `n` bytes of the data.
  abbrev pub Took : Decoder → Bytes → ℕ → Decoder → Type 0
  Took d bs n d' =
      (0 < n)
      × (n ≤ length bs)
      × IsDecoder create_image size d'
      × (received d' ≡ received d ++ take n bs)

  module _ (d : Decoder) (f : Image) (fs : List Image) (bs : Bytes)
      (e : get_current_frame create_image d ≡ (f, record d { free_frames = f ∷ fs }))
      (h : IsDecoder create_image size (record d { free_frames = f ∷ fs }))
      (some_bytes : 0 < length bs) where
    round_lem :
        (n : ℕ)
        → n ≡ min (size - d.write_offset) (length bs)
        → padded_round create_image size d bs
          ≡ some (
            n,
            complete_if (record d {
              free_frames = filled f d.write_offset (take n bs) ∷ fs;
              write_offset = u32 ((d.write_offset + n) % size);
            }),
          )
    unfolding padded_round
    round_lem n is =
        let b = h.bound in
        let o = h.offset in
        let l = h.free.1 in
        let chunk : min (minus size d.write_offset) (length bs) ≡ n =
          omega (arith, minus_lem size d.write_offset) in
        let stored = copy_in_lem d f fs (take n bs) (omega (arith, length-take n bs)) in
        let next = checked_mod_lem (d.write_offset + n) size (omega arith) in
        rw (e, chunk, stored, next) refl

    -- The frame is not full after the round.
    part :
        d.write_offset + length bs < size
        → (d' : Decoder) × (padded_round create_image size d bs ≡ some (length bs, d'))
          × Took (record d { free_frames = f ∷ fs }) bs (length bs) d'
    part small =
        let l = h.free.1 in
        let whole : take (length bs) bs ≡ bs = take_all (length bs) bs (omega arith) in
        let same_offset : u32 ((d.write_offset + length bs) % size) ≡ d.write_offset + length bs =
          let b = h.bound in
          ap u32 (mod-eq_of_lt {n = d.write_offset + length bs} {m = size} small) ∙ omega arith in
        let open_ : (d.write_offset + length bs == 0) ≡ false = ground arith in
        (
          record d {
            free_frames = filled f d.write_offset bs ∷ fs;
            write_offset = d.write_offset + length bs;
          },
          round_lem (length bs) (omega arith) ∙ rw (whole, same_offset, open_) refl,
          (
            some_bytes,
            omega arith,
            going_on create_image size d f fs bs h small,
            ap (λ (xs : Bytes). contents d.ready_frames ++ xs)
                  (take-filled f d.write_offset (d.write_offset + length bs) bs
                    (let o = h.offset in omega arith) refl)
                ∙ rw whole (
                    sym (
                      append_assoc (contents d.ready_frames) (take d.write_offset f.image_data)
                        bs)),
          ),
        )

    -- The round fills the frame.
    full :
        (n : ℕ)
        → d.write_offset + n ≡ size
        → n ≤ length bs
        → (d' : Decoder) × (padded_round create_image size d bs ≡ some (n, d'))
          × Took (record d { free_frames = f ∷ fs }) bs n d'
    unfolding current_frame_complete
    full n fills enough =
        let o = h.offset in
        let l = h.free.1 in
        let taken : length (take n bs) ≡ n = omega (arith, length-take n bs) in
        let same_offset : u32 ((d.write_offset + n) % size) ≡ 0 = rw fills (
          ap u32 (
            mod-eq-sub-mod {n = size} {m = size} (omega arith)
            ∙ mod-eq_of_lt {n = size - size} {m = size} (omega arith))
          ∙ omega arith) in
        let image = filled f d.write_offset (take n bs) in
        (
          record d {
            ready_frames = d.ready_frames ++ image ∷ [];
            free_frames = fs;
            write_offset = 0;
          },
          round_lem n (omega arith) ∙ rw same_offset refl,
          (
            omega arith,
            enough,
            finished create_image size d f fs (take n bs) h (omega arith),
            received-finished d f fs (take n bs) (omega arith),
          ),
        )

  round_of :
      (d : Decoder) (bs : Bytes)
      → IsDecoder create_image size d
      → 0 < length bs
      → (n : ℕ) × (d' : Decoder) × (padded_round create_image size d bs ≡ some (n, d'))
        × Took d bs n d'
  round_of d bs h some_bytes =
      let (f, fs, e, h', same) = get_current_frame-Filling create_image size d h in
      let o = h.offset in
      elim (dec_lt (d.write_offset + length bs) size) [
        | yes small ↦
            let (d', step, (p, q, i, r)) = part d f fs bs e h' some_bytes small in
            (
              length bs,
              d',
              step,
              (p, q, i, r ∙ ap (λ (xs : Bytes). xs ++ take (length bs) bs) same),
            )
        | no large ↦
            let n = size - d.write_offset in
            let (d', step, (p, q, i, r)) =
              full d f fs bs e h' some_bytes n (omega arith) (omega arith) in
            (n, d', step, (p, q, i, r ∙ ap (λ (xs : Bytes). xs ++ take n bs) same))
      ]

  padded_loop-suc :
      (fuel : ℕ) (d mid : Decoder) (bs : Bytes) (offset n : ℕ) (r : Option Written)
      → ltb offset (length bs) ≡ true
      → padded_round create_image size d (drop offset bs) ≡ some (n, mid)
      → size_of_int (offset + n) ≡ offset + n
      → padded_loop create_image fuel size mid bs (offset + n) ≡ r
      → padded_loop create_image (suc fuel) size d bs offset ≡ r
  unfolding padded_loop
  padded_loop-suc fuel d mid bs offset n r more step_ next run = rw (more, step_, next) run

  padded_loop-received :
      (fuel : ℕ) (d : Decoder) (bs : Bytes) (offset : ℕ)
      → IsDecoder create_image size d
      → length bs < 2 ^ 31
      → offset ≤ length bs
      → length bs < offset + fuel
      → (d' : Decoder) × (padded_loop create_image fuel size d bs offset ≡ some (written d'))
        × IsDecoder create_image size d'
        × (received d' ≡ received d ++ drop offset bs)
  unfolding padded_loop
  padded_loop-received zero d bs offset h int_ o enough = absurd (omega arith)
  padded_loop-received (suc fuel) d bs offset h int_ o enough =
      elim (Bool-cases (ltb offset (length bs))) [
        | inr ends ↦
            let all : drop offset bs ≡ [] = drop_all offset bs (ground arith) in
            (d, rw ends refl, h, rw all (sym (append-nil (received d))))
        | inl more ↦
            let rest = drop offset bs in
            let l : length rest ≡ length bs - offset = length-drop offset bs in
            let (n, mid, step, (p, q, h', r)) = round_of d rest h (ground arith) in
            let next : size_of_int (offset + n) ≡ offset + n =
              size_of_int_lem (offset + n) (omega arith) in
            let (d', run, h'', r') =
              padded_loop-received fuel mid bs (offset + n) h' int_ (omega arith) (omega arith) in
            (
              d',
              padded_loop-suc fuel d mid bs offset n (some (written d')) more step next run,
              h'',
              r' ∙ received_rest (received d) (received mid) offset n bs r,
            )
      ]

  -- On a decoder all of whose images, those to come included, have `size` bytes, below 2 ^ 31, and that has not
  -- filled the current one, `SVR_Decoder_writePaddedFrameData` returns for fewer than 2 ^ 31 bytes of data and leaves
  -- it so: it stores within the images, and the frames that are ready, with the part of the frame that is being
  -- filled, then hold what they held before followed by all of the data. So it does not matter how the data is cut
  -- into such pieces.
  pub write_padded-received :
      (d : Decoder) (bs : Bytes)
      → IsDecoder create_image size d
      → length bs < 2 ^ 31
      → (d' : Decoder) × (write_padded create_image d bs ≡ some (written d'))
        × IsDecoder create_image size d'
        × (received d' ≡ received d ++ bs)
  unfolding write_padded
  write_padded-received d bs h int_ =
      let (f, fs, e, h', same) = get_current_frame-Filling create_image size d h in
      let (d', run, h'', r) =
        padded_loop-received (length bs + 1) (record d { free_frames = f ∷ fs }) bs 0 h' int_
          (omega arith) (omega arith) in
      (d', rw (e, h'.free.0) run, h'', r ∙ ap (λ (xs : Bytes). xs ++ bs) same)
