-- ===== src/Decoder.antt =====
-- The decoder half of lib/encoding.c: decoded bytes are stored in images of OpenCV, one after the
-- other. The first free frame is the one that is being filled. `SVR_LOCK` makes each operation one
-- step. `create_image` stands for `cvCreateImage` of the properties of the decoder.
pub mod Frames
pub mod Filling
pub mod Offset
pub mod Padded
pub mod Rows
pub mod Position
pub mod Rounds
pub mod RowEnds
pub mod Unpadded
use svr.Base.{
  ℕ, zero, suc, ◌+◌, ◌-◌, ◌*◌, ◌%◌, ◌^◌, List, [], ◌∷◌, ◌++◌, Option, none, some, Bytes, length,
  ◌>>=◌, take, drop, ◌==◌, if◌then◌else◌, min, store, ltb,
}
use svr.FrameProperties.{FrameProperties}

-- `IplImage`, as far as the decoder uses it.
pub record Image : Type 0 where
  pub image_data : Bytes
  pub width : ℕ
  pub n_channels : ℕ
  pub width_step : ℕ
  pub image_size : ℕ

-- `SVR_Decoder`, less the encoding and its private data.
pub record Decoder : Type 0 where
  pub ready_frames : List Image
  pub free_frames : List Image
  pub write_offset : ℕ
  pub frame_properties : FrameProperties

-- How a write ends. `looping` would be a loop that has not ended in its rounds.
pub data Written : Type 0 where
  written : Decoder → Written
  looping : Written

-- `SVR_Decoder_new`, which clones the properties.
unfoldable pub new : FrameProperties → Decoder
new p = record { ready_frames = []; free_frames = []; write_offset = 0; frame_properties = p }

-- `SVR_Decoder_framesReady`
abbrev pub frames_ready : Decoder → ℕ
frames_ready d = length d.ready_frames

-- `SVR_Decoder_getFrame`
abbrev pub take_ready : List Image → Decoder → Option Image × Decoder
take_ready [] d = (none, d)
take_ready (f ∷ fs) d = (some f, record d { ready_frames = fs })

unfoldable pub get_frame : Decoder → Option Image × Decoder
get_frame d = take_ready d.ready_frames d

-- `SVR_Decoder_returnFrame`
unfoldable pub return_frame : Decoder → Image → Decoder
return_frame d f = record d { free_frames = d.free_frames ++ f ∷ [] }

-- `SVR_Decoder_currentFrameComplete`
abbrev pub move_frame : List Image → Decoder → Decoder
move_frame [] d = d
move_frame (f ∷ fs) d = record d {
  ready_frames = d.ready_frames ++ f ∷ [];
  free_frames = fs;
  write_offset = 0;
}

unfoldable pub current_frame_complete : Decoder → Decoder
current_frame_complete d = move_frame d.free_frames d

-- `unsigned int` and `size_t`.
abbrev pub u32 : ℕ → ℕ
u32 n = n % 2 ^ 32

abbrev pub minus : ℕ → ℕ → ℕ
minus m n = (m + 2 ^ 64 - n) % 2 ^ 64

-- The `int` that a sum is stored in, compared with a `size_t`: a negative one is a huge number.
unfoldable pub size_of_int : ℕ → ℕ
size_of_int n = if ltb (n % 2 ^ 32) (2 ^ 31) then n % 2 ^ 32 else n % 2 ^ 32 + (2 ^ 64 - 2 ^ 32)

-- `m % n`, where `n` may be 0.
abbrev pub checked_mod : ℕ → ℕ → Option ℕ
checked_mod m zero = none
checked_mod m (suc n) = some (m % suc n)

-- The `memcpy` into the current frame.
unfoldable pub copy_in : Decoder → Image → Bytes → Option Decoder
copy_in d f bs = do
  p ← store f.image_data d.write_offset bs
  some (record d { free_frames = record f { image_data = p } ∷ drop 1 d.free_frames })

abbrev pub complete_if : Decoder → Decoder
complete_if d = if d.write_offset == 0 then current_frame_complete d else d

module _ (create_image : FrameProperties → Image) where
  -- `SVR_Decoder_getCurrentFrame`
  abbrev pub first_free : List Image → Decoder → Image × Decoder
  first_free [] d =
      let f = create_image d.frame_properties in (f, record d { free_frames = f ∷ [] })
  first_free (f ∷ fs) d = (f, d)

  unfoldable pub get_current_frame : Decoder → Image × Decoder
  get_current_frame d = first_free d.free_frames d

  -- `SVR_Decoder_getRowPadding`. An image's row is at least as long as its pixels.
  unfoldable pub get_row_padding : Decoder → ℕ × Decoder
  get_row_padding d =
      let c = get_current_frame d in (c.0.width_step - c.0.width * c.0.n_channels, c.1)

  -- The body of the loop of `SVR_Decoder_writePaddedFrameData`, with what is left of the data: the
  -- decoder, and the number of bytes that it took.
  unfoldable pub padded_round : ℕ → Decoder → Bytes → Option (ℕ × Decoder)
  padded_round image_size d bs =
      let c = get_current_frame d in
      let chunk_size = min (minus image_size c.1.write_offset) (length bs) in
      do
        copied ← copy_in c.1 c.0 (take chunk_size bs)
        offset ← checked_mod (copied.write_offset + chunk_size) image_size
        some (chunk_size, complete_if (record copied { write_offset = u32 offset }))

  -- The loop, at an offset into the data.
  unfoldable pub padded_loop : ℕ → ℕ → Decoder → Bytes → ℕ → Option Written
  padded_loop zero image_size d bs offset = some looping
  padded_loop (suc fuel) image_size d bs offset =
      if ltb offset (length bs)
      then (do
        r ← padded_round image_size d (drop offset bs)
        padded_loop fuel image_size r.1 bs (size_of_int (offset + r.0)))
      else some (written d)

  -- `SVR_Decoder_writePaddedFrameData`, with a round for each byte and one to see the end.
  unfoldable pub write_padded : Decoder → Bytes → Option Written
  write_padded d bs =
      let c = get_current_frame d in padded_loop (length bs + 1) c.0.image_size c.1 bs 0

  -- The end of a row: the padding is skipped.
  unfoldable pub skip_padding : ℕ → ℕ → Image → ℕ → Decoder → Option Decoder
  skip_padding image_size width_step f column d =
      if column == f.width * f.n_channels
      then (let padding = get_row_padding d in
          do
            offset ← checked_mod (padding.1.write_offset + padding.0) image_size
            some (record padding.1 { write_offset = u32 offset }))
      else some d

  -- The body of the loop of `SVR_Decoder_writeUnpaddedFrameData`.
  unfoldable pub unpadded_round : ℕ → ℕ → Decoder → Bytes → Option (ℕ × Decoder)
  unpadded_round image_size width_step d bs =
      let c = get_current_frame d in
      do
        done ← checked_mod c.1.write_offset width_step
        let copy_size = min (minus (c.0.width * c.0.n_channels) done) (length bs)
        copied ← copy_in c.1 c.0 (take copy_size bs)
        let moved = record copied { write_offset = u32 (copied.write_offset + copy_size) }
        column ← checked_mod moved.write_offset width_step
        skipped ← skip_padding image_size width_step c.0 column moved
        some (copy_size, complete_if skipped)

  unfoldable pub unpadded_loop : ℕ → ℕ → ℕ → Decoder → Bytes → ℕ → Option Written
  unpadded_loop zero image_size width_step d bs offset = some looping
  unpadded_loop (suc fuel) image_size width_step d bs offset =
      if ltb offset (length bs)
      then (do
        r ← unpadded_round image_size width_step d (drop offset bs)
        unpadded_loop fuel image_size width_step r.1 bs (size_of_int (offset + r.0)))
      else some (written d)

  -- `SVR_Decoder_writeUnpaddedFrameData`
  unfoldable pub write_unpadded : Decoder → Bytes → Option Written
  write_unpadded d bs =
      let padding = get_row_padding d in
      if padding.0 == 0
      then write_padded padding.1 bs
      else (let c = get_current_frame padding.1 in
          unpadded_loop (length bs + 1) c.0.image_size c.0.width_step c.1 bs 0)
