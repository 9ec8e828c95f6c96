-- ===== src/Decoder/Frames.antt =====
-- lib/encoding.c: the frames of a decoder, and what a `memcpy` into the current one does.
use svr.Base.{
  ℕ, zero, suc, ◌+◌, ◌-◌, ◌%◌, ◌≤◌, ◌<◌, ◌^◌, List, [], ◌∷◌, ◌++◌, Bytes, length, ◌≡◌, refl, sym,
  ap, ◌∙◌, arith, length-append, some, take, drop, length-take, length-drop, drop_all, append_assoc,
  append-nil, store_lem, take-append_left,
}
use svr.FrameProperties.{FrameProperties}
use svr.Decoder.{Image, Decoder, copy_in, minus, checked_mod}

-- Frames of `size` bytes.
abbrev pub AllOfSize : ℕ → List Image → Type 0
AllOfSize size [] = Unit {0}
AllOfSize size (f ∷ fs) = (f.image_size ≡ size) × (length f.image_data ≡ size) × AllOfSize size fs

-- What the frames contain, one after the other.
abbrev pub contents : List Image → Bytes
contents [] = []
contents (f ∷ fs) = f.image_data ++ contents fs

abbrev pub started : List Image → ℕ → Bytes
started [] offset = []
started (f ∷ fs) offset = take offset f.image_data

-- The bytes that have been written: those of the ready frames, and of the frame that is being filled.
abbrev pub received : Decoder → Bytes
received d = contents d.ready_frames ++ started d.free_frames d.write_offset

abbrev pub NoFrame : List Image → ℕ → Type 0
NoFrame [] offset = offset ≡ 0
NoFrame (f ∷ fs) offset = Unit {0}

-- A decoder all of whose images, those to come included, have `size` bytes.
pub record IsDecoder (create_image : FrameProperties → Image) (size : ℕ) (d : Decoder)
    : Type 0 where
  pub created : (create_image d.frame_properties).image_size ≡ size
  pub created_data : length (create_image d.frame_properties).image_data ≡ size
  pub ready : AllOfSize size d.ready_frames
  pub free : AllOfSize size d.free_frames
  pub offset : d.write_offset < size
  pub fresh : NoFrame d.free_frames d.write_offset
  pub bound : size < 2 ^ 31

pub contents-append : (fs gs : List Image) → contents (fs ++ gs) ≡ contents fs ++ contents gs
contents-append [] gs = refl
contents-append (f ∷ fs) gs =
    ap (λ (xs : Bytes). f.image_data ++ xs) (contents-append fs gs)
    ∙ sym (append_assoc f.image_data (contents fs) (contents gs))

pub AllOfSize-append :
    (size : ℕ) (fs : List Image) (f : Image)
    → AllOfSize size fs
    → f.image_size ≡ size
    → length f.image_data ≡ size
    → AllOfSize size (fs ++ f ∷ [])
AllOfSize-append size [] f h e l = (e, l, tt)
AllOfSize-append size (g ∷ fs) f h e l = (h.0, h.1, AllOfSize-append size fs f h.2 e l)

-- The image after a `memcpy`.
abbrev pub filled : Image → ℕ → Bytes → Image
filled f offset bs = record f {
  image_data = take offset f.image_data ++ (bs ++ drop (offset + length bs) f.image_data);
}

pub copy_in_lem :
    (d : Decoder) (f : Image) (fs : List Image) (bs : Bytes)
    → d.write_offset + length bs ≤ length f.image_data
    → copy_in (record d { free_frames = f ∷ fs }) f bs
      ≡ some (record d { free_frames = filled f d.write_offset bs ∷ fs })
unfolding copy_in
copy_in_lem d f fs bs h = rw (store_lem f.image_data d.write_offset bs h)

pub take-filled :
    (f : Image) (offset n : ℕ) (bs : Bytes)
    → offset ≤ length f.image_data
    → n ≡ offset + length bs
    → take n (filled f offset bs).image_data ≡ take offset f.image_data ++ bs
take-filled f offset n bs h e =
    let before = take offset f.image_data in
    ap (take n) (sym (append_assoc before bs (drop (offset + length bs) f.image_data)))
    ∙ take-append_left n (before ++ bs) (drop (offset + length bs) f.image_data)
        (omega (arith, length-append before bs, length-take offset f.image_data))

pub length-filled :
    (f : Image) (offset : ℕ) (bs : Bytes)
    → offset + length bs ≤ length f.image_data
    → length (filled f offset bs).image_data ≡ length f.image_data
length-filled f offset bs h = omega (
  arith,
  length-append (take offset f.image_data) (bs ++ drop (offset + length bs) f.image_data),
  length-append bs (drop (offset + length bs) f.image_data),
  length-take offset f.image_data,
  length-drop (offset + length bs) f.image_data,
)

pub minus_lem : (m n : ℕ) → n ≤ m → m < 2 ^ 31 → minus m n ≡ m - n
minus_lem m n h b = omega arith

pub checked_mod_lem : (m n : ℕ) → 0 < n → checked_mod m n ≡ some (m % n)
checked_mod_lem m zero h = absurd (omega arith)
checked_mod_lem m (suc n) h = refl

started_zero : (fs : List Image) → started fs 0 ≡ []
started_zero [] = refl
started_zero (f ∷ fs) = refl

pub received-finished :
    (d : Decoder) (f : Image) (fs : List Image) (bs : Bytes)
    → d.write_offset + length bs ≡ length f.image_data
    → received (record d {
      ready_frames = d.ready_frames ++ filled f d.write_offset bs ∷ [];
      free_frames = fs;
      write_offset = 0;
    })
      ≡ received (record d { free_frames = f ∷ fs }) ++ bs
received-finished d f fs bs h =
    let start = take d.write_offset f.image_data in
    rw
      (
        started_zero fs,
        append-nil (contents (d.ready_frames ++ filled f d.write_offset bs ∷ [])),
        contents-append d.ready_frames (filled f d.write_offset bs ∷ []),
        append-nil (filled f d.write_offset bs).image_data,
        drop_all (d.write_offset + length bs) f.image_data (omega arith),
        append-nil bs,
      )
      (sym (append_assoc (contents d.ready_frames) start bs))
