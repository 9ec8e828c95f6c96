-- ===== src/Client/Frames/Raw.antt =====
-- lib/stream.c with lib/encodings/raw.c: the data of a raw stream, and the frame that is kept of it.
use svr.Base.{
  ℕ, ◌^◌, ◌<◌, List, [], ◌∷◌, ◌++◌, Option, some, Bytes, length, ◌≡◌, refl, sym, ap, ◌∙◌, arith,
  append_assoc, append-nil, length-take, subst,
}
use svr.FrameProperties.{FrameProperties}
use svr.Decoder.{Image, Decoder}
use svr.Decoder.Frames.{AllOfSize, NoFrame, contents, started, received, IsDecoder}
use svr.Decoder.Padded.{write_padded-received}
use svr.Encodings.{raw_name, raw_decode, decode}
use svr.Client.Streams.{Stream}
use svr.Client.Frames.{provide}
use svr.Client.Frames.Newest.{
  last_of, before_last, left_with, current_frames, newest, provide-newest,
}

-- A stream with a raw decoder that has no frame ready, all of whose images have `size` bytes.
pub record IsRaw (create_image : FrameProperties → Image) (size : ℕ) (st : Stream) (d : Decoder)
    : Type 0 where
  pub has : st.decoder ≡ some (raw_name, d)
  pub decoder : IsDecoder create_image size d
  pub none_ready : d.ready_frames ≡ []
  pub current : AllOfSize size (current_frames st.current_frame)

-- What a stream keeps of `data_`: it ends within a frame, or behind the frame that is kept.
pub data Kept (size : ℕ) (st st' : Stream) (data_ : Bytes) (d' : Decoder) : Type 0 where
  no_frame :
      st'.current_frame ≡ st.current_frame
      → received d' ≡ data_
      → length data_ < size
      → Kept size st st' data_ d'
  frame :
      (before : Bytes) (f : Image)
      → st'.current_frame ≡ some f
      → data_ ≡ before ++ (f.image_data ++ received d')
      → length f.image_data ≡ size
      → length (received d') < size
      → Kept size st st' data_ d'

AllOfSize-both :
    (size : ℕ) (fs gs : List Image)
    → AllOfSize size fs
    → AllOfSize size gs
    → AllOfSize size (fs ++ gs)
AllOfSize-both size [] gs h k = k
AllOfSize-both size (f ∷ fs) gs h k = (h.0, h.1, AllOfSize-both size fs gs h.2 k)

AllOfSize-before_last :
    (size : ℕ) (f : Image) (fs : List Image)
    → AllOfSize size (f ∷ fs)
    → AllOfSize size (before_last f fs)
AllOfSize-before_last size f [] h = tt
AllOfSize-before_last size f (g ∷ fs) h = (h.0, h.1, AllOfSize-before_last size g fs h.2)

AllOfSize-last_of :
    (size : ℕ) (f : Image) (fs : List Image)
    → AllOfSize size (f ∷ fs)
    → AllOfSize size (last_of f fs ∷ [])
AllOfSize-last_of size f [] h = h
AllOfSize-last_of size f (g ∷ fs) h = AllOfSize-last_of size g fs h.2

contents-last :
    (f : Image) (fs : List Image)
    → contents (f ∷ fs) ≡ contents (before_last f fs) ++ (last_of f fs).image_data
contents-last f [] = append-nil f.image_data
contents-last f (g ∷ fs) =
    ap (◌++◌ f.image_data) (contents-last g fs)
    ∙ sym (append_assoc f.image_data (contents (before_last g fs)) (last_of g fs).image_data)

-- Frames that come back do not change what has been started.
started-append :
    (fs gs : List Image) (offset : ℕ)
    → NoFrame fs offset
    → started (fs ++ gs) offset ≡ started fs offset
started-append [] [] offset h = refl
started-append [] (g ∷ gs) offset h = rw h refl
started-append (f ∷ fs) gs offset h = refl

NoFrame-append : (fs gs : List Image) (offset : ℕ) → NoFrame fs offset → NoFrame (fs ++ gs) offset
NoFrame-append [] [] offset h = h
NoFrame-append [] (g ∷ gs) offset h = tt
NoFrame-append (f ∷ fs) gs offset h = tt

length-started :
    (fs : List Image) (offset size : ℕ) → offset < size → length (started fs offset) < size
length-started [] offset size h = omega arith
length-started (f ∷ fs) offset size h = omega (arith, length-take offset f.image_data)

module _ (create_image : FrameProperties → Image) (jpeg_decode : Decoder → Bytes → Option Decoder)
    (size : ℕ) where
  left-IsDecoder :
      (d : Decoder) (back : List Image)
      → IsDecoder create_image size d
      → AllOfSize size back
      → IsDecoder create_image size (left_with d back)
  left-IsDecoder d back h b = record {
    created = h.created;
    created_data = h.created_data;
    ready = tt;
    free = AllOfSize-both size d.free_frames back h.free b;
    offset = h.offset;
    fresh = NoFrame-append d.free_frames back d.write_offset h.fresh;
    bound = h.bound;
  }

  decode_raw :
      (d : Decoder) (bs : Bytes)
      → IsDecoder create_image size d
      → length bs < 2 ^ 31
      → (d' : Decoder) × (decode create_image jpeg_decode raw_name d bs ≡ some d')
        × IsDecoder create_image size d'
        × (received d' ≡ received d ++ bs)
  unfolding decode raw_decode
  decode_raw d bs h int_ =
      let (d', e, h', r) = write_padded-received create_image size d bs h int_ in
      (d', rw e refl, h', r)

  kept :
      (st : Stream) (d d' : Decoder) (bs : Bytes) (ready : List Image)
      → d'.ready_frames ≡ ready
      → IsRaw create_image size st d
      → IsDecoder create_image size d'
      → received d' ≡ received d ++ bs
      → (d'' : Decoder) × IsRaw create_image size (newest st raw_name d' ready) d''
        × Kept size st (newest st raw_name d' ready) (received d ++ bs) d''
  kept st d d' bs [] is h h' r =
      let rest = started d'.free_frames d'.write_offset in
      let all : received d' ≡ rest = ap (λ (l : List Image). contents l ++ rest) is in
      let o = h'.offset in
      (
        d',
        record { has = refl; decoder = h'; none_ready = is; current = h.current },
        no_frame refl r (
            omega
              (arith, ap length (sym r ∙ all), length-started d'.free_frames d'.write_offset size)),
      )
  kept st d d' bs (f ∷ fs) is h h' r =
      let rest = started d'.free_frames d'.write_offset in
      let ready = subst (AllOfSize size) is h'.ready in
      let back = current_frames st.current_frame ++ before_last f fs in
      let back_size =
        AllOfSize-both size (current_frames st.current_frame) (before_last f fs) h.current
          (AllOfSize-before_last size f fs ready) in
      let last_size = AllOfSize-last_of size f fs ready in
      let o = h'.offset in
      let begun : received (left_with d' back) ≡ rest =
        started-append d'.free_frames back d'.write_offset h'.fresh in
      (
        left_with d' back,
        record {
          has = refl;
          decoder = left-IsDecoder d' back h' back_size;
          none_ready = refl;
          current = last_size;
        },
        frame (contents (before_last f fs)) (last_of f fs) refl
            (sym r
              ∙ ap (λ (l : List Image). contents l ++ rest) is
              ∙ ap (λ (xs : Bytes). xs ++ rest) (contents-last f fs)
              ∙ append_assoc (contents (before_last f fs)) (last_of f fs).image_data rest
              ∙ ap
                  (λ (xs : Bytes). contents (before_last f fs) ++ ((last_of f fs).image_data ++ xs))
                  (sym begun))
            last_size.1
            (omega (arith, ap length begun, length-started d'.free_frames d'.write_offset size)),
      )

  -- A stream with a raw decoder that has no frame ready and has not filled the current one, all images, those to come
  -- included, of one size below 2 ^ 31: `SVR_Stream_provideData` returns for fewer than 2 ^ 31 bytes of raw data, cut
  -- anywhere, and leaves it so. Of all the bytes since the last frame the stream then has the last complete frame as
  -- the one to hand out, and the rest in its decoder; or, when they do not fill a frame, the frame that it had.
  pub provide-IsRaw :
      (st : Stream) (d : Decoder) (bs : Bytes)
      → IsRaw create_image size st d
      → length bs < 2 ^ 31
      → (st' : Stream) × (d' : Decoder) × (provide (decode create_image jpeg_decode) st bs
          ≡ some st')
        × IsRaw create_image size st' d'
        × Kept size st st' (received d ++ bs) d'
  provide-IsRaw st d bs h int_ =
      let (d1, e, h1, r) = decode_raw d bs h.decoder int_ in
      let (d', i, k) = kept st d d1 bs d1.ready_frames refl h h1 r in
      (
        newest st raw_name d1 d1.ready_frames,
        d',
        provide-newest (decode create_image jpeg_decode) st raw_name bs d d1 h.has e,
        i,
        k,
      )
