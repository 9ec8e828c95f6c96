-- ===== src/Decoder/Filling.antt =====
-- lib/encoding.c: the frame that is being filled, before and after a `memcpy` into it.
use svr.Base.{
  ℕ, ◌+◌, ◌≤◌, ◌<◌, List, [], ◌∷◌, ◌++◌, Bytes, length, ◌≡◌, refl, sym, ap, subst, ◌∙◌, arith,
}
use svr.FrameProperties.{FrameProperties}
use svr.Decoder.{Image, Decoder, get_current_frame}
use svr.Decoder.Frames.{AllOfSize-append, received, NoFrame, IsDecoder, filled, length-filled}

NoFrame-zero : (fs : List Image) → NoFrame fs 0
NoFrame-zero [] = refl
NoFrame-zero (f ∷ fs) = tt

module _ (create_image : FrameProperties → Image) (size : ℕ) where
  -- The frame that is being filled, made if there is none.
  abbrev pub Filling : Decoder → Type 0
  Filling d =
      (f : Image) × (fs : List Image) × (get_current_frame create_image d
        ≡ (f, record d { free_frames = f ∷ fs }))
      × IsDecoder create_image size (record d { free_frames = f ∷ fs })
      × (received (record d { free_frames = f ∷ fs }) ≡ received d)

  Filling_lem :
      (d : Decoder) (free : List Image)
      → d.free_frames ≡ free
      → IsDecoder create_image size d
      → Filling d
  unfolding get_current_frame
  Filling_lem d [] e h =
      let f = create_image d.frame_properties in
      let zero_offset : d.write_offset ≡ 0 =
        subst (λ (l : List Image). NoFrame l d.write_offset) e h.fresh in
      (
        f,
        [],
        rw e refl,
        record {
          created = h.created;
          created_data = h.created_data;
          ready = h.ready;
          free = (h.created, h.created_data, tt);
          offset = h.offset;
          fresh = tt;
          bound = h.bound;
        },
        rw (e, zero_offset) refl,
      )
  Filling_lem d (f ∷ fs) e h = (
    f,
    fs,
    rw e refl,
    subst (λ (l : List Image). IsDecoder create_image size (record d { free_frames = l })) e h,
    ap (λ (l : List Image). received (record d { free_frames = l })) (sym e),
  )

  pub get_current_frame-Filling : (d : Decoder) → IsDecoder create_image size d → Filling d
  get_current_frame-Filling d h = Filling_lem d d.free_frames refl h

  -- A frame that is not full yet, and one that is.
  pub going_on :
      (d : Decoder) (f : Image) (fs : List Image) (bs : Bytes)
      → IsDecoder create_image size (record d { free_frames = f ∷ fs })
      → d.write_offset + length bs < size
      → IsDecoder create_image size (record d {
        free_frames = filled f d.write_offset bs ∷ fs;
        write_offset = d.write_offset + length bs;
      })
  going_on d f fs bs h small = record {
    created = h.created;
    created_data = h.created_data;
    ready = h.ready;
    free = (
      h.free.0,
      (let l = h.free.1 in length-filled f d.write_offset bs (omega arith) ∙ l),
      h.free.2,
    );
    offset = small;
    fresh = tt;
    bound = h.bound;
  }

  pub finished :
      (d : Decoder) (f : Image) (fs : List Image) (bs : Bytes)
      → IsDecoder create_image size (record d { free_frames = f ∷ fs })
      → d.write_offset + length bs ≤ size
      → IsDecoder create_image size (record d {
        ready_frames = d.ready_frames ++ filled f d.write_offset bs ∷ [];
        free_frames = fs;
        write_offset = 0;
      })
  finished d f fs bs h small = record {
    created = h.created;
    created_data = h.created_data;
    ready =
        AllOfSize-append size d.ready_frames (filled f d.write_offset bs) h.ready h.free.0
          (let l = h.free.1 in length-filled f d.write_offset bs (omega arith) ∙ l);
    free = h.free.2;
    offset = (let o = h.offset in omega arith);
    fresh = NoFrame-zero fs;
    bound = h.bound;
  }

  pub moved :
      (d : Decoder) (f : Image) (fs : List Image) (offset : ℕ)
      → IsDecoder create_image size (record d { free_frames = f ∷ fs })
      → offset < size
      → IsDecoder create_image size (record d { free_frames = f ∷ fs; write_offset = offset })
  moved d f fs offset h small = record {
    created = h.created;
    created_data = h.created_data;
    ready = h.ready;
    free = h.free;
    offset = small;
    fresh = tt;
    bound = h.bound;
  }
