-- ===== src/Client/Frames/Newest.antt =====
-- lib/stream.c: which frame `SVR_Stream_getFrame` finds after `SVR_Stream_provideData`.
use svr.Base.{
  List, [], ◌∷◌, ◌++◌, Option, none, some, Bytes, ◌≡◌, refl, ap, ◌∙◌, append_assoc, append-nil,
}
use svr.Decoder.{Image, Decoder, get_frame, return_frame}
use svr.Encodings.{decode}
use svr.Client.Streams.{Stream}
use svr.Client.Frames.{drain, with_current, take_newest, provide}

-- The last of the frames f, fs, and those before it.
abbrev pub last_of : Image → List Image → Image
last_of f [] = f
last_of f (g ∷ fs) = last_of g fs

abbrev pub before_last : Image → List Image → List Image
before_last f [] = []
before_last f (g ∷ fs) = f ∷ before_last g fs

-- The decoder that has given its last frame, with the frames that it gets back.
abbrev pub left_with : Decoder → List Image → Decoder
left_with d back = record d { ready_frames = []; free_frames = d.free_frames ++ back }

abbrev pub current_frames : Option Image → List Image
current_frames none = []
current_frames (some f) = f ∷ []

-- What the stream has once the ready frames are taken.
abbrev pub newest : Stream → Bytes → Decoder → List Image → Stream
newest st e d [] = record st { decoder = some (e, d) }
newest st e d (f ∷ fs) = record st {
  current_frame = some (last_of f fs);
  decoder = some (e, left_with d (current_frames st.current_frame ++ before_last f fs));
}

drain_lem :
    (f : Image) (fs : List Image) (d : Decoder)
    → d.ready_frames ≡ f ∷ fs
    → get_frame (drain (f ∷ fs) d) ≡ (some (last_of f fs), left_with d (before_last f fs))
unfolding drain get_frame return_frame
drain_lem f [] d e = rw (e, append-nil d.free_frames) refl
drain_lem f (g ∷ fs) d e = rw e (
    drain_lem g fs (record d { ready_frames = g ∷ fs; free_frames = d.free_frames ++ f ∷ [] }) refl
    ∙ rw (append_assoc d.free_frames (f ∷ []) (before_last g fs)) refl)

with_current_lem :
    (current : Option Image) (d : Decoder)
    → with_current current d ≡ record d { free_frames = d.free_frames ++ current_frames current }
unfolding return_frame
with_current_lem none d = rw (append-nil d.free_frames) refl
with_current_lem (some f) d = refl

take_newest_lem :
    (st : Stream) (e : Bytes) (d : Decoder) (ready : List Image)
    → d.ready_frames ≡ ready
    → take_newest st e d ready ≡ newest st e d ready
take_newest_lem st e d [] is = refl
take_newest_lem st e d (f ∷ fs) is =
    let back = current_frames st.current_frame in
    rw
      (
        with_current_lem st.current_frame d,
        drain_lem f fs (record d { free_frames = d.free_frames ++ back }) is,
        append_assoc d.free_frames back (before_last f fs),
      )
      refl

-- Once the data is decoded, `SVR_Stream_provideData` keeps the newest of the frames that are ready for
-- `SVR_Stream_getFrame`, and gives back to the decoder, in this order, the frame that nobody has taken and the
-- older ones; if no frame is ready, the one that is kept stays.
pub provide-newest :
    (decode : Bytes → Decoder → Bytes → Option Decoder) (st : Stream) (e bs : Bytes)
    (d d' : Decoder)
    → st.decoder ≡ some (e, d)
    → decode e d bs ≡ some d'
    → provide decode st bs ≡ some (newest st e d' d'.ready_frames)
unfolding provide
provide-newest decode st e bs d d' has decoded =
    rw (has, decoded) (ap some (take_newest_lem st e d' d'.ready_frames refl))
