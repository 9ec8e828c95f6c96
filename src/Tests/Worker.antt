-- ===== src/Tests/Worker.antt =====
-- A gray stream of a camera in colour, and one frame in three.
use svr.Base.{ℕ, [], ◌∷◌, Bool, ◌==◌, some, inl, inr, false, ◌≡◌, refl, arith}
use svr.FrameProperties.{FrameProperties}
use svr.Decoder.{Image}
use svr.Server.Streams.{temporary_frames, set_drop_rate}
use svr.Encoder.{Encoder}
use svr.Encoder.Holds.{Holds}
use svr.Server.State.{Stream}
use svr.Server.Worker.{Frame, preprocess, count_frame}
use svr.Server.Worker.Frames.{preprocess-temporary_frames}
use svr.Server.Worker.Drop.{after_frames, count_frame-every}
use svr.Tests.Association.{association}
use svr.Tests.Server.{vga, running}
use svr.Tests.Frames.{blank_image, picture}

abbrev drawn : Image → FrameProperties → Image
drawn image p = blank_image p

abbrev small_gray : FrameProperties
small_gray = record { width = 2; height = 1; depth = 8; channels = 1 }

preprocess-temporary_frames_example :
    (f : Frame) × (preprocess drawn drawn small_gray vga
        (temporary_frames association small_gray vga)
        (vga, picture)
      ≡ some f)
    × (f.0.width ≡ 2)
    × (f.0.height ≡ 1)
    × (f.0.channels ≡ 1)
    × (f.0.depth ≡ 8)
preprocess-temporary_frames_example =
    preprocess-temporary_frames association drawn drawn small_gray vga picture refl (inl refl)
      (inr refl)

count_frame-every_example :
    (after_frames association 4 (set_drop_rate association running 3).1
      ≡ record running { drop_rate = 3; drop_counter = 1 })
    × ((count_frame association
          (after_frames association 4 (set_drop_rate association running 3).1)).0
        ≡ false)
count_frame-every_example = count_frame-every association 4 3 running (omega arith) (omega arith)

abbrev first_only : ℕ → Bool
first_only i = i == 0

abbrev three_left : Encoder
three_left = record {
  buffer = 7 ∷ 8 ∷ 9 ∷ 0 ∷ [];
  buffer_size = 4;
  read_index = 0;
  write_index = 3;
}

abbrev narrow : Stream association
narrow = record running { payload_buffer_size = 2 }
