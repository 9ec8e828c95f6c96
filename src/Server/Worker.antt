-- ===== src/Server/Worker.antt =====
-- server/stream.c: the thread that sends the frames of a source to a client. A frame is an image with
-- its properties. `encode` is the encoding's; `resize_into` and `convert_into` are what `cvResize` and
-- `cvCvtColor` store into an image of given properties, and the calls check what OpenCV demands of it.
-- Nothing else changes the stream while a frame is sent.
pub mod Frames
pub mod Drop
pub mod Sending
use svr.Base.{
  ℕ, zero, suc, ◌+◌, ◌-◌, ◌%◌, ◌^◌, List, [], ◌∷◌, Option, none, some, Bytes, Bool, true, false,
  ◌==◌, ◌&&◌, ◌||◌, not, ltb, if◌then◌else◌, ◌>>=◌, take, length,
}
use svr.Base.Dict.{Dictionary}
use svr.FrameProperties.{FrameProperties}
use svr.Encoder.{Encoder, data_ready, read_data}
use svr.Encoder.Chunks.{Chunked, sent, looping, before}
use svr.Decoder.{Image}
use svr.Server.State.{Stream}
use svr.Server.Streams.{pause}

abbrev pub Frame : Type 0
Frame = FrameProperties × Image

-- `(counter + 1) % rate` of `int`s, the counter not negative: the sign of the rate does not matter.
abbrev pub magnitude : ℕ → ℕ
magnitude rate = if ltb rate (2 ^ 31) then rate else 2 ^ 32 - rate

abbrev pub next_counter : ℕ → ℕ → ℕ
next_counter counter rate = (counter + 1) % magnitude rate

module _ (D : Dictionary) where
  -- Whether a frame is sent, and the stream with its counter.
  unfoldable pub count_frame : Stream D → Bool × Stream D
  count_frame s = if s.drop_rate == 0 then (true, s) else (
    next_counter s.drop_counter s.drop_rate == 0,
    record s { drop_counter = next_counter s.drop_counter s.drop_rate },
  )

  -- The loop that sends, in rounds. `goes i` tells whether `SVRD_Client_sendMessage` sends message `i`, which it
  -- does not to a closed client or when the connection fails; `payload_size` is a `uint16_t`. After a message that
  -- is not sent the stream is paused, and the rest stays in the encoder.
  unfoldable pub send_loop : (ℕ → Bool) → ℕ → ℕ → Encoder → Stream D → Option (Chunked × Stream D)
  send_loop goes zero i e s = some (looping, s)
  send_loop goes (suc fuel) i e s = if data_ready e == 0 then some (sent [] e, s) else (do
    r ← read_data e s.payload_buffer_size
    (if goes i
        then (do
          rest ← send_loop goes fuel (i + 1) r.1 s
          some (before (take (length r.0 % 65536) r.0) rest.0, rest.1))
        else (do s' ← pause D s; some (sent [] r.1, s'))))

  -- A round for each byte, and one to see the end.
  abbrev pub send_out : (ℕ → Bool) → Encoder → Stream D → Option (Chunked × Stream D)
  send_out goes e s = send_loop goes (data_ready e + 1) 0 e s

module _ (resize_into convert_into : Image → FrameProperties → Image) where
  -- `cvResize` wants the same depth and number of channels.
  abbrev pub cv_resize : Frame → FrameProperties → Option Frame
  cv_resize f dst =
      if (f.0.depth == dst.depth) && (f.0.channels == dst.channels)
      then some (dst, resize_into f.1 dst)
      else none

  -- `cvCvtColor` wants the same depth and size, and the channels of the conversion: to gray, or from gray.
  abbrev pub cv_convert : Bool → Frame → FrameProperties → Option Frame
  cv_convert gray f dst =
      if (f.0.depth == dst.depth)
        && (f.0.width == dst.width)
        && (f.0.height == dst.height)
        && (if gray
            then (f.0.channels == 3) && (dst.channels == 1)
            else (f.0.channels == 1) && (dst.channels == 3))
      then some (dst, convert_into f.1 dst)
      else none

  -- `SVRD_Stream_preprocessFrame`, from the properties of the stream and of its source.
  unfoldable pub preprocess :
      FrameProperties
      → FrameProperties
      → Option FrameProperties × Option FrameProperties
      → Frame
      → Option Frame
  preprocess p src temp f =
      let resize = not (p.width == src.width) || not (p.height == src.height) in
      let color_convert = not (p.channels == src.channels) in
      if resize && color_convert
      then (do
        first ← temp.0
        second ← temp.1
        resized ← cv_resize f first
        cv_convert (p.channels == 1) resized second)
      else if resize
      then (do first ← temp.0; cv_resize f first)
      else if color_convert
      then (do first ← temp.0; cv_convert (p.channels == 1) f first)
      else some f

  module _ (D : Dictionary) (encode : Encoder → Image → Option Encoder) where
    -- A frame in `SVRD_Stream_worker`.
    abbrev pub send_frame :
        (ℕ → Bool)
        → Encoder
        → FrameProperties
        → Frame
        → Bool × Stream D
        → Option (Chunked × Stream D)
    send_frame goes e src f (false, s) = some (sent [] e, s)
    send_frame goes e src f (true, s) = do
      p ← s.frame_properties
      ready ← preprocess p src s.temp_frame f
      e' ← encode e ready.1
      send_out D goes e' s

    unfoldable pub worker_frame :
        (ℕ → Bool) → Encoder → FrameProperties → Frame → Stream D → Option (Chunked × Stream D)
    worker_frame goes e src f s = send_frame goes e src f (count_frame D s)
