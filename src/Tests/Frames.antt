-- ===== src/Tests/Frames.antt =====
-- Images of two rows of three bytes and a byte of padding.
use svr.Base.{
  ℕ, ◌+◌, ◌*◌, ◌/◌, [], ◌∷◌, List, Option, none, some, Bytes, replicate, length, length-replicate,
  ◌≡◌, refl, arith,
}
use svr.FrameProperties.{FrameProperties}
use svr.Encoder.{Encoder}
use svr.Encoder
use svr.Encoder.Holds.{Holds, new-Holds}
use svr.Encoder.Chunks.{sent, send_ready, AllFit}
use svr.Decoder.{Image, Decoder, written, write_padded, write_unpadded}
use svr.Decoder
use svr.Decoder.Frames.{IsDecoder, received}
use svr.Decoder.Padded.{write_padded-received}
use svr.Decoder.Position.{IsPadded, received_pixels}
use svr.Decoder.Unpadded.{write_unpadded-received}
use svr.Encodings.{raw_name, raw_encode, decode}
use svr.Client.Streams.{Stream}
use svr.Client.Streams
use svr.Client.Frames.{provide}
use svr.Client.Frames.Raw.{IsRaw, Kept, provide-IsRaw}
use svr.Delivery.{Shows, provide_all, delivered}

-- Rows are a multiple of four bytes.
abbrev pub blank_image : FrameProperties → Image
blank_image p = record {
  image_data = replicate (p.height * ((p.width * p.channels + 3) / 4 * 4)) 0;
  width = p.width;
  n_channels = p.channels;
  width_step = (p.width * p.channels + 3) / 4 * 4;
  image_size = p.height * ((p.width * p.channels + 3) / 4 * 4);
}

abbrev pub tiny : FrameProperties
tiny = record { width = 1; height = 2; depth = 8; channels = 3 }

abbrev pub ready : Decoder
ready = record { ready_frames = []; free_frames = []; write_offset = 0; frame_properties = tiny }

ready_new : Decoder.new tiny ≡ ready
unfolding Decoder.new
ready_new = refl

ready-IsDecoder : IsDecoder blank_image 8 ready
ready-IsDecoder = record {
  created = refl;
  created_data = refl;
  ready = tt;
  free = tt;
  offset = omega arith;
  fresh = refl;
  bound = omega arith;
}

abbrev ten : Bytes
ten = 1 ∷ 2 ∷ 3 ∷ 4 ∷ 5 ∷ 6 ∷ 7 ∷ 8 ∷ 9 ∷ 10 ∷ []

write_padded-received_example :
    (d : Decoder) × (write_padded blank_image ready ten ≡ some (written d))
    × IsDecoder blank_image 8 d
    × (received d ≡ ten)
write_padded-received_example =
    write_padded-received blank_image 8 ready ten ready-IsDecoder (omega arith)

ready-IsPadded : IsPadded blank_image 3 4 2 ready
ready-IsPadded = record {
  decoder = ready-IsDecoder;
  created_width = refl;
  created_step = refl;
  in_rows = tt;
  row = 0;
  column = 0;
  row_lt = omega arith;
  column_lt = omega arith;
  position = refl;
}

write_unpadded-received_example :
    (d : Decoder) × (write_unpadded blank_image ready ten ≡ some (written d))
    × IsPadded blank_image 3 4 2 d
    × (received_pixels 3 4 2 d ≡ ten)
write_unpadded-received_example =
    write_unpadded-received blank_image 3 4 2 (omega arith) ready ten ready-IsPadded (omega arith)

-- Nothing is decoded from jpeg here.
abbrev no_jpeg : Decoder → Bytes → Option Decoder
no_jpeg d bs = none

abbrev pub watched : Stream
watched = record (Streams.blank 0 (b'c' ∷ [])) {
  frame_properties = some tiny;
  encoding = some raw_name;
  decoder = some (raw_name, ready);
}

watched-IsRaw : IsRaw blank_image 8 watched ready
watched-IsRaw = record { has = refl; decoder = ready-IsDecoder; none_ready = refl; current = tt }

provide-IsRaw_example :
    (st : Stream) × (d : Decoder) × (provide (decode blank_image no_jpeg) watched ten ≡ some st)
    × IsRaw blank_image 8 st d
    × Kept 8 watched st ten d
provide-IsRaw_example =
    provide-IsRaw blank_image no_jpeg 8 watched ready ten watched-IsRaw (omega arith)

abbrev pub picture : Image
picture = record (blank_image tiny) { image_data = 1 ∷ 2 ∷ 3 ∷ 0 ∷ 4 ∷ 5 ∷ 6 ∷ 0 ∷ [] }

abbrev pub nines : ℕ → Bytes
nines n = replicate n 9

pub length-nines : (n : ℕ) → length (nines n) ≡ n
length-nines n = length-replicate n 9

delivered_example :
    (e1 : Encoder) × (payloads : List Bytes) × (e2 : Encoder) × (raw_encode nines Encoder.new
        picture
      ≡ some e1)
    × (send_ready 3 e1 ≡ some (sent payloads e2))
    × Holds e2 []
    × AllFit 3 payloads
    × Shows blank_image no_jpeg 8 picture.image_data
        (provide_all blank_image no_jpeg payloads watched)
delivered_example =
    delivered blank_image no_jpeg nines length-nines 8 3 Encoder.new picture watched ready new-Holds
      refl (omega arith) watched-IsRaw refl
