-- ===== src/Encodings.antt =====
-- lib/encoding.c and lib/encodings/raw.c: the registry of encodings, known by their names, and the raw
-- encoding. `jpeg_decode` stands for the decoder of lib/encodings/jpeg.c, which is libjpeg's.
use svr.Base.{
  ℕ, [], ◌∷◌, Option, none, some, Bytes, ◌>>=◌, same, if◌then◌else◌, Bool, true, false, is_some,
}
use svr.Base.Dict.{Dictionary}
use svr.FrameProperties.{FrameProperties}
use svr.Encoder.{Encoder, provide_data}
use svr.Decoder.{Image, Decoder, Written, written, looping, write_padded}

-- "raw"
abbrev pub raw_name : Bytes
raw_name = b'r' ∷ b'a' ∷ b'w' ∷ []

-- "jpeg"
abbrev pub jpeg_name : Bytes
jpeg_name = b'j' ∷ b'p' ∷ b'e' ∷ b'g' ∷ []

module _ (D : Dictionary) where
  -- `SVR_Encoding_getByName`
  abbrev pub get_by_name : D.Dict Bytes → Bytes → Option Bytes
  get_by_name encodings name = D.get Bytes encodings name

  -- `SVR_Encoding_register`: whether the name was free, and the registry.
  unfoldable pub register : D.Dict Bytes → Bytes → Bool × D.Dict Bytes
  register encodings name =
      if is_some (get_by_name encodings name)
      then (false, encodings)
      else (true, D.set Bytes encodings name name)

  -- `SVR_Encoding_init`
  unfoldable pub init : D.Dict Bytes
  init = (register (register (D.new Bytes) raw_name).1 jpeg_name).1

-- `encode` and `decode` of lib/encodings/raw.c.
unfoldable pub raw_encode : (ℕ → Bytes) → Encoder → Image → Option Encoder
raw_encode fresh e frame = provide_data fresh e frame.image_data

abbrev pub decoder_of : Written → Option Decoder
decoder_of (written d) = some d
decoder_of looping = none

unfoldable pub raw_decode : (FrameProperties → Image) → Decoder → Bytes → Option Decoder
raw_decode create_image d bs = do w ← write_padded create_image d bs; decoder_of w

-- `decoder->encoding->decode` in `SVR_Decoder_decode`.
module _ (create_image : FrameProperties → Image)
    (jpeg_decode : Decoder → Bytes → Option Decoder) where
  unfoldable pub decode : Bytes → Decoder → Bytes → Option Decoder
  decode encoding d bs =
      if same encoding raw_name then raw_decode create_image d bs else jpeg_decode d bs
