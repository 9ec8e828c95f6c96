-- ===== src/Client/Routing/Data.antt =====
-- Data messages for a stream of a client.
use svr.Base.{
  ℕ, ◌<◌, List, [], ◌∷◌, Option, some, Bytes, true, false, ◌==◌, length, map, ◌≡◌, ◌≢◌, refl, ◌∙◌,
  arith, Option-cases, inl, inr,
}
use svr.Base.Dict.{Dictionary}
use svr.FrameProperties.{FrameProperties}
use svr.Message.{Message}
use svr.Decoder.{Image, Decoder}
use svr.Encodings.{decode}
use svr.Encoder.Chunks.{AllFit}
use svr.Server.Routing.{find, raise_lower, reduce_upper}
use svr.Words.{data_word}
use svr.Delivery.{provide_all}
use svr.Client.Streams.{Stream}
use svr.Client.Frames.{Library, get_by_name, provide, provide_data}
use svr.Client.Routing.{data_, request_types, process_message, process_all, handle, handle_data}

find-data : find data_word request_types ≡ some data_
unfolding request_types find raise_lower reduce_upper
find-data = refl

-- The Data message with a payload.
abbrev pub data_message : Bytes → Bytes → Message
data_message name payload = record {
  request_id = 0;
  payload = payload;
  payload_size = length payload;
  components = data_word ∷ name ∷ [];
  count = 2;
}

module _ (D : Dictionary) {S : Type 0} (create_image : FrameProperties → Image)
    (jpeg_decode : Decoder → Bytes → Option Decoder) where
  process-data :
      (l : Library D S) (name payload : Bytes) (st st' : Stream)
      → l.list_locked ≡ false
      → get_by_name D l name ≡ some st
      → 0 < length payload
      → provide (decode create_image jpeg_decode) st payload ≡ some st'
      → process_message D (decode create_image jpeg_decode) l (data_message name payload)
        ≡ some (
          0,
          record l {
            streams = D.set Stream l.streams name st';
            list_locked = false;
            new_global_data = true;
          },
        )
  unfolding process_message handle handle_data provide_data
  process-data l name payload st st' free there some_bytes done =
      let full : (length payload == 0) ≡ false = ground arith in
      rw (find-data, full, free, there, done) refl

  -- Data messages for a stream that the client has, with payloads that are not empty, arrive at this stream in
  -- their order, and no other stream is touched.
  pub process_all-provide_all :
      (payloads : List Bytes) (limit : ℕ) (l : Library D S) (name : Bytes) (st st' : Stream)
      → l.list_locked ≡ false
      → get_by_name D l name ≡ some st
      → AllFit limit payloads
      → provide_all create_image jpeg_decode payloads st ≡ some st'
      → (l' : Library D S) × (process_all D
            (decode create_image jpeg_decode)
            (map (data_message name) payloads)
            l
          ≡ some l')
        × (get_by_name D l' name ≡ some st')
        × ((other : Bytes) → name ≢ other → get_by_name D l' other ≡ get_by_name D l other)
        × (l'.list_locked ≡ false)
  unfolding process_all provide_all
  process_all-provide_all [] limit l name st st' free there fits done =
      (l, refl, there ∙ done, λ other n. refl, free)
  process_all-provide_all (p ∷ ps) limit l name st st' free there fits done =
      elim (Option-cases (provide (decode create_image jpeg_decode) st p)) [
        | inl fault ↦ absurd (ground arith)
        | inr (mid, first) ↦
            let l1 : Library D S = record l {
              streams = D.set Stream l.streams name mid;
              list_locked = false;
              new_global_data = true;
            } in
            let (l', rest, shown, kept, free') =
              process_all-provide_all ps limit l1 name mid st' refl
                (D.get-set_self Stream l.streams name mid) fits.2 (ground arith) in
            (
              l',
              rw (process-data l name p st mid free there fits.0 first) rest,
              shown,
              λ other n. kept other n ∙ D.get-set_ne Stream l.streams name other mid n,
              free',
            )
      ]
