-- ===== src/Client/Streams/Mirror.antt =====
-- lib/stream.c against server/messagehandlers.c: what a client knows of its streams is what the server
-- has. A request is answered by `SVRD_processMessage` (Serve).
use svr.Base.{ℕ, ◌%◌, ◌^◌, ◌<◌, [], ◌∷◌, Option, some, Bytes, false, ◌≡◌, refl, ◌∙◌, arith}
use svr.Base.Dict.{Dictionary}
use svr.OptionString.{Options, consume_whitespace}
use svr.FrameProperties.{FrameProperties, atoi, decimal, read_digits}
use svr.FrameProperties.RoundTrip.{InRange, from_string-to_string}
use svr.Encodings.{get_by_name}
use svr.Server.State.{World, Sent, connected, paused, success, invalid_argument}
use svr.Server.State
use svr.Server.Streams
use svr.Server.Clients.{reply, reply_code, get_stream, put_stream}
use svr.Server.Handlers.{stream_get_info, stream_resize, stream_set_channels}
use svr.Server.Requests.{handle_stream}
use svr.Server.Table.{find-get_info, find-resize, find-set_channels}
use svr.Server.Words.{get_info_word, response_word}
use svr.Words.{resize_word, set_channels_word, zero_word}
use svr.Client.Numbers.{signed_decimal, atoi-signed_decimal}
use svr.Client.Streams.{Stream, update_info, configure, resize, set_grayscale}
use svr.Client.Streams.Serve.{
  incoming, serve, serve-reply, reply-keeps, routed, info, parse_response-code,
}

atoi_zero : atoi zero_word ≡ 0
unfolding atoi consume_whitespace read_digits
atoi_zero = refl

module _ (D : Dictionary)
    (open_type : Bytes → Bytes → Options D → World D → Option ℕ × World D) where
  -- The server's stream after a resize.
  resized :
      (w : World D) (ss : State.Stream D) (p src : FrameProperties) (width height : ℕ)
      → State.Stream D
  resized w ss p src width height =
      let p' = record p { width = width % 65536; height = height % 65536 } in
      record ss { frame_properties = some p'; temp_frame = Streams.temporary_frames D p' src }

  resize-served :
      (w : World D) (st : Stream) (ss : State.Stream D) (p src : FrameProperties)
      (id width height : ℕ)
      → get_stream D w st.stream_name ≡ some ss
      → w.client.state ≡ connected
      → ss.state ≡ paused
      → ss.source ≡ some id
      → (w.store id).frame_properties ≡ some src
      → ss.frame_properties ≡ some p
      → width < 2 ^ 32
      → height < 2 ^ 32
      → serve D open_type w
          (resize_word ∷ st.stream_name ∷ signed_decimal width ∷ signed_decimal height ∷ [])
        ≡ some (
          incoming (response_word ∷ decimal success ∷ []),
          reply_code D
              (put_stream D w st.stream_name (resized w ss p src width height))
              (incoming
                (resize_word ∷ st.stream_name ∷ signed_decimal width ∷ signed_decimal height ∷ []))
              success,
        )
  unfolding handle_stream stream_resize Streams.resize Streams.reallocate_temporary_frames resized
  resize-served w st ss p src id width height found open_ stopped from is_src has_p a b =
      serve-reply D open_type w (put_stream D w st.stream_name (resized w ss p src width height))
        resize_word _ _
        (routed D open_type w resize_word _ find-resize
          ∙ rw
              (
                found,
                atoi-signed_decimal width a,
                atoi-signed_decimal height b,
                stopped,
                from,
                is_src,
                has_p,
              )
              refl)
        open_ refl

  module _ (encodings : D.Dict Bytes) where
    -- A stream that the server has, with an encoding and frame properties: after `SVR_Stream_updateInfo` the
    -- client's stream has those.
    update_info-mirrors :
        (w : World D) (st : Stream) (ss : State.Stream D) (e : Bytes) (p : FrameProperties)
        → get_stream D w st.stream_name ≡ some ss
        → w.client.state ≡ connected
        → ss.encoding ≡ some e
        → ss.frame_properties ≡ some p
        → InRange p
        → update_info D encodings (serve D open_type) w st
          ≡ some (
            success,
            record st { encoding = get_by_name D encodings e; frame_properties = some p },
            reply D w (incoming (get_info_word ∷ st.stream_name ∷ [])) (info D open_type w ss e p),
          )
    unfolding update_info handle_stream stream_get_info info
    update_info-mirrors w st ss e p found open_ has_e has_p range =
        let answer =
          serve-reply D open_type w w get_info_word (st.stream_name ∷ [])
            (info D open_type w ss e p)
            (routed D open_type w get_info_word (st.stream_name ∷ []) find-get_info
              ∙ rw (found, has_e, has_p) refl)
            open_ refl in
        rw (answer, from_string-to_string p range) refl

    -- On a connected client, a stream that is paused and has a source with frame properties, an encoding and
    -- frame properties in range: `SVR_Stream_resize` succeeds, and the client and the server then have the same
    -- frame properties for it: the new width and height, as far as 16 bits hold them, and depth and channels as
    -- before.
    pub resize-mirrors :
        (w : World D) (st : Stream) (ss : State.Stream D) (e : Bytes) (p src : FrameProperties)
        (id width height : ℕ)
        → get_stream D w st.stream_name ≡ some ss
        → w.client.state ≡ connected
        → ss.state ≡ paused
        → ss.source ≡ some id
        → (w.store id).frame_properties ≡ some src
        → ss.encoding ≡ some e
        → ss.frame_properties ≡ some p
        → InRange p
        → width < 2 ^ 32
        → height < 2 ^ 32
        → (w' : World D) × (ss' : State.Stream D) × (resize D encodings
              (serve D open_type)
              w
              st
              width
              height
            ≡ some (
              success,
              record st {
                encoding = get_by_name D encodings e;
                frame_properties = ss'.frame_properties;
              },
              w',
            ))
          × (get_stream D w' st.stream_name ≡ some ss')
          × (ss'.frame_properties
              ≡ some (record p { width = width % 65536; height = height % 65536 }))
    unfolding resize configure resized
    resize-mirrors w st ss e p src id width height found open_ stopped from is_src has_e has_p range
          a b =
        let ss' = resized w ss p src width height in
        let asked =
          incoming
            (resize_word ∷ st.stream_name ∷ signed_decimal width ∷ signed_decimal height ∷ []) in
        let w1 = put_stream D w st.stream_name ss' in
        let w2 = reply_code D w1 asked success in
        let there = D.get-set_self (State.Stream D) w.client.streams st.stream_name ss' in
        let kept =
          reply-keeps D open_type w1 asked (response_word ∷ decimal success ∷ []) st.stream_name
            open_ in
        let asking = incoming (get_info_word ∷ st.stream_name ∷ []) in
        let p' = record p { width = width % 65536; height = height % 65536 } in
        let done = update_info-mirrors w2 st ss' e p' (kept.0 ∙ there) kept.1 has_e refl (record {
          width = omega arith;
          height = omega arith;
          depth = range.depth;
          channels = range.channels;
        }) in
        (
          reply D w2 asking (info D open_type w2 ss' e p'),
          ss',
          rw
              (
                resize-served w st ss p src id width height found open_ stopped from is_src has_p a
                    b,
                parse_response-code success (omega arith),
              )
              done,
          (reply-keeps D open_type w2 asking (info D open_type w2 ss' e p') st.stream_name kept.1).0
              ∙ kept.0
              ∙ there,
          refl,
        )

    -- `SVR_Stream_setGrayscale` with false: the client sends the number of channels 0, and the server refuses it
    -- with INVALIDARGUMENT, for each stream of a connected client; the stream keeps its channels.
    pub set_grayscale-refused :
        (w : World D) (st : Stream) (ss : State.Stream D)
        → get_stream D w st.stream_name ≡ some ss
        → w.client.state ≡ connected
        → (w' : World D) × (set_grayscale D encodings (serve D open_type) w st false
            ≡ some (invalid_argument, st, w'))
          × (get_stream D w' st.stream_name ≡ some ss)
    unfolding set_grayscale configure handle_stream stream_set_channels Streams.set_channels
    set_grayscale-refused w st ss found open_ =
        let asked = incoming (set_channels_word ∷ st.stream_name ∷ zero_word ∷ []) in
        let w1 = put_stream D w st.stream_name ss in
        let answer =
          serve-reply D open_type w w1 set_channels_word (st.stream_name ∷ zero_word ∷ [])
            (response_word ∷ decimal invalid_argument ∷ [])
            (routed D open_type w set_channels_word (st.stream_name ∷ zero_word ∷ [])
                find-set_channels
              ∙ rw (found, atoi_zero) refl)
            open_ refl in
        (
          reply_code D w1 asked invalid_argument,
          rw (answer, parse_response-code invalid_argument (omega arith)) refl,
          (reply-keeps D open_type w1 asked (response_word ∷ decimal invalid_argument ∷ [])
                st.stream_name open_).0
              ∙ D.get-set_self (State.Stream D) w.client.streams st.stream_name ss,
        )
