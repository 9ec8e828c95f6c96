-- ===== src/Server/Table.antt =====
-- server/messagerouting.c: `request_types`, in the order that `qsort` by `strcmp` leaves it in.
use svr.Base.{List, [], ◌∷◌, some, ◌≡◌, refl}
use svr.Server.Requests.{
  Request, about_stream, open_stream, open_source, encode_source, set_frame_properties,
  close_source, list_sources, data_, register, unregister, close, attach_source, resize,
  set_channels, set_encoding, set_drop_rate, set_priority, get_info, pause, unpause,
}
use svr.Server.Routing.{Row, find, raise_lower, reduce_upper}
use svr.Server.Words.{get_info_word}
use svr.Words.{
  stream_open_word, stream_attach_word, stream_close_word, set_encoding_word, resize_word,
  set_channels_word, set_priority_word, set_drop_rate_word, unpause_word, pause_word,
  source_open_word, source_close_word, source_encoding_word, source_properties_word,
  list_sources_word, data_word, register_word, unregister_word,
}

unfoldable pub request_types : List (Row Request)
request_types =
    (data_word, data_)
    ∷ (register_word, register)
    ∷ (unregister_word, unregister)
    ∷ (source_close_word, close_source)
    ∷ (list_sources_word, list_sources)
    ∷ (source_open_word, open_source)
    ∷ (source_encoding_word, encode_source)
    ∷ (source_properties_word, set_frame_properties)
    ∷ (stream_attach_word, about_stream attach_source)
    ∷ (stream_close_word, about_stream close)
    ∷ (get_info_word, about_stream get_info)
    ∷ (stream_open_word, open_stream)
    ∷ (pause_word, about_stream pause)
    ∷ (resize_word, about_stream resize)
    ∷ (set_channels_word, about_stream set_channels)
    ∷ (set_drop_rate_word, about_stream set_drop_rate)
    ∷ (set_encoding_word, about_stream set_encoding)
    ∷ (set_priority_word, about_stream set_priority)
    ∷ (unpause_word, about_stream unpause)
    ∷ []

pub find-get_info : find get_info_word request_types ≡ some (about_stream get_info)
unfolding request_types find raise_lower reduce_upper
find-get_info = refl

pub find-resize : find resize_word request_types ≡ some (about_stream resize)
unfolding request_types find raise_lower reduce_upper
find-resize = refl

pub find-set_channels : find set_channels_word request_types ≡ some (about_stream set_channels)
unfolding request_types find raise_lower reduce_upper
find-set_channels = refl
