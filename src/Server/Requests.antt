-- ===== src/Server/Requests.antt =====
-- server/messagerouting.c: `request_types`, the requests and their handlers.
use svr.Base.{ℕ, Option, Bytes}
use svr.Base.Dict.{Dictionary}
use svr.OptionString.{Options}
use svr.Message.{Message}
use svr.Server.State.{World}
use svr.Server.Handlers.{
  stream_open, stream_close, stream_attach_source, stream_resize, stream_set_channels,
  stream_set_encoding, stream_set_drop_rate, stream_set_priority, stream_get_info, stream_pause,
  stream_unpause,
}
use svr.Server.SourceHandlers.{
  source_open, source_set_encoding, source_set_frame_properties, source_close, source_data,
  get_sources_list, event_register, event_unregister,
}

-- The requests about a stream that exists, by the string of the request.
pub data StreamRequest : Type 0 where
  close attach_source resize set_channels set_encoding set_drop_rate set_priority get_info pause
        unpause :
      StreamRequest

pub data Request : Type 0 where
  about_stream : StreamRequest → Request
  open_stream open_source encode_source set_frame_properties close_source list_sources data_
        register unregister :
      Request

module _ (D : Dictionary) where
  unfoldable pub handle_stream : StreamRequest → World D → Message → Option (World D)
  handle_stream close = stream_close D
  handle_stream attach_source = stream_attach_source D
  handle_stream resize = stream_resize D
  handle_stream set_channels = stream_set_channels D
  handle_stream set_encoding = stream_set_encoding D
  handle_stream set_drop_rate = stream_set_drop_rate D
  handle_stream set_priority = stream_set_priority D
  handle_stream get_info = stream_get_info D
  handle_stream pause = stream_pause D
  handle_stream unpause = stream_unpause D

  module _ (open_type : Bytes → Bytes → Options D → World D → Option ℕ × World D) where
    -- `request_type->callback(client, message)`
    unfoldable pub handle : Request → World D → Message → Option (World D)
    handle (about_stream r) = handle_stream r
    handle open_stream = stream_open D
    handle open_source = source_open D open_type
    handle encode_source = source_set_encoding D
    handle set_frame_properties = source_set_frame_properties D
    handle close_source = source_close D
    handle list_sources = get_sources_list D
    handle data_ = source_data D
    handle register = event_register D
    handle unregister = event_unregister D
