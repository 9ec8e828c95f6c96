-- ===== src/Tests/Leaks.antt =====
-- A source that is attached and a source that goes away.
use svr.Base.{arith, [], ◌∷◌, none, some, ◌≡◌, refl}
use svr.FrameProperties.{from_string, to_string}
use svr.FrameProperties.RoundTrip.{from_string-to_string}
use svr.Message.{Message}
use svr.Server.State.{paused, Stream, World}
use svr.Server.Streams
use svr.Server.Clients.{get_stream}
use svr.Server.Handlers.{stream_attach_source, stream_close, stream_get_info}
use svr.Server.Handlers.Leaks.{attach_close-leaks, source_closing-get_info}
use svr.Tests.Association.{association}
use svr.Tests.Server.{tv, vga, running, opened, viewer}

-- A client with a stream that has just been opened.
abbrev newcomer : World association
newcomer = record viewer { client = record viewer.client { streams = (tv, opened) ∷ [] } }

abbrev attach_request : Message
attach_request = record {
  request_id = 1;
  payload = [];
  payload_size = 0;
  components = [] ∷ tv ∷ (b'c' ∷ []) ∷ [];
  count = 3;
}

abbrev stream_request : Message
stream_request = record {
  request_id = 2;
  payload = [];
  payload_size = 0;
  components = [] ∷ tv ∷ [];
  count = 2;
}

attach_close-leaks_example :
    (w1 : World association) × (w2 : World association) × (s1 : Stream association)
    × (stream_attach_source association newcomer attach_request ≡ some w1)
    × (get_stream association w1 tv ≡ some s1)
    × (s1.source ≡ some 0)
    × (stream_close association w1 stream_request ≡ some w2)
    × (get_stream association w2 tv ≡ none)
    × ((w2.store 0).ref_count ≡ 3)
attach_close-leaks_example =
    attach_close-leaks association newcomer attach_request stream_request [] [] tv (b'c' ∷ [])
      opened 0 vga refl refl refl refl refl refl refl refl refl

abbrev orphan : Stream association
orphan = record running { state = paused; source = none; frame_properties = none }

running-orphan : Streams.source_closing association running ≡ some orphan
unfolding Streams.source_closing Streams.pause Streams.detach_source
running-orphan = refl

abbrev orphaned : World association
orphaned = record viewer { client = record viewer.client { streams = (tv, orphan) ∷ [] } }

source_closing-get_info_example : stream_get_info association orphaned stream_request ≡ none
source_closing-get_info_example =
    source_closing-get_info association orphaned stream_request [] tv running orphan running-orphan
      refl refl refl

from_string-to_string_example : from_string (to_string vga) ≡ vga
from_string-to_string_example = from_string-to_string vga (record {
  width = omega arith;
  height = omega arith;
  depth = omega arith;
  channels = omega arith;
})
