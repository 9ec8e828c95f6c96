-- ===== src/Tests/Client.antt =====
-- A client that asks, and a client whose stream is on the server of the other tests.
use svr.Base.{
  ℕ, ◌+◌, [], ◌∷◌, List, Option, none, some, Bytes, true, false, ◌≡◌, refl, arith, replicate,
}
use svr.Message.{Message}
use svr.ResponseSet.{ResponseSet, Answered, answered}
use svr.Decoder.{Decoder}
use svr.Encoder.Holds.{new-Holds}
use svr.Encodings.{raw_name, raw_encode}
use svr.Server.State.{World, success, invalid_argument, paused}
use svr.Server.State
use svr.Server.Clients.{get_stream}
use svr.Tests.Association.{association}
use svr.Tests.Server.{tv, vga, running, viewer, raw_encodings, no_types}
use svr.Tests.Frames.{tiny, picture, nines, length-nines}
use svr.Client.Comm.{Comm, connected, Asked, ask, await, receive, receive_all}
use svr.Client.Comm.Answers.{
  Awaits, AskOutcome, ask-AskOutcome, connected-IsReady, await-receive_all,
}
use svr.Client.Streams.{Stream, resize, set_grayscale}
use svr.Client.Streams
use svr.Client.Streams.Serve.{serve}
use svr.Client.Streams.Mirror.{resize-mirrors, set_grayscale-refused}
use svr.Client.Frames.{Library, set_orphaned, provide_data, destroy}
use svr.Client.Frames
use svr.Client.Frames.Locked.{unknown-locks}
use svr.Client.Sources.{Source, send_frame}
use svr.Client.Sources
use svr.Client.Sources.Frames.{Outcome, send_frame-Outcome}

abbrev hello : Message
hello = record {
  request_id = 0;
  payload = [];
  payload_size = 0;
  components = (b'x' ∷ []) ∷ [];
  count = 1;
}

ask-AskOutcome_example :
    (a : Asked) × (ask none connected hello ≡ some a) × AskOutcome connected hello a
ask-AskOutcome_example = ask-AskOutcome none connected hello connected-IsReady

-- The first request is under way.
abbrev asking : Comm
asking = record {
  response_set = record {
    response_pending = true ∷ replicate 7 false;
    response = replicate 8 none;
    max_request_id = 65535;
    next_request_id = 1;
    set_size = 8;
  };
  payload_buffer_size = 0;
  sent = record hello { request_id = 1 } ∷ [];
}

asking-Awaits : Awaits asking 0
asking-Awaits = record {
  valid = record { pending_size = refl; response_size = refl; next_lt = omega arith };
  id_lt = omega arith;
  pending = refl;
  empty = refl;
}

abbrev counting : ℕ → Message → Option ℕ
counting n m = some (n + 1)

news_received : receive_all counting (hello ∷ []) asking 0 ≡ some (asking, 1)
unfolding receive_all receive
news_received = refl

abbrev reply_one : Message
reply_one = record hello { request_id = 1 }

await-receive_all_example :
    (await asking 0 ≡ some Answered.waiting)
    × (c : Comm) × (set_ : ResponseSet Message) × (receive counting asking 1 reply_one
        ≡ some (c, 1))
    × (await c 0 ≡ some (answered reply_one set_))
await-receive_all_example =
    await-receive_all counting asking 0 0 (hello ∷ []) reply_one asking 1 asking-Awaits
      ((λ e. absurd (omega arith)), tt) news_received refl

-- The client's stream is the server's stream tv, which is paused.
abbrev own : Stream
own = record (Streams.blank 0 (b'c' ∷ [])) { stream_name = tv }

abbrev still : State.Stream association
still = record running { state = paused }

abbrev host : World association
host = record viewer { client = record viewer.client { streams = (tv, still) ∷ [] } }

resize-mirrors_example :
    (w : World association) × (ss : State.Stream association) × (resize association raw_encodings
        (serve association no_types)
        host
        own
        320
        240
      ≡ some (
        success,
        record own { encoding = some raw_name; frame_properties = ss.frame_properties },
        w,
      ))
    × (get_stream association w tv ≡ some ss)
    × (ss.frame_properties ≡ some (record vga { width = 320; height = 240 }))
resize-mirrors_example =
    resize-mirrors association no_types raw_encodings host own still raw_name vga vga 0 320 240 refl
      refl refl refl refl refl refl
      (record {
        width = omega arith;
        height = omega arith;
        depth = omega arith;
        channels = omega arith;
      })
      (omega arith) (omega arith)

set_grayscale-refused_example :
    (w : World association) × (set_grayscale association raw_encodings
        (serve association no_types)
        host
        own
        false
      ≡ some (invalid_argument, own, w))
    × (get_stream association w tv ≡ some still)
set_grayscale-refused_example =
    set_grayscale-refused association no_types raw_encodings host own still refl refl

-- No answer ever comes.
abbrev silent : ℕ → List Bytes → Option (Message × ℕ)
silent s components = none

abbrev no_decode : Bytes → Decoder → Bytes → Option Decoder
no_decode e d bs = none

abbrev empty_library : Library association ℕ
empty_library = Frames.init association 0

unknown-locks_example :
    (l : Library association ℕ) × (provide_data association no_decode empty_library tv (1 ∷ [])
      ≡ some l)
    × (set_orphaned association empty_library tv ≡ some l)
    × ((name bs : Bytes) → provide_data association no_decode l name bs ≡ none)
    × ((name : Bytes) → set_orphaned association l name ≡ none)
    × ((st : Stream) → destroy association raw_encodings silent l st ≡ none)
unknown-locks_example =
    unknown-locks association raw_encodings silent no_decode empty_library tv (1 ∷ []) refl refl

abbrev camera : Source association
camera = record (Sources.blank association (b'c' ∷ [])) {
  encoding = some raw_name;
  frame_properties = some tiny;
}

send_frame-Outcome_example :
    Outcome association raw_encodings silent nines length-nines 0 camera tiny
      (tiny, picture)
      (send_frame association raw_encodings silent (raw_encode nines) 0 camera (tiny, picture))
send_frame-Outcome_example =
    send_frame-Outcome association raw_encodings silent nines length-nines 0 camera raw_name tiny
      (tiny, picture) refl refl new-Holds (omega arith) (omega arith) (omega arith)
