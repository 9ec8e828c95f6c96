-- ===== src/Tests/Server.antt =====
-- A stream from its opening on, and a client with one stream that runs.
use svr.Base.{
  ℕ, List, [], ◌∷◌, Option, none, some, Bytes, true, false, ◌≡◌, refl, arith, Bool-cases, inl, inr,
  same,
}
use svr.FrameProperties.{FrameProperties}
use svr.OptionString.{
  Options, parse, name_key, descriptor_key, get_identifier, word, consume_whitespace,
}
use svr.Server.State.{unpaused, connected, closed, Sent, Source, Stream, World}
use svr.Server.Streams
use svr.Server.Streams.{encoding_of}
use svr.Server.Streams.Opened.{opened-returns}
use svr.Server.Streams.Ready.{IsReady}
use svr.Server.Streams.Operations.{closing, pausing, unpausing, attaching, apply}
use svr.Server.Streams.Reachable.{apply_all, apply-returns, opened-IsReady}
use svr.Server.Clients.{kick, get_stream, send_message}
use svr.Server.Clients.Closing.{AllReady, kick-closes}
use svr.Server.Words.{invalid_message, kick_word}
use svr.Tests.Association.{association}

abbrev pub tv : Bytes
tv = b't' ∷ b'v' ∷ []

abbrev pub vga : FrameProperties
vga = record { width = 640; height = 480; depth = 8; channels = 3 }

abbrev pub raw_encodings : List (Bytes × Bytes)
raw_encodings = (Streams.raw_name, Streams.raw_name) ∷ []

-- Every source is a camera.
abbrev pub cameras : ℕ → Source
cameras id = record {
  name = b'c' ∷ [];
  encoding = some Streams.raw_name;
  decoder = true;
  frame_properties = some vga;
  kind = some (b'c' ∷ []);
  closed = false;
  ref_count = 2;
}

abbrev pub opened : Stream association
opened = record (Streams.blank association tv) {
  encoding = some Streams.raw_name;
  encoding_options =
      some ((name_key, some Streams.raw_name) ∷ (descriptor_key, some Streams.raw_name) ∷ []);
}

abbrev pub running : Stream association
running = record opened {
  has_client = true;
  source = some 0;
  frame_properties = some vga;
  encoder = some vga;
  state = unpaused;
  worker_started = true;
}

opened_raw : Streams.new association raw_encodings tv ≡ some opened
unfolding Streams.new Streams.set_encoding encoding_of parse get_identifier word consume_whitespace
opened_raw = refl

started :
    apply_all association cameras
      (attaching 0 ∷ unpausing ∷ [])
      (Streams.set_client association opened)
    ≡ some running
unfolding apply_all apply Streams.attach_source Streams.unpause Streams.set_client
started = refl

opened-IsReady_example : IsReady association cameras running
opened-IsReady_example =
    opened-IsReady association cameras raw_encodings tv opened running
      (attaching 0 ∷ unpausing ∷ []) opened_raw started

running-IsReady : IsReady association cameras running
running-IsReady = record {
  has_client = λ q. refl;
  has_encoding = λ q. refl;
  has_source = λ q. refl;
  has_encoder = λ q. refl;
  has_properties = λ q. refl;
  provided = λ id q. refl;
}

apply-returns_example :
    (s : Stream association) × (apply association cameras closing running ≡ some s)
    × IsReady association cameras s
    × (s.has_client ≡ true)
apply-returns_example =
    apply-returns association cameras closing running (λ n. n) refl running-IsReady

opened-returns_example :
    (s : Stream association) × (apply_all association cameras
        (attaching 0 ∷ unpausing ∷ closing ∷ pausing ∷ [])
        (Streams.set_client association opened)
      ≡ some s)
    × IsReady association cameras s
    × (s.has_client ≡ true)
opened-returns_example =
    opened-returns association cameras raw_encodings tv opened
      (attaching 0 ∷ unpausing ∷ closing ∷ pausing ∷ []) opened_raw
      ((λ n. n), ((λ n. n), ((λ n. n), ((λ n. n), tt))))

abbrev pub viewer : World association
viewer = record {
  client = record {
    streams = (tv, running) ∷ [];
    sources = [];
    state = connected;
    ref_count = 2;
    sent = [];
  };
  sources = (b'c' ∷ [], 0) ∷ [];
  store = cameras;
  next = 1;
  encodings = raw_encodings;
  source_types = [];
}

viewer-AllReady : AllReady association viewer
viewer-AllReady name s h = elim (Bool-cases (same tv name)) [
  | inl e ↦
      let front : get_stream association viewer name ≡ some running = rw e in
      let is : running ≡ s = cc in rw (← is) running-IsReady
  | inr e ↦ let missing : get_stream association viewer name ≡ none = rw e in absurd (ground arith)
]

kick-closes_example :
    (w' : World association) × (kick association viewer invalid_message ≡ some w')
    × (w'.client.state ≡ closed)
    × (w'.client.sent
        ≡ record { request_id = 0; components = kick_word ∷ invalid_message ∷ [] } ∷ [])
    × ((name : Bytes) → get_stream association w' name ≡ none)
    × ((m : Sent) → send_message association w' m ≡ w')
kick-closes_example = kick-closes association viewer invalid_message viewer-AllReady refl

-- No source can be opened here.
abbrev pub no_types :
    Bytes → Bytes → Options association → World association → Option ℕ × World association
no_types type name options w = (none, w)
