-- ===== src/Server/State.antt =====
-- server/include/svrd/client.h, source.h and stream.h: the structs. A stream belongs to one client,
-- so it stands in that client's dictionary; sources are shared, so they stand in a store, and a
-- pointer to one is its index there. An encoding is its name. Locks and condition variables are
-- left out: an operation is one step.
use svr.Base.{ℕ, List, Option, Bool, Bytes}
use svr.Base.Dict.{Dictionary}
use svr.OptionString.{Options}
use svr.FrameProperties.{FrameProperties}

pub data StreamState : Type 0 where
  paused unpaused : StreamState

-- `SVR_UNKNOWN` and `SVR_UNAUTHENTICATED` are never set.
pub data ClientState : Type 0 where
  connected closed : ClientState

-- The components of a message that is sent, with its request id.
pub record Sent : Type 0 where
  pub request_id : ℕ
  pub components : List Bytes

-- `SVRD_Source`; `kind` is the name of its type, or NULL for a source that a client provides.
pub record Source : Type 0 where
  pub name : Bytes
  pub encoding : Option Bytes
  pub decoder : Bool
  pub frame_properties : Option FrameProperties
  pub kind : Option Bytes
  pub closed : Bool
  pub ref_count : ℕ

module _ (D : Dictionary) where
  -- `SVRD_Stream`. An encoder or a temporary frame is known by the properties that it is made with.
  pub record Stream : Type 0 where
    pub name : Bytes
    pub has_client : Bool
    pub source : Option ℕ
    pub encoding : Option Bytes
    pub encoding_options : Option (Options D)
    pub encoder : Option FrameProperties
    pub frame_properties : Option FrameProperties
    pub state : StreamState
    pub payload_buffer_size : ℕ
    pub drop_rate : ℕ
    pub drop_counter : ℕ
    pub priority : ℕ
    pub temp_frame : Option FrameProperties × Option FrameProperties
    pub worker_started : Bool

  -- `SVRD_Client`, with what has been sent to it.
  pub record Client : Type 0 where
    pub streams : D.Dict Stream
    pub sources : D.Dict ℕ
    pub state : ClientState
    pub ref_count : ℕ
    pub sent : List Sent

  -- What a handler of one client works on: the client, the sources and the encodings that are
  -- registered, and the types of source. `next` is the first index of the store that is not in use.
  pub record World : Type 0 where
    pub client : Client
    pub sources : D.Dict ℕ
    pub store : ℕ → Source
    pub next : ℕ
    pub encodings : D.Dict Bytes
    pub source_types : D.Dict Bytes

-- include/svr/errors.h
abbrev pub success : ℕ
success = 0

abbrev pub no_such_stream : ℕ
no_such_stream = 1

abbrev pub no_such_encoding : ℕ
no_such_encoding = 2

abbrev pub no_such_source : ℕ
no_such_source = 3

abbrev pub name_clash : ℕ
name_clash = 5

abbrev pub invalid_argument : ℕ
invalid_argument = 6

abbrev pub invalid_state : ℕ
invalid_state = 7

abbrev pub parse_error : ℕ
parse_error = 8

abbrev pub unknown_error : ℕ
unknown_error = 255
