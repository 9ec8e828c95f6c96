-- ===== src/Message.antt =====
-- lib/message.c and include/svr/message.h: messages, packed messages, and the conversions. `fresh n`
-- stands for the `n` bytes of unknown content that `SVR_Arena_reserve` gives.
pub mod RoundTrip
pub mod Overrun
use svr.Base.{
  ℕ, zero, suc, ◌+◌, ◌%◌, List, [], ◌∷◌, Option, none, some, Bytes, length, ◌>>=◌, get_elem?,
}
use svr.Pack.{Arg, int, string, Value, num, text, pack, unpack}

pub record Message : Type 0 where
  pub request_id : ℕ
  pub payload : Bytes
  pub payload_size : ℕ
  pub components : List Bytes
  pub count : ℕ

pub record PackedMessage : Type 0 where
  pub len : ℕ
  pub contents : Bytes
  pub payload_size : ℕ
  pub payload : Bytes

-- SVR_MESSAGE_PREFIX_LEN
abbrev pub prefix_len : ℕ
prefix_len = 8

-- The formats "hhhh" and "s".
abbrev pub header_format : Bytes
header_format = b'h' ∷ b'h' ∷ b'h' ∷ b'h' ∷ []

abbrev pub component_format : Bytes
component_format = b's' ∷ []

-- The first loop of `SVR_Message_pack`, over `n` components from index `i` on: a `uint16_t` sum.
unfoldable pub total_length : List Bytes → ℕ → ℕ → ℕ → Option ℕ
total_length cs zero i acc = some acc
total_length cs (suc n) i acc = do
  s ← get_elem? cs i
  total_length cs n (i + 1) ((acc + (length s + 1)) % 65536)

-- The second loop.
unfoldable pub pack_components : List Bytes → ℕ → ℕ → Bytes → ℕ → Option (Bytes × ℕ)
pack_components cs zero i p off = some (p, off)
pack_components cs (suc n) i p off = do
  s ← get_elem? cs i
  r ← pack component_format (string s ∷ []) p off
  pack_components cs n (i + 1) r.0 r.1

module _ (fresh : ℕ → Bytes) where
  -- `SVR_PackedMessage_newWithAlloc`
  unfoldable pub new_packed : ℕ → PackedMessage
  new_packed n = record { len = n; contents = fresh n; payload = []; payload_size = 0 }

  -- `SVR_Message_pack`
  unfoldable pub pack_message : Message → Option PackedMessage
  unfolding new_packed
  pack_message m = do
    total ← total_length m.components m.count 0 0
    let packed = new_packed (total + prefix_len)
    h ←
        pack header_format (int total ∷ int m.request_id ∷ int m.count ∷ int m.payload_size ∷ [])
          packed.contents 0
    b ← pack_components m.components m.count 0 h.0 h.1
    some (record packed { contents = b.0; payload = m.payload; payload_size = m.payload_size })

-- `SVR_Message_newWithAlloc`
unfoldable pub new_message : ℕ → Message
new_message n = record {
  request_id = 0;
  count = n;
  components = [];
  payload = [];
  payload_size = 0;
}

-- The variables that `SVR_unpack` stores through its pointers.
abbrev pub text_of : List Value → Option Bytes
text_of (text s ∷ []) = some s
text_of _ = none

pub record Header : Type 0 where
  pub data_length : ℕ
  pub request_id : ℕ
  pub count : ℕ
  pub payload_size : ℕ

abbrev pub header_of : List Value → Option Header
header_of (num a ∷ num b ∷ num c ∷ num d ∷ []) =
    some (record { data_length = a; request_id = b; count = c; payload_size = d })
header_of _ = none

-- The loop of `SVR_PackedMessage_unpack`.
unfoldable pub unpack_components : ℕ → Bytes → ℕ → Option (List Bytes)
unpack_components zero p off = some []
unpack_components (suc n) p off = do
  r ← unpack component_format p off
  s ← text_of r.0
  rest ← unpack_components n p r.1
  some (s ∷ rest)

-- `SVR_PackedMessage_unpack`
unfoldable pub unpack_message : PackedMessage → Option Message
unfolding new_message
unpack_message packed = do
  r ← unpack header_format packed.contents 0
  h ← header_of r.0
  cs ← unpack_components h.count packed.contents r.1
  some (record (new_message 0) {
    request_id = h.request_id;
    count = h.count;
    payload_size = h.payload_size;
    components = cs;
  })
