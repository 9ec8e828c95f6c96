-- ===== src/Pack.antt =====
-- lib/pack.c: `SVR_pack` and `SVR_unpack`. A buffer is a list of bytes; an access outside it, a
-- missing argument or one of the wrong kind is undefined in C and `none` here.
-- An `int` argument is its bit pattern, so a cast to fewer bits is `%`. `htons` and `htonl` make
-- the store put the high byte first on every machine.
pub mod Encoding
pub mod RoundTrip
use svr.Base.{
  ℕ, ◌+◌, ◌*◌, ◌/◌, ◌%◌, List, [], ◌∷◌, ◌++◌, Option, none, some, Bytes, store, load, length, ◌==◌,
  if◌then◌else◌, ◌>>=◌, drop,
}

-- What `va_arg` can fetch: an `int`, a `char*` to a terminated string (its bytes before the
-- terminator), or a `char*` to a block of bytes.
pub data Arg : Type 0 where
  int : ℕ → Arg
  string : Bytes → Arg
  block : Bytes → Arg

-- The bytes that a 16-bit or a 32-bit store in network order puts in memory.
abbrev pub htons : ℕ → Bytes
htons n = n / 256 % 256 ∷ n % 256 ∷ []

abbrev pub htonl : ℕ → Bytes
htonl n = n / 16777216 % 256 ∷ n / 65536 % 256 ∷ n / 256 % 256 ∷ n % 256 ∷ []

-- The loop of case 's': each byte of the string, and the terminator.
unfoldable pub pack_string : Bytes → Bytes → ℕ → Option (Bytes × ℕ)
pack_string [] p off = do q ← store p off (0 ∷ []); some (q, off + 1)
pack_string (c ∷ s) p off = do q ← store p off (c ∷ []); pack_string s q (off + 1)

-- What the cases of the switch leave: the arguments not yet fetched, the buffer and the offset.
abbrev pub PackState : Type 0
PackState = List Arg × (Bytes × ℕ)

abbrev pub put_bytes : Bytes → List Arg → Bytes → ℕ → Option PackState
put_bytes bs args p off = do q ← store p off bs; some (args, (q, off + length bs))

unfoldable pub pack_b : List Arg → Bytes → ℕ → Option PackState
pack_b (int n ∷ args) p off = put_bytes (n % 256 ∷ []) args p off
pack_b _ p off = none

unfoldable pub pack_h : List Arg → Bytes → ℕ → Option PackState
pack_h (int n ∷ args) p off = put_bytes (htons n) args p off
pack_h _ p off = none

unfoldable pub pack_i : List Arg → Bytes → ℕ → Option PackState
pack_i (int n ∷ args) p off = put_bytes (htonl n) args p off
pack_i _ p off = none

unfoldable pub pack_s : List Arg → Bytes → ℕ → Option PackState
pack_s (string s ∷ args) p off = do r ← pack_string s p off; some (args, r)
pack_s _ p off = none

-- `memcpy` of `n` bytes: the block must have as many.
unfoldable pub pack_d : List Arg → Bytes → ℕ → Option PackState
pack_d (int n ∷ block bs ∷ args) p off = do src ← load bs 0 n; put_bytes src args p off
pack_d _ p off = none

-- One round of the loop. A character that is no format character is skipped.
unfoldable pub pack_one : ℕ → List Arg → Bytes → ℕ → Option PackState
pack_one c args p off =
    if c == b'b'
    then pack_b args p off
    else if c == b'h'
    then pack_h args p off
    else if c == b'i'
    then pack_i args p off
    else if c == b's'
    then pack_s args p off
    else if c == b'D'
    then pack_d args p off
    else some (args, (p, off))

-- `SVR_pack(p, off, format, args...)`: the buffer and the offset afterwards.
unfoldable pub pack : Bytes → List Arg → Bytes → ℕ → Option (Bytes × ℕ)
pack [] args p off = some (p, off)
pack (c ∷ format) args p off = do r ← pack_one c args p off; pack format r.0 r.1.0 r.1.1

-- What `SVR_unpack` stores through its pointers. For 's' that is a pointer into the buffer, which
-- is given here as the string that it points to.
pub data Value : Type 0 where
  num : ℕ → Value
  text : Bytes → Value

-- The loop of case 's': the bytes before the terminator. It runs over the rest of the buffer.
unfoldable pub scan : Bytes → Option (Bytes × ℕ)
scan [] = none
scan (c ∷ p) =
    let rest = scan p in if c == 0 then some ([], 1) else (do r ← rest; some (c ∷ r.0, r.1 + 1))

abbrev pub ntohs : Bytes → ℕ
ntohs (a ∷ b ∷ []) = a * 256 + b
ntohs _ = 0

abbrev pub ntohl : Bytes → ℕ
ntohl (a ∷ b ∷ c ∷ d ∷ []) = a * 16777216 + b * 65536 + c * 256 + d
ntohl _ = 0

abbrev pub get_num : (Bytes → ℕ) → ℕ → Bytes → ℕ → Option (List Value × ℕ)
get_num value n p off = do bs ← load p off n; some (num (value bs) ∷ [], off + n)

abbrev pub first_byte : Bytes → ℕ
first_byte (a ∷ []) = a
first_byte _ = 0

-- One round of the loop. There is no case 'D'.
unfoldable pub unpack_one : ℕ → Bytes → ℕ → Option (List Value × ℕ)
unfolding scan
unpack_one c p off =
    if c == b'b'
    then get_num first_byte 1 p off
    else if c == b'h'
    then get_num ntohs 2 p off
    else if c == b'i'
    then get_num ntohl 4 p off
    else if c == b's'
    then (do r ← scan (drop off p); some (text r.0 ∷ [], off + r.1))
    else some ([], off)

-- `SVR_unpack(p, off, format, ...)`: the values stored, in order, and the offset afterwards.
unfoldable pub unpack : Bytes → Bytes → ℕ → Option (List Value × ℕ)
unpack [] p off = some ([], off)
unpack (c ∷ format) p off = do
  r ← unpack_one c p off
  rest ← unpack format p r.1
  some (r.0 ++ rest.0, rest.1)
