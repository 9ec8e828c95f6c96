-- ===== src/FrameProperties.antt =====
-- lib/frameproperties.c and include/svr/frameproperties.h, with the functions of the C library that
-- the program converts numbers with: `atoi`, `strtok` at commas, and `sprintf` of "%d". An `int` is
-- its bit pattern, a number below 2 ^ 32.
pub mod RoundTrip
use svr.Base.{
  ℕ, zero, suc, ◌+◌, ◌-◌, ◌*◌, ◌/◌, ◌%◌, ◌^◌, List, [], ◌∷◌, ◌++◌, Bytes, ltb, leb, ◌==◌,
  if◌then◌else◌, Bool, ◌&&◌,
}
use svr.OptionString.{consume_whitespace}

-- `sprintf(s, "%d", n)` for a number that is not negative: the digits in front of `acc`.
unfoldable pub digits : ℕ → ℕ → Bytes → Bytes
digits zero n acc = acc
digits (suc fuel) n acc =
    let more = digits fuel (n / 10) ((b'0' + n % 10) ∷ acc) in
    if ltb n 10 then (b'0' + n) ∷ acc else more

unfoldable pub decimal : ℕ → Bytes
decimal n = digits (suc n) n []

abbrev pub is_digit : ℕ → Bool
is_digit c = leb b'0' c && leb c b'9'

unfoldable pub read_digits : Bytes → ℕ → ℕ
read_digits [] acc = acc
read_digits (c ∷ r) acc =
    let more = read_digits r (acc * 10 + (c - b'0')) in if is_digit c then more else acc

abbrev pub signed : Bytes → ℕ
signed [] = 0
signed (c ∷ r) =
    if c == b'-'
    then (2 ^ 32 - read_digits r 0 % 2 ^ 32) % 2 ^ 32
    else if c == b'+'
    then read_digits r 0 % 2 ^ 32
    else read_digits (c ∷ r) 0 % 2 ^ 32

-- `atoi`
unfoldable pub atoi : Bytes → ℕ
atoi s = signed (consume_whitespace s)

abbrev pub keep : Bytes → List Bytes → List Bytes
keep [] ts = ts
keep (c ∷ w) ts = (c ∷ w) ∷ ts

-- The pieces that `strtok(s, ",")` and the calls after it return: no empty ones. The first part is the piece
-- that the text begins with.
unfoldable pub split : Bytes → Bytes × List Bytes
split [] = ([], [])
split (c ∷ r) =
    let more = split r in if c == b',' then ([], keep more.0 more.1) else (c ∷ more.0, more.1)

unfoldable pub tokens : Bytes → List Bytes
tokens s = let pieces = split s in keep pieces.0 pieces.1

-- `SVR_FrameProperties`: 16-bit sizes, 8-bit depth and channels.
pub record FrameProperties : Type 0 where
  pub height : ℕ
  pub width : ℕ
  pub depth : ℕ
  pub channels : ℕ

-- `SVR_FrameProperties_new`
abbrev pub new : FrameProperties
new = record { height = 0; width = 0; depth = 8; channels = 3 }

-- The switch.
abbrev pub assign_item : ℕ → Bytes → FrameProperties → FrameProperties
assign_item i item p =
    if i == 0
    then record p { width = atoi item % 65536 }
    else if i == 1
    then record p { height = atoi item % 65536 }
    else if i == 2
    then record p { depth = atoi item % 256 }
    else if i == 3
    then record p { channels = atoi item % 256 }
    else p

-- The loop: another token, and `i < 4`.
unfoldable pub assign_items : ℕ → List Bytes → FrameProperties → FrameProperties
assign_items i [] p = p
assign_items i (item ∷ items) p =
    let p' = assign_item i item p in
    let more = assign_items (i + 1) items p' in if ltb (i + 1) 4 then more else p'

-- `SVR_FrameProperties_fromString`
unfoldable pub from_string : Bytes → FrameProperties
from_string s = assign_items 0 (tokens s) new

-- The "%d,%d,%d,%d" of the messages Stream.getInfo and Source.setFrameProperties.
unfoldable pub to_string : FrameProperties → Bytes
to_string p =
    decimal p.width
    ++ b',' ∷ (decimal p.height ++ b',' ∷ (decimal p.depth ++ b',' ∷ decimal p.channels))
