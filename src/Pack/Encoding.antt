-- ===== src/Pack/Encoding.antt =====
-- The wire format that `SVR_pack` promises, stated with no buffer and no offset: a call is a list
-- of items, and each item stands for some bytes.
use svr.Base.{ℕ, ◌%◌, List, [], ◌∷◌, ◌++◌, Bytes, length, ◌≢◌}
use svr.Pack.{Arg, Value, htons, htonl, int, string, block, num, text}

-- An integer of 8, 16 or 32 bits, a terminated string, or a block given with its length.
pub data Item : Type 0 where
  u8 u16 u32 : ℕ → Item
  cstr fixed : Bytes → Item

abbrev pub char_of : Item → ℕ
char_of (u8 n) = b'b'
char_of (u16 n) = b'h'
char_of (u32 n) = b'i'
char_of (cstr s) = b's'
char_of (fixed bs) = b'D'

abbrev pub args_of_item : Item → List Arg → List Arg
args_of_item (u8 n) rest = int n ∷ rest
args_of_item (u16 n) rest = int n ∷ rest
args_of_item (u32 n) rest = int n ∷ rest
args_of_item (cstr s) rest = string s ∷ rest
args_of_item (fixed bs) rest = int (length bs) ∷ block bs ∷ rest

abbrev pub encode_item : Item → Bytes
encode_item (u8 n) = n % 256 ∷ []
encode_item (u16 n) = htons n
encode_item (u32 n) = htonl n
encode_item (cstr s) = s ++ 0 ∷ []
encode_item (fixed bs) = bs

abbrev pub format_of : List Item → Bytes
format_of [] = []
format_of (x ∷ xs) = char_of x ∷ format_of xs

abbrev pub args_of : List Item → List Arg
args_of [] = []
args_of (x ∷ xs) = args_of_item x (args_of xs)

abbrev pub encode : List Item → Bytes
encode [] = []
encode (x ∷ xs) = encode_item x ++ encode xs

-- What comes back: an integer cut to its width, a string as it was.
abbrev pub value_of : Item → Value
value_of (u8 n) = num (n % 256)
value_of (u16 n) = num (n % 65536)
value_of (u32 n) = num (n % 4294967296)
value_of (cstr s) = text s
value_of (fixed bs) = text bs

-- No byte of a C string is the terminator.
abbrev pub IsText : Bytes → Type 0
IsText [] = Unit {0}
IsText (c ∷ s) = (c ≢ 0) × IsText s

-- What `SVR_unpack` can read back: no block, and strings that are strings.
abbrev pub CanUnpackItem : Item → Type 0
CanUnpackItem (cstr s) = IsText s
CanUnpackItem (fixed bs) = ⊥
CanUnpackItem _ = Unit {0}

abbrev pub CanUnpack : List Item → Type 0
CanUnpack [] = Unit {0}
CanUnpack (x ∷ xs) = CanUnpackItem x × CanUnpack xs
