-- ===== src/OptionString.antt =====
-- lib/optionstring.c: the parser of option strings, `<object>:<option>=<value>,...`. An offset into
-- the string is the rest of the string from there, so that the terminator is the end of the list;
-- the string that a pointer stands for is read off when the source puts its terminator behind it.
-- The entry "%descriptor" is the buffer itself, given here as it was copied, before those terminators.
-- `isspace` and `isalnum` are those of the C locale.
pub mod Values
pub mod Total
pub mod RoundTrip
use svr.Base.{
  ℕ, zero, suc, ◌+◌, ◌-◌, List, [], ◌∷◌, Option, none, some, Bytes, length, take, drop, ltb, leb,
  ◌==◌, if◌then◌else◌, Bool, true, false, ◌||◌, ◌&&◌, not,
}
use svr.Base.Dict.{Dictionary}

abbrev pub is_space : ℕ → Bool
is_space c = c == 32 || (leb 9 c && leb c 13)

abbrev pub is_alnum : ℕ → Bool
is_alnum c = (leb b'0' c && leb c b'9') || (leb b'A' c && leb c b'Z') || (leb b'a' c && leb c b'z')

abbrev pub is_word : ℕ → Bool
is_word c = is_alnum c || c == b'_'

-- `descriptor[offset]`
abbrev pub peek : Bytes → ℕ
peek [] = 0
peek (c ∷ r) = c

unfoldable pub consume_whitespace : Bytes → Bytes
consume_whitespace [] = []
consume_whitespace (c ∷ r) = if is_space c then consume_whitespace r else c ∷ r

-- The loop of `get_identifier`: the word, and what follows it.
unfoldable pub word : Bytes → Bytes × Bytes
word [] = ([], [])
word (c ∷ r) = let more = word r in if is_word c then (c ∷ more.0, more.1) else ([], c ∷ r)

abbrev pub or_null : Bytes → Option Bytes
or_null [] = none
or_null (c ∷ s) = some (c ∷ s)

-- `get_identifier`: NULL for an empty word, and the new offset.
unfoldable pub get_identifier : Bytes → Option Bytes × Bytes
unfolding word consume_whitespace
get_identifier s = let w = word (consume_whitespace s) in (or_null w.0, w.1)

-- The loop of `get_value`: `end` after the loop, counted from `start`; `pos` is the offset.
unfoldable pub value_end : Bytes → ℕ → ℕ → ℕ
value_end [] pos end = end
value_end (c ∷ r) pos end =
    let go_on = value_end r (pos + 1) (if is_space (peek r) then end else pos + 1) in
    if c == b',' then end else go_on

-- `get_value`: NULL for no value, and the new offset, which is `end`.
unfoldable pub get_value : Bytes → Option Bytes × Bytes
unfolding value_end consume_whitespace
get_value s =
    let start = consume_whitespace s in
    let end = value_end start 0 0 in (or_null (take end start), drop end start)

-- How `SVR_parseOptionString` ends: with the dictionary, or at an error with the rest of the string
-- there. `stuck` would be a loop that has not ended in its rounds.
pub data Parsed (A : Type 0) : Type 0 where
  parsed : A → Parsed A
  failed : Bytes → Parsed A
  stuck : Parsed A

abbrev pub name_key : Bytes
name_key = b'%' ∷ b'n' ∷ b'a' ∷ b'm' ∷ b'e' ∷ []

abbrev pub descriptor_key : Bytes
descriptor_key = b'%' ∷ b'd' ∷ b'e' ∷ b's' ∷ b'c' ∷ b'r' ∷ b'i' ∷ b'p' ∷ b't' ∷ b'o' ∷ b'r' ∷ []

module _ (D : Dictionary) where
  open D use {Dict, new, set}

  abbrev pub Options : Type 0
  Options = Dict (Option Bytes)

  -- What follows a value: the end, or a comma and another option.
  abbrev pub after_value : Options → Bytes → (Bytes → Parsed Options) → Parsed Options
  after_value options r again =
      if peek r == 0
      then parsed options
      else if not (peek r == b',')
      then failed r
      else (let next = consume_whitespace (drop 1 r) in
          if peek next == 0 then failed next else again next)

  abbrev pub with_value :
      Options → Bytes → Option Bytes × Bytes → (Options → Bytes → Parsed Options) → Parsed Options
  with_value options identifier (none, r) again = failed r
  with_value options identifier (some value, r) again =
      after_value (set (Option Bytes) options identifier (some value)) (consume_whitespace r)
        (again (set (Option Bytes) options identifier (some value)))

  abbrev pub with_identifier :
      Options → Option Bytes × Bytes → (Options → Bytes → Parsed Options) → Parsed Options
  with_identifier options (none, r) again = if peek r == 0 then parsed options else failed r
  with_identifier options (some identifier, r) again =
      let next = consume_whitespace r in
      if not (peek next == b'=')
      then failed next
      else with_value options identifier (get_value (drop 1 next)) again

  -- The loop over the options.
  unfoldable pub parse_options : ℕ → Options → Bytes → Parsed Options
  parse_options zero options s = stuck
  parse_options (suc fuel) options s =
      let round = with_identifier options (get_identifier s) (λ d r. parse_options fuel d r) in
      if peek s == 0 then parsed options else round

  -- `SVR_parseOptionString`
  unfoldable pub parse : Bytes → Parsed Options
  parse s =
      let options = set (Option Bytes) (new (Option Bytes)) descriptor_key (some s) in
      let (identifier, r) = get_identifier s in
      let next = consume_whitespace r in
      if peek next == 0
      then parsed (set (Option Bytes) options name_key identifier)
      else if not (peek next == b':')
      then failed next
      else parse_options (suc (length s)) (set (Option Bytes) options name_key identifier)
          (drop 1 next)

-- `svr_parse_error_position` after an error with the rest `r` of the string `s`.
unfoldable pub error_position : Bytes → Bytes → ℕ
error_position s r = length s - length r
