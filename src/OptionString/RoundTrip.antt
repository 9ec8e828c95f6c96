-- ===== src/OptionString/RoundTrip.antt =====
-- The parser of lib/optionstring.c on strings that are printed from names and values.
use svr.Base.{
  ℕ, zero, suc, ◌<◌, List, [], ◌∷◌, ◌++◌, Option, some, Bytes, length, ◌≡◌, refl, sym, ap, ◌∙◌,
  arith, ◌==◌, true, false, length-append, append-nil,
}
use svr.Base.Dict.{Dictionary}
use svr.OptionString.{
  Options, is_space, is_word, peek, get_value, consume_whitespace, word, get_identifier, parsed,
  parse_options, parse, name_key, descriptor_key,
}
use svr.OptionString.Values.{get_value-until, until_comma, from_comma}

abbrev pub AllWord : Bytes → Type 0
AllWord [] = Unit {0}
AllWord (c ∷ w) = (is_word c ≡ true) × AllWord w

-- An object or option name: letters, digits and underscores, at least one.
abbrev pub IsName : Bytes → Type 0
IsName [] = ⊥
IsName (c ∷ w) = AllWord (c ∷ w)

abbrev pub NoComma : Bytes → Type 0
NoComma [] = Unit {0}
NoComma (c ∷ v) = ((c == b',') ≡ false) × NoComma v

-- A value: not empty, no comma in it and no white space before it.
abbrev pub IsValue : Bytes → Type 0
IsValue [] = ⊥
IsValue (c ∷ v) = (is_space c ≡ false) × NoComma (c ∷ v)

abbrev pub Entry : Type 0
Entry = Bytes × Bytes

abbrev pub AreEntries : List Entry → Type 0
AreEntries [] = Unit {0}
AreEntries ((k, v) ∷ es) = IsName k × IsValue v × AreEntries es

-- `<option>=<value>,...`, at least one.
abbrev pub print_entries : Entry → List Entry → Bytes
print_entries (k, v) [] = k ++ b'=' ∷ v
print_entries (k, v) (e ∷ es) = k ++ b'=' ∷ (v ++ b',' ∷ print_entries e es)

-- `<object>:<option>=<value>,...`
abbrev pub print : Bytes → List Entry → Bytes
print name [] = name
print name (e ∷ es) = name ++ b':' ∷ print_entries e es

word-not-space : (c : ℕ) → is_word c ≡ true → is_space c ≡ false
word-not-space c h = ground arith

word-ne-zero : (c : ℕ) → is_word c ≡ true → (c == 0) ≡ false
word-ne-zero c h = ground arith

word-append :
    (w : Bytes) (r : Bytes) → AllWord w → is_word (peek r) ≡ false → word (w ++ r) ≡ (w, r)
unfolding word
word-append [] [] h k = refl
word-append [] (c ∷ r) h k = rw k
word-append (c ∷ w) r h k = rw (h.0, word-append w r h.1 k)

consume-stop : (c : ℕ) (r : Bytes) → is_space c ≡ false → consume_whitespace (c ∷ r) ≡ c ∷ r
unfolding consume_whitespace
consume-stop c r h = rw h

consume-nil : consume_whitespace [] ≡ []
unfolding consume_whitespace
consume-nil = refl

identifier-append :
    (w r : Bytes) → IsName w → is_word (peek r) ≡ false → get_identifier (w ++ r) ≡ (some w, r)
unfolding get_identifier
identifier-append [] r h k = absurd h
identifier-append (c ∷ w) r h k =
    rw (consume-stop c (w ++ r) (word-not-space c h.0), word-append (c ∷ w) r h k)

until-append : (v r : Bytes) → NoComma v → until_comma (v ++ b',' ∷ r) ≡ v
until-append [] r h = refl
until-append (c ∷ v) r h = rw (h.0, until-append v r h.1)

from-append : (v r : Bytes) → NoComma v → from_comma (v ++ b',' ∷ r) ≡ b',' ∷ r
from-append [] r h = refl
from-append (c ∷ v) r h = rw (h.0, from-append v r h.1)

until-all : (v : Bytes) → NoComma v → until_comma v ≡ v
until-all [] h = refl
until-all (c ∷ v) h = rw (h.0, until-all v h.1)

from-all : (v : Bytes) → NoComma v → from_comma v ≡ []
from-all [] h = refl
from-all (c ∷ v) h = rw (h.0, from-all v h.1)

value-comma : (v r : Bytes) → IsValue v → get_value (v ++ b',' ∷ r) ≡ (some v, b',' ∷ r)
value-comma [] r h = absurd h
value-comma (c ∷ v) r h =
    get_value-until ((c ∷ v) ++ b',' ∷ r)
    ∙ rw (consume-stop c (v ++ b',' ∷ r) h.0, until-append (c ∷ v) r h.1, from-append (c ∷ v) r h.1)

value-end : (v : Bytes) → IsValue v → get_value v ≡ (some v, [])
value-end [] h = absurd h
value-end (c ∷ v) h =
    get_value-until (c ∷ v) ∙ rw (consume-stop c v h.0, until-all (c ∷ v) h.1, from-all (c ∷ v) h.1)

peek-name : (w r : Bytes) → IsName w → (peek (w ++ r) == 0) ≡ false
peek-name [] r h = absurd h
peek-name (c ∷ w) r h = word-ne-zero c h.0

consume-name : (w r : Bytes) → IsName w → consume_whitespace (w ++ r) ≡ w ++ r
consume-name [] r h = absurd h
consume-name (c ∷ w) r h = consume-stop c (w ++ r) (word-not-space c h.0)

peek-entries :
    (e : Entry) (es : List Entry)
    → IsName e.0
    → (peek (consume_whitespace (print_entries e es)) == 0) ≡ false
peek-entries (k, v) [] h = rw (consume-name k (b'=' ∷ v) h) (peek-name k (b'=' ∷ v) h)
peek-entries (k, v) (e ∷ es) h =
    rw (consume-name k (b'=' ∷ (v ++ b',' ∷ print_entries e es)) h)
      (peek-name k (b'=' ∷ (v ++ b',' ∷ print_entries e es)) h)

consume-entries :
    (e : Entry) (es : List Entry)
    → IsName e.0
    → consume_whitespace (print_entries e es) ≡ print_entries e es
consume-entries (k, v) [] h = consume-name k (b'=' ∷ v) h
consume-entries (k, v) (e ∷ es) h = consume-name k (b'=' ∷ (v ++ b',' ∷ print_entries e es)) h

length-entries : (e : Entry) (es : List Entry) → length es < length (print_entries e es)
length-entries (k, v) [] = omega (arith, length-append k (b'=' ∷ v))
length-entries (k, v) (e ∷ es) = omega (
  arith,
  length-append k (b'=' ∷ (v ++ b',' ∷ print_entries e es)),
  length-append v (b',' ∷ print_entries e es),
  length-entries e es,
)

module _ (D : Dictionary) where
  open D use {new, set}

  -- The dictionary with the entries set in order.
  abbrev pub set_entries : (Options D) → List Entry → (Options D)
  set_entries d [] = d
  set_entries d ((k, v) ∷ es) = set_entries (set (Option Bytes) d k (some v)) es

  parse_options-print :
      (fuel : ℕ) (d : (Options D)) (e : Entry) (es : List Entry)
      → AreEntries (e ∷ es)
      → length es < fuel
      → parse_options D fuel d (print_entries e es) ≡ parsed (set_entries d (e ∷ es))
  unfolding parse_options
  parse_options-print zero d e es h k = elim k [ ]
  parse_options-print (suc fuel) d (k, v) [] h q = rw (
    peek-name k (b'=' ∷ v) h.0,
    identifier-append k (b'=' ∷ v) h.0 refl,
    consume-stop b'=' v refl,
    value-end v h.1,
    consume-nil,
  )
  parse_options-print (suc fuel) d (k, v) ((k', v') ∷ es) h q =
      rw
        (
          peek-name k (b'=' ∷ (v ++ b',' ∷ print_entries (k', v') es)) h.0,
          identifier-append k (b'=' ∷ (v ++ b',' ∷ print_entries (k', v') es)) h.0 refl,
          consume-stop b'=' (v ++ b',' ∷ print_entries (k', v') es) refl,
          value-comma v (print_entries (k', v') es) h.1,
          consume-stop b',' (print_entries (k', v') es) refl,
          peek-entries (k', v') es h.2.0,
          consume-entries (k', v') es h.2.0,
        )
        (parse_options-print fuel (set (Option Bytes) d k (some v)) (k', v') es h.2 (omega arith))

  -- A string that is printed from an object name and options, each with a value that is not empty,
  -- holds no comma and does not begin with white space, is parsed to the dictionary that has the
  -- name under "%name" and each value under its option; a value set later replaces an earlier one.
  pub parse-print :
      (name : Bytes) (es : List Entry)
      → IsName name
      → AreEntries es
      → parse D (print name es)
        ≡ parsed (
            set_entries
              (set
                (Option Bytes)
                (set (Option Bytes) (new (Option Bytes)) descriptor_key (some (print name es)))
                name_key
                (some name))
              es)
  unfolding parse
  parse-print name [] h k =
      let whole : get_identifier name ≡ (some name, []) =
        ap get_identifier (sym (append-nil name)) ∙ identifier-append name [] h refl in
      rw (whole, consume-nil)
  parse-print name (e ∷ es) h k =
      rw
        (
          identifier-append name (b':' ∷ print_entries e es) h refl,
          consume-stop b':' (print_entries e es) refl,
        )
        (parse_options-print (suc (length (print name (e ∷ es)))) _ e es k
          (omega (arith, length-append name (b':' ∷ print_entries e es), length-entries e es)))
