-- ===== src/OptionString/Total.antt =====
-- The parser of lib/optionstring.c on every string: its progress and its errors.
use svr.Base.{
  ℕ, zero, suc, ◌≤◌, ◌<◌, [], ◌∷◌, ◌++◌, Option, none, some, Bytes, length, drop, ◌≡◌, refl, sym,
  ap, ◌∙◌, arith, ◌==◌, if◌then◌else◌, Bool-cases, inl, inr, append_assoc, length-append, not,
}
use svr.Base.Dict.{Dictionary}
use svr.OptionString.{
  Options, is_space, is_word, peek, get_value, consume_whitespace, word, get_identifier, Parsed,
  parsed, failed, stuck, after_value, with_value, with_identifier, parse_options, parse, name_key,
  descriptor_key,
}
use svr.OptionString.Values.{get_value-until, until_comma, from_comma, until-append-from}

-- `r` is what follows some part of `s`.
abbrev pub Within : Bytes → Bytes → Type 0
Within r s = (pre : Bytes) × (s ≡ pre ++ r)

Within-refl : (s : Bytes) → Within s s
Within-refl s = ([], refl)

Within-trans : (r s t : Bytes) → Within r s → Within s t → Within r t
Within-trans r s t (p, e) (q, f) = (q ++ p, f ∙ ap (◌++◌ q) e ∙ sym (append_assoc q p r))

Within-cons : (c : ℕ) (r s : Bytes) → Within (c ∷ r) s → Within r s
Within-cons c r s (p, e) = (p ++ c ∷ [], e ∙ sym (append_assoc p (c ∷ []) r))

length-Within : (r s : Bytes) → Within r s → length r ≤ length s
length-Within r s (p, e) = omega (arith, ap length e, length-append p r)

consume-Within : (s : Bytes) → Within (consume_whitespace s) s
unfolding consume_whitespace
consume-Within [] = ([], refl)
consume-Within (c ∷ s) = elim (Bool-cases (is_space c)) [
  | inl more ↦ rw more (let (p, e) = consume-Within s in (c ∷ p, ap (◌∷◌ c) e))
  | inr stop ↦ rw stop ([], refl)
]

word-Within : (s : Bytes) → Within (word s).1 s
unfolding word
word-Within [] = ([], refl)
word-Within (c ∷ s) = elim (Bool-cases (is_word c)) [
  | inl more ↦ rw more (let (p, e) = word-Within s in (c ∷ p, ap (◌∷◌ c) e))
  | inr stop ↦ rw stop ([], refl)
]

identifier-Within : (s : Bytes) → Within (get_identifier s).1 s
unfolding get_identifier
identifier-Within s =
    Within-trans (word (consume_whitespace s)).1 (consume_whitespace s) s
      (word-Within (consume_whitespace s)) (consume-Within s)

value-Within : (s : Bytes) → Within (get_value s).1 s
value-Within s = rw (get_value-until s) (
    Within-trans (from_comma (consume_whitespace s)) (consume_whitespace s) s
      (until_comma (consume_whitespace s), sym (until-append-from (consume_whitespace s)))
      (consume-Within s))

-- The parser ended, and if it failed then somewhere in the string.
abbrev pub Ends : {A : Type 0} → Bytes → Parsed A → Type 0
Ends s (parsed a) = Unit {0}
Ends s (failed r) = Within r s
Ends s stuck = ⊥

Ends-Within : {A : Type 0} (t s : Bytes) (p : Parsed A) → Within t s → Ends t p → Ends s p
Ends-Within t s (parsed a) w e = tt
Ends-Within t s (failed r) w e = Within-trans r t s e w
Ends-Within t s stuck w e = e

module _ (D : Dictionary) where
  open D use {new, set}

  after_value-Ends :
      (options : (Options D)) (r s : Bytes) (again : Bytes → Parsed (Options D))
      → Within r s
      → ((t : Bytes) → Within t s → length t < length s → Ends s (again t))
      → Ends s (after_value D options r again)
  after_value-Ends options [] s again w h = tt
  after_value-Ends options (c ∷ r) s again w h = elim (Bool-cases (c == 0)) [
    | inl end ↦ rw end tt
    | inr more ↦ elim (Bool-cases (c == b',')) [
      | inr other ↦ rw (more, other) w
      | inl comma ↦ elim (Bool-cases (peek (consume_whitespace r) == 0)) [
        | inl trailing ↦ rw (more, comma, trailing) next
        | inr option ↦
            rw (more, comma, option)
              (h (consume_whitespace r) next
                (omega (arith, length-Within _ _ (consume-Within r), length-Within (c ∷ r) s w)))
      ]
    ]
  ]
    where
      next : Within (consume_whitespace r) s
      next = Within-trans (consume_whitespace r) r s (consume-Within r) (Within-cons c r s w)

  with_value-Ends :
      (options : (Options D)) (identifier : Bytes) (v : Option Bytes × Bytes) (s : Bytes)
      (again : (Options D) → Bytes → Parsed (Options D))
      → Within v.1 s
      → ((d : (Options D)) (t : Bytes) → Within t s → length t < length s → Ends s (again d t))
      → Ends s (with_value D options identifier v again)
  with_value-Ends options identifier (none, r) s again w h = w
  with_value-Ends options identifier (some value, r) s again w h =
      after_value-Ends (set (Option Bytes) options identifier (some value)) (consume_whitespace r) s
        (again (set (Option Bytes) options identifier (some value)))
        (Within-trans (consume_whitespace r) r s (consume-Within r) w)
        (h (set (Option Bytes) options identifier (some value)))

  with_identifier-Ends :
      (options : (Options D)) (i : Option Bytes × Bytes) (s : Bytes)
      (again : (Options D) → Bytes → Parsed (Options D))
      → Within i.1 s
      → ((d : (Options D)) (t : Bytes) → Within t s → length t < length s → Ends s (again d t))
      → Ends s (with_identifier D options i again)
  with_identifier-Ends options (none, r) s again w h = elim (Bool-cases (peek r == 0)) [
    | inl end ↦ rw end tt
    | inr other ↦ rw other w
  ]
  with_identifier-Ends options (some identifier, r) s again w h =
      after_name (consume_whitespace r)
        (Within-trans (consume_whitespace r) r s (consume-Within r) w)
    where
      after_name :
          (next : Bytes)
          → Within next s
          → Ends s (
              if not (peek next == b'=')
              then failed next
              else with_value D options identifier (get_value (drop 1 next)) again)
      after_name [] w' = w'
      after_name (c ∷ next) w' = elim (Bool-cases (c == b'=')) [
        | inr other ↦ rw other w'
        | inl equals ↦ rw equals (
            with_value-Ends options identifier (get_value next) s again
              (Within-trans (get_value next).1 next s (value-Within next) (Within-cons c next s w'))
              h)
      ]

  -- Enough rounds are given.
  parse_options-Ends :
      (fuel : ℕ) (options : (Options D)) (s : Bytes)
      → length s < fuel
      → Ends s (parse_options D fuel options s)
  unfolding parse_options
  parse_options-Ends zero options s h = elim h [ ]
  parse_options-Ends (suc fuel) options s h = elim (Bool-cases (peek s == 0)) [
    | inl end ↦ rw end tt
    | inr more ↦ rw more (
        with_identifier-Ends options (get_identifier s) s (λ d r. parse_options D fuel d r)
          (identifier-Within s)
          (λ d t w k. Ends-Within t s _ w (parse_options-Ends fuel d t (omega arith))))
  ]

  -- `SVR_parseOptionString` ends on every string. If it fails, the offset that it records is within
  -- the string, and what stands there is where the parser stopped.
  pub parse-Ends : (s : Bytes) → Ends s (parse D s)
  unfolding parse
  parse-Ends s = after_name (consume_whitespace (get_identifier s).1) (
      Within-trans (consume_whitespace (get_identifier s).1) (get_identifier s).1 s
        (consume-Within (get_identifier s).1) (identifier-Within s))
    where
      options : (Options D)
      options =
          set (Option Bytes) (set (Option Bytes) (new (Option Bytes)) descriptor_key (some s))
            name_key (get_identifier s).0

      after_name :
          (next : Bytes)
          → Within next s
          → Ends s (
              if peek next == 0
              then parsed options
              else if not (peek next == b':')
              then failed next
              else parse_options D (suc (length s)) options (drop 1 next))
      after_name [] w = tt
      after_name (c ∷ next) w = elim (Bool-cases (c == 0)) [
        | inl end ↦ rw end tt
        | inr more ↦ elim (Bool-cases (c == b':')) [
          | inr other ↦ rw (more, other) w
          | inl colon ↦
              rw (more, colon)
                (Ends-Within next s _ (Within-cons c next s w) (
                  parse_options-Ends (suc (length s)) options next
                    (omega (arith, length-Within (c ∷ next) s w))))
        ]
      ]
