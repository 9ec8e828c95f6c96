-- ===== src/OptionString/Values.antt =====
-- What `get_value` takes for a value.
use svr.Base.{
  ℕ, ◌+◌, [], ◌∷◌, ◌++◌, Bytes, length, take, drop, ◌≡◌, refl, sym, ap, ◌∙◌, arith, ◌==◌,
  if◌then◌else◌, Bool-cases, inl, inr, true, false, take-append_left, drop-append_left,
}
use svr.OptionString.{is_space, peek, or_null, value_end, get_value, consume_whitespace}

-- The bytes before the first comma, and the rest.
abbrev pub until_comma : Bytes → Bytes
until_comma [] = []
until_comma (c ∷ r) = if c == b',' then [] else c ∷ until_comma r

abbrev pub from_comma : Bytes → Bytes
from_comma [] = []
from_comma (c ∷ r) = if c == b',' then c ∷ r else from_comma r

pub until-append-from : (r : Bytes) → until_comma r ++ from_comma r ≡ r
until-append-from [] = refl
until-append-from (c ∷ r) = ground (arith, until-append-from r)

value_end-cons :
    (c : ℕ) (r : Bytes) (pos end : ℕ)
    → (c == b',') ≡ false
    → value_end (c ∷ r) pos end ≡ value_end r (pos + 1) (if is_space (peek r) then end else pos + 1)
unfolding value_end
value_end-cons c r pos end h = rw h

value_end-comma :
    (d : ℕ) (r : Bytes) (pos end : ℕ) → (d == b',') ≡ true → value_end (d ∷ r) pos end ≡ end
unfolding value_end
value_end-comma d r pos end h = rw h

value_end-nil : (pos end : ℕ) → value_end [] pos end ≡ end
unfolding value_end
value_end-nil pos end = refl

-- The character that stops the loop is not white space, so it always moves `end` up to it.
value_end-until :
    (c : ℕ) (r : Bytes) (pos end : ℕ)
    → (c == b',') ≡ false
    → value_end (c ∷ r) pos end ≡ pos + length (until_comma (c ∷ r))
value_end-until c [] pos end h = rw (value_end-cons c [] pos end h, value_end-nil, h)
value_end-until c (d ∷ r) pos end h = elim (Bool-cases (d == b',')) [
  | inl comma ↦
      rw (value_end-cons c (d ∷ r) pos end h, value_end-comma d r (pos + 1) _ comma, h, comma)
        (ground arith)
  | inr other ↦
      rw (value_end-cons c (d ∷ r) pos end h, value_end-until d r (pos + 1) _ other, h, other)
        (omega arith)
]

pub value_end-zero : (r : Bytes) → value_end r 0 0 ≡ length (until_comma r)
value_end-zero [] = value_end-nil 0 0
value_end-zero (c ∷ r) = elim (Bool-cases (c == b',')) [
  | inl comma ↦ rw (value_end-comma c r 0 0 comma, comma)
  | inr other ↦ rw (value_end-until c r 0 0 other) (omega arith)
]

-- A value reaches to the next comma or the end of the string: only the white space before it is
-- removed, and not what stands behind it.
pub get_value-until :
    (s : Bytes)
    → get_value s
      ≡ (or_null (until_comma (consume_whitespace s)), from_comma (consume_whitespace s))
unfolding get_value
get_value-until s = rw (value_end-zero start) (λ i. (or_null (cut i), left i))
  where
    start : Bytes
    start = consume_whitespace s

    cut : take (length (until_comma start)) start ≡ until_comma start
    cut =
        ap (take (length (until_comma start))) (sym (until-append-from start))
        ∙ take-append_left _ (until_comma start) (from_comma start) refl

    left : drop (length (until_comma start)) start ≡ from_comma start
    left =
        ap (drop (length (until_comma start))) (sym (until-append-from start))
        ∙ drop-append_left _ (until_comma start) (from_comma start) refl
