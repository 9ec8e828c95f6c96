-- ===== src/FrameProperties/RoundTrip.antt =====
-- The text form of frame properties, written by the handlers and read by lib/frameproperties.c.
use svr.Base.{
  ℕ, zero, suc, ◌+◌, ◌-◌, ◌*◌, ◌/◌, ◌%◌, ◌^◌, ◌<◌, List, [], ◌∷◌, ◌++◌, Bytes, ltb, ◌==◌, true,
  false, ◌≡◌, refl, sym, ap, ◌∙◌, arith, Bool-cases, inl, inr, mod-eq_of_lt, subst,
}
use svr.OptionString.{consume_whitespace, is_space}
use svr.FrameProperties.{
  FrameProperties, digits, decimal, is_digit, read_digits, atoi, keep, split, tokens, assign_items,
  from_string, to_string,
}

-- Reading the digits of a number carries on with the number.
read_digits-digits :
    (fuel n : ℕ) (acc : Bytes) → n < fuel → read_digits (digits fuel n acc) 0 ≡ read_digits acc n
unfolding read_digits digits
read_digits-digits zero n acc h = absurd (omega arith)
read_digits-digits (suc fuel) n acc h = elim (Bool-cases (ltb n 10)) [
  | inl one ↦
      let digit : is_digit (48 + n) ≡ true = ground arith in
      let value : 0 * 10 + (48 + n - 48) ≡ n = omega arith in rw (one, digit, value)
  | inr more ↦
      let digit : is_digit (48 + n % 10) ≡ true = ground arith in
      let value : n / 10 * 10 + (48 + n % 10 - 48) ≡ n = omega arith in
      rw more
        (read_digits-digits fuel (n / 10) ((48 + n % 10) ∷ acc) (ground arith) ∙ rw (digit, value))
]

abbrev pub AllDigits : Bytes → Type 0
AllDigits [] = Unit {0}
AllDigits (c ∷ w) = (is_digit c ≡ true) × AllDigits w

AllDigits-digits : (fuel n : ℕ) (acc : Bytes) → AllDigits acc → AllDigits (digits fuel n acc)
unfolding digits
AllDigits-digits zero n acc h = h
AllDigits-digits (suc fuel) n acc h = elim (Bool-cases (ltb n 10)) [
  | inl one ↦ rw one (ground arith, h)
  | inr more ↦ rw more (AllDigits-digits fuel (n / 10) ((48 + n % 10) ∷ acc) (ground arith, h))
]

-- There is a first digit.
digits-cons :
    (fuel n : ℕ) (acc : Bytes) → n < fuel → (c : ℕ) × (w : Bytes) × (digits fuel n acc ≡ c ∷ w)
unfolding digits
digits-cons zero n acc h = absurd (omega arith)
digits-cons (suc fuel) n acc h = elim (Bool-cases (ltb n 10)) [
  | inl one ↦ (48 + n, acc, rw one)
  | inr more ↦
      let (c, w, e) = digits-cons fuel (n / 10) ((48 + n % 10) ∷ acc) (ground arith) in
      (c, w, rw (more, e))
]

read_digits-nil : (n : ℕ) → read_digits [] n ≡ n
unfolding read_digits
read_digits-nil n = refl

decimal-cons : (n : ℕ) → (c : ℕ) × (w : Bytes) × (decimal n ≡ c ∷ w)
unfolding decimal
decimal-cons n = digits-cons (suc n) n [] (omega arith)

AllDigits-decimal : (n : ℕ) → AllDigits (decimal n)
unfolding decimal
AllDigits-decimal n = AllDigits-digits (suc n) n [] tt

pub read_digits-decimal : (n : ℕ) → read_digits (decimal n) 0 ≡ n
unfolding decimal
read_digits-decimal n = read_digits-digits (suc n) n [] (omega arith) ∙ read_digits-nil n

atoi-digits :
    (c : ℕ) (w : Bytes) → is_digit c ≡ true → atoi (c ∷ w) ≡ read_digits (c ∷ w) 0 % 2 ^ 32
unfolding atoi consume_whitespace
atoi-digits c w h =
    let no_space : is_space c ≡ false = ground arith in
    let no_minus : (c == 45) ≡ false = ground arith in
    let no_plus : (c == 43) ≡ false = ground arith in rw (no_space, no_minus, no_plus)

-- `atoi` reads what `sprintf` has written.
pub atoi-decimal : (n : ℕ) → n < 2 ^ 32 → atoi (decimal n) ≡ n
atoi-decimal n h =
    let (c, w, e) = decimal-cons n in
    let digit : is_digit c ≡ true = (subst AllDigits e (AllDigits-decimal n)).0 in
    ap atoi e
    ∙ atoi-digits c w digit
    ∙ ap (λ (s : Bytes). read_digits s 0 % 2 ^ 32) (sym e)
    ∙ ap (λ (k : ℕ). k % 2 ^ 32) (read_digits-decimal n)
    ∙ mod-eq_of_lt {n = n} {m = 2 ^ 32} h

-- The pieces of a text that begins with digits and a comma, and of one that is digits only.
split-comma :
    (w rest : Bytes)
    → AllDigits w
    → split (w ++ b',' ∷ rest) ≡ (w, keep (split rest).0 (split rest).1)
unfolding split
split-comma [] rest h = refl
split-comma (c ∷ w) rest h =
    let other : (c == 44) ≡ false = let digit = h.0 in ground arith in
    rw (other, split-comma w rest h.1)

split-digits : (w : Bytes) → AllDigits w → split w ≡ (w, [])
unfolding split
split-digits [] h = refl
split-digits (c ∷ w) h =
    let other : (c == 44) ≡ false = let digit = h.0 in ground arith in
    rw (other, split-digits w h.1)

keep-decimal : (n : ℕ) (ts : List Bytes) → keep (decimal n) ts ≡ decimal n ∷ ts
keep-decimal n ts =
    let (c, w, e) = decimal-cons n in
    ap (λ (s : Bytes). keep s ts) e ∙ ap (λ (s : Bytes). s ∷ ts) (sym e)

tokens-to_string :
    (p : FrameProperties)
    → tokens (to_string p)
      ≡ decimal p.width ∷ decimal p.height ∷ decimal p.depth ∷ decimal p.channels ∷ []
unfolding tokens to_string
tokens-to_string p = rw (
  split-comma (decimal p.width)
      (decimal p.height ++ b',' ∷ (decimal p.depth ++ b',' ∷ decimal p.channels))
      (AllDigits-decimal p.width),
  split-comma (decimal p.height) (decimal p.depth ++ b',' ∷ decimal p.channels)
      (AllDigits-decimal p.height),
  split-comma (decimal p.depth) (decimal p.channels) (AllDigits-decimal p.depth),
  split-digits (decimal p.channels) (AllDigits-decimal p.channels),
  keep-decimal p.channels [],
  keep-decimal p.depth (decimal p.channels ∷ []),
  keep-decimal p.height (decimal p.depth ∷ decimal p.channels ∷ []),
  keep-decimal p.width (decimal p.height ∷ decimal p.depth ∷ decimal p.channels ∷ []),
)

-- What the fields can hold.
pub record InRange (p : FrameProperties) : Type 0 where
  pub width : p.width < 65536
  pub height : p.height < 65536
  pub depth : p.depth < 256
  pub channels : p.channels < 256

-- Frame properties that the fields of the struct can hold are read back from their text as they were.
pub from_string-to_string : (p : FrameProperties) → InRange p → from_string (to_string p) ≡ p
unfolding from_string assign_items
from_string-to_string p r = rw (
  tokens-to_string p,
  atoi-decimal p.width (omega (arith, r.width)),
  atoi-decimal p.height (omega (arith, r.height)),
  atoi-decimal p.depth (omega (arith, r.depth)),
  atoi-decimal p.channels (omega (arith, r.channels)),
  mod-eq_of_lt {n = p.width} {m = 65536} r.width,
  mod-eq_of_lt {n = p.height} {m = 65536} r.height,
  mod-eq_of_lt {n = p.depth} {m = 256} r.depth,
  mod-eq_of_lt {n = p.channels} {m = 256} r.channels,
)
