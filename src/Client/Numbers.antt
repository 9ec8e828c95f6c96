-- ===== src/Client/Numbers.antt =====
-- The "%d" of the client's messages (lib/stream.c). An `int` is its bit pattern, below 2 ^ 32.
use svr.Base.{
  ℕ, ◌+◌, ◌-◌, ◌^◌, ◌<◌, ◌∷◌, Bytes, ltb, if◌then◌else◌, ◌≡◌, arith, Bool-cases, inl, inr,
}
use svr.OptionString.{consume_whitespace}
use svr.FrameProperties.{decimal, atoi}
use svr.FrameProperties.RoundTrip.{atoi-decimal, read_digits-decimal}

-- `sprintf(s, "%d", n)`
abbrev pub signed_decimal : ℕ → Bytes
signed_decimal n = if ltb n (2 ^ 31) then decimal n else b'-' ∷ decimal (2 ^ 32 - n)

-- `(int) priority` of a `short`.
abbrev pub int_of_short : ℕ → ℕ
int_of_short n = if ltb n (2 ^ 15) then n else n + 2 ^ 32 - 2 ^ 16

-- `atoi` reads an `int` back, negative ones included, as "%d" has written it.
pub atoi-signed_decimal : (n : ℕ) → n < 2 ^ 32 → atoi (signed_decimal n) ≡ n
unfolding atoi consume_whitespace
atoi-signed_decimal n h = elim (Bool-cases (ltb n (2 ^ 31))) [
  | inl positive ↦ rw positive (atoi-decimal n h)
  | inr negative ↦ rw (negative, read_digits-decimal (2 ^ 32 - n)) (ground arith)
]
