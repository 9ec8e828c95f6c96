-- ===== src/Server/Routing/Search.antt =====
-- The search of server/messagerouting.c against a lookup.
use svr.Base.{
  ℕ, ◌≤◌, ◌<◌, List, [], ◌∷◌, Option, none, some, Bytes, ltb, ◌==◌, ==_iff, if◌then◌else◌, Bool,
  true, false, map, same, ◌≡◌, ◌≢◌, refl, ap, ◌∙◌, arith, Bool-cases, inl, inr, subst,
}
use svr.OptionString.{peek}
use svr.Pack.Encoding.{IsText}
use svr.Server.Routing.{Row, raise_lower, put_below, reduce_upper, advance, first_row, find}

-- What the search is for: the row of this string.
abbrev pub lookup : {R : Type 0} → Bytes → List (Row R) → Option R
lookup s [] = none
lookup s ((k, r) ∷ rows) = if same k s then some r else lookup s rows

-- `strcmp(k, j) <= 0`
abbrev pub at_most : Bytes → Bytes → Bool
at_most [] j = true
at_most (a ∷ k) [] = false
at_most (a ∷ k) (b ∷ j) = if a == b then at_most k j else ltb a b

abbrev pub AllAbove : {R : Type 0} → Bytes → List (Row R) → Type 0
AllAbove k [] = Unit {0}
AllAbove k ((j, r) ∷ rows) = (at_most k j ≡ true) × AllAbove k rows

-- A table of C strings in the order that `qsort` leaves.
abbrev pub IsTable : {R : Type 0} → List (Row R) → Type 0
IsTable [] = Unit {0}
IsTable ((k, r) ∷ rows) = IsText k × AllAbove k rows × IsTable rows

abbrev keep_rows : {R : Type 0} → ℕ → List (Row R) → List (Row R)
keep_rows c [] = []
keep_rows c (row ∷ rows) = if peek row.0 == c then row ∷ keep_rows c rows else keep_rows c rows

peek-at_most : (k j : Bytes) → at_most k j ≡ true → peek k ≤ peek j
peek-at_most [] j h = omega arith
peek-at_most (a ∷ k) [] h = absurd (ground arith)
peek-at_most (a ∷ k) (b ∷ j) h = ground arith

-- Above a greater byte nothing is kept.
keep-nil :
    {R : Type 0} (c : ℕ) (k : Bytes) (rows : List (Row R))
    → c < peek k
    → AllAbove k rows
    → keep_rows c rows ≡ []
keep-nil c k [] h a = refl
keep-nil c k ((j, r) ∷ rows) h a =
    let other : (peek j == c) ≡ false = let le = peek-at_most k j a.0 in ground arith in
    rw (other, keep-nil c k rows h a.1)

put-equal :
    {R : Type 0} (c : ℕ) (row : (Row R)) (rows : List (Row R))
    → peek row.0 ≡ c
    → put_below c row rows ≡ row ∷ rows
put-equal c row [] e = let stop : ltb c (peek row.0) ≡ false = ground arith in rw stop
put-equal c row (next ∷ rows) e = refl

put-keep :
    {R : Type 0} (c : ℕ) (k : Bytes) (r : R) (rows : List (Row R))
    → c ≤ peek k
    → AllAbove k rows
    → put_below c (k, r) (keep_rows c rows) ≡ keep_rows c ((k, r) ∷ rows)
put-keep c k r rows h a = elim (Bool-cases (peek k == c)) [
  | inl equal ↦ rw equal (put-equal c (k, r) (keep_rows c rows) ((==_iff (peek k) c).0 equal))
  | inr above ↦
      let over : ltb c (peek k) ≡ true = ground arith in
      rw (above, keep-nil c k rows (ground arith) a, over)
]

reduce-keep :
    {R : Type 0} (c : ℕ) (k : Bytes) (r : R) (rows : List (Row R))
    → IsTable ((k, r) ∷ rows)
    → c ≤ peek k
    → reduce_upper c ((k, r) ∷ rows) ≡ keep_rows c ((k, r) ∷ rows)
unfolding reduce_upper
reduce-keep c k r [] t h = put-keep c k r [] h tt
reduce-keep c k r ((j, q) ∷ rows) t h =
    let le = peek-at_most k j t.1.0 in
    ap (put_below c (k, r)) (reduce-keep c j q rows t.2 (omega arith))
    ∙ put-keep c k r ((j, q) ∷ rows) h t.1

-- The two loops leave the rows whose byte is the one looked for.
narrow-keep :
    {R : Type 0} (c : ℕ) (rows : List (Row R))
    → IsTable rows
    → reduce_upper c (raise_lower c rows) ≡ keep_rows c rows
unfolding raise_lower reduce_upper
narrow-keep c [] t = refl
narrow-keep c ((k, r) ∷ rows) t = elim (Bool-cases (ltb (peek k) c)) [
  | inl below ↦
      let other : (peek k == c) ≡ false = ground arith in rw (below, other) (narrow-keep c rows t.2)
  | inr stop ↦ rw stop (reduce-keep c k r rows t (ground arith))
]

AllAbove-keep :
    {R : Type 0} (c : ℕ) (k : Bytes) (rows : List (Row R))
    → AllAbove (c ∷ k) rows
    → AllAbove k (map advance (keep_rows c rows))
AllAbove-keep c k [] a = tt
AllAbove-keep c k (([], r) ∷ rows) a = absurd (ground arith)
AllAbove-keep c k ((b ∷ j, r) ∷ rows) a = elim (Bool-cases (b == c)) [
  | inl equal ↦
      let same_byte : (c == b) ≡ true = ground arith in
      let le : at_most k j ≡ true = ground arith in rw equal (le, AllAbove-keep c k rows a.1)
  | inr other ↦ rw other (AllAbove-keep c k rows a.1)
]

-- What is left, without its first byte, is a table again.
IsTable-keep :
    {R : Type 0} (c : ℕ) (rows : List (Row R))
    → c ≢ 0
    → IsTable rows
    → IsTable (map advance (keep_rows c rows))
IsTable-keep c [] n t = tt
IsTable-keep c (([], r) ∷ rows) n t =
    let other : (0 == c) ≡ false = ground arith in rw other (IsTable-keep c rows n t.2)
IsTable-keep c ((b ∷ k, r) ∷ rows) n t = elim (Bool-cases (b == c)) [
  | inl equal ↦ rw equal (
    t.0.1,
    AllAbove-keep c k rows (subst (λ x. AllAbove (x ∷ k) rows) ((==_iff b c).0 equal) t.1),
    IsTable-keep c rows n t.2,
  )
  | inr other ↦ rw other (IsTable-keep c rows n t.2)
]

lookup-keep :
    {R : Type 0} (c : ℕ) (s : Bytes) (rows : List (Row R))
    → c ≢ 0
    → lookup s (map advance (keep_rows c rows)) ≡ lookup (c ∷ s) rows
lookup-keep c s [] n = refl
lookup-keep c s (([], r) ∷ rows) n =
    let other : (0 == c) ≡ false = ground arith in rw other (lookup-keep c s rows n)
lookup-keep c s ((b ∷ k, r) ∷ rows) n = elim (Bool-cases (b == c)) [
  | inl equal ↦ rw (equal, lookup-keep c s rows n)
  | inr other ↦ rw (other, lookup-keep c s rows n)
]

first-keep :
    {R : Type 0} (rows : List (Row R))
    → IsTable rows
    → first_row (keep_rows 0 rows) ≡ lookup [] rows
first-keep [] t = refl
first-keep (([], r) ∷ rows) t = refl
first-keep ((b ∷ k, r) ∷ rows) t =
    let other : (b == 0) ≡ false = let n = t.0.0 in ground arith in rw (other, first-keep rows t.2)

-- On a sorted table of strings the search finds the row of the string that is asked for, and none if
-- there is no such row.
pub find-lookup :
    {R : Type 0} (s : Bytes) (rows : List (Row R))
    → IsText s
    → IsTable rows
    → find s rows ≡ lookup s rows
unfolding find
find-lookup [] rows i t = ap first_row (narrow-keep 0 rows t) ∙ first-keep rows t
find-lookup (c ∷ s) rows i t =
    ap (λ (window : List (Row _)). find s (map advance window)) (narrow-keep c rows t)
    ∙ find-lookup s (map advance (keep_rows c rows)) i.1 (IsTable-keep c rows i.0 t)
    ∙ lookup-keep c s rows i.0
