-- ===== src/Base/Strings.antt =====
-- Equality of strings, as `strcmp` tells it.
use mathlib.Core.Path.{◌≡◌, refl, ap₂, subst}
use mathlib.Core.Logic.{◌≢◌, inl, inr}
use mathlib.Core.Bool.{Bool, true, false}
use mathlib.Core.List.{[], ◌∷◌}
use native.Mathlib.Omega.{arith}
use svr.Base.Memory.{Bytes}
use svr.Base.Tests.{◌==◌, ==_iff, Bool-cases, if◌then◌else◌}

abbrev pub same : Bytes → Bytes → Bool
same [] [] = true
same (a ∷ k) (b ∷ j) = if a == b then same k j else false
same [] (b ∷ j) = false
same (a ∷ k) [] = false

pub same_refl : (k : Bytes) → same k k ≡ true
same_refl [] = refl
same_refl (a ∷ k) = rw ((==_iff a a).1 refl, same_refl k)

pub same-eq : (k j : Bytes) → same k j ≡ true → k ≡ j
same-eq [] [] h = refl
same-eq (a ∷ k) (b ∷ j) h = elim (Bool-cases (a == b)) [
  | inl e ↦ elim (Bool-cases (same k j)) [
    | inl f ↦ ap₂ (◌∷◌) ((==_iff a b).0 e) (same-eq k j f)
    | inr f ↦ absurd (ground (arith))
  ]
  | inr e ↦ absurd (ground arith)
]
same-eq [] (b ∷ j) h = absurd (ground arith)
same-eq (a ∷ k) [] h = absurd (ground arith)

pub same-ne : (k j : Bytes) → k ≢ j → same k j ≡ false
same-ne k j h = elim (Bool-cases (same k j)) [ inl e ↦ absurd (h (same-eq k j e)) | inr e ↦ e ]

pub ne-same : (k j : Bytes) → same k j ≡ false → k ≢ j
ne-same k j h e = absurd (let yes_ = subst (λ x. same k x ≡ true) e (same_refl k) in ground arith)
