-- ===== src/Base/Keep.antt =====
-- What a store leaves as it was.
use Prim.Native.Nat.{ℕ, zero, suc, ◌+◌, ◌≤◌}
use mathlib.Core.Path.{◌≡◌, refl}
use mathlib.Core.Logic.{inl, inr}
use mathlib.Core.List.{[], ◌∷◌}
use mathlib.Core.Option.{some}
use native.Mathlib.Omega.{arith}
use svr.Base.Tests.{Option-cases}
use svr.Base.Lists.{length}
use svr.Base.Memory.{Bytes, store, load}

-- Bytes in front of what is stored.
pub load-store_before :
    (p : Bytes) (off n i : ℕ) (bs : Bytes) {q : Bytes}
    → off + n ≤ i
    → store p i bs ≡ some q
    → load q off n ≡ load p off n
unfolding store load
load-store_before p off zero i bs h e = refl
load-store_before p off (suc n) i [] {q} h e = let is : p ≡ q = cc in rw is
load-store_before [] off (suc n) i (b ∷ bs) h e = absurd (ground arith)
load-store_before (x ∷ p) off (suc n) zero (b ∷ bs) h e = absurd (omega arith)
load-store_before (x ∷ p) zero (suc n) (suc i) (b ∷ bs) {q} h e =
    elim (Option-cases (store p i (b ∷ bs))) [
      | inl f ↦ absurd (ground arith)
      | inr (r, f) ↦
          let is : x ∷ r ≡ q = ground arith in
          rw (← is) (rw (load-store_before p zero n i (b ∷ bs) (omega arith) f))
    ]
load-store_before (x ∷ p) (suc off) (suc n) (suc i) (b ∷ bs) {q} h e =
    elim (Option-cases (store p i (b ∷ bs))) [
      | inl f ↦ absurd (ground arith)
      | inr (r, f) ↦
          let is : x ∷ r ≡ q = ground arith in
          rw (← is) (load-store_before p off (suc n) i (b ∷ bs) (omega arith) f)
    ]

pub length-store :
    (p : Bytes) (i : ℕ) (bs : Bytes) {q : Bytes} → store p i bs ≡ some q → length q ≡ length p
unfolding store
length-store p i [] {q} e = let is : p ≡ q = cc in rw is
length-store [] i (b ∷ bs) e = absurd (ground arith)
length-store (x ∷ p) zero (b ∷ bs) {q} e = elim (Option-cases (store p zero bs)) [
  | inl f ↦ absurd (ground arith)
  | inr (r, f) ↦
      let is : b ∷ r ≡ q = ground arith in rw (← is) (omega (arith, length-store p zero bs f))
]
length-store (x ∷ p) (suc i) (b ∷ bs) {q} e = elim (Option-cases (store p i (b ∷ bs))) [
  | inl f ↦ absurd (ground arith)
  | inr (r, f) ↦
      let is : x ∷ r ≡ q = ground arith in rw (← is) (omega (arith, length-store p i (b ∷ bs) f))
]
