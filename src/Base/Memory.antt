-- ===== src/Base/Memory.antt =====
-- A block of memory as the list of its bytes, with checked reads and writes: `none` is an access
-- outside the block, which C leaves undefined.
use svr.Base.Tests.{◌>>=◌, Option-cases}
use mathlib.Core.Logic.{inl, inr}
use svr.Base.Lists.{
  length, take, drop, take-append-drop, drop-nil, drop-cons, drop-append_left, length-take,
  length-append, drop_all, drop-drop, take-append_left,
}
use Prim.Native.Nat.{ℕ, zero, suc, ◌+◌, ◌≤◌, ◌<◌}
use mathlib.Core.Path.{◌≡◌, refl, sym, ◌∙◌}
use mathlib.Core.List.{List, [], ◌∷◌, ◌++◌, append-nil}
use mathlib.Core.Option.{Option, none, some}
use native.Mathlib.Omega.{arith}
use native.Mathlib.Nat.{add-zero}

abbrev pub Bytes : Type 0
Bytes = List ℕ

-- `memcpy(p + off, bs, length bs)`: every byte of the target must lie in the block.
unfoldable pub store : Bytes → ℕ → Bytes → Option Bytes
store p off [] = some p
store [] off (b ∷ bs) = none
store (x ∷ p) zero (b ∷ bs) = do q ← store p zero bs; some (b ∷ q)
store (x ∷ p) (suc off) (b ∷ bs) = do q ← store p off (b ∷ bs); some (x ∷ q)

-- `n` bytes read from `p + off`.
unfoldable pub load : Bytes → ℕ → ℕ → Option Bytes
load p off zero = some []
load [] off (suc n) = none
load (x ∷ p) zero (suc n) = do bs ← load p zero n; some (x ∷ bs)
load (x ∷ p) (suc off) (suc n) = load p off (suc n)

pub store-nil : (p : Bytes) (off : ℕ) → store p off [] ≡ some p
unfolding store
store-nil p off = refl

store-cons :
    (x : ℕ) (p : Bytes) (k j : ℕ) (bs : Bytes)
    → k ≡ suc j
    → store (x ∷ p) k bs ≡ (do q ← store p j bs; some (x ∷ q))
unfolding store
store-cons x p k j [] e = refl
store-cons x p k j (b ∷ bs) e = rw e

pub load_zero : (p : Bytes) (off : ℕ) → load p off 0 ≡ some []
unfolding load
load_zero p off = refl

-- Two stores in a row are one.
pub store-append :
    (p : Bytes) (off : ℕ) (xs ys : Bytes)
    → store p off (xs ++ ys) ≡ (do q ← store p off xs; store q (off + length xs) ys)
unfolding store
store-append p off [] ys = rw add-zero
store-append [] off (b ∷ xs) ys = refl
store-append (x ∷ p) zero (b ∷ xs) ys = elim (Option-cases (store p zero xs)) [
  | inl e ↦ rw (store-append p zero xs ys, e)
  | inr (q, e) ↦ rw (store-append p zero xs ys, e) (sym (store-cons b q _ _ ys (omega arith)))
]
store-append (x ∷ p) (suc off) (b ∷ xs) ys = elim (Option-cases (store p off (b ∷ xs))) [
  | inl e ↦ rw (store-append p off (b ∷ xs) ys, e)
  | inr (q, e) ↦ rw (store-append p off (b ∷ xs) ys, e) (sym (store-cons x q _ _ ys (omega arith)))
]

-- A store inside the block succeeds, and leaves what stands before and after it.
pub store_lem :
    (p : Bytes) (off : ℕ) (bs : Bytes)
    → off + length bs ≤ length p
    → store p off bs ≡ some (take off p ++ (bs ++ drop (off + length bs) p))
unfolding store
store_lem p off [] h = rw (add-zero, take-append-drop)
store_lem [] off (b ∷ bs) h = absurd (omega arith)
store_lem (x ∷ p) zero (b ∷ bs) h =
    rw (store_lem p zero bs (omega arith))
      (rw (drop-cons (0 + suc (length bs)) (0 + length bs) x p (omega arith)))
store_lem (x ∷ p) (suc off) (b ∷ bs) h =
    rw (store_lem p off (b ∷ bs) (omega arith))
      (rw (drop-cons (suc off + suc (length bs)) (off + suc (length bs)) x p (omega arith)))

-- What is found from the offset on.
pub drop-store :
    (p : Bytes) (off : ℕ) (bs : Bytes) {q : Bytes}
    → off + length bs ≤ length p
    → store p off bs ≡ some q
    → drop off q ≡ bs ++ drop (off + length bs) p
drop-store p off bs {q} h e =
    let found : q ≡ take off p ++ (bs ++ drop (off + length bs) p) = cc (store_lem p off bs h) in
    rw found (drop-append_left off (take off p) _ (omega (arith, length-take off p)))

pub load_lem :
    (p : Bytes) (off : ℕ) (bs rest : Bytes)
    → drop off p ≡ bs ++ rest
    → load p off (length bs) ≡ some bs
unfolding load
load_lem p off [] rest e = refl
load_lem [] off (b ∷ bs) rest e = cc (drop-nil {A = ℕ} off)
load_lem (x ∷ p) zero (b ∷ bs) rest e = ground (arith, load_lem p zero bs rest)
load_lem (x ∷ p) (suc off) (b ∷ bs) rest e = load_lem p off (b ∷ bs) rest e

-- A store that leaves the block fails.
pub store_out :
    (p : Bytes) (off : ℕ) (bs : Bytes)
    → 0 < length bs
    → length p < off + length bs
    → store p off bs ≡ none
unfolding store
store_out p off [] h k = absurd (omega arith)
store_out [] off (b ∷ bs) h k = refl
store_out (x ∷ p) zero (b ∷ []) h k = absurd (omega arith)
store_out (x ∷ p) zero (b ∷ c ∷ bs) h k = rw (store_out p zero (c ∷ bs) (omega arith) (omega arith))
store_out (x ∷ p) (suc off) (b ∷ bs) h k = rw (store_out p off (b ∷ bs) h (omega arith))

-- Two stores that fill a block.
pub store_rest :
    (p x y : Bytes) {q : Bytes} (off : ℕ)
    → store p 0 x ≡ some q
    → length p ≡ length x + length y
    → off ≡ length x
    → store q off y ≡ some (x ++ y)
store_rest p x y {q} off e h k =
    let joined : store p 0 (x ++ y) ≡ store q (0 + length x) y = store-append p 0 x y ∙ rw e refl in
    let filled : store p 0 (x ++ y) ≡ some ((x ++ y) ++ drop (0 + length (x ++ y)) p) =
      store_lem p 0 (x ++ y) (omega (arith, length-append x y)) in
    let left : drop (0 + length (x ++ y)) p ≡ [] =
      drop_all _ p (omega (arith, length-append x y)) in
    let here : off ≡ 0 + length x = omega arith in
    rw here (sym joined ∙ filled ∙ rw (left, append-nil (x ++ y)))

-- Reads and writes of one part of a block that is known in parts.
pub load_at :
    (pre bs post : Bytes) (off n : ℕ)
    → off ≡ length pre
    → n ≡ length bs
    → load (pre ++ (bs ++ post)) off n ≡ some bs
load_at pre bs post off n e k =
    rw k (load_lem (pre ++ (bs ++ post)) off bs post (drop-append_left off pre (bs ++ post) e))

pub store_at :
    (pre old post bs : Bytes) (off : ℕ)
    → off ≡ length pre
    → length old ≡ length bs
    → store (pre ++ (old ++ post)) off bs ≡ some (pre ++ (bs ++ post))
store_at pre old post bs off e k =
    store_lem (pre ++ (old ++ post)) off bs
      (omega (arith, length-append pre (old ++ post), length-append old post))
    ∙ rw (
      take-append_left off pre (old ++ post) e,
      ← drop-drop (length bs) off (pre ++ (old ++ post)),
      drop-append_left off pre (old ++ post) e,
      drop-append_left (length bs) old post (sym k),
    )
