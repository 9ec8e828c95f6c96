-- ===== src/Decoder/Rows.antt =====
-- lib/encoding.c: images whose rows end with padding, and positions in them.
use svr.Base.{
  ℕ, zero, suc, ◌+◌, ◌-◌, ◌%◌, ◌≤◌, ◌<◌, [], ◌∷◌, ◌++◌, Bytes, length, ◌≡◌, refl, sym, ap, ◌∙◌,
  arith, length-append, take, drop, length-take, length-drop, append_assoc, append-nil, take_all,
  drop_all, drop-nil, take-nil, take-append_le, drop-append_le, mod-eq_of_lt, mod-eq-sub-mod,
}

-- The length of `r` rows of `step` bytes.
abbrev pub span : ℕ → ℕ → ℕ
span step zero = 0
span step (suc r) = step + span step r

-- The bytes of the first `r` rows, less the padding: `w` of each `step` bytes.
abbrev pub unpad : ℕ → ℕ → ℕ → Bytes → Bytes
unpad w step zero p = []
unpad w step (suc r) p = take w p ++ unpad w step r (drop step p)

take-take : (m n : ℕ) (p : Bytes) → m ≤ n → take m (take n p) ≡ take m p
take-take zero n p h = refl
take-take (suc m) zero p h = absurd (omega arith)
take-take (suc m) (suc n) [] h = refl
take-take (suc m) (suc n) (x ∷ p) h = ap (◌∷◌ x) (take-take m n p (omega arith))

drop-take : (m n k : ℕ) (p : Bytes) → n ≡ m + k → drop m (take n p) ≡ take k (drop m p)
drop-take zero n k p h = let e : n ≡ k = omega arith in rw e
drop-take (suc m) zero k p h = absurd (omega arith)
drop-take (suc m) (suc n) k [] h = sym (take-nil k)
drop-take (suc m) (suc n) k (x ∷ p) h = drop-take m n k p (omega arith)

pub unpad-nil : (w step r : ℕ) → unpad w step r [] ≡ []
unpad-nil w step zero = refl
unpad-nil w step (suc r) = rw (take-nil {A = ℕ} w, drop-nil {A = ℕ} step) (unpad-nil w step r)

-- Bytes that go on in the row that is being filled.
pub unpad-append :
    (w step rows r c : ℕ) (p bs : Bytes)
    → length p ≡ span step r + c
    → c + length bs ≤ w
    → w ≤ step
    → r < rows
    → unpad w step rows (p ++ bs) ≡ unpad w step rows p ++ bs
unpad-append w step zero r c p bs l fits v h = absurd (omega arith)
unpad-append w step (suc rows) zero c p bs l fits v h =
    rw
      (
        take_all w (p ++ bs) (omega (arith, length-append p bs)),
        drop_all step (p ++ bs) (omega (arith, length-append p bs)),
        take_all w p (omega arith),
        drop_all step p (omega arith),
        unpad-nil w step rows,
        append-nil (p ++ bs),
        append-nil p,
      )
      refl
unpad-append w step (suc rows) (suc r) c p bs l fits v h =
    rw
      (
        take-append_le w p bs (omega arith),
        drop-append_le step p bs (omega arith),
        unpad-append w step rows r c (drop step p) bs (omega (arith, length-drop step p)) fits v
            (omega arith),
      )
      (sym (append_assoc (take w p) (unpad w step rows (drop step p)) bs))

-- The padding of a row does not show.
pub unpad-padding :
    (w step rows r m n : ℕ) (p : Bytes)
    → m ≡ span step r + w
    → m ≤ n
    → n ≤ span step r + step
    → w ≤ step
    → r < rows
    → unpad w step rows (take n p) ≡ unpad w step rows (take m p)
unpad-padding w step zero r m n p e f g v h = absurd (omega arith)
unpad-padding w step (suc rows) zero m n p e f g v h =
    rw
      (
        take-take w n p (omega arith),
        take-take w m p (omega arith),
        drop_all step (take n p) (omega (arith, length-take n p)),
        drop_all step (take m p) (omega (arith, length-take m p)),
      )
      refl
unpad-padding w step (suc rows) (suc r) m n p e f g v h =
    rw
      (
        take-take w n p (omega arith),
        take-take w m p (omega arith),
        drop-take step n (n - step) p (omega arith),
        drop-take step m (m - step) p (omega arith),
      )
      (ap (◌++◌ (take w p)) (
        unpad-padding w step rows r (m - step) (n - step) (drop step p) (omega arith) (omega arith)
          (omega arith) v (omega arith)))

-- The column of a position.
pub mod-span : (step r c : ℕ) → c < step → (span step r + c) % step ≡ c
mod-span step zero c h = let e : 0 + c ≡ c = omega arith in rw e (mod-eq_of_lt {n = c} {m = step} h)
mod-span step (suc r) c h =
    let e : step + span step r + c - step ≡ span step r + c = omega arith in
    mod-eq-sub-mod {n = step + span step r + c} {m = step} (omega arith)
    ∙ rw e (mod-span step r c h)

pub span_le : (step r rows : ℕ) → r < rows → span step r + step ≤ span step rows
span_le step r zero h = absurd (omega arith)
span_le step zero (suc rows) h = omega arith
span_le step (suc r) (suc rows) h = omega (arith, span_le step r rows (omega arith))
