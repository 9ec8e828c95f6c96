-- ===== src/ResponseSet/Round.antt =====
-- lib/responseset.c: the slots that the search for an id has passed.
use svr.Base.{
  ℕ, ◌+◌, ◌-◌, ◌%◌, ◌<◌, Bool, true, false, leb, ltb, ◌==◌, ==_iff, if◌then◌else◌, ◌&&◌, ◌||◌, ◌≡◌,
  ◌∙◌, ◌⊎◌, inl, inr, arith, Bool-cases, mod-eq_of_lt, mod-eq-sub-mod, dec_lt,
}

-- The slots between the one that the search started from and the one that it has come to, round
-- the end of the arrays.
abbrev pub passed : ℕ → ℕ → ℕ → Bool
passed next id i = if leb next id then leb next i && ltb i id else (leb next i || ltb i id)

-- The slot after a slot.
pub after_slot :
    (id size : ℕ)
    → id < size
    → (((id + 1) % size ≡ id + 1) × (id + 1 < size)) ⊎ (((id + 1) % size ≡ 0) × (id + 1 ≡ size))
after_slot id size h = elim (dec_lt (id + 1) size) [
  | yes inside ↦ inl (mod-eq_of_lt {n = id + 1} {m = size} inside, inside)
  | no last ↦
      let whole : id + 1 - size ≡ 0 = omega arith in
      inr (
        mod-eq-sub-mod {n = id + 1} {m = size} (omega arith)
            ∙ rw whole (mod-eq_of_lt {n = 0} {m = size} (omega arith)),
        omega arith,
      )
]

-- A slot that the search has passed, once it has gone on, is the one it has looked at or one before.
pub passed-next :
    (next id size i : ℕ)
    → id < size
    → next < size
    → i < size
    → ((id + 1) % size == next) ≡ false
    → passed next ((id + 1) % size) i ≡ true
    → (passed next id i ≡ true) ⊎ (id ≡ i)
passed-next next id size i h n j e f = elim (Bool-cases (id == i)) [
  | inl here ↦ inr ((==_iff id i).0 here)
  | inr before ↦ elim (after_slot id size h) [
    | inl (m, inside) ↦ inl (ground arith)
    | inr (m, last) ↦ inl (ground arith)
  ]
]

-- When the search comes back to its start, it has passed every slot.
pub came_round :
    (next id size i : ℕ)
    → id < size
    → next < size
    → i < size
    → ((id + 1) % size == next) ≡ true
    → (passed next id i ≡ true) ⊎ (id ≡ i)
came_round next id size i h n j e = elim (Bool-cases (id == i)) [
  | inl here ↦ inr ((==_iff id i).0 here)
  | inr before ↦ elim (after_slot id size h) [
    | inl (m, inside) ↦ inl (ground arith)
    | inr (m, last) ↦ inl (ground arith)
  ]
]
