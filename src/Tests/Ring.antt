-- ===== src/Tests/Ring.antt =====
-- An encoder that is written and read in turns.
use svr.Base.{List, ℕ, [], ◌∷◌, some, Bytes, replicate, length, length-replicate, ◌≡◌, arith}
use svr.Encoder.Refine.{Op, provide, read, run, run_refines}
use svr.Encoder.{Encoder, new}
use svr.Encoder.Holds.{Holds}

abbrev abc : Bytes
abc = b'a' ∷ b'b' ∷ b'c' ∷ []

abbrev noise : ℕ → Bytes
noise n = replicate n 9

length-noise : (n : ℕ) → length (noise n) ≡ n
length-noise n = length-replicate n 9

abbrev script : List Op
script = provide abc ∷ read 2 ∷ provide (b'd' ∷ b'e' ∷ []) ∷ read 9 ∷ read 1 ∷ []

run_refines_example :
    (e : Encoder) × (run noise script new
      ≡ some ((b'a' ∷ b'b' ∷ []) ∷ (b'c' ∷ b'd' ∷ b'e' ∷ []) ∷ [] ∷ [], e))
    × Holds e []
run_refines_example = run_refines noise length-noise script (omega arith, (omega arith, tt))
