-- ===== src/BlockAlloc/Run.antt =====
-- lib/blockalloc.c: an allocator under any sequence of calls.
use svr.Base.{
  ℕ, zero, suc, ◌≤◌, ◌<◌, List, [], ◌∷◌, Option, none, some, ◌>>=◌, get_elem?, ◌≡◌, refl, arith,
  Option-cases, inl, inr,
}
use svr.BlockAlloc.{Block, Allocator, new, alloc, free}
use svr.BlockAlloc.Live.{Holds, new-Holds, count, count_self, remove}
use svr.BlockAlloc.Grow.{alloc-Holds, free-Holds}

-- `release i` frees the block that was handed out `i` blocks before the latest, if it is still in use.
pub data Op : Type 0 where
  take : Op
  release : ℕ → Op

-- The allocator, and the blocks in use, from the latest on.
abbrev pub release_block : Allocator → List Block → Option Block → Option (Allocator × List Block)
release_block a live none = some (a, live)
release_block a live (some p) = do a' ← free a p; some (a', remove p live)

unfoldable pub step : Block → Op → Allocator → List Block → Option (Allocator × List Block)
step junk take a live = do r ← alloc junk a; some (r.1, r.0 ∷ live)
step junk (release i) a live = release_block a live (get_elem? live i)

unfoldable pub run : Block → List Op → Allocator → List Block → Option (Allocator × List Block)
run junk [] a live = some (a, live)
run junk (op ∷ ops) a live = do r ← step junk op a live; run junk ops r.0 r.1

count-pos : (live : List Block) (i : ℕ) (p : Block) → get_elem? live i ≡ some p → 0 < count p live
count-pos [] i p e = absurd (ground arith)
count-pos (q ∷ live) zero p e =
    let is : q ≡ p = cc in let one = count_self p in rw is (omega (arith, one))
count-pos (q ∷ live) (suc i) p e = omega (arith, count-pos live i p e)

step-Holds :
    (junk : Block) (op : Op) (a : Allocator) (live : List Block)
    → Holds a live
    → (a' : Allocator) × (live' : List Block) × (step junk op a live ≡ some (a', live'))
      × Holds a' live'
unfolding step
step-Holds junk take a live h =
    let (p, a', e, once, h') = alloc-Holds junk a live h in (a', p ∷ live, rw e refl, h')
step-Holds junk (release i) a live h = elim (Option-cases (get_elem? live i)) [
  | inl missing ↦ (a, live, rw missing refl, h)
  | inr (p, there) ↦
      let (a', e, h') = free-Holds a live p h (count-pos live i p there) in
      (a', remove p live, rw (there, e) refl, h')
]

run-Holds :
    (junk : Block) (ops : List Op) (a : Allocator) (live : List Block)
    → Holds a live
    → (a' : Allocator) × (live' : List Block) × (run junk ops a live ≡ some (a', live'))
      × Holds a' live'
unfolding run
run-Holds junk [] a live h = (a, live, refl, h)
run-Holds junk (op ∷ ops) a live h =
    let (mid, live1, first, h1) = step-Holds junk op a live h in
    let (a', live', rest, h') = run-Holds junk ops mid live1 h1 in (a', live', rw first rest, h')

-- A new allocator, with blocks of at least a byte and chunks of at least a block, under any sequence of
-- `SVR_BlockAlloc_alloc` and of `SVR_BlockAlloc_free` of blocks in use, in any order: each call returns and
-- stays within the table, no block is in use twice at a time, and each block is in use or free, not both.
pub run_unique :
    (junk : Block) (block_size grow_size : ℕ) (ops : List Op)
    → 0 < block_size
    → 0 < grow_size
    → (a : Allocator) × (live : List Block) × (run junk ops (new block_size grow_size) []
        ≡ some (a, live))
      × Holds a live
      × ((p : Block) → count p live ≤ 1)
run_unique junk b g ops pos grow =
    let (a, live, e, h) = run-Holds junk ops (new b g) [] (new-Holds b g pos grow) in
    (a, live, e, h, λ p. omega (arith, h.once p))
