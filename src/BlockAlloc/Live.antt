-- ===== src/BlockAlloc/Live.antt =====
-- The blocks of an allocator: free or handed out, each of them once.
use svr.Base.{
  ℕ, zero, suc, ◌+◌, ◌-◌, ◌≤◌, ◌<◌, List, [], ◌∷◌, ◌++◌, some, Bool, true, false, ◌==◌, ==_iff,
  if◌then◌else◌, ◌&&◌, get_elem?, length, take, ◌≡◌, refl, sym, ap, ◌∙◌, subst, arith, Bool-cases,
  inl, inr, get_elem?-in,
}
use svr.BlockAlloc.{Block, Allocator, new, take_block}

abbrev pub same_block : Block → Block → Bool
same_block (c, o) (d, p) = c == d && o == p

-- How often a block is in a list.
abbrev pub count : Block → List Block → ℕ
count p [] = 0
count p (q ∷ bs) = (if same_block q p then 1 else 0) + count p bs

abbrev pub remove : Block → List Block → List Block
remove p [] = []
remove p (q ∷ bs) = let rest = remove p bs in if same_block q p then bs else q ∷ rest

pub count-append : (p : Block) (xs ys : List Block) → count p (xs ++ ys) ≡ count p xs + count p ys
count-append p [] ys = omega arith
count-append p (x ∷ xs) ys = omega (arith, count-append p xs ys)

same_block-eq : (p q : Block) → same_block p q ≡ true → p ≡ q
same_block-eq (c, o) (d, p) h =
    let e : c ≡ d = ground arith in let f : o ≡ p = ground arith in λ i. (e i, f i)

same_block_refl : (p : Block) → same_block p p ≡ true
same_block_refl (c, o) = rw ((==_iff c c).1 refl, (==_iff o o).1 refl)

pub count_self : (p : Block) → count p (p ∷ []) ≡ 1
count_self p = rw (same_block_refl p)

-- Taking a block out of a list that has it.
pub count-remove :
    (p q : Block) (bs : List Block)
    → 0 < count p bs
    → count q (remove p bs) + (if same_block p q then 1 else 0) ≡ count q bs
count-remove p q [] h = absurd (omega arith)
count-remove p q (x ∷ bs) h = elim (Bool-cases (same_block x p)) [
  | inl here ↦ rw (here, same_block-eq x p here) (omega arith)
  | inr other ↦ rw other (omega (arith, count-remove p q bs (ground arith)))
]

pub length-remove :
    (p : Block) (bs : List Block) → 0 < count p bs → length (remove p bs) + 1 ≡ length bs
length-remove p [] h = absurd (omega arith)
length-remove p (x ∷ bs) h = elim (Bool-cases (same_block x p)) [
  | inl here ↦ rw here (omega arith)
  | inr other ↦ rw other (omega (arith, length-remove p bs (ground arith)))
]

-- Each block is in a chunk below `n`.
abbrev pub InChunks : ℕ → List Block → Type 0
InChunks n [] = Unit {0}
InChunks n (p ∷ bs) = (p.0 < n) × InChunks n bs

-- The allocator has these blocks to give, and these have been given.
pub record Holds (a : Allocator) (live : List Block) : Type 0 where
  pub size_pos : 0 < a.block_size
  pub grow_pos : 0 < a.grow_size
  pub room : length a.blocks ≡ a.num_blocks
  pub all : a.index + length live ≡ a.num_blocks
  pub once : (p : Block) → count p (take a.index a.blocks) + count p live ≤ 1
  pub known : InChunks (length a.chunks) (take a.index a.blocks) × InChunks (length a.chunks) live

pub new-Holds :
    (block_size grow_size : ℕ)
    → 0 < block_size
    → 0 < grow_size
    → Holds (new block_size grow_size) []
unfolding new
new-Holds b g h k = record {
  size_pos = h;
  grow_pos = k;
  room = refl;
  all = refl;
  once = λ p. omega arith;
  known = (tt, tt);
}

-- The last free block is the end of the free part.
pub take-last :
    (bs : List Block) (n : ℕ) (p : Block)
    → get_elem? bs n ≡ some p
    → take (suc n) bs ≡ take n bs ++ p ∷ []
take-last [] n p e = absurd (ground arith)
take-last (x ∷ bs) zero p e = let is : x ≡ p = cc in ap (λ (y : Block). y ∷ []) is
take-last (x ∷ bs) (suc n) p e = ap (◌∷◌ x) (take-last bs n p e)

InChunks-append :
    (n : ℕ) (xs ys : List Block) → InChunks n (xs ++ ys) → InChunks n xs × InChunks n ys
InChunks-append n [] ys h = (tt, h)
InChunks-append n (x ∷ xs) ys h = let (a, b) = InChunks-append n xs ys h.1 in ((h.0, a), b)

pub take_block-Holds :
    (a : Allocator) (live : List Block)
    → Holds a live
    → 0 < a.index
    → (p : Block) × (a' : Allocator) × (take_block a ≡ some (p, a'))
      × (count p live ≡ 0)
      × Holds a' (p ∷ live)
unfolding take_block
take_block-Holds a live h pos =
    let r = h.room in
    let t = h.all in
    let (p, at) = get_elem?-in a.blocks (a.index - 1) (omega arith) in
    let index : suc (a.index - 1) ≡ a.index = omega arith in
    let cut : take a.index a.blocks ≡ take (a.index - 1) a.blocks ++ p ∷ [] =
      ap (λ (n : ℕ). take n a.blocks) (sym index) ∙ take-last a.blocks (a.index - 1) p at in
    let stop : (a.index == 0) ≡ false = ground arith in
    let counts =
      λ (q : Block). ap (count q) cut ∙ count-append q (take (a.index - 1) a.blocks) (p ∷ []) in
    let (free_known, last_known) =
      InChunks-append (length a.chunks) (take (a.index - 1) a.blocks) (p ∷ [])
        (subst (InChunks (length a.chunks)) cut h.known.0) in
    (
      p,
      record a { index = a.index - 1 },
      rw (stop, at),
      omega (arith, h.once p, counts p, count_self p),
      record {
        size_pos = h.size_pos;
        grow_pos = h.grow_pos;
        room = r;
        all = omega arith;
        once = λ q. omega (arith, h.once q, counts q);
        known = (free_known, (last_known.0, h.known.1));
      },
    )
