-- ===== src/BlockAlloc/Grow.antt =====
-- A new chunk of an allocator, and the operations on its blocks.
use svr.Base.{
  ℕ, zero, suc, ◌+◌, ◌*◌, ◌≤◌, ◌<◌, List, [], ◌∷◌, ◌++◌, some, true, false, ltb, ◌==◌, ==_iff, set,
  replicate, length, take, ◌≡◌, ◌≢◌, refl, sym, ap, ◌∙◌, arith, Bool-cases, inl, inr, length-set,
  length-append, length-replicate, dec_lt, get_elem?-set_self, append_assoc, append-nil,
}
use svr.BlockAlloc.{Block, Allocator, store_blocks, add_chunk, alloc, free}
use svr.BlockAlloc.Live.{
  same_block, count, count-append, count-remove, length-remove, remove, InChunks, Holds, take-last,
  take_block-Holds,
}

-- The blocks of a chunk, `n` of them from the `i`th on.
abbrev chunk_blocks : ℕ → ℕ → ℕ → ℕ → List Block
chunk_blocks c s i zero = []
chunk_blocks c s i (suc n) = (c, i * s) ∷ chunk_blocks c s (i + 1) n

take-set : (bs : List Block) (i : ℕ) (v : Block) → take i (set bs i v) ≡ take i bs
take-set [] i v = refl
take-set (x ∷ bs) zero v = refl
take-set (x ∷ bs) (suc i) v = ap (◌∷◌ x) (take-set bs i v)

length-store_blocks : (c s i n : ℕ) (bs : List Block) → length (store_blocks c s i n bs) ≡ length bs
unfolding store_blocks
length-store_blocks c s i zero bs = refl
length-store_blocks c s i (suc n) bs =
    length-store_blocks c s (i + 1) n _ ∙ length-set bs i (c, i * s)

take-store_blocks :
    (c s i n : ℕ) (bs : List Block)
    → i + n ≤ length bs
    → take (i + n) (store_blocks c s i n bs) ≡ take i bs ++ chunk_blocks c s i n
unfolding store_blocks
take-store_blocks c s i zero bs h =
    let e : i + 0 ≡ i = omega arith in rw e (sym (append-nil (take i bs)))
take-store_blocks c s i (suc n) bs h =
    let v : Block = (c, i * s) in
    let e : i + suc n ≡ i + 1 + n = omega arith in
    let f : i + 1 ≡ suc i = omega arith in
    ap (λ (k : ℕ). take k (store_blocks c s (i + 1) n (set bs i v))) e
    ∙ take-store_blocks c s (i + 1) n (set bs i v) (omega (arith, length-set bs i v))
    ∙ ap (λ (xs : List Block). xs ++ chunk_blocks c s (i + 1) n)
        (ap (λ (k : ℕ). take k (set bs i v)) f
          ∙ take-last (set bs i v) i v (get_elem?-set_self bs i v (omega arith))
          ∙ ap (λ (xs : List Block). xs ++ v ∷ []) (take-set bs i v))
    ∙ append_assoc (take i bs) (v ∷ []) (chunk_blocks c s (i + 1) n)

times_suc : (i s : ℕ) → (i + 1) * s ≡ i * s + s
times_suc i s = omega arith

count-below : (p : Block) (c s i n : ℕ) → p.1 < i * s → count p (chunk_blocks c s i n) ≡ 0
count-below p c s i zero h = refl
count-below p c s i (suc n) h =
    let other : same_block (c, i * s) p ≡ false = ground arith in
    rw (other, count-below p c s (i + 1) n (omega (arith, times_suc i s)))

count-chunk : (p : Block) (c s i n : ℕ) → 0 < s → count p (chunk_blocks c s i n) ≤ 1
count-chunk p c s i zero h = omega arith
count-chunk p c s i (suc n) h = elim (Bool-cases (same_block (c, i * s) p)) [
  | inl here ↦
      let at : i * s ≡ p.1 = ground arith in
      rw (here, count-below p c s (i + 1) n (omega (arith, times_suc i s))) (omega arith)
  | inr other ↦ rw other (omega (arith, count-chunk p c s (i + 1) n h))
]

count-other : (p : Block) (c s i n : ℕ) → p.0 ≢ c → count p (chunk_blocks c s i n) ≡ 0
count-other p c s i zero h = refl
count-other p c s i (suc n) h =
    let other : same_block (c, i * s) p ≡ false = ground arith in
    rw (other, count-other p c s (i + 1) n h)

count-InChunks : (p : Block) (n : ℕ) (bs : List Block) → InChunks n bs → n ≤ p.0 → count p bs ≡ 0
count-InChunks p n [] k h = refl
count-InChunks p n (q ∷ bs) k h =
    let below = k.0 in
    let other : same_block q p ≡ false = ground arith in rw (other, count-InChunks p n bs k.1 h)

InChunks-chunk : (c s i n : ℕ) → InChunks (c + 1) (chunk_blocks c s i n)
InChunks-chunk c s i zero = tt
InChunks-chunk c s i (suc n) = (omega arith, InChunks-chunk c s (i + 1) n)

InChunks-le : (m n : ℕ) (bs : List Block) → m ≤ n → InChunks m bs → InChunks n bs
InChunks-le m n [] h k = tt
InChunks-le m n (p ∷ bs) h k = (let l = k.0 in omega arith, InChunks-le m n bs h k.1)

InChunks-join :
    (n : ℕ) (bs : List Block) (p : Block) → InChunks n bs → p.0 < n → InChunks n (bs ++ p ∷ [])
InChunks-join n [] p k h = (h, tt)
InChunks-join n (q ∷ bs) p k h = (k.0, InChunks-join n bs p k.1 h)

InChunks-remove : (p : Block) (n : ℕ) (bs : List Block) → InChunks n bs → InChunks n (remove p bs)
InChunks-remove p n [] k = tt
InChunks-remove p n (q ∷ bs) k = elim (Bool-cases (same_block q p)) [
  | inl here ↦ rw here k.1
  | inr other ↦ rw other (k.0, InChunks-remove p n bs k.1)
]

InChunks-count : (p : Block) (n : ℕ) (bs : List Block) → InChunks n bs → 0 < count p bs → p.0 < n
InChunks-count p n bs k h = elim (dec_lt p.0 n) [
  | yes below ↦ below
  | no above ↦ absurd (omega (arith, count-InChunks p n bs k (omega arith)))
]

-- A new chunk gives its blocks.
add_chunk-Holds :
    (junk : Block) (a : Allocator) (live : List Block)
    → Holds a live
    → a.index ≡ 0
    → Holds (add_chunk junk a) live
unfolding add_chunk
add_chunk-Holds junk a live h empty =
    let r = h.room in
    let c = length a.chunks in
    let roomy = length-append a.blocks (replicate a.grow_size junk) in
    let new_room = length-replicate a.grow_size junk in
    let given =
      take-store_blocks c a.block_size 0 a.grow_size (a.blocks ++ replicate a.grow_size junk)
        (omega arith) in
    let more : length (a.chunks ++ c ∷ []) ≡ c + 1 = length-append a.chunks (c ∷ []) in
    let start : 0 + a.grow_size ≡ a.grow_size = omega arith in
    let part : take a.grow_size
          (store_blocks c a.block_size 0 a.grow_size (a.blocks ++ replicate a.grow_size junk))
        ≡ chunk_blocks c a.block_size 0 a.grow_size =
      ap
        (λ (k : ℕ).
          take k
            (store_blocks c a.block_size 0 a.grow_size (a.blocks ++ replicate a.grow_size junk)))
        (sym start)
      ∙ given in
    record {
      size_pos = h.size_pos;
      grow_pos = h.grow_pos;
      room = omega (
        arith,
        length-store_blocks c a.block_size 0 a.grow_size (a.blocks ++ replicate a.grow_size junk),
      );
      all = let t = h.all in omega arith;
      once = λ p. rw part (elim (Bool-cases (p.0 == c)) [
        | inl here ↦ omega (
          arith,
          count-chunk p c a.block_size 0 a.grow_size h.size_pos,
          count-InChunks p c live h.known.1 (ground arith),
        )
        | inr old ↦
            rw (count-other p c a.block_size 0 a.grow_size (ground arith)) (omega (arith, h.once p))
      ]);
      known = (
        rw (part, more) (InChunks-chunk c a.block_size 0 a.grow_size),
        rw more (InChunks-le c (c + 1) live (omega arith) h.known.1),
      );
    }

-- On an allocator whose blocks are each free or in use, once, `SVR_BlockAlloc_alloc` gives a block that was
-- not in use, and the allocator stays so.
pub alloc-Holds :
    (junk : Block) (a : Allocator) (live : List Block)
    → Holds a live
    → (p : Block) × (a' : Allocator) × (alloc junk a ≡ some (p, a'))
      × (count p live ≡ 0)
      × Holds a' (p ∷ live)
unfolding alloc
alloc-Holds junk a live h = elim (Bool-cases (a.index == 0)) [
  | inl empty ↦ rw empty (
      take_block-Holds (add_chunk junk a) live
        (add_chunk-Holds junk a live h ((==_iff a.index 0).0 empty))
        (unfold add_chunk in h.grow_pos))
  | inr some_ ↦ rw some_ (take_block-Holds a live h (ground arith))
]

-- `SVR_BlockAlloc_free` of a block that has been handed out stays within the table, and makes the
-- block free.
pub free-Holds :
    (a : Allocator) (live : List Block) (p : Block)
    → Holds a live
    → 0 < count p live
    → (a' : Allocator) × (free a p ≡ some a') × Holds a' (remove p live)
unfolding free
free-Holds a live p h out =
    let r = h.room in
    let t = h.all in
    let l = length-remove p live out in
    let inside : ltb a.index (length a.blocks) ≡ true = ground arith in
    let e : a.index + 1 ≡ suc a.index = omega arith in
    let part : take (a.index + 1) (set a.blocks a.index p) ≡ take a.index a.blocks ++ p ∷ [] =
      ap (λ (k : ℕ). take k (set a.blocks a.index p)) e
      ∙ take-last (set a.blocks a.index p) a.index p
          (get_elem?-set_self a.blocks a.index p (ground arith))
      ∙ ap (λ (xs : List Block). xs ++ p ∷ []) (take-set a.blocks a.index p) in
    (
      record a { blocks = set a.blocks a.index p; index = a.index + 1 },
      rw inside,
      record {
        size_pos = h.size_pos;
        grow_pos = h.grow_pos;
        room = length-set a.blocks a.index p ∙ r;
        all = omega arith;
        once = λ q. rw part (
            omega (
              arith,
              h.once q,
              count-append q (take a.index a.blocks) (p ∷ []),
              count-remove p q live out,
            ));
        known = (
          rw part (
              InChunks-join (length a.chunks) (take a.index a.blocks) p h.known.0
                (InChunks-count p (length a.chunks) live h.known.1 out)),
          InChunks-remove p (length a.chunks) live h.known.1,
        );
      },
    )
