-- ===== src/BlockAlloc.antt =====
-- lib/blockalloc.c: allocators of blocks of one size. A block is the number of its chunk, in the
-- order of their allocation, and its offset in the chunk. Memory never runs out.
pub mod Live
pub mod Grow
pub mod Run
pub mod Destroy
use svr.Base.{
  ℕ, zero, suc, ◌+◌, ◌-◌, ◌*◌, List, [], ◌∷◌, ◌++◌, Option, none, some, Bool, true, false, ltb,
  ◌==◌, if◌then◌else◌, ◌&&◌, ◌>>=◌, get_elem?, set, replicate, length,
}

abbrev pub Block : Type 0
Block = ℕ × ℕ

-- `SVR_BlockAllocator`. The first `index` entries of `blocks` are free.
pub record Allocator : Type 0 where
  pub block_size : ℕ
  pub grow_size : ℕ
  pub num_blocks : ℕ
  pub index : ℕ
  pub chunks : List ℕ
  pub blocks : List Block

-- `SVR_BlockAlloc_newAllocator`
unfoldable pub new : ℕ → ℕ → Allocator
new block_size grow_size = record {
  block_size = block_size;
  grow_size = grow_size;
  num_blocks = 0;
  index = 0;
  chunks = [];
  blocks = [];
}

-- The loop that stores the addresses of the blocks of a chunk, `n` of them from the `i`th on.
unfoldable pub store_blocks : ℕ → ℕ → ℕ → ℕ → List Block → List Block
store_blocks chunk size i zero blocks = blocks
store_blocks chunk size i (suc n) blocks =
    store_blocks chunk size (i + 1) n (set blocks i (chunk, i * size))

-- The new chunk in `SVR_BlockAlloc_alloc`. `junk` is what `realloc` leaves in new memory.
unfoldable pub add_chunk : Block → Allocator → Allocator
add_chunk junk a = record a {
  num_blocks = a.num_blocks + a.grow_size;
  index = a.grow_size;
  blocks =
      store_blocks (length a.chunks) a.block_size 0 a.grow_size
        (a.blocks ++ replicate a.grow_size junk);
  chunks = a.chunks ++ length a.chunks ∷ [];
}

-- The end of `SVR_BlockAlloc_alloc`: an `index` of 0 would wrap, and be outside `blocks`.
unfoldable pub take_block : Allocator → Option (Block × Allocator)
take_block a =
    if a.index == 0
    then none
    else (do p ← get_elem? a.blocks (a.index - 1); some (p, record a { index = a.index - 1 }))

-- `SVR_BlockAlloc_alloc`
unfoldable pub alloc : Block → Allocator → Option (Block × Allocator)
alloc junk a = take_block (if a.index == 0 then add_chunk junk a else a)

-- `SVR_BlockAlloc_free`; a store outside `blocks` is a fault.
unfoldable pub free : Allocator → Block → Option Allocator
free a p =
    if ltb a.index (length a.blocks)
    then some (record a { blocks = set a.blocks a.index p; index = a.index + 1 })
    else none

-- `SVR_BlockAlloc_getSharedAllocator`: the place of the allocator in the list, and the list.
unfoldable pub find_shared : List Allocator → ℕ → ℕ → Option ℕ
find_shared [] block_size i = none
find_shared (a ∷ shared) block_size i =
    let more = find_shared shared block_size (i + 1) in
    if a.block_size == block_size then some i else more

abbrev pub or_append : List Allocator → ℕ → Option ℕ → ℕ × List Allocator
or_append shared block_size (some i) = (i, shared)
or_append shared block_size none = (length shared, shared ++ new block_size 4 ∷ [])

unfoldable pub get_shared_allocator : List Allocator → ℕ → ℕ × List Allocator
get_shared_allocator shared block_size =
    or_append shared block_size (find_shared shared block_size 0)

-- `SVR_BlockAlloc_freeAllocator`: the loop over the chunks, with the chunks that are still allocated.
-- `free` of a chunk that is not is a fault. `looping` would be a loop that has not ended.
pub data Freed : Type 0 where
  freed : (ℕ → Bool) → Freed
  double_free : Freed
  looping : Freed

unfoldable pub free_chunks : ℕ → List ℕ → (ℕ → Bool) → Freed
free_chunks fuel [] allocated = freed allocated
free_chunks zero (chunk ∷ chunks) allocated = looping
free_chunks (suc fuel) (chunk ∷ chunks) allocated =
    let more = free_chunks fuel (chunk ∷ chunks) (λ c. if c == chunk then false else allocated c) in
    if allocated chunk then more else double_free

unfoldable pub free_allocator : Allocator → (ℕ → Bool) → Freed
free_allocator a allocated = free_chunks (length a.chunks + 1) a.chunks allocated
