-- ===== src/Arena.antt =====
-- lib/mempool.c: arenas, which hand out memory of a message piece by piece. An arena is the list of
-- its chunks; a pointer into it is the number of the chunk and the offset there. `fresh n` stands for
-- `n` bytes of memory as `malloc` or the block allocator gives them.
pub mod Pieces
use svr.Base.{
  ℕ, zero, suc, ◌+◌, ◌-◌, ◌%◌, List, [], ◌∷◌, ◌++◌, Option, none, some, Bool, true, false, ltb,
  if◌then◌else◌, ◌>>=◌, get_elem?, set, length, Bytes, store,
}

-- `SVR_Arena`: the memory at `base`. A chunk that is not a block comes from `malloc`.
pub record Chunk : Type 0 where
  pub memory : Bytes
  pub write_index : ℕ
  pub is_block : Bool

-- ALLOC_ALIGNMENT, and the rounding of a size to it.
abbrev pub alignment : ℕ
alignment = 2

abbrev pub align : ℕ → ℕ
align size = if ltb 0 (size % alignment) then size + (alignment - size % alignment) else size

abbrev pub move_index : ℕ → Chunk → Chunk
move_index size c = record c { write_index = c.write_index + size }

module _ (fresh : ℕ → Bytes) (block_size : ℕ) where
  -- `SVR_Arena_alloc` and `SVR_Arena_allocExternal`
  unfoldable pub alloc_block : Chunk
  alloc_block = record { memory = fresh block_size; write_index = 0; is_block = true }

  unfoldable pub alloc_external : ℕ → Chunk
  alloc_external size = record { memory = fresh size; write_index = 0; is_block = false }

  abbrev pub new_chunk : ℕ → Chunk
  new_chunk size = if ltb block_size size then alloc_external size else alloc_block

  -- The loop of `SVR_Arena_reserve` and what follows it, for a size that has been rounded. The last
  -- chunk is not looked at.
  unfoldable pub reserve_in : ℕ → Chunk → List Chunk → (ℕ × ℕ) × List Chunk
  reserve_in size c [] = ((1, 0), c ∷ move_index size (new_chunk size) ∷ [])
  reserve_in size c (d ∷ cs) =
      let rest = reserve_in size d cs in
      if ltb (c.write_index + size) block_size
      then ((0, c.write_index), move_index size c ∷ d ∷ cs)
      else ((suc rest.0.0, rest.0.1), c ∷ rest.1)

  -- `SVR_Arena_reserve`
  unfoldable pub reserve : List Chunk → ℕ → Option ((ℕ × ℕ) × List Chunk)
  reserve [] size = none
  reserve (c ∷ cs) size = some (reserve_in (align size) c cs)

  -- `SVR_Arena_write`
  unfoldable pub write : List Chunk → Bytes → Option ((ℕ × ℕ) × List Chunk)
  write arena bs = do
    r ← reserve arena (length bs)
    c ← get_elem? r.1 r.0.0
    m ← store c.memory r.0.1 bs
    some (r.0, set r.1 r.0.0 (record c { memory = m }))

  -- `SVR_Arena_strdup`, and `SVR_Arena_sprintf` of a text that has been formatted.
  unfoldable pub strdup : List Chunk → Bytes → Option ((ℕ × ℕ) × List Chunk)
  strdup arena s = write arena (s ++ 0 ∷ [])

-- `SVR_Arena_free`: the chunks in the order in which they are given back.
unfoldable pub free : List Chunk → List Chunk
free [] = []
free (c ∷ cs) = free cs ++ c ∷ []
