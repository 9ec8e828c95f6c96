-- ===== src/Arena/Pieces.antt =====
-- The pieces of an arena.
use svr.Base.{
  ℕ, zero, suc, ◌+◌, ◌%◌, ◌≤◌, List, [], ◌∷◌, ◌++◌, some, ltb, get_elem?, set, length, Bytes, store,
  load, take, drop, ◌≡◌, ◌≢◌, refl, sym, ap, ◌∙◌, subst, arith, Bool-cases, inl, inr,
  get_elem?-set_self, get_elem?-set_ne, get_elem?-lt, load-store_before, length-store, store_lem,
  drop-store, load_lem, ℕ_discrete,
}
use svr.Arena.{
  Chunk, alignment, align, new_chunk, alloc_block, alloc_external, move_index, reserve_in, reserve,
  write,
}

module _ (fresh : ℕ → Bytes) (block_size : ℕ) (length-fresh : (n : ℕ) → length (fresh n) ≡ n) where
  -- What has been handed out of a chunk lies in it, aligned, and it is at least a block.
  pub record Fits (c : Chunk) : Type 0 where
    pub inside : c.write_index ≤ length c.memory
    pub aligned : c.write_index % alignment ≡ 0
    pub whole : block_size ≤ length c.memory

  abbrev pub IsArena : List Chunk → Type 0
  IsArena [] = ⊥
  IsArena (c ∷ []) = Fits c
  IsArena (c ∷ d ∷ cs) = Fits c × IsArena (d ∷ cs)

  -- The bytes at a place that has been handed out.
  pub record Has (arena : List Chunk) (place : ℕ × ℕ) (bs : Bytes) : Type 0 where
    pub chunk : Chunk
    pub at : get_elem? arena place.0 ≡ some chunk
    pub reserved : place.1 + length bs ≤ chunk.write_index
    pub stored : load chunk.memory place.1 (length bs) ≡ some bs

  -- A piece of `size` bytes that is reserved: it lies in its chunk behind all that was reserved there,
  -- and the other chunks are as they were.
  pub record Reserved (size : ℕ) (before : List Chunk) (place : ℕ × ℕ) (after : List Chunk)
      : Type 0 where
    pub chunk : Chunk
    pub at : get_elem? after place.0 ≡ some chunk
    pub end_at : chunk.write_index ≡ place.1 + size
    pub aligned : place.1 % alignment ≡ 0
    pub valid : IsArena after
    pub same_chunk :
        (c : Chunk)
        → get_elem? before place.0 ≡ some c
        → (chunk.memory ≡ c.memory) × (c.write_index ≤ place.1)
    pub others :
        (k : ℕ) (c : Chunk) → get_elem? before k ≡ some c → k ≢ place.0 → get_elem? after k ≡ some c

  align-even : (n : ℕ) → (align n % 2 ≡ 0) × (n ≤ align n)
  align-even n = (ground arith, ground arith)

  new_chunk-Fits :
      (size : ℕ) → size % 2 ≡ 0 → Fits (move_index size (new_chunk fresh block_size size))
  unfolding alloc_block alloc_external
  new_chunk-Fits size even = elim (Bool-cases (ltb block_size size)) [
    | inl big ↦ rw big (record {
      inside = omega (arith, length-fresh size);
      aligned = omega arith;
      whole = ground (arith, length-fresh size);
    })
    | inr small ↦ rw small (record {
      inside = ground (arith, length-fresh block_size);
      aligned = omega arith;
      whole = omega (arith, length-fresh block_size);
    })
  ]

  new_chunk-empty : (size : ℕ) → (new_chunk fresh block_size size).write_index ≡ 0
  unfolding alloc_block alloc_external
  new_chunk-empty size = ground arith

  IsArena-cons : (c : Chunk) (cs : List Chunk) → Fits c → IsArena cs → IsArena (c ∷ cs)
  IsArena-cons c [] f a = absurd a
  IsArena-cons c (d ∷ cs) f a = (f, a)

  reserve_in-Reserved :
      (size : ℕ) (c : Chunk) (cs : List Chunk)
      → size % 2 ≡ 0
      → IsArena (c ∷ cs)
      → Reserved size
          (c ∷ cs)
          (reserve_in fresh block_size size c cs).0
          (reserve_in fresh block_size size c cs).1
  unfolding reserve_in
  reserve_in-Reserved size c [] even a = record {
    chunk = move_index size (new_chunk fresh block_size size);
    at = refl;
    end_at = ap (λ (n : ℕ). n + size) (new_chunk-empty size);
    aligned = refl;
    valid = (a, new_chunk-Fits size even);
    same_chunk = λ e h. absurd (ground arith);
    others = λ k e h n. one_chunk k e h;
  }
    where
      one_chunk :
          (k : ℕ) (e : Chunk)
          → get_elem? (c ∷ []) k ≡ some e
          → get_elem? (c ∷ move_index size (new_chunk fresh block_size size) ∷ []) k ≡ some e
      one_chunk zero e h = h
      one_chunk (suc k) e h = absurd (ground arith)
  reserve_in-Reserved size c (d ∷ cs) even a =
      elim (Bool-cases (ltb (c.write_index + size) block_size)) [
        | inl found ↦ rw found (record {
          chunk = move_index size c;
          at = refl;
          end_at = refl;
          aligned = a.0.aligned;
          valid = (
            record {
              inside = let w = a.0.whole in ground arith;
              aligned = let e = a.0.aligned in omega arith;
              whole = a.0.whole;
            },
            a.1,
          );
          same_chunk = λ e h. let is : c ≡ e = cc in (rw (← is), rw (← is) (omega arith));
          others = first_moved;
        })
        | inr further ↦
            let r = reserve_in-Reserved size d cs even a.1 in
            rw further (record {
              chunk = r.chunk;
              at = r.at;
              end_at = r.end_at;
              aligned = r.aligned;
              valid = IsArena-cons c _ a.0 r.valid;
              same_chunk = r.same_chunk;
              others = first_kept r;
            })
      ]
    where
      first_moved :
          (k : ℕ) (e : Chunk)
          → get_elem? (c ∷ d ∷ cs) k ≡ some e
          → k ≢ 0
          → get_elem? (move_index size c ∷ d ∷ cs) k ≡ some e
      first_moved zero e h n = absurd (n refl)
      first_moved (suc k) e h n = h

      first_kept :
          Reserved size
            (d ∷ cs)
            (reserve_in fresh block_size size d cs).0
            (reserve_in fresh block_size size d cs).1
          → (k : ℕ) (e : Chunk) → get_elem? (c ∷ d ∷ cs) k ≡ some e
          → k ≢ suc (reserve_in fresh block_size size d cs).0.0
          → get_elem? (c ∷ (reserve_in fresh block_size size d cs).1) k ≡ some e
      first_kept r zero e h n = h
      first_kept r (suc k) e h n = r.others k e h (λ q. n (ap suc q))

  Fits-at :
      (arena : List Chunk) (k : ℕ) (c : Chunk) → IsArena arena → get_elem? arena k ≡ some c → Fits c
  Fits-at [] k c a h = absurd a
  Fits-at (d ∷ []) zero c a h = let is : d ≡ c = cc in subst Fits is a
  Fits-at (d ∷ []) (suc k) c a h = absurd (ground arith)
  Fits-at (d ∷ e ∷ cs) zero c a h = let is : d ≡ c = cc in subst Fits is a.0
  Fits-at (d ∷ e ∷ cs) (suc k) c a h = Fits-at (e ∷ cs) k c a.1 h

  IsArena-set :
      (arena : List Chunk) (k : ℕ) (c : Chunk) → IsArena arena → Fits c → IsArena (set arena k c)
  IsArena-set [] k c a f = absurd a
  IsArena-set (d ∷ []) zero c a f = f
  IsArena-set (d ∷ []) (suc k) c a f = a
  IsArena-set (d ∷ e ∷ cs) zero c a f = (f, a.1)
  IsArena-set (d ∷ e ∷ cs) (suc k) c a f =
      IsArena-cons d (set (e ∷ cs) k c) a.0 (IsArena-set (e ∷ cs) k c a.1 f)

  -- The bytes that are stored into a piece that has been reserved, and all that was stored before.
  fill :
      (arena : List Chunk) (place : ℕ × ℕ) (after : List Chunk) (bs m : Bytes)
      → (r : Reserved (align (length bs)) arena place after)
      → store r.chunk.memory place.1 bs ≡ some m
      → (place' : ℕ × ℕ) (old : Bytes) → Has arena place' old
      → Has (set after place.0 (record r.chunk { memory = m })) place' old
  fill arena place after bs m r stored place' old h = elim (ℕ_discrete place'.0 place.0) [
    | yes same ↦
        let (memory, behind) =
          r.same_chunk h.chunk (subst (λ k. get_elem? arena k ≡ some h.chunk) same h.at) in
        let low = h.reserved in
        let index = r.end_at in
        record {
          chunk = record r.chunk { memory = m };
          at =
              subst
                (λ k.
                  get_elem? (set after place.0 (record r.chunk { memory = m })) k
                  ≡ some (record r.chunk { memory = m }))
                (sym same)
                (get_elem?-set_self after place.0 _ (get_elem?-lt after place.0 r.chunk r.at));
          reserved = omega arith;
          stored =
              load-store_before r.chunk.memory place'.1 (length old) place.1 bs (omega arith) stored
              ∙ ap (λ (p : Bytes). load p place'.1 (length old)) memory
              ∙ h.stored;
        }
    | no other ↦ record {
      chunk = h.chunk;
      at = get_elem?-set_ne after _ (λ e. other (sym e)) ∙ r.others place'.0 h.chunk h.at other;
      reserved = h.reserved;
      stored = h.stored;
    }
  ]

  -- On an arena whose chunks are at least a block and hold what has been handed out of them, `SVR_Arena_write`
  -- succeeds, and the arena stays so: the bytes are in the arena at the place that is returned, on an aligned
  -- offset, and all that was in the arena before is still there.
  pub write-Has :
      (arena : List Chunk) (bs : Bytes)
      → IsArena arena
      → (place : ℕ × ℕ) × (after : List Chunk) × (write fresh block_size arena bs
          ≡ some (place, after))
        × IsArena after
        × Has after place bs
        × (place.1 % alignment ≡ 0)
        × ((place' : ℕ × ℕ) (old : Bytes) → Has arena place' old → Has after place' old)
  unfolding write reserve
  write-Has [] bs a = absurd a
  write-Has (c ∷ cs) bs a =
      let (even, le) = align-even (length bs) in
      let r = reserve_in-Reserved (align (length bs)) c cs even a in
      let place : ℕ × ℕ = (reserve_in fresh block_size (align (length bs)) c cs).0 in
      let after : List Chunk = (reserve_in fresh block_size (align (length bs)) c cs).1 in
      let fits = Fits-at after place.0 r.chunk r.valid r.at in
      let inside = fits.inside in
      let index = r.end_at in
      let lies : place.1 + length bs ≤ length r.chunk.memory = omega arith in
      let m : Bytes =
        take place.1 r.chunk.memory ++ (bs ++ drop (place.1 + length bs) r.chunk.memory) in
      let stored : store r.chunk.memory place.1 bs ≡ some m =
        store_lem r.chunk.memory place.1 bs lies in
      let same_length : length m ≡ length r.chunk.memory =
        length-store r.chunk.memory place.1 bs stored in
      (
        place,
        set after place.0 (record r.chunk { memory = m }),
        rw (r.at, stored),
        IsArena-set after place.0 (record r.chunk { memory = m }) r.valid
            (record {
              inside = omega arith;
              aligned = fits.aligned;
              whole = let w = fits.whole in omega arith;
            }),
        record {
          chunk = record r.chunk { memory = m };
          at = get_elem?-set_self after place.0 _ (get_elem?-lt after place.0 r.chunk r.at);
          reserved = omega arith;
          stored = load_lem m place.1 bs _ (drop-store r.chunk.memory place.1 bs lies stored);
        },
        r.aligned,
        fill (c ∷ cs) place after bs m r stored,
      )
