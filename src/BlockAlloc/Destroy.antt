-- ===== src/BlockAlloc/Destroy.antt =====
-- `SVR_BlockAlloc_freeAllocator`.
use svr.Base.{
  ℕ, suc, ◌+◌, List, [], ◌∷◌, Bool, true, ◌==◌, ==_iff, length, Bool-cases, inl, inr, arith, ◌≡◌,
  ◌≢◌, refl,
}
use svr.BlockAlloc.{Allocator, double_free, free_chunks, free_allocator}

free_chunks-twice :
    (fuel chunk : ℕ) (chunks : List ℕ) (allocated : ℕ → Bool)
    → free_chunks (suc (suc fuel)) (chunk ∷ chunks) allocated ≡ double_free
unfolding free_chunks
free_chunks-twice fuel chunk chunks allocated =
    let again : (chunk == chunk) ≡ true = (==_iff chunk chunk).1 refl in
    elim (Bool-cases (allocated chunk)) [ inl first ↦ rw (first, again) | inr gone ↦ rw gone ]

-- An allocator that has a chunk cannot be freed, whatever is allocated: the loop does not take a chunk off the list, so
-- it frees the first one twice.
pub free_allocator-double_free :
    (a : Allocator) (allocated : ℕ → Bool)
    → a.chunks ≢ []
    → free_allocator a allocated ≡ double_free
unfolding free_allocator
free_allocator-double_free a allocated h = first_chunk a.chunks h
  where
    first_chunk :
        (chunks : List ℕ)
        → chunks ≢ []
        → free_chunks (length chunks + 1) chunks allocated ≡ double_free
    first_chunk [] n = absurd (n refl)
    first_chunk (c ∷ cs) n =
        let fuel : length (c ∷ cs) + 1 ≡ suc (suc (length cs)) = omega arith in
        rw fuel (free_chunks-twice (length cs) c cs allocated)
