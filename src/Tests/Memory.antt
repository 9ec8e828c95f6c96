-- ===== src/Tests/Memory.antt =====
-- Response sets, blocks and arenas.
use svr.Base.{ℕ, [], ◌∷◌, ◌%◌, ◌≤◌, List, none, some, Bytes, true, ◌≡◌, refl, arith}
use svr.ResponseSet.{ResponseSet, Requested, get_request_id}
use svr.ResponseSet
use svr.ResponseSet.Ids.{Outcome, new-IsValid, get_request_id-Outcome}
use svr.BlockAlloc.{Block, Allocator, free_allocator, double_free}
use svr.BlockAlloc.Destroy.{free_allocator-double_free}
use svr.BlockAlloc
use svr.BlockAlloc.Live.{Holds, count}
use svr.BlockAlloc.Run.{take, release, run, run_unique}
use svr.RefCount.{Queue, collect}
use svr.RefCount
use svr.RefCount.Last
use svr.RefCount.Last.{collect-run}
use svr.Arena.{Chunk, alignment, write}
use svr.Arena.Pieces.{IsArena, Has, write-Has}
use svr.Tests.Frames.{nines, length-nines}

abbrev fresh_set : ResponseSet ℕ
fresh_set = ResponseSet.new 65535

get_request_id-Outcome_example :
    (r : Requested ℕ) × (get_request_id none fresh_set ≡ some r) × Outcome fresh_set r
get_request_id-Outcome_example = get_request_id-Outcome none fresh_set (new-IsValid 65535)

run_unique_example :
    (a : Allocator) × (live : List Block) × (run
        (0, 0)
        (take ∷ take ∷ release 1 ∷ take ∷ release 5 ∷ [])
        (BlockAlloc.new 8 2)
        []
      ≡ some (a, live))
    × Holds a live
    × ((p : Block) → count p live ≤ 1)
run_unique_example =
    run_unique (0, 0) 8 2 (take ∷ take ∷ release 1 ∷ take ∷ release 5 ∷ []) (omega arith)
      (omega arith)

abbrev used : Allocator
used = record {
  block_size = 8;
  grow_size = 2;
  num_blocks = 2;
  index = 1;
  chunks = 5 ∷ [];
  blocks = (5, 0) ∷ (5, 1) ∷ [];
}

free_allocator-double_free_example : free_allocator used (λ chunk. true) ≡ double_free
free_allocator-double_free_example =
    free_allocator-double_free used (λ chunk. true) (λ e. absurd (ground arith))

collect-run_example :
    (q : Queue) × (Last.run
        (Last.take ∷ Last.drop_ ∷ Last.drop_ ∷ [])
        (some 4 ∷ [])
        (RefCount.new 7)
      ≡ (q, record { ref_count = 0; object = 7 }))
    × (collect q ≡ (4 ∷ 7 ∷ [], []))
collect-run_example =
    collect-run (Last.take ∷ Last.drop_ ∷ Last.drop_ ∷ []) (4 ∷ []) 7
      (omega arith, omega arith, (omega arith, (omega arith, tt)))

-- A chunk of 16 bytes, of which four are in use.
abbrev begun : List Chunk
begun = record { memory = nines 16; write_index = 4; is_block = true } ∷ []

begun-IsArena : IsArena nines 16 length-nines begun
begun-IsArena = record { inside = omega arith; aligned = refl; whole = omega arith }

write-Has_example :
    (place : ℕ × ℕ) × (after : List Chunk) × (write nines 16 begun (b'a' ∷ b'b' ∷ b'c' ∷ [])
      ≡ some (place, after))
    × IsArena nines 16 length-nines after
    × Has nines 16 length-nines after place (b'a' ∷ b'b' ∷ b'c' ∷ [])
    × (place.1 % alignment ≡ 0)
    × ((place' : ℕ × ℕ) (old : Bytes)
        → Has nines 16 length-nines begun place' old
        → Has nines 16 length-nines after place' old)
write-Has_example = write-Has nines 16 length-nines begun (b'a' ∷ b'b' ∷ b'c' ∷ []) begun-IsArena
