-- ===== src/RefCount.antt =====
-- lib/refcount.c: reference counters, and the queue of objects that the collector cleans up. A counter
-- stands for its object, and `SVR_LOCK` of the counter makes an operation one step. NULL in the queue, the
-- end of the collector, is `none`.
pub mod Last
use svr.BlockAlloc.{Allocator, Freed, free_allocator}
use svr.Base.{
  Bool, ℕ, ◌+◌, ◌-◌, ◌%◌, ◌^◌, List, [], ◌∷◌, ◌++◌, Option, none, some, ◌==◌, if◌then◌else◌,
}

-- `SVR_RefCounter`, a `uint32_t` count.
pub record RefCounter : Type 0 where
  pub ref_count : ℕ
  pub object : ℕ

abbrev pub Queue : Type 0
Queue = List (Option ℕ)

-- `SVR_RefCounter_new`
abbrev pub new : ℕ → RefCounter
new object = record { ref_count = 1; object = object }

-- `SVR_RefCounter_ref`
unfoldable pub ref : RefCounter → RefCounter
ref c = record c { ref_count = (c.ref_count + 1) % 2 ^ 32 }

-- `SVR_RefCounter_unref`
abbrev pub queue_if : Queue → RefCounter → Queue
queue_if q c = if c.ref_count == 0 then q ++ some c.object ∷ [] else q

unfoldable pub unref : Queue → RefCounter → Queue × RefCounter
unref q c =
    let dropped = record c { ref_count = (c.ref_count + 2 ^ 32 - 1) % 2 ^ 32 } in
    (queue_if q dropped, dropped)

-- `SVR_RefCounter_garbageCollector`: the objects that are cleaned up, and what is left in the queue.
unfoldable pub collect : Queue → List ℕ × Queue
collect [] = ([], [])
collect (none ∷ q) = ([], q)
collect (some object ∷ q) = let rest = collect q in (object ∷ rest.0, rest.1)

-- `SVR_RefCounter_close`: the end of the collector, and what becomes of the memory of the counters,
-- those in the queue included.
unfoldable pub close : Queue → Allocator → (ℕ → Bool) → Queue × Freed
close q counters allocated = (q ++ none ∷ [], free_allocator counters allocated)
