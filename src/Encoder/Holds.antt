-- ===== src/Encoder/Holds.antt =====
-- When an encoder holds a queue of bytes: the invariant of the ring buffer and its meaning at once.
use svr.Base.{◌+◌, ◌≤◌, ◌<◌, ◌^◌, [], ◌++◌, Bytes, length, ◌≡◌, refl, arith, length-append}
use svr.Encoder.{Encoder, new, data_ready}

-- No buffer yet; the unread bytes in one piece; or in two, from the read index to the end and on
-- from the start. At least one byte is always free.
pub data Holds (e : Encoder) (q : Bytes) : Type 0 where
  unallocated :
      e.buffer ≡ [] → e.read_index ≡ 0 → e.write_index ≡ 0 → e.buffer_size ≡ 1 → q ≡ [] → Holds e q
  linear :
      (pre post : Bytes)
      → e.buffer ≡ pre ++ (q ++ post)
      → e.read_index ≡ length pre
      → e.write_index ≡ length pre + length q
      → e.buffer_size ≡ length pre + length q + length post
      → 0 < length post
      → e.buffer_size ≤ 2 ^ 32
      → Holds e q
  wrapped :
      (hi gap lo : Bytes)
      → e.buffer ≡ hi ++ (gap ++ lo)
      → e.write_index ≡ length hi
      → e.read_index ≡ length hi + length gap
      → e.buffer_size ≡ length hi + length gap + length lo
      → q ≡ lo ++ hi
      → 0 < length gap
      → 0 < length lo
      → e.buffer_size ≤ 2 ^ 32
      → Holds e q

pub new-Holds : Holds new []
new-Holds = unallocated refl refl refl refl refl

-- `SVR_Encoder_dataReady` is the number of unread bytes.
pub data_ready-length : (e : Encoder) (q : Bytes) → Holds e q → data_ready e ≡ length q
unfolding data_ready
data_ready-length e q (unallocated b r w s h) = rw h (ground arith)
data_ready-length e q (linear pre post b r w s p m) = ground arith
data_ready-length e q (wrapped hi gap lo b w r s h g l m) =
    rw h (ground (arith, length-append lo hi))

-- The number of free bytes is positive.
pub length-lt-size : (e : Encoder) (q : Bytes) → Holds e q → length q < e.buffer_size
length-lt-size e q (unallocated b r w s h) = rw h (omega arith)
length-lt-size e q (linear pre post b r w s p m) = omega arith
length-lt-size e q (wrapped hi gap lo b w r s h g l m) = rw h (omega (arith, length-append lo hi))
