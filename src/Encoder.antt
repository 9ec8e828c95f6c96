-- ===== src/Encoder.antt =====
-- The encoder half of lib/encoding.c: a growing ring buffer of encoded bytes. `SVR_LOCK` makes
-- each operation one step. The indices are `unsigned int`; the sizes are `size_t` sums.
-- `fresh n` stands for the content of `n` new bytes from `realloc`.
pub mod Holds
pub mod Read
pub mod Copies
pub mod Linear
pub mod Write
pub mod Provide
pub mod Refine
pub mod Chunks
use svr.Base.{
  ℕ, ◌+◌, ◌-◌, ◌%◌, ◌^◌, List, [], ◌++◌, Option, some, Bytes, length, ◌>>=◌, take, drop, ltb, leb,
  if◌then◌else◌, min, store, load,
}

-- `SVR_Encoder`, less the encoding and its private data. `buffer` is [] for NULL.
pub record Encoder : Type 0 where
  pub buffer : Bytes
  pub read_index : ℕ
  pub write_index : ℕ
  pub buffer_size : ℕ

abbrev pub u32 : ℕ → ℕ
u32 n = n % 2 ^ 32

-- `SVR_Encoder_new`
abbrev pub new : Encoder
new = record { buffer = []; read_index = 0; write_index = 0; buffer_size = 1 }

-- `SVR_Encoder_dataReady`
unfoldable pub data_ready : Encoder → ℕ
data_ready e =
    if leb e.read_index e.write_index
    then e.write_index - e.read_index
    else (e.buffer_size - e.read_index) + e.write_index

abbrev pub read_chunks : Encoder → ℕ → ℕ → Option (Bytes × Encoder)
read_chunks e read_size first_chunk = do
  front ← load e.buffer e.read_index first_chunk
  back ← load e.buffer 0 (read_size - first_chunk)
  some (front ++ back, record e { read_index = u32 ((e.read_index + read_size) % e.buffer_size) })

-- `SVR_Encoder_readData` into a buffer of `n` bytes: the bytes stored there, and the encoder.
unfoldable pub read_data : Encoder → ℕ → Option (Bytes × Encoder)
read_data e n =
    let read_size = min (data_ready e) n in
    read_chunks e read_size (min read_size (e.buffer_size - e.read_index))

module _ (fresh : ℕ → Bytes) where
  unfoldable pub realloc : Bytes → ℕ → Bytes
  realloc p n = if leb (length p) n then p ++ fresh (n - length p) else take n p

  -- The growing of the buffer in `SVR_Encoder_provideData`.
  unfoldable pub grow : Encoder → ℕ → ℕ → Option Encoder
  grow e used n =
      if ltb e.write_index e.read_index
      then (do
        temp ← read_data e used
        p ← store (realloc e.buffer (used + n + 1)) 0 temp.0
        some (record temp.1 {
          buffer = p;
          read_index = 0;
          write_index = u32 used;
          buffer_size = used + n + 1;
        }))
      else some (record e { buffer = realloc e.buffer (used + n + 1); buffer_size = used + n + 1 })

-- The `memcpy`s of `SVR_Encoder_provideData`.
unfoldable pub copy_in : Encoder → Bytes → ℕ → Option Bytes
copy_in e bs end_space =
    if leb (length bs) end_space
    then store e.buffer e.write_index bs
    else (do p ← store e.buffer e.write_index (take end_space bs); store p 0 (drop end_space bs))

unfoldable pub write_in : Encoder → Bytes → Option Encoder
write_in e bs = do
  p ← copy_in e bs (e.buffer_size - e.write_index)
  some (record e { buffer = p; write_index = u32 ((e.write_index + length bs) % e.buffer_size) })

-- `SVR_Encoder_provideData` of `n = length bs` bytes.
unfoldable pub provide_data : (ℕ → Bytes) → Encoder → Bytes → Option Encoder
provide_data fresh e bs = do
  roomy ←
      if leb (e.buffer_size - data_ready e) (length bs)
      then grow fresh e (data_ready e) (length bs)
      else some e
  write_in roomy bs
