-- ===== src/Encoder/Copies.antt =====
-- The `memcpy`s of `SVR_Encoder_provideData`: one, or two round the end of the buffer.
use svr.Base.{ℕ, ◌+◌, ◌-◌, ◌%◌, ◌≤◌, ◌<◌, ◌++◌, Bytes, length, ◌≡◌, arith, some, take, drop, store}
use svr.Encoder.{Encoder, copy_in, write_in, u32}
use svr.Encoder.Holds.{Holds}

abbrev pub Writes : Encoder → Bytes → Bytes → Type 0
Writes e q bs =
    (e' : Encoder) × (write_in e bs ≡ some e')
    × Holds e' (q ++ bs)
    × (e'.buffer_size ≡ e.buffer_size)

pub write_in_lem :
    (e : Encoder) (bs p : Bytes) (i : ℕ)
    → copy_in e bs (e.buffer_size - e.write_index) ≡ some p
    → u32 ((e.write_index + length bs) % e.buffer_size) ≡ i
    → write_in e bs ≡ some (record e { buffer = p; write_index = i })
unfolding write_in
write_in_lem e bs p i c h = rw (c, h)

-- One `memcpy`.
pub copy_once :
    (e : Encoder) (bs : Bytes) (end_space : ℕ)
    → length bs ≤ end_space
    → copy_in e bs end_space ≡ store e.buffer e.write_index bs
unfolding copy_in
copy_once e bs end_space h = ground arith

-- Two, the second to the start of the buffer.
pub copy_twice :
    (e : Encoder) (bs p q : Bytes) (end_space : ℕ)
    → end_space < length bs
    → store e.buffer e.write_index (take end_space bs) ≡ some p
    → store p 0 (drop end_space bs) ≡ some q
    → copy_in e bs end_space ≡ some q
unfolding copy_in
copy_twice e bs p q end_space h s t = ground arith
