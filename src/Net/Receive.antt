-- ===== src/Net/Receive.antt =====
-- The receive loop of lib/net.c, against every list of answers of the kernel.
use svr.Base.{
  ℕ, ◌+◌, ◌-◌, ◌≤◌, ◌<◌, List, [], ◌∷◌, ◌++◌, Bytes, length, ◌≡◌, refl, sym, subst, ap, ◌∙◌, arith,
  take, drop, take-append-drop, append_assoc, append-nil, ltb, Bool-cases, inl, inr, length-take,
  true, false, ◌==◌, Bool, take-append_left, length-append,
}
use svr.Net.{
  Answer, failed, moved, Outcome, returned, error, blocked, recv_all, recv_size, after_recv,
  prepend,
}

-- How a loop that was to receive `n` more bytes out of `incoming` ends: if it returns, it has them,
-- and what is still to come is the rest.
pub record Received (n : ℕ) (incoming : Bytes) (out : Outcome Bytes × Bytes) : Type 0 where
  pub bytes :
      (bs : Bytes) (left : List Answer)
      → out.0 ≡ returned bs left
      → (length bs ≡ n) × (incoming ≡ bs ++ out.1)

prepend-Received :
    (n k : ℕ) (incoming : Bytes) (out : Outcome Bytes × Bytes)
    → k ≤ n
    → k ≤ length incoming
    → Received (n - k) (drop k incoming) out
    → Received n incoming (prepend (take k incoming) out)
prepend-Received n k incoming (returned more l, rest) h j r = record {
  bytes = λ bs left e.
      let got = r.bytes more l refl in
      let is : take k incoming ++ more ≡ bs = cc in
      (
        rw (← is) (omega (arith, length-append (take k incoming) more, length-take k incoming)),
        rw (← is) (
            sym (take-append-drop k incoming)
            ∙ ap (◌++◌ (take k incoming)) got.1
            ∙ sym (append_assoc (take k incoming) more rest)),
      );
}
prepend-Received n k incoming (error, rest) h j r = record { bytes = λ bs left e. cc }
prepend-Received n k incoming (blocked, rest) h j r = record { bytes = λ bs left e. cc }

-- `SVR_Net_recv` without MSG_PEEK never returns fewer bytes than asked for, nor bytes out of order,
-- whatever the kernel answers.
pub recv_all-Received :
    (answers : List Answer) (len read : ℕ) (incoming : Bytes)
    → Received (len - read) incoming (recv_all false answers len read incoming)
unfolding recv_all
recv_all-Received [] len read incoming = elim (Bool-cases (ltb read len)) [
  | inl more ↦ rw more (record { bytes = λ bs left e. cc })
  | inr done ↦ rw done (record { bytes = λ bs left e. ground arith })
]
recv_all-Received (failed ∷ answers) len read incoming = elim (Bool-cases (ltb read len)) [
  | inl more ↦ rw more (record { bytes = λ bs left e. cc })
  | inr done ↦ rw done (record { bytes = λ bs left e. ground arith })
]
recv_all-Received (moved k ∷ answers) len read incoming = elim (Bool-cases (ltb read len)) [
  | inl more ↦ elim (Bool-cases (n == 0)) [
    | inl closed ↦ rw (more, closed) (record { bytes = λ bs left e. cc })
    | inr open_ ↦
        rw (more, open_)
          (prepend-Received (len - read) n incoming
            (recv_all false answers len (read + n) (drop n incoming)) (omega arith) (omega arith)
            (subst
              (λ (j : ℕ).
                Received j (drop n incoming)
                  (recv_all false answers len (read + n) (drop n incoming)))
              (omega arith) (recv_all-Received answers len (read + n) (drop n incoming))))
  ]
  | inr done ↦ rw done (record { bytes = λ bs left e. ground arith })
]
  where
    n : ℕ
    n = recv_size k (len - read) incoming

pub recv_done :
    (peek : Bool) (answers : List Answer) (len read : ℕ) (incoming : Bytes)
    → len ≤ read
    → recv_all peek answers len read incoming ≡ (returned [] answers, incoming)
unfolding recv_all
recv_done peek [] len read incoming h = ground arith
recv_done peek (failed ∷ answers) len read incoming h = ground arith
recv_done peek (moved k ∷ answers) len read incoming h = ground arith

-- Where the kernel moves all that is asked for, one call is enough.
pub recv_at_once :
    (peek : Bool) (k : ℕ) (answers : List Answer) (len : ℕ) (bs rest : Bytes)
    → len ≡ length bs
    → 0 < len
    → len ≤ k
    → recv_all peek (moved k ∷ answers) len 0 (bs ++ rest)
      ≡ (returned bs answers, after_recv peek len (bs ++ rest))
unfolding recv_all
recv_at_once peek k answers len bs rest e h j =
    rw
      (
        size,
        recv_done peek answers len (0 + len) (after_recv peek len (bs ++ rest)) (omega arith),
        take-append_left len bs rest e,
        append-nil bs,
      )
      (ground arith)
  where
    size : recv_size k (len - 0) (bs ++ rest) ≡ len
    size = omega (arith, length-append bs rest)

-- With MSG_PEEK a call that is answered in two parts reads the first byte twice: peeked bytes stay
-- in front, and the loop peeks again from the front.
pub peek-in_parts :
    (answers : List Answer) (a b : ℕ) (rest : Bytes)
    → recv_all true (moved 1 ∷ moved 1 ∷ answers) 2 0 (a ∷ b ∷ rest)
      ≡ (returned (a ∷ a ∷ []) answers, a ∷ b ∷ rest)
unfolding recv_all
peek-in_parts answers a b rest =
    rw (first, second, recv_done true answers 2 2 (a ∷ b ∷ rest) (omega arith))
  where
    first : recv_size 1 2 (a ∷ b ∷ rest) ≡ 1
    first = omega arith

    second : recv_size 1 (2 - (0 + 1)) (a ∷ b ∷ rest) ≡ 1
    second = omega arith
