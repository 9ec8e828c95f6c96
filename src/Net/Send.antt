-- ===== src/Net/Send.antt =====
-- The send loops of lib/net.c, against every list of answers of the kernel.
use svr.Base.{
  ℕ, ◌+◌, ◌-◌, ◌≤◌, ◌<◌, List, [], ◌∷◌, ◌++◌, Bytes, length, ◌≡◌, refl, sym, ap, ◌∙◌, arith, take,
  drop, take-append-drop, drop-drop, drop_all, append_assoc, append-nil, ltb, Bool-cases, inl, inr,
  false,
}
use svr.Message.{PackedMessage}
use svr.Net.{
  Answer, failed, moved, Outcome, returned, error, blocked, send_all, send_payload, send_packed,
  sum_sent,
}

-- What a loop has left unsent.
pub record Sent {A : Type 0} (buffer : Bytes) (out : Outcome A × Bytes) : Type 0 where
  pub unsent : Bytes
  pub prefix : buffer ≡ out.1 ++ unsent
  pub complete : (a : A) (left : List Answer) → out.0 ≡ returned a left → unsent ≡ []

finished :
    (left : List Answer) (buffer : Bytes) (n sent : ℕ)
    → length buffer ≡ n
    → ltb sent n ≡ false
    → Sent (drop sent buffer) (returned tt left, [])
finished left buffer n sent e h = record {
  unsent = [];
  prefix = drop_all sent buffer (ground arith);
  complete = λ a l q. refl;
}

pub send_all-Sent :
    (answers : List Answer) (buffer : Bytes) (n sent : ℕ)
    → length buffer ≡ n
    → Sent (drop sent buffer) (send_all answers buffer n sent)
unfolding send_all
send_all-Sent [] buffer n sent e = elim (Bool-cases (ltb sent n)) [
  | inl more ↦ rw more (record { unsent = drop sent buffer; prefix = refl; complete = λ a l q. cc })
  | inr done ↦ rw done (finished [] buffer n sent e done)
]
send_all-Sent (failed ∷ answers) buffer n sent e = elim (Bool-cases (ltb sent n)) [
  | inl more ↦ rw more (record { unsent = drop sent buffer; prefix = refl; complete = λ a l q. cc })
  | inr done ↦ rw done (finished (failed ∷ answers) buffer n sent e done)
]
send_all-Sent (moved k ∷ answers) buffer n sent e = elim (Bool-cases (ltb sent n)) [
  | inl more ↦
      let ih = send_all-Sent answers buffer n (sent + k) e in
      rw more (record {
        unsent = ih.unsent;
        prefix =
            sym (take-append-drop k (drop sent buffer))
            ∙ ap (◌++◌ (take k (drop sent buffer))) (drop-drop k sent buffer ∙ ih.prefix)
            ∙ sym (append_assoc (take k (drop sent buffer)) _ _);
        complete = ih.complete;
      })
  | inr done ↦ rw done (finished (moved k ∷ answers) buffer n sent e done)
]

-- Each answer moves at least a byte.
abbrev pub Progress : List Answer → Type 0
Progress [] = Unit {0}
Progress (failed ∷ answers) = ⊥
Progress (moved k ∷ answers) = (0 < k) × Progress answers

pub send_all-returns :
    (answers : List Answer) (buffer : Bytes) (n sent : ℕ)
    → Progress answers
    → n - sent ≤ length answers
    → (left : List Answer) × ((send_all answers buffer n sent).0 ≡ returned tt left)
      × Progress left
      × (length answers ≤ length left + (n - sent))
unfolding send_all
send_all-returns [] buffer n sent p h = ([], ground arith, tt, omega arith)
send_all-returns (failed ∷ answers) buffer n sent p h = absurd p
send_all-returns (moved k ∷ answers) buffer n sent p h = elim (Bool-cases (ltb sent n)) [
  | inl more ↦
      let ih = send_all-returns answers buffer n (sent + k) p.1 (ground arith) in
      rw more (ih.0, ih.1, ih.2, ground (arith, ih.3))
  | inr done ↦ rw done (moved k ∷ answers, refl, p, omega arith)
]

-- The lengths say what the buffers hold, as `SVR_Message_pack` leaves them.
pub record IsPacked (packed : PackedMessage) : Type 0 where
  pub has_contents : length packed.contents ≡ packed.len
  pub has_payload : length packed.payload ≡ packed.payload_size

sum_sent-returned :
    (n : ℕ) (o : Outcome (Unit {0})) (a : ℕ) (left : List Answer)
    → sum_sent n o ≡ returned a left
    → o ≡ returned tt left
sum_sent-returned n (returned tt l) a left e = cc
sum_sent-returned n error a left e = cc
sum_sent-returned n blocked a left e = cc

after_contents :
    (packed : PackedMessage) (first : Outcome (Unit {0}) × Bytes)
    → IsPacked packed
    → Sent packed.contents first
    → Sent (packed.contents ++ packed.payload) (send_payload packed first)
after_contents packed (returned u left, wire) w s =
    after_payload (send_all-Sent left packed.payload packed.payload_size 0 w.has_payload)
  where
    whole : packed.contents ≡ wire
    whole = s.prefix ∙ rw (s.complete u left refl) (append-nil wire)

    after_payload :
        Sent packed.payload (send_all left packed.payload packed.payload_size 0)
        → Sent (packed.contents ++ packed.payload) (send_payload packed (returned u left, wire))
    after_payload t = record {
      unsent = t.unsent;
      prefix = rw whole (ap (◌++◌ wire) t.prefix ∙ sym (append_assoc wire _ _));
      complete = λ a l q. t.complete tt l (sum_sent-returned _ _ a l q);
    }
after_contents packed (error, wire) w s = record {
  unsent = s.unsent ++ packed.payload;
  prefix = ap (λ (bs : Bytes). bs ++ packed.payload) s.prefix ∙ append_assoc wire _ _;
  complete = λ a l q. cc;
}
after_contents packed (blocked, wire) w s = record {
  unsent = s.unsent ++ packed.payload;
  prefix = ap (λ (bs : Bytes). bs ++ packed.payload) s.prefix ∙ append_assoc wire _ _;
  complete = λ a l q. cc;
}

-- Whatever the kernel answers, the bytes that go out are a prefix of the contents and the payload,
-- and if the call returns a count then all of them have gone out.
pub send_packed-Sent :
    (answers : List Answer) (packed : PackedMessage)
    → IsPacked packed
    → Sent (packed.contents ++ packed.payload) (send_packed answers packed)
unfolding send_packed
send_packed-Sent answers packed w =
    after_contents packed _ w (send_all-Sent answers packed.contents packed.len 0 w.has_contents)

send_all_whole :
    (answers : List Answer) (buffer : Bytes) (n : ℕ)
    → length buffer ≡ n
    → Progress answers
    → n ≤ length answers
    → (left : List Answer) × (send_all answers buffer n 0 ≡ (returned tt left, buffer))
      × Progress left
      × (length answers ≤ length left + n)
send_all_whole answers buffer n e p h =
    let (left, ret, q, k) = send_all-returns answers buffer n 0 p (omega arith) in
    let s = send_all-Sent answers buffer n 0 e in
    let out : (send_all answers buffer n 0).1 ≡ buffer =
      sym (s.prefix ∙ rw (s.complete tt left ret) (append-nil _)) in
    (left, λ i. (ret i, out i), q, omega arith)

-- If each answer moves at least a byte, and there are as many answers as bytes, then the call
-- returns their number and all of them have gone out.
pub send_packed-returns :
    (answers : List Answer) (packed : PackedMessage)
    → IsPacked packed
    → Progress answers
    → packed.len + packed.payload_size ≤ length answers
    → (left : List Answer) × (send_packed answers packed
        ≡ (returned (packed.len + packed.payload_size) left, packed.contents ++ packed.payload))
unfolding send_packed
send_packed-returns answers packed w p h =
    let (left, first, q, k) =
      send_all_whole answers packed.contents packed.len w.has_contents p (omega arith) in
    let (left', second, _, _) =
      send_all_whole left packed.payload packed.payload_size w.has_payload q (omega arith) in
    (left', rw (first, second))
