-- ===== src/Client/Comm/Answers.antt =====
-- lib/comm.c: a request gets the response with its id, whatever arrives before that.
use svr.Base.{
  ℕ, ◌+◌, ◌-◌, ◌≤◌, ◌<◌, List, [], ◌∷◌, ◌++◌, ◌^◌, Option, none, some, Bool, true, false, ◌==◌,
  get_elem?, set, ◌≡◌, ◌≢◌, refl, ◌∙◌, inl, inr, arith, Bool-cases, Option-cases, get_elem?-set_ne,
  length-set, ltb,
}
use svr.Message.{Message}
use svr.ResponseSet.{
  ResponseSet, Requested, given, all_in_use, spinning, Answered, answered, respond, get_request_id,
  get_response, set_response,
}
use svr.ResponseSet.Ids.{IsValid, AllPending, new-IsValid, Outcome, gave, get_request_id-Outcome}
use svr.ResponseSet.Answers.{get_response-set_response}
use svr.ResponseSet
use svr.Client.Comm.{
  Comm, connected, max_request_id, out_of_ids, Asked, waiting_for, ask, await, send_with, receive,
  receive_all, make_room,
}

-- A connection that is waiting for the response of an id.
pub record Awaits (c : Comm) (id : ℕ) : Type 0 where
  pub valid : IsValid c.response_set
  pub id_lt : id < c.response_set.set_size
  pub pending : get_elem? c.response_set.response_pending id ≡ some true
  pub empty : get_elem? c.response_set.response id ≡ some none

abbrev pub OthersOnly : ℕ → List Message → Type 0
OthersOnly id [] = Unit {0}
OthersOnly id (m ∷ ms) = (m.request_id ≢ id + 1) × OthersOnly id ms

Awaits-room : (c : Comm) (id n : ℕ) → Awaits c id → Awaits (make_room c n) id
Awaits-room c id n h = elim (Bool-cases (ltb c.payload_buffer_size n)) [
  | inl grows ↦
      rw grows (record { valid = h.valid; id_lt = h.id_lt; pending = h.pending; empty = h.empty })
  | inr fits ↦ rw fits h
]

-- A response for another id.
Awaits-set :
    (c : Comm) (id k : ℕ) (m : Message) {b : Bool} {set_ : ResponseSet Message}
    → Awaits c id
    → k ≢ id
    → set_response c.response_set k m ≡ some (b, set_)
    → Awaits (record c { response_set = set_ }) id
unfolding set_response
Awaits-set c id k m {b} {set_} h n e =
    elim (Option-cases (get_elem? c.response_set.response_pending k)) [
      | inl missing ↦ absurd (ground arith)
      | inr (pending, at) ↦ elim (Bool-cases pending) [
        | inl taken ↦
            let is : record c.response_set { response = set c.response_set.response k (some m) }
                ≡ set_ =
              ground arith in
            rw (← is) (record {
              valid = record {
                pending_size = h.valid.pending_size;
                response_size =
                    length-set c.response_set.response k (some m) ∙ h.valid.response_size;
                next_lt = h.valid.next_lt;
              };
              id_lt = h.id_lt;
              pending = h.pending;
              empty = get_elem?-set_ne c.response_set.response (some m) n ∙ h.empty;
            })
        | inr free ↦
            let is : c.response_set ≡ set_ = ground arith in
            rw (← is)
              (record { valid = h.valid; id_lt = h.id_lt; pending = h.pending; empty = h.empty })
      ]
    ]

waits : (c : Comm) (id : ℕ) (reply : Message) → Awaits c id → await c id ≡ some Answered.waiting
unfolding await
waits c id reply h =
    (get_response-set_response c.response_set id reply h.valid h.id_lt h.pending h.empty).2

-- The connection between two calls.
pub record IsReady (c : Comm) : Type 0 where
  pub valid : IsValid c.response_set
  pub bound : c.response_set.max_request_id ≡ max_request_id
  pub size : c.response_set.set_size ≤ max_request_id

pub connected-IsReady : IsReady connected
unfolding ResponseSet.new
connected-IsReady = record { valid = new-IsValid max_request_id; bound = refl; size = omega arith }

-- How a request goes out.
pub data AskOutcome (c : Comm) (m : Message) (a : Asked) : Type 0 where
  went :
      (id : ℕ) (c' : Comm)
      → a ≡ waiting_for id c'
      → c'.sent ≡ c.sent ++ record m { request_id = id + 1 } ∷ []
      → id + 1 < 2 ^ 16
      → get_elem? c.response_set.response_pending id ≢ some true
      → Awaits c' id
      → IsReady c'
      → AskOutcome c m a
  refused : a ≡ out_of_ids → AllPending c.response_set → AskOutcome c m a

-- On a connection whose response set is in order and within its bound of 65535, as it is at first and after
-- each request, a request returns from the search for an id. It is sent with an id from 1 on that fits the
-- 16 bits of the header and that no other pending request has, and its response is awaited; or there is no id,
-- when each slot is pending.
pub ask-AskOutcome :
    (junk : Option Message) (c : Comm) (m : Message)
    → IsReady c
    → (a : Asked) × (ask junk c m ≡ some a) × AskOutcome c m a
unfolding ask
ask-AskOutcome junk c m h =
    let (r, e, o) = get_request_id-Outcome junk c.response_set h.valid in
    elim o [
      | gave id after is g ↦
          let b = h.bound in
          let n = h.size in
          let l = g.id_lt in
          let in_bound = g.bounded (omega arith) in
          (
            send_with c m r,
            rw e refl,
            went id
                (record c {
                  response_set = after;
                  sent = c.sent ++ record m { request_id = id + 1 } ∷ [];
                })
                (rw is refl) refl (omega arith) g.was_free
                (record {
                  valid = g.valid;
                  id_lt = g.id_lt;
                  pending = g.is_pending;
                  empty = g.is_empty;
                })
                (record { valid = g.valid; bound = g.same_max ∙ h.bound; size = omega arith }),
          )
      | Outcome.refused is all full ↦ (send_with c m r, rw e refl, refused (rw is refl) all)
    ]

module _ {S : Type 0} (process_message : S → Message → Option S) where
  Awaits-receive :
      (c : Comm) (s : S) (id : ℕ) (m : Message) {c' : Comm} {s' : S}
      → Awaits c id
      → m.request_id ≢ id + 1
      → receive process_message c s m ≡ some (c', s')
      → Awaits c' id
  unfolding receive
  Awaits-receive c s id m {c'} {s'} h n e = elim (Bool-cases (m.request_id == 0)) [
    | inl unasked ↦ elim (Option-cases (process_message s m)) [
      | inl fault ↦ absurd (ground arith)
      | inr (s1, f) ↦
          let is : make_room c m.payload_size ≡ c' = ground arith in
          rw (← is) (Awaits-room c id m.payload_size h)
    ]
    | inr reply ↦
        elim (Option-cases
          (set_response (make_room c m.payload_size).response_set (m.request_id - 1) m)) [
            | inl fault ↦ absurd (ground arith)
            | inr ((b, set_), f) ↦
                let is : record (make_room c m.payload_size) { response_set = set_ } ≡ c' =
                  ground arith in
                rw (← is) (
                  Awaits-set (make_room c m.payload_size) id (m.request_id - 1) m
                    (Awaits-room c id m.payload_size h) (ground arith) f)
          ]
  ]

  Awaits-receive_all :
      (others : List Message) (c : Comm) (s : S) (id : ℕ) {c' : Comm} {s' : S}
      → Awaits c id
      → OthersOnly id others
      → receive_all process_message others c s ≡ some (c', s')
      → Awaits c' id
  unfolding receive_all
  Awaits-receive_all [] c s id {c'} {s'} h o e = let is : c ≡ c' = ground arith in rw (← is) h
  Awaits-receive_all (m ∷ ms) c s id {c'} {s'} h o e =
      elim (Option-cases (receive process_message c s m)) [
        | inl fault ↦ absurd (ground arith)
        | inr ((c1, s1), f) ↦
            Awaits-receive_all ms c1 s1 id {c' = c'} {s' = s'} (Awaits-receive c s id m h o.0 f) o.1
              (ground arith)
      ]

  -- A connection that awaits the response of an id, as after `SVR_Comm_sendMessage` has sent a request: the
  -- messages that arrive, in any number and order, do not end the wait as long as they have other ids or none
  -- and are handled without a fault; and the message with the id, when it arrives, is what the call returns.
  pub await-receive_all :
      (c : Comm) (s : S) (id : ℕ) (others : List Message) (reply : Message) (c' : Comm) (s' : S)
      → Awaits c id
      → OthersOnly id others
      → receive_all process_message others c s ≡ some (c', s')
      → reply.request_id ≡ id + 1
      → (await c' id ≡ some Answered.waiting)
        × (c'' : Comm) × (set_ : ResponseSet Message) × (receive process_message c' s' reply
            ≡ some (c'', s'))
        × (await c'' id ≡ some (answered reply set_))
  unfolding await receive
  await-receive_all c s id others reply c' s' h o e r =
      let h' = Awaits-receive_all others c s id {c' = c'} {s' = s'} h o e in
      let here = waits c' id reply h' in
      let roomy = make_room c' reply.payload_size in
      let h'' = Awaits-room c' id reply.payload_size h' in
      let (after, done, _, stored, _, found, _, _, _) =
        get_response-set_response roomy.response_set id reply h''.valid h''.id_lt h''.pending
          h''.empty in
      let asked : (reply.request_id == 0) ≡ false = ground arith in
      let slot : reply.request_id - 1 ≡ id = omega arith in
      (here, record roomy { response_set = after }, done, rw (asked, slot, stored), found)
