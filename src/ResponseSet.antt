-- ===== src/ResponseSet.antt =====
-- lib/responseset.c: the requests that await a response, in two arrays that grow together. `A` is
-- what a response points to, and NULL is `none`. `junk` is what `realloc` leaves in new memory.
pub mod Round
pub mod Ids
pub mod Answers
use svr.Base.{
  ℕ, zero, suc, ◌+◌, ◌-◌, ◌%◌, List, ◌++◌, Option, none, some, Bool, true, false, leb, ltb, ◌==◌,
  if◌then◌else◌, ◌>>=◌, get_elem?, set, replicate, length,
}

-- `SVR_ResponseSet`. The sizes are `int`s; `max_request_id` bounds them.
pub record ResponseSet (A : Type 0) : Type 0 where
  pub response_pending : List Bool
  pub response : List (Option A)
  pub max_request_id : ℕ
  pub next_request_id : ℕ
  pub set_size : ℕ

-- RESPONSE_SET_GROW
abbrev pub grow_size : ℕ
grow_size = 8

-- How `SVR_ResponseSet_getRequestId` ends: with an id, or with -1, and then the set stays locked.
-- `spinning` would be a search that has not ended in its rounds.
pub data Requested (A : Type 0) : Type 0 where
  given : ℕ → ResponseSet A → Requested A
  all_in_use : Requested A
  spinning : Requested A

-- How `SVR_ResponseSet_getResponse` ends: `waiting` is the wait for a response.
pub data Answered (A : Type 0) : Type 0 where
  waiting : Answered A
  answered : A → ResponseSet A → Answered A

module _ {A : Type 0} where
  -- `SVR_ResponseSet_new`
  unfoldable pub new : ℕ → ResponseSet A
  new max_request_id = record {
    response_pending = replicate grow_size false;
    response = replicate grow_size none;
    max_request_id = max_request_id;
    next_request_id = 0;
    set_size = grow_size;
  }

  -- The `realloc`s, and the `memset` of the new part of `response_pending`.
  unfoldable pub grow : Option A → ResponseSet A → ResponseSet A
  grow junk set_ = record set_ {
    response_pending = set_.response_pending ++ replicate grow_size false;
    response = set_.response ++ replicate grow_size junk;
    set_size = set_.set_size + grow_size;
  }

  -- The end of `SVR_ResponseSet_getRequestId`.
  unfoldable pub take_id : ResponseSet A → ℕ → ResponseSet A
  take_id set_ id = record set_ {
    next_request_id = (id + 1) % set_.set_size;
    response_pending = set set_.response_pending id true;
    response = set set_.response id none;
  }

  -- One round of the search: `again` goes on.
  abbrev pub after_round :
      Option A
      → ResponseSet A
      → ℕ
      → (ResponseSet A → ℕ → Option (Requested A))
      → Option (Requested A)
  after_round junk set_ id again =
      if id == set_.next_request_id
      then (if leb set_.max_request_id (set_.set_size + grow_size)
          then some all_in_use
          else again (grow junk set_) set_.set_size)
      else again set_ id

  unfoldable pub search : Option A → ℕ → ResponseSet A → ℕ → Option (Requested A)
  search junk zero set_ id = some spinning
  search junk (suc fuel) set_ id = do
    pending ← get_elem? set_.response_pending id
    (if pending
        then after_round junk set_ ((id + 1) % set_.set_size) (search junk fuel)
        else some (given id (take_id set_ id)))

  -- `SVR_ResponseSet_getRequestId`: a round for each slot and one for a new one.
  unfoldable pub get_request_id : Option A → ResponseSet A → Option (Requested A)
  get_request_id junk set_ = search junk (set_.set_size + 2) set_ set_.next_request_id

  -- `SVR_ResponseSet_getResponse`
  abbrev pub respond : ResponseSet A → ℕ → Option A → Answered A
  respond set_ id none = waiting
  respond set_ id (some a) =
      answered a (record set_ { response_pending = set set_.response_pending id false })

  unfoldable pub get_response : ResponseSet A → ℕ → Option (Answered A)
  get_response set_ id = do response ← get_elem? set_.response id; some (respond set_ id response)

  -- `SVR_ResponseSet_setResponse`: whether it succeeds, and the set. There is no check of the id.
  unfoldable pub set_response : ResponseSet A → ℕ → A → Option (Bool × ResponseSet A)
  set_response set_ id a = do
    pending ← get_elem? set_.response_pending id
    some (
        if pending
        then (true, record set_ { response = set set_.response id (some a) })
        else (false, set_))
