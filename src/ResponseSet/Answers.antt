-- ===== src/ResponseSet/Answers.antt =====
-- A request and its response.
use svr.Base.{
  ℕ, ◌<◌, none, some, true, false, get_elem?, set, ◌≡◌, ◌≢◌, arith, get_elem?-set_self,
  get_elem?-set_ne,
}
use svr.ResponseSet.{ResponseSet, waiting, answered, get_response, set_response}
use svr.ResponseSet.Ids.{IsValid}

module _ {A : Type 0} where
  -- A request that awaits its response gets the one that is set for its id, and no other: setting the
  -- response succeeds, a call for another id finds there what it would have found before, and the
  -- call for this id returns the response and frees the id.
  pub get_response-set_response :
      (set_ : ResponseSet A) (id : ℕ) (a : A)
      → IsValid set_
      → id < set_.set_size
      → get_elem? set_.response_pending id ≡ some true
      → get_elem? set_.response id ≡ some none
      → (after : ResponseSet A) × (done : ResponseSet A) × (get_response set_ id ≡ some waiting)
        × (set_response set_ id a ≡ some (true, after))
        × ((j : ℕ) → id ≢ j → get_elem? after.response j ≡ get_elem? set_.response j)
        × (get_response after id ≡ some (answered a done))
        × (get_elem? done.response_pending id ≡ some false)
        × ((j : ℕ) → id ≢ j → get_elem? done.response_pending j ≡ get_elem? set_.response_pending j)
        × (set_response done id a ≡ some (false, done))
  unfolding get_response set_response
  get_response-set_response set_ id a v h pending empty =
      let after : ResponseSet A = record set_ { response = set set_.response id (some a) } in
      let done : ResponseSet A = record after {
        response_pending = set set_.response_pending id false;
      } in
      let there =
        get_elem?-set_self set_.response id (some a) (let l = v.response_size in omega arith) in
      let free =
        get_elem?-set_self set_.response_pending id false (let l = v.pending_size in omega arith) in
      (
        after,
        done,
        rw empty,
        rw pending,
        λ j n. get_elem?-set_ne set_.response (some a) n,
        rw there,
        free,
        λ j n. get_elem?-set_ne set_.response_pending false n,
        rw free,
      )
