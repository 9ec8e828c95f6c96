-- ===== src/Server/Routing.antt =====
-- server/messagerouting.c: the search for the handler of a request. The window `lower` to `upper` of
-- the table is a list of rows, each with its string from `sindex` on: `lower++` takes off the first
-- row, `upper--` the last, and `sindex++` the first byte of each string. An empty window is the
-- result NULL. The table is ASCII, so that the sign of a `char` does not matter.
pub mod Search
use svr.Base.{
  ℕ, List, [], ◌∷◌, Option, none, some, Bytes, ltb, ◌==◌, if◌then◌else◌, ◌>>=◌, get_elem?, drop,
  map,
}
use svr.Base.Dict.{Dictionary}
use svr.OptionString.{Options, peek}
use svr.Message.{Message}
use svr.Server.State.{World}
use svr.Server.Clients.{kick}
use svr.Server.Requests.{Request, handle}
use svr.Server.Words.{invalid_message}

-- `SVRD_RequestMapping`
abbrev pub Row : Type 0 → Type 0
Row R = Bytes × R

-- The two inner loops.
unfoldable pub raise_lower : {R : Type 0} → ℕ → List (Row R) → List (Row R)
raise_lower c [] = []
raise_lower c (row ∷ rows) =
    let rest = raise_lower c rows in if ltb (peek row.0) c then rest else row ∷ rows

abbrev pub put_below : {R : Type 0} → ℕ → Row R → List (Row R) → List (Row R)
put_below c row [] = if ltb c (peek row.0) then [] else row ∷ []
put_below c row (next ∷ rows) = row ∷ next ∷ rows

unfoldable pub reduce_upper : {R : Type 0} → ℕ → List (Row R) → List (Row R)
reduce_upper c [] = []
reduce_upper c (row ∷ rows) = put_below c row (reduce_upper c rows)

abbrev pub advance : {R : Type 0} → Row R → Row R
advance (s, r) = (drop 1 s, r)

abbrev pub first_row : {R : Type 0} → List (Row R) → Option R
first_row [] = none
first_row (row ∷ rows) = some row.1

-- `SVRD_findRequestMapping`
unfoldable pub find : {R : Type 0} → Bytes → List (Row R) → Option R
find [] rows = first_row (reduce_upper 0 (raise_lower 0 rows))
find (c ∷ s) rows = find s (map advance (reduce_upper c (raise_lower c rows)))

module _ (D : Dictionary) (open_type : Bytes → Bytes → Options D → World D → Option ℕ × World D)
    (request_types : List (Row Request)) where
  abbrev pub dispatch : World D → Message → Option Request → Option (World D)
  dispatch w m none = kick D w invalid_message
  dispatch w m (some r) = handle D open_type r w m

  -- `SVRD_processMessage`
  unfoldable pub process_message : World D → Message → Option (World D)
  process_message w m =
      if m.count == 0
      then kick D w invalid_message
      else (do request ← get_elem? m.components 0; dispatch w m (find request request_types))
