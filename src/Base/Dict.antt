-- ===== src/Base/Dict.antt =====
-- The dictionaries of libseawolf (`Dictionary_*`), which the program links against: an interface
-- with the documented behaviour of the calls that the program makes. Keys are strings. `get` gives
-- `none` where `Dictionary_get` returns NULL for a missing key.
use mathlib.Core.Path.{◌≡◌}
use mathlib.Core.Logic.{◌≢◌}
use mathlib.Core.Option.{Option, none, some}
use mathlib.Core.List.{List}
use svr.Base.Memory.{Bytes}
use svr.Base.Lists.{Among}

pub record Dictionary : Type 1 where
  pub Dict : Type 0 → Type 0
  pub new : (V : Type 0) → Dict V
  pub get : (V : Type 0) → Dict V → Bytes → Option V
  pub set : (V : Type 0) → Dict V → Bytes → V → Dict V
  pub remove : (V : Type 0) → Dict V → Bytes → Dict V
  pub keys : (V : Type 0) → Dict V → List Bytes
  pub get-new : (V : Type 0) (k : Bytes) → get V (new V) k ≡ none
  pub get-set_self : (V : Type 0) (d : Dict V) (k : Bytes) (v : V) → get V (set V d k v) k ≡ some v
  pub get-set_ne :
      (V : Type 0) (d : Dict V) (k j : Bytes) (v : V) → k ≢ j → get V (set V d k v) j ≡ get V d j
  pub get-remove_self : (V : Type 0) (d : Dict V) (k : Bytes) → get V (remove V d k) k ≡ none
  pub get-remove_ne :
      (V : Type 0) (d : Dict V) (k j : Bytes) → k ≢ j → get V (remove V d k) j ≡ get V d j
  pub get-Among :
      (V : Type 0) (d : Dict V) (k : Bytes) (v : V) → get V d k ≡ some v → Among k (keys V d)
  pub Among-get :
      (V : Type 0) (d : Dict V) (k : Bytes) → Among k (keys V d) → (v : V) × (get V d k ≡ some v)
