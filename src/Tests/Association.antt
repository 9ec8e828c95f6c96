-- ===== src/Tests/Association.antt =====
-- A concrete dictionary: an association list, in which the entry at the front counts.
use svr.Base.{
  List, [], ◌∷◌, Option, none, some, Bytes, ◌≡◌, ◌≢◌, refl, sym, ◌∙◌, same, same_refl, same-eq,
  same-ne, Bool-cases, inl, inr, if◌then◌else◌, arith, Among,
}
use svr.Base.Dict.{Dictionary}

module _ (V : Type 0) where
  abbrev pub lookup : List (Bytes × V) → Bytes → Option V
  lookup [] j = none
  lookup ((k, v) ∷ d) j = if same k j then some v else lookup d j

  abbrev pub delete : List (Bytes × V) → Bytes → List (Bytes × V)
  delete [] j = []
  delete ((k, v) ∷ d) j = if same k j then delete d j else (k, v) ∷ delete d j

  abbrev pub names : List (Bytes × V) → List Bytes
  names [] = []
  names ((k, v) ∷ d) = k ∷ names d

  pub lookup_self : (d : List (Bytes × V)) (k : Bytes) (v : V) → lookup ((k, v) ∷ d) k ≡ some v
  lookup_self d k v = rw (same_refl k)

  pub lookup-ne :
      (d : List (Bytes × V)) (k j : Bytes) (v : V) → k ≢ j → lookup ((k, v) ∷ d) j ≡ lookup d j
  lookup-ne d k j v h = rw (same-ne k j h)

  pub lookup-delete_self : (d : List (Bytes × V)) (k : Bytes) → lookup (delete d k) k ≡ none
  lookup-delete_self [] k = refl
  lookup-delete_self ((j, v) ∷ d) k = elim (Bool-cases (same j k)) [
    | inl e ↦ rw e (lookup-delete_self d k)
    | inr e ↦ rw e (rw e (lookup-delete_self d k))
  ]

  pub lookup-delete_ne :
      (d : List (Bytes × V)) (k j : Bytes) → k ≢ j → lookup (delete d k) j ≡ lookup d j
  lookup-delete_ne [] k j h = refl
  lookup-delete_ne ((i, v) ∷ d) k j h = elim (Bool-cases (same i k)) [
    | inl e ↦ rw (e, same-ne i j (λ q. h (sym (same-eq i k e) ∙ q))) (lookup-delete_ne d k j h)
    | inr e ↦ rw (e, lookup-delete_ne d k j h)
  ]

  pub lookup-Among :
      (d : List (Bytes × V)) (k : Bytes) (v : V) → lookup d k ≡ some v → Among k (names d)
  lookup-Among [] k v h = absurd (ground arith)
  lookup-Among ((j, w) ∷ d) k v h = elim (Bool-cases (same j k)) [
    | inl e ↦ inl (same-eq j k e)
    | inr e ↦
        let later : lookup ((j, w) ∷ d) k ≡ lookup d k = rw e in
        inr (lookup-Among d k v (sym later ∙ h))
  ]

  pub Among-lookup :
      (d : List (Bytes × V)) (k : Bytes) → Among k (names d) → (v : V) × (lookup d k ≡ some v)
  Among-lookup [] k h = absurd h
  Among-lookup ((j, w) ∷ d) k (inl e) = (w, rw (e, same_refl k))
  Among-lookup ((j, w) ∷ d) k (inr h) = elim (Bool-cases (same j k)) [
    | inl e ↦ (w, rw e)
    | inr e ↦ let (v, found) = Among-lookup d k h in (v, rw (e, found))
  ]

abbrev pub association : Dictionary
association = record {
  Dict = λ V. List (Bytes × V);
  new = λ V. [];
  get = lookup;
  set = λ V d k v. (k, v) ∷ d;
  remove = delete;
  keys = names;
  get-new = λ V k. refl;
  get-set_self = lookup_self;
  get-set_ne = λ V d k j v h. lookup-ne V d k j v h;
  get-remove_self = lookup-delete_self;
  get-remove_ne = lookup-delete_ne;
  get-Among = lookup-Among;
  Among-get = Among-lookup;
}
