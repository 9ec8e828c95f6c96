-- ===== src/Encoder/Refine.antt =====
-- An encoder under any sequence of writes and reads, against a queue of bytes.
use svr.Base.{
  ℕ, ◌+◌, ◌^◌, ◌≤◌, List, [], ◌∷◌, ◌++◌, Option, some, Bytes, length, ◌≡◌, refl, ◌>>=◌, take, drop,
}
use svr.Encoder.{Encoder, new, read_data, provide_data}
use svr.Encoder.Holds.{Holds, new-Holds}
use svr.Encoder.Read.{read_data-Holds}
use svr.Encoder.Provide.{provide_data-Holds}

pub data Op : Type 0 where
  provide : Bytes → Op
  read : ℕ → Op

-- The queue: what each read returns, and what is left in the end.
abbrev pub queue : List Op → Bytes → List Bytes × Bytes
queue [] q = ([], q)
queue (provide bs ∷ ops) q = queue ops (q ++ bs)
queue (read n ∷ ops) q = let rest = queue ops (drop n q) in (take n q ∷ rest.0, rest.1)

-- What is unread at any time fits an `unsigned int`, with a byte to spare.
abbrev pub Bounded : List Op → Bytes → Type 0
Bounded [] q = Unit {0}
Bounded (provide bs ∷ ops) q = (length q + length bs + 1 ≤ 2 ^ 32) × Bounded ops (q ++ bs)
Bounded (read n ∷ ops) q = Bounded ops (drop n q)

module _ (fresh : ℕ → Bytes) where
  -- The same on an encoder.
  unfoldable pub run : List Op → Encoder → Option (List Bytes × Encoder)
  run [] e = some ([], e)
  run (provide bs ∷ ops) e = do e' ← provide_data fresh e bs; run ops e'
  run (read n ∷ ops) e = do r ← read_data e n; rest ← run ops r.1; some (r.0 ∷ rest.0, rest.1)

  run-Holds :
      (length-fresh : (n : ℕ) → length (fresh n) ≡ n) (ops : List Op) (e : Encoder) (q : Bytes)
      → Holds e q
      → Bounded ops q
      → (e' : Encoder) × (run ops e ≡ some ((queue ops q).0, e')) × Holds e' (queue ops q).1
  unfolding run
  run-Holds length-fresh [] e q h b = (e, refl, h)
  run-Holds length-fresh (provide bs ∷ ops) e q h b =
      let (mid, first, h') = provide_data-Holds fresh length-fresh e q bs h b.0 in
      let (e', rest, h'') = run-Holds length-fresh ops mid (q ++ bs) h' b.1 in
      (e', rw (first, rest), h'')
  run-Holds length-fresh (read n ∷ ops) e q h b =
      let (mid, first, h', _) = read_data-Holds e q n h in
      let (e', rest, h'') = run-Holds length-fresh ops mid (drop n q) h' b in
      (e', rw (first, rest), h'')

  -- Whatever is written to a new encoder and read from it, in any order, comes out as from a queue,
  -- as long as what is unread at any time fits an `unsigned int`.
  pub run_refines :
      ((n : ℕ) → length (fresh n) ≡ n)
      → (ops : List Op) → Bounded ops []
      → (e : Encoder) × (run ops new ≡ some ((queue ops []).0, e)) × Holds e (queue ops []).1
  run_refines length-fresh ops b = run-Holds length-fresh ops new [] new-Holds b
