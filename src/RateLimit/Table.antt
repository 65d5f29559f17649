-- ===== src/RateLimit/Table.antt =====
-- Go maps as association lists: deletion, keys that occur once, and their laws.
use go_httpbin.Base.{
  ◌+◌, ◌≤◌, ◌≡◌, refl, subst, ◌≢◌, ◌⊎◌, inl, inr, Bool, none, some, List, [], ◌∷◌, arith,
  if◌then◌else◌, Bool-cases, length, All, Bytes, str_eq, str_eq_iff, lookup, insert,
}

module _ {V : Type 0} where
  -- delete(m, k)
  unfoldable pub erase : Bytes → List (Bytes × V) → List (Bytes × V)
  erase k [] = []
  erase k ((j, v) ∷ m) = let rest = erase k m in if str_eq j k then rest else (j, v) ∷ rest

  -- A range that deletes the entries whose value fails the test.
  unfoldable pub retain : (V → Bool) → List (Bytes × V) → List (Bytes × V)
  retain p [] = []
  retain p ((k, v) ∷ m) = let rest = retain p m in if p v then (k, v) ∷ rest else rest

  abbrev pub Absent : Bytes → List (Bytes × V) → Type 0
  Absent k = All (λ e. e.0 ≢ k)

  abbrev pub Distinct : List (Bytes × V) → Type 0
  Distinct [] = Unit
  Distinct ((k, v) ∷ m) = Absent k m × Distinct m

  pub lookup_of_Absent : (k : Bytes) (m : List (Bytes × V)) → Absent k m → lookup k m ≡ none
  unfolding lookup
  lookup_of_Absent k [] h = refl
  lookup_of_Absent k ((j, v) ∷ m) (h, hs) = ground (arith, str_eq_iff j k, lookup_of_Absent k m hs)

  pub Absent-of_lookup : (k : Bytes) (m : List (Bytes × V)) → lookup k m ≡ none → Absent k m
  unfolding lookup
  Absent-of_lookup k [] h = tt
  Absent-of_lookup k ((j, v) ∷ m) h = ground (arith, str_eq_iff j k, Absent-of_lookup k m)

  pub erase-Absent : (k j : Bytes) (m : List (Bytes × V)) → Absent k m → Absent k (erase j m)
  unfolding erase
  erase-Absent k j [] h = tt
  erase-Absent k j ((i, v) ∷ m) (h, hs) = ground (arith, erase-Absent k j m hs)

  pub erase-Distinct : (j : Bytes) (m : List (Bytes × V)) → Distinct m → Distinct (erase j m)
  unfolding erase
  erase-Distinct j [] h = tt
  erase-Distinct j ((i, v) ∷ m) (h, hs) =
      ground (arith, erase-Distinct j m hs, erase-Absent i j m h)

  erase_of_Absent : (j : Bytes) (m : List (Bytes × V)) → Absent j m → erase j m ≡ m
  unfolding erase
  erase_of_Absent j [] h = refl
  erase_of_Absent j ((i, v) ∷ m) (h, hs) = ground (arith, str_eq_iff i j, erase_of_Absent j m hs)

  pub length-erase :
      (j : Bytes) (m : List (Bytes × V)) (v : V)
      → Distinct m
      → lookup j m ≡ some v
      → length (erase j m) + 1 ≡ length m
  unfolding erase lookup
  length-erase j [] v h e = cc
  length-erase j ((i, w) ∷ m) v (h, hs) e =
      ground (arith, str_eq_iff i j, length-erase j m v hs, erase_of_Absent i m h)

  pub lookup-erase :
      (k j : Bytes) (m : List (Bytes × V))
      → lookup j (erase k m) ≡ (if str_eq k j then none else lookup j m)
  unfolding erase lookup
  lookup-erase k j [] = ground arith
  lookup-erase k j ((i, v) ∷ m) =
      ground (arith, str_eq_iff k j, str_eq_iff i k, str_eq_iff i j, lookup-erase k j m)

  pub retain-Absent :
      (p : V → Bool) (k : Bytes) (m : List (Bytes × V)) → Absent k m → Absent k (retain p m)
  unfolding retain
  retain-Absent p k [] h = tt
  retain-Absent p k ((i, v) ∷ m) (h, hs) = ground (arith, retain-Absent p k m hs)

  pub retain-Distinct : (p : V → Bool) (m : List (Bytes × V)) → Distinct m → Distinct (retain p m)
  unfolding retain
  retain-Distinct p [] h = tt
  retain-Distinct p ((i, v) ∷ m) (h, hs) =
      ground (arith, retain-Distinct p m hs, retain-Absent p i m h)

  pub length-retain-le : (p : V → Bool) (m : List (Bytes × V)) → length (retain p m) ≤ length m
  unfolding retain
  length-retain-le p [] = omega arith
  length-retain-le p ((i, v) ∷ m) = ground (arith, length-retain-le p m)

  -- An entry of distinct keys is kept exactly if it passes the test.
  pub lookup-retain :
      (p : V → Bool) (j : Bytes) (m : List (Bytes × V))
      → Distinct m
      → lookup j (retain p m)
        ≡ elim (lookup j m) [ none ↦ none | some v ↦ if p v then some v else none ]
  unfolding retain lookup
  lookup-retain p j [] h = refl
  lookup-retain p j ((i, v) ∷ m) (h, hs) =
      ground (arith, str_eq_iff i j, lookup-retain p j m hs, lookup_of_Absent i m h)

  pub insert-Absent :
      (k j : Bytes) (v : V) (m : List (Bytes × V)) → k ≢ j → Absent j m → Absent j (insert k v m)
  unfolding insert
  insert-Absent k j v [] h _ = (h, tt)
  insert-Absent k j v ((i, w) ∷ m) h (a, aj) =
      ground (arith, str_eq_iff i k, insert-Absent k j v m h aj)

  pub insert-Distinct :
      (k : Bytes) (v : V) (m : List (Bytes × V)) → Distinct m → Distinct (insert k v m)
  unfolding insert
  insert-Distinct k v [] h = (tt, tt)
  insert-Distinct k v ((i, w) ∷ m) (h, hs) =
      ground
        (arith, str_eq_iff i k, insert-Distinct k v m hs, λ (n : k ≢ i). insert-Absent k i v m n h)

  pub length-insert :
      (k : Bytes) (v : V) (m : List (Bytes × V))
      → length (insert k v m) ≡ elim (lookup k m) [ none ↦ length m + 1 | some w ↦ length m ]
  unfolding insert lookup
  length-insert k v [] = omega arith
  length-insert k v ((i, w) ∷ m) = ground (arith, length-insert k v m)

  pub name_of_lookup :
      (P : Bytes → Type 0) (k : Bytes) (m : List (Bytes × V)) {v : V}
      → All (λ x. P x.0) m
      → lookup k m ≡ some v
      → P k
  unfolding lookup
  name_of_lookup P k [] h e = cc
  name_of_lookup P k ((i, w) ∷ m) (h, hs) e = elim (Bool-cases (str_eq i k)) [
    | inl same ↦ subst P ((str_eq_iff i k).0 same) h
    | inr other ↦ name_of_lookup P k m hs (rw other at e)
  ]

  pub erase-All :
      (P : Bytes × V → Type 0) (k : Bytes) (m : List (Bytes × V)) → All P m → All P (erase k m)
  unfolding erase
  erase-All P k [] h = tt
  erase-All P k ((i, w) ∷ m) (h, hs) = ground (arith, erase-All P k m hs)

  pub retain-All :
      (P : Bytes × V → Type 0) (p : V → Bool) (m : List (Bytes × V)) → All P m → All P (retain p m)
  unfolding retain
  retain-All P p [] h = tt
  retain-All P p ((i, w) ∷ m) (h, hs) = ground (arith, retain-All P p m hs)

  pub insert-All_names :
      (P : Bytes → Type 0) (k : Bytes) (v : V) (m : List (Bytes × V))
      → P k
      → All (λ x. P x.0) m
      → All (λ x. P x.0) (insert k v m)
  unfolding insert
  insert-All_names P k v [] p h = (p, tt)
  insert-All_names P k v ((i, w) ∷ m) p (h, hs) = ground (arith, insert-All_names P k v m p hs)

  pub lookup-retain_cases :
      (p : V → Bool) (j : Bytes) (m : List (Bytes × V))
      → Distinct m
      → (lookup j (retain p m) ≡ lookup j m) ⊎ (lookup j (retain p m) ≡ none)
  lookup-retain_cases p j m h = ground (arith, lookup-retain p j m h)
