-- ===== src/Caches/Bounded.antt =====
-- What a bounded cache holds, after any history of its calls.
use go_httpbin.Base.{
  ℕ, zero, suc, ◌+◌, ◌-◌, ◌%◌, ◌≤◌, ◌≡◌, refl, ap, ◌∙◌, ◌⊎◌, inl, inr, Option, none, some, List, [],
  ◌∷◌, arith, dec_lt, leb, leb→le, Bool-cases, Option-cases, length, get_elem?,
}
use mathlib.Core.Logic.{ite}
use go_httpbin.Caches.{BoundedCache, new_bounded_cache, find, delete, assign, get, make_room, put}
use native.Mathlib.Nat.{mod-lt}
use Prim.Native.Nat.{max}

module _ {ℓ} {K V : Type ℓ} (same : Discrete K) where
  length-delete : (k : K) (m : List (K × V)) → length (delete same k m) ≤ length m
  unfolding delete
  length-delete k [] = omega arith
  length-delete k ((j, v) ∷ m) = ground (arith, length-delete k m)

  length-delete_head :
      (j k : K)
      → j ≡ k
      → (v : V) (m : List (K × V)) → length (delete same k ((j, v) ∷ m)) ≤ length m
  unfolding delete
  length-delete_head j k h v m = ground (arith, length-delete k m)

  abbrev key_of : K → Option (K × V) → K
  key_of j none = j
  key_of j (some e) = e.0

  length-delete_at :
      (i : ℕ) (m : List (K × V)) (e : K × V)
      → get_elem? m i ≡ some e
      → length (delete same e.0 m) + 1 ≤ length m
  unfolding delete
  length-delete_at i [] e h = cc
  length-delete_at zero ((j, v) ∷ m) e h =
      omega (arith, length-delete_head j e.0 (ap (key_of j) h) v m)
  length-delete_at (suc i) ((j, v) ∷ m) e h =
      ground (arith, length-delete_at i m e h, length-delete e.0 m)

  length-assign : (k : K) (v : V) (m : List (K × V)) → length (assign same k v m) ≤ length m + 1
  unfolding assign
  length-assign k v [] = omega arith
  length-assign k v ((j, w) ∷ m) = ground (arith, length-assign k v m)

  find-assign :
      (k j : K) (v : V) (m : List (K × V))
      → find same j (assign same k v m) ≡ ite (same k j) (some v) (find same j m)
  unfolding assign find
  find-assign k j v [] = refl
  find-assign k j v ((i, w) ∷ m) = ground (arith, find-assign k j v m)

  find-delete :
      (k j : K) (m : List (K × V))
      → find same j (delete same k m) ≡ ite (same k j) none (find same j m)
  unfolding delete find
  find-delete k j [] = ground arith
  find-delete k j ((i, w) ∷ m) = ground (arith, find-delete k j m)

  out_of_range : (m : List (K × V)) (i : ℕ) → get_elem? m i ≡ none → length m ≤ i
  out_of_range [] i h = omega arith
  out_of_range (e ∷ m) zero h = cc
  out_of_range (e ∷ m) (suc i) h = omega (arith, out_of_range m i h)

  length-make_room :
      (pick : ℕ) (m : List (K × V)) (n : ℕ) → length m ≤ suc n → length (make_room same pick m) ≤ n
  unfolding make_room
  length-make_room pick m n h = elim (Option-cases (get_elem? m (pick % length m))) [
    | inl nothing ↦
        rw (make_room, nothing)
          (elim (dec_lt 0 (length m)) [
            | yes some_entry ↦
                omega (arith, out_of_range m (pick % length m) nothing, mod-lt pick some_entry)
            | no empty ↦ omega arith
          ])
    | inr (e, found) ↦
        rw (make_room, found) (omega (arith, length-delete_at (pick % length m) m e found))
  ]

  find-make_room :
      (pick : ℕ) (j : K) (m : List (K × V))
      → (find same j (make_room same pick m) ≡ find same j m)
        ⊎ (find same j (make_room same pick m) ≡ none)
  unfolding make_room
  find-make_room pick j m = elim (Option-cases (get_elem? m (pick % length m))) [
    | inl nothing ↦ inl (rw (make_room, nothing) refl)
    | inr (e, found) ↦ elim (same e.0 j) [
      | yes h ↦ inr (rw (make_room, found) (ground (arith, find-delete e.0 j m)))
      | no h ↦ inl (rw (make_room, found) (ground (arith, find-delete e.0 j m)))
    ]
  ]

  self_key : (k : K) (a b : Option V) → ite (same k k) a b ≡ a
  self_key k a b = ground arith

  length-put :
      (pick : ℕ) (k : K) (v : V) (c : BoundedCache K V)
      → length c.entries ≤ max 1 c.max_size
      → length (put same pick k v c).entries ≤ max 1 c.max_size
  unfolding put
  length-put pick k v c h = elim (Bool-cases (leb c.max_size (length c.entries))) [
    | inl full ↦ rw full (
        omega (
          arith,
          length-assign k v (make_room same pick c.entries),
          length-make_room pick c.entries (max 1 c.max_size - 1) (omega arith),
        ))
    | inr room ↦ rw room (ground (arith, length-assign k v c.entries))
  ]

  max_size-put :
      (pick : ℕ) (k : K) (v : V) (c : BoundedCache K V)
      → (put same pick k v c).max_size ≡ c.max_size
  unfolding put
  max_size-put pick k v c = refl

  -- The states of a cache made for `n` entries, under any calls of put and any order of its map.
  pub data Reaches (n : ℕ) : BoundedCache K V → Type ℓ where
    new : Reaches n (new_bounded_cache n)
    puts :
        (c : BoundedCache K V) (pick : ℕ) (k : K) (v : V)
        → Reaches n c
        → Reaches n (put same pick k v c)

  Reaches-size :
      (n : ℕ) (c : BoundedCache K V) → Reaches n c → (c.max_size ≡ n) × (length c.entries ≤ max 1 n)
  unfolding new_bounded_cache
  Reaches-size n _ new = (refl, omega arith)
  Reaches-size n _ (puts c pick k v before) =
      let (size_is, small) = Reaches-size n c before in
      (
        max_size-put pick k v c ∙ size_is,
        omega (arith, size_is, length-put pick k v c (omega (arith, size_is, small))),
      )

  pub find-put :
      (pick : ℕ) (k j : K) (v : V) (c : BoundedCache K V)
      → (get same j (put same pick k v c) ≡ ite (same k j) (some v) (get same j c))
        ⊎ ((get same j (put same pick k v c) ≡ ite (same k j) (some v) none)
            × (c.max_size ≤ length c.entries))
  unfolding get put
  find-put pick k j v c = elim (Bool-cases (leb c.max_size (length c.entries))) [
    | inr room ↦ inl (rw room (find-assign k j v c.entries))
    | inl full ↦ elim (find-make_room pick j c.entries) [
      | inl kept ↦ inl (rw (full, find-assign k j v (make_room same pick c.entries), kept) refl)
      | inr gone ↦ inr (
          rw (full, find-assign k j v (make_room same pick c.entries), gone)
            (refl, leb→le c.max_size (length c.entries) full))
    ]
  ]

  pub get-put :
      (pick : ℕ) (k : K) (v : V) (c : BoundedCache K V) → get same k (put same pick k v c) ≡ some v
  get-put pick k v c = elim (find-put pick k k v c) [
    | inl kept ↦ kept ∙ self_key k (some v) (get same k c)
    | inr (gone, full) ↦ gone ∙ self_key k (some v) none
  ]

  -- After any history, of a cache made for `n` entries: it holds at most `n` of them (one, if that is
  -- 0); what is put is then found at its key; and another key's entry is as before, or it is gone and
  -- the cache was full.
  pub Reaches-put :
      (n : ℕ) (c : BoundedCache K V) (pick : ℕ) (k j : K) (v : V)
      → Reaches n c
      → (length c.entries ≤ max 1 n)
        × (get same k (put same pick k v c) ≡ some v)
        × ((get same j (put same pick k v c) ≡ ite (same k j) (some v) (get same j c))
            ⊎ ((get same j (put same pick k v c) ≡ ite (same k j) (some v) none)
                × (n ≤ length c.entries)))
  Reaches-put n c pick k j v before =
      let (size_is, small) = Reaches-size n c before in
      (
        small,
        get-put pick k v c,
        elim (find-put pick k j v c) [
          | inl kept ↦ inl kept
          | inr (gone, full) ↦ inr (gone, omega (arith, size_is, full))
        ],
      )
