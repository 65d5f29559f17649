-- ===== src/RateLimit/Eviction.antt =====
-- What eviction removes from the table, and how many entries it leaves.
use go_httpbin.Base.{
  ℕ, ◌+◌, ◌≤◌, ◌<◌, ◌≡◌, refl, subst, ◌≢◌, ◌⊎◌, inl, inr, true, false, none, some, List, [], ◌∷◌,
  arith, ltb, if◌then◌else◌, ltb→lt, Bool-cases, length, All, Bytes, str_eq, str_eq_refl,
  str_eq_iff, str_ne, lookup,
}
use go_httpbin.RateLimit.{RateLimitEntry, IpRateLimiter, oldest_from, evict_oldest}
use go_httpbin.RateLimit.Table.{
  erase, Absent, Distinct, lookup_of_Absent, length-erase, name_of_lookup,
}

module _ {N : Type 0} where
  abbrev pub SeenAfter : ℕ → List (Bytes × RateLimitEntry N) → Type 0
  SeenAfter t = All (λ x. t ≤ x.1.last_seen)

  SeenAfter-mono :
      (s t : ℕ) (m : List (Bytes × RateLimitEntry N)) → s ≤ t → SeenAfter t m → SeenAfter s m
  SeenAfter-mono s t [] le h = tt
  SeenAfter-mono s t (x ∷ m) le (h, hs) = (omega arith, SeenAfter-mono s t m le hs)

  -- The entry of `key` is in the table and was seen no later than any other.
  abbrev pub IsOldest : Bytes → List (Bytes × RateLimitEntry N) → Type 0
  IsOldest key m = (e : RateLimitEntry N) × (lookup key m ≡ some e) × SeenAfter e.last_seen m

  lookup-cons_later :
      (k j : Bytes) (e x : RateLimitEntry N) (m : List (Bytes × RateLimitEntry N))
      → Absent k m
      → lookup j m ≡ some x
      → lookup j ((k, e) ∷ m) ≡ some x
  unfolding lookup
  lookup-cons_later k j e x m h found = ground (arith, str_eq_iff k j, lookup_of_Absent k m h)

  lookup-cons_self :
      (k : Bytes) (e : RateLimitEntry N) (m : List (Bytes × RateLimitEntry N))
      → lookup k ((k, e) ∷ m) ≡ some e
  unfolding lookup
  lookup-cons_self k e m = rw (str_eq_refl k)

  oldest_from_cons :
      (key k : Bytes) (t : ℕ) (e : RateLimitEntry N) (m : List (Bytes × RateLimitEntry N))
      → oldest_from false key t ((k, e) ∷ m) ≡ (
          if ltb e.last_seen t
          then oldest_from false k e.last_seen m
          else oldest_from false key t m)
  unfolding oldest_from
  oldest_from_cons key k t e m = refl

  abbrev IsOlder : Bytes → ℕ → Bytes → List (Bytes × RateLimitEntry N) → Type 0
  IsOlder key t found m =
      ((found ≡ key) × SeenAfter t m)
      ⊎ ((e : RateLimitEntry N) × (lookup found m ≡ some e)
          × (e.last_seen < t)
          × SeenAfter e.last_seen m)

  IsOlder-cons_newest :
      (key k found : Bytes) (t : ℕ) (e : RateLimitEntry N) (m : List (Bytes × RateLimitEntry N))
      → Absent k m
      → e.last_seen < t
      → IsOlder k e.last_seen found m
      → IsOlder key t found ((k, e) ∷ m)
  IsOlder-cons_newest key k found t e m h lt (inl (same, after)) =
      inr (e, rw same (lookup-cons_self k e m), lt, (omega arith, after))
  IsOlder-cons_newest key k found t e m h lt (inr (x, found_x, older, after)) =
      inr (x, lookup-cons_later k found e x m h found_x, omega arith, (omega arith, after))

  IsOlder-cons :
      (key k found : Bytes) (t : ℕ) (e : RateLimitEntry N) (m : List (Bytes × RateLimitEntry N))
      → Absent k m
      → t ≤ e.last_seen
      → IsOlder key t found m
      → IsOlder key t found ((k, e) ∷ m)
  IsOlder-cons key k found t e m h le (inl (same, after)) = inl (same, (le, after))
  IsOlder-cons key k found t e m h le (inr (x, found_x, older, after)) =
      inr (x, lookup-cons_later k found e x m h found_x, older, (omega arith, after))

  oldest_from-IsOlder :
      (key : Bytes) (t : ℕ) (m : List (Bytes × RateLimitEntry N))
      → Distinct m
      → IsOlder key t (oldest_from false key t m) m
  oldest_from-IsOlder key t [] h = inl (unfold oldest_from in refl, tt)
  oldest_from-IsOlder key t ((k, e) ∷ m) (h, hs) = elim (Bool-cases (ltb e.last_seen t)) [
    | inl older ↦
        rw (oldest_from_cons key k t e m, older)
          (IsOlder-cons_newest key k _ t e m h (ltb→lt _ _ older)
            (oldest_from-IsOlder k e.last_seen m hs))
    | inr newer ↦
        rw (oldest_from_cons key k t e m, newer)
          (IsOlder-cons key k _ t e m h (ground arith) (oldest_from-IsOlder key t m hs))
  ]

  -- The loop finds an oldest entry of a table that is not empty.
  pub oldest_from-IsOldest :
      (m : List (Bytes × RateLimitEntry N))
      → Distinct m
      → m ≢ []
      → IsOldest (oldest_from true [] 0 m) m
  oldest_from-IsOldest [] h ne = absurd (ne refl)
  oldest_from-IsOldest ((k, e) ∷ m) (h, hs) ne =
      let first_entry : oldest_from true [] 0 ((k, e) ∷ m) ≡ oldest_from false k e.last_seen m =
        unfold oldest_from in refl in
      elim (oldest_from-IsOlder k e.last_seen m hs) [
        | inl (same, after) ↦
            rw (first_entry, same) (e, lookup-cons_self k e m, (omega arith, after))
        | inr (x, found, older, after) ↦
            rw first_entry (x, lookup-cons_later k _ e x m h found, (omega arith, after))
      ]

evict_oldest_named :
    {N : Type 0} (rl : IpRateLimiter N)
    → oldest_from true [] 0 rl.buckets ≢ []
    → (evict_oldest rl).buckets ≡ erase (oldest_from true [] 0 rl.buckets) rl.buckets
unfolding evict_oldest
evict_oldest_named rl h = ground arith

-- On a table whose keys are distinct and not empty, evictOldestLocked removes exactly one entry,
-- which was seen no later than every other.
pub evict_oldest-IsOldest :
    {N : Type 0} (rl : IpRateLimiter N)
    → Distinct rl.buckets
    → All (λ x. x.0 ≢ []) rl.buckets
    → rl.buckets ≢ []
    → (key : Bytes) × IsOldest key rl.buckets
      × ((evict_oldest rl).buckets ≡ erase key rl.buckets)
      × (length (evict_oldest rl).buckets + 1 ≡ length rl.buckets)
evict_oldest-IsOldest rl h names ne =
    let (e, found, oldest) = oldest_from-IsOldest rl.buckets h ne in
    let key = oldest_from true [] 0 rl.buckets in
    let gone = evict_oldest_named rl (name_of_lookup (λ k. k ≢ []) key rl.buckets names found) in
    (key, (e, found, oldest), gone, rw gone (length-erase key rl.buckets e h found))

pub evict_oldest_empty :
    {N : Type 0} (rl : IpRateLimiter N)
    → oldest_from true [] 0 rl.buckets ≡ []
    → evict_oldest rl ≡ rl
unfolding evict_oldest
evict_oldest_empty rl h = rw h refl

All-lookup :
    {V : Type 0} (P : Bytes × V → Type 0) (k : Bytes) (v : V) (m : List (Bytes × V))
    → All P m
    → lookup k m ≡ some v
    → P (k, v)
unfolding lookup
All-lookup P k v [] h e = (let f : none ≡ some v = e in cc)
All-lookup P k v ((j, w) ∷ m) (h, hs) e = elim (Bool-cases (str_eq j k)) [
  | inl same ↦ subst P (ground (arith, str_eq_iff j k)) h
  | inr other ↦ All-lookup P k v m hs (ground arith)
]

-- The entry of the empty key was seen before every other.
abbrev pub IsFirst : {N : Type 0} → RateLimitEntry N → List (Bytes × RateLimitEntry N) → Type 0
IsFirst e = All (λ x. x.0 ≢ [] → e.last_seen < x.1.last_seen)

-- Where the empty key has an entry that was seen before every other, evictOldestLocked removes
-- nothing, however full the table is.
pub evict_oldest_unnamed :
    {N : Type 0} (rl : IpRateLimiter N) (e : RateLimitEntry N)
    → Distinct rl.buckets
    → rl.buckets ≢ []
    → lookup [] rl.buckets ≡ some e
    → IsFirst e rl.buckets
    → evict_oldest rl ≡ rl
evict_oldest_unnamed rl e h ne unnamed earlier =
    let key = oldest_from true [] 0 rl.buckets in
    let (x, found, oldest) = oldest_from-IsOldest rl.buckets h ne in
    elim (Bool-cases (str_eq key [])) [
      | inl empty ↦ evict_oldest_empty rl ((str_eq_iff key []).0 empty)
      | inr named ↦
          let later =
            All-lookup (λ y. y.0 ≢ [] → e.last_seen < y.1.last_seen) key x rl.buckets earlier
              found in
          let after =
            All-lookup (λ y. x.last_seen ≤ y.1.last_seen) [] e rl.buckets oldest unnamed in
          let contradiction : e.last_seen < x.last_seen = later (str_ne key [] named) in
          absurd (omega arith)
    ]
