-- ===== src/RateLimit/Bounds.antt =====
-- The table of the limiter: distinct keys, and no more entries than the configuration allows.
use go_httpbin.Base.{
  ℕ, suc, ◌-◌, ◌≤◌, ◌≡◌, refl, ◌≢◌, inl, inr, true, none, some, List, [], ◌∷◌, arith, leb,
  if◌then◌else◌, Bool-cases, Option-cases, length, All, Bytes, lookup, insert, is_empty,
}
use go_httpbin.RateLimit.{
  Float64, RateLimitEntry, RateLimiterConfig, IpRateLimiter, evict_expired, evict_oldest, make_room,
  oldest_from, new_ip_rate_limiter, new_entry, allow, bucket_allow,
}
use go_httpbin.RateLimit.Table.{
  erase, Distinct, erase-Distinct, retain-Distinct, insert-Distinct, length-insert,
  length-retain-le, erase-All, retain-All, insert-All_names,
}
use go_httpbin.RateLimit.Eviction.{evict_oldest-IsOldest, evict_oldest_empty}

-- Keys are distinct and not empty, and there are at most `max_entries` of them (one, if that is 0).
pub record IsValid {N : Type 0} (rl : IpRateLimiter N) : Type 0 where
  pub distinct : Distinct rl.buckets
  pub named : All (λ x. x.0 ≢ []) rl.buckets
  pub bounded : length rl.buckets ≤ suc (rl.max_entries - 1)

module _ {N : Type 0} where
  pub evict_expired-IsValid :
      (rl : IpRateLimiter N) (now : ℕ) → IsValid rl → IsValid (evict_expired rl now)
  unfolding evict_expired
  evict_expired-IsValid rl now v = record {
    distinct = retain-Distinct _ rl.buckets v.distinct;
    named = retain-All (λ x. x.0 ≢ []) _ rl.buckets v.named;
    bounded = omega (arith, length-retain-le _ rl.buckets, v.bounded);
  }

  -- What `make_room` leaves: a valid table with a free place.
  abbrev HasRoom : IpRateLimiter N → IpRateLimiter N → Type 0
  HasRoom rl rl' =
      Distinct rl'.buckets
      × All (λ x. x.0 ≢ []) rl'.buckets
      × (length rl'.buckets ≤ rl.max_entries - 1)
      × (rl'.max_entries ≡ rl.max_entries)

  pub evict_oldest_cases :
      (P : List (Bytes × RateLimitEntry N) → Type 0) (rl : IpRateLimiter N)
      → P rl.buckets
      → ((k : Bytes) → P (erase k rl.buckets))
      → P (evict_oldest rl).buckets
  unfolding evict_oldest
  evict_oldest_cases P rl same less =
      elim (Bool-cases (is_empty (oldest_from true [] 0 rl.buckets))) [
        | inl e ↦ rw e same
        | inr e ↦ rw e (less _)
      ]

  evict_oldest-max_entries : (rl : IpRateLimiter N) → (evict_oldest rl).max_entries ≡ rl.max_entries
  unfolding evict_oldest
  evict_oldest-max_entries rl = ground arith

  evict_oldest-length :
      (rl : IpRateLimiter N) (m : List (Bytes × RateLimitEntry N))
      → rl.buckets ≡ m
      → IsValid rl
      → length (evict_oldest rl).buckets ≤ rl.max_entries - 1
  evict_oldest-length rl [] e v =
      let none_left : oldest_from true [] 0 rl.buckets ≡ [] = rw e (unfold oldest_from in refl) in
      rw (evict_oldest_empty rl none_left, e) (omega arith)
  evict_oldest-length rl (x ∷ m) e v =
      let (key, oldest, gone, less) = evict_oldest-IsOldest rl v.distinct v.named (rw e (cc)) in
      omega (arith, less, v.bounded)

  evict_oldest-HasRoom : (rl : IpRateLimiter N) → IsValid rl → HasRoom rl (evict_oldest rl)
  evict_oldest-HasRoom rl v = (
    evict_oldest_cases Distinct rl v.distinct (λ k. erase-Distinct k rl.buckets v.distinct),
    evict_oldest_cases (All (λ x. x.0 ≢ [])) rl v.named
        (λ k. erase-All (λ x. x.0 ≢ []) k rl.buckets v.named),
    evict_oldest-length rl rl.buckets refl v,
    evict_oldest-max_entries rl,
  )

  evict_expired-max_entries :
      (rl : IpRateLimiter N) (now : ℕ) → (evict_expired rl now).max_entries ≡ rl.max_entries
  unfolding evict_expired
  evict_expired-max_entries rl now = refl

  -- The second test of `allow`.
  full-HasRoom :
      (rl : IpRateLimiter N)
      → IsValid rl
      → HasRoom rl (if leb rl.max_entries (length rl.buckets) then evict_oldest rl else rl)
  full-HasRoom rl v = elim (Bool-cases (leb rl.max_entries (length rl.buckets))) [
    | inl full ↦ rw full (evict_oldest-HasRoom rl v)
    | inr free ↦ rw free (v.distinct, v.named, ground arith, refl)
  ]

  pub make_room-HasRoom :
      (rl : IpRateLimiter N) (now : ℕ) → IsValid rl → HasRoom rl (make_room rl now)
  unfolding make_room evict_expired
  make_room-HasRoom rl now v = elim (Bool-cases (leb rl.max_entries (length rl.buckets))) [
    | inl full ↦ rw full (full-HasRoom (evict_expired rl now) (evict_expired-IsValid rl now v))
    | inr free ↦ rw (free, free) (v.distinct, v.named, ground arith, refl)
  ]

  module _ (fl : Float64 N) where
    new_ip_rate_limiter-IsValid : (cfg : RateLimiterConfig N) → IsValid (new_ip_rate_limiter fl cfg)
    unfolding new_ip_rate_limiter
    new_ip_rate_limiter-IsValid cfg = record { distinct = tt; named = tt; bounded = omega arith }

    abbrev pub admitted : IpRateLimiter N → Bytes → ℕ → IpRateLimiter N
    admitted roomy key now = record roomy {
      buckets = insert key (new_entry fl roomy now) roomy.buckets;
    }

    abbrev pub seen_again : RateLimitEntry N → ℕ → RateLimitEntry N
    seen_again entry now = record { bucket = (bucket_allow fl entry.bucket now).0; last_seen = now }

    pub allow_new :
        (rl : IpRateLimiter N) (key : Bytes) (now : ℕ)
        → lookup key rl.buckets ≡ none
        → allow fl rl key now ≡ (admitted (make_room rl now) key now, true)
    unfolding allow
    allow_new rl key now e = rw (e, allow)

    pub allow_known :
        (rl : IpRateLimiter N) (key : Bytes) (now : ℕ) (entry : RateLimitEntry N)
        → lookup key rl.buckets ≡ some entry
        → allow fl rl key now ≡ (
          record rl { buckets = insert key (seen_again entry now) rl.buckets },
          (bucket_allow fl entry.bucket now).1,
        )
    unfolding allow
    allow_known rl key now entry e = rw (e, allow)

    insert-IsValid :
        (rl : IpRateLimiter N) (key : Bytes) (entry : RateLimitEntry N)
        → key ≢ []
        → Distinct rl.buckets
        → All (λ x. x.0 ≢ []) rl.buckets
        → length (insert key entry rl.buckets) ≤ suc (rl.max_entries - 1)
        → IsValid (record rl { buckets = insert key entry rl.buckets })
    insert-IsValid rl key entry ne distinct named bounded = record {
      distinct = insert-Distinct key entry rl.buckets distinct;
      named = insert-All_names (λ k. k ≢ []) key entry rl.buckets ne named;
      bounded = bounded;
    }

    length-insert-le :
        (key : Bytes) (entry : RateLimitEntry N) (m : List (Bytes × RateLimitEntry N))
        → length (insert key entry m) ≤ suc (length m)
    length-insert-le key entry m = ground (arith, length-insert key entry m)

    -- A request of a client whose key is not empty keeps the table valid.
    pub allow-IsValid :
        (rl : IpRateLimiter N) (key : Bytes) (now : ℕ)
        → key ≢ []
        → IsValid rl
        → IsValid (allow fl rl key now).0
    allow-IsValid rl key now ne v = elim (Option-cases (lookup key rl.buckets)) [
      | inl new ↦
          let (distinct, named, free, same) = make_room-HasRoom rl now v in
          rw (allow_new rl key now new) (
            insert-IsValid (make_room rl now) key _ ne distinct named (
              omega (
                arith,
                length-insert-le key (new_entry fl (make_room rl now) now)
                    (make_room rl now).buckets,
                free,
                same,
              )))
      | inr (entry, old) ↦ rw (allow_known rl key now entry old) (
          insert-IsValid rl key _ ne v.distinct v.named
            (ground (arith, length-insert key (seen_again entry now) rl.buckets, v.bounded)))
    ]

-- What happens to the limiter: a request of a key, or a round of the cleanup goroutine.
pub data Event : Type 0 where
  request : Bytes → ℕ → Event
  cleanup : ℕ → Event

module _ {N : Type 0} (fl : Float64 N) where
  pub step : IpRateLimiter N → Event → IpRateLimiter N
  step rl (request key now) = (allow fl rl key now).0
  step rl (cleanup now) = evict_expired rl now

  pub run : IpRateLimiter N → List Event → IpRateLimiter N
  run rl [] = rl
  run rl (e ∷ es) = run (step rl e) es

  abbrev pub IsNamed : Event → Type 0
  IsNamed (request key now) = key ≢ []
  IsNamed (cleanup now) = Unit

  run-IsValid :
      (rl : IpRateLimiter N) (es : List Event) → All IsNamed es → IsValid rl → IsValid (run rl es)
  unfolding run step
  run-IsValid rl [] h v = v
  run-IsValid rl (request key now ∷ es) (h, hs) v =
      run-IsValid (allow fl rl key now).0 es hs (allow-IsValid fl rl key now h v)
  run-IsValid rl (cleanup now ∷ es) (h, hs) v = run-IsValid _ es hs (evict_expired-IsValid rl now v)

  -- After any history of requests with keys that are not empty and of cleanups, a new limiter holds
  -- distinct keys and at most `max_entries` of them (one, if that is 0).
  pub run-new-IsValid :
      (cfg : RateLimiterConfig N) (es : List Event)
      → All IsNamed es
      → IsValid (run (new_ip_rate_limiter fl cfg) es)
  run-new-IsValid cfg es h = run-IsValid _ es h (new_ip_rate_limiter-IsValid fl cfg)
