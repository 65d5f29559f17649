-- ===== src/RateLimit/Burst.antt =====
-- What one client gets: its own entry, the isolation of the others, and its burst.
use go_httpbin.Base.{
  ℕ, zero, suc, ◌+◌, ◌^◌, ◌≤◌, ◌<◌, ◌≡◌, refl, ap, ◌∙◌, ◌≢◌, ◌⊎◌, inl, inr, Bool, true, false, none,
  some, List, arith, ltb, if◌then◌else◌, Option-cases, length, Bytes, lookup, insert,
  lookup-insert_self, lookup-insert_ne,
}
use Prim.Native.Nat.{min}
use go_httpbin.Base.Int.{pos, sub_ℕ}
use go_httpbin.RateLimit.{
  Float64, TokenBucket, RateLimitEntry, IpRateLimiter, evict_expired, evict_oldest, make_room,
  new_entry, allow, bucket_allow,
}
use go_httpbin.RateLimit.Table.{Distinct, lookup-erase, lookup-retain_cases}
use go_httpbin.RateLimit.Bounds.{admitted, seen_again, allow_new, allow_known, evict_oldest_cases}

module _ {N : Type 0} where
  -- What happens to an entry while room is made: nothing, or it goes.
  abbrev IsKeptOrGone : IpRateLimiter N → List (Bytes × RateLimitEntry N) → Bytes → Type 0
  IsKeptOrGone rl m j = (lookup j m ≡ lookup j rl.buckets) ⊎ (lookup j m ≡ none)

  evict_expired-lookup :
      (rl : IpRateLimiter N) (now : ℕ) (j : Bytes)
      → Distinct rl.buckets
      → IsKeptOrGone rl (evict_expired rl now).buckets j
  unfolding evict_expired
  evict_expired-lookup rl now j h = lookup-retain_cases _ j rl.buckets h

  evict_oldest-lookup :
      (rl : IpRateLimiter N) (j : Bytes) → IsKeptOrGone rl (evict_oldest rl).buckets j
  evict_oldest-lookup rl j =
      evict_oldest_cases (λ m. IsKeptOrGone rl m j) rl (inl refl)
        (λ k. ground (arith, lookup-erase k j rl.buckets))

  make_room-lookup :
      (rl : IpRateLimiter N) (now : ℕ) (j : Bytes)
      → Distinct rl.buckets
      → (lookup j (make_room rl now).buckets ≡ lookup j rl.buckets)
        ⊎ ((lookup j (make_room rl now).buckets ≡ none) × (rl.max_entries ≤ length rl.buckets))
  unfolding make_room
  make_room-lookup rl now j h = ground (
    arith,
    evict_expired-lookup rl now j h,
    evict_oldest-lookup rl j,
    evict_oldest-lookup (evict_expired rl now) j,
  )

  module _ (fl : Float64 N) where
    -- A request leaves its own key in the table, seen now. Another key's entry is as before, or it
    -- was removed from a full table to make room for a key that was not in it.
    pub allow-lookup :
        (rl : IpRateLimiter N) (key j : Bytes) (now : ℕ)
        → Distinct rl.buckets
        → key ≢ j
        → ((e : RateLimitEntry N) × (lookup key (allow fl rl key now).0.buckets ≡ some e)
            × (e.last_seen ≡ now))
          × ((lookup j (allow fl rl key now).0.buckets ≡ lookup j rl.buckets)
              ⊎ ((lookup j (allow fl rl key now).0.buckets ≡ none)
                  × (lookup key rl.buckets ≡ none)
                  × (rl.max_entries ≤ length rl.buckets)))
    unfolding new_entry
    allow-lookup rl key j now h ne = elim (Option-cases (lookup key rl.buckets)) [
      | inl new ↦
          let room = make_room rl now in
          rw (allow_new fl rl key now new) (
            (
              new_entry fl room now,
              lookup-insert_self key (new_entry fl room now) room.buckets,
              refl,
            ),
            rw (lookup-insert_ne key j (new_entry fl room now) room.buckets ne)
                (ground (arith, make_room-lookup rl now j h)),
          )
      | inr (entry, old) ↦ rw (allow_known fl rl key now entry old) (
        (seen_again fl entry now, lookup-insert_self key _ rl.buckets, refl),
        inl (lookup-insert_ne key j (seen_again fl entry now) rl.buckets ne),
      )
    ]

-- What the burst relies on: float64 is exact on the integers up to 2 ^ 53, and no time refills nothing.
pub record IsExact {N : Type 0} (fl : Float64 N) (rate : N) : Type 0 where
  pub sub_one : (n : ℕ) → n < 2 ^ 53 → fl.sub (fl.of_int (suc n)) (fl.of_int 1) ≡ fl.of_int n
  pub lt_int : (m n : ℕ) → m ≤ 2 ^ 53 → n ≤ 2 ^ 53 → fl.lt (fl.of_int m) (fl.of_int n) ≡ ltb m n
  pub add_nothing : (n : ℕ) → fl.add (fl.of_int n) (fl.mul (fl.seconds (pos 0)) rate) ≡ fl.of_int n

module _ {N : Type 0} (fl : Float64 N) where
  -- A bucket with `n` whole tokens left at the time `now`.
  abbrev pub bucket_of : ℕ → ℕ → N → ℕ → TokenBucket N
  bucket_of n limit rate now = record {
    tokens = fl.of_int n;
    max_tokens = fl.of_int limit;
    refill_rate = rate;
    last_refill = now;
  }

  not_lt : (m n : ℕ) → n ≤ m → ltb m n ≡ false
  not_lt m n h = ground arith

  no_time : (now : ℕ) → sub_ℕ now now ≡ pos 0
  no_time now = ground arith

  bucket_allow_some :
      (n limit : ℕ) (rate : N) (now : ℕ)
      → IsExact fl rate
      → limit ≤ 2 ^ 53
      → suc n ≤ limit
      → bucket_allow fl (bucket_of (suc n) limit rate now) now ≡ (bucket_of n limit rate now, true)
  unfolding bucket_allow
  bucket_allow_some n limit rate now x fits le = rw (
    no_time now,
    x.add_nothing (suc n),
    x.lt_int limit (suc n) fits (omega arith),
    not_lt limit (suc n) le,
    x.lt_int (suc n) 1 (omega arith) (omega arith),
    not_lt (suc n) 1 (omega arith),
    x.sub_one n (omega arith),
  )

  bucket_allow_none :
      (limit : ℕ) (rate : N) (now : ℕ)
      → IsExact fl rate
      → limit ≤ 2 ^ 53
      → bucket_allow fl (bucket_of 0 limit rate now) now ≡ (bucket_of 0 limit rate now, false)
  unfolding bucket_allow
  bucket_allow_none limit rate now x fits = rw (
    no_time now,
    x.add_nothing 0,
    x.lt_int limit 0 fits (omega arith),
    not_lt limit 0 (omega arith),
    x.lt_int 0 1 (omega arith) (omega arith),
  )

  -- How many of `k` requests of the key at one time are let through.
  pub granted : ℕ → IpRateLimiter N → Bytes → ℕ → ℕ
  granted zero rl key now = 0
  granted (suc k) rl key now =
      let answer = allow fl rl key now in (if answer.1 then 1 else 0) + granted k answer.0 key now

  granted_step :
      (k : ℕ) (rl rl' : IpRateLimiter N) (key : Bytes) (now : ℕ) (done : Bool)
      → allow fl rl key now ≡ (rl', done)
      → granted (suc k) rl key now ≡ (if done then 1 else 0) + granted k rl' key now
  unfolding granted
  granted_step k rl rl' key now done e = rw e

  abbrev entry_of : ℕ → ℕ → N → ℕ → RateLimitEntry N
  entry_of n limit rate now = record { bucket = bucket_of n limit rate now; last_seen = now }

  abbrev with_entry : IpRateLimiter N → Bytes → RateLimitEntry N → IpRateLimiter N
  with_entry rl key entry = record rl { buckets = insert key entry rl.buckets }

  -- A request of a client with `m` tokens, of which the bucket keeps `n`.
  allow_entry :
      (rl : IpRateLimiter N) (key : Bytes) (now m n limit : ℕ) (rate : N) (done : Bool)
      → lookup key rl.buckets ≡ some (entry_of m limit rate now)
      → bucket_allow fl (bucket_of m limit rate now) now ≡ (bucket_of n limit rate now, done)
      → allow fl rl key now ≡ (with_entry rl key (entry_of n limit rate now), done)
  allow_entry rl key now m n limit rate done e spent =
      rw (allow_known fl rl key now (entry_of m limit rate now) e, spent)

  granted_known :
      (k : ℕ) (rl : IpRateLimiter N) (key : Bytes) (now n limit : ℕ) (rate : N)
      → IsExact fl rate
      → limit ≤ 2 ^ 53
      → n ≤ limit
      → lookup key rl.buckets ≡ some (entry_of n limit rate now)
      → granted k rl key now ≡ min k n
  granted_known zero rl key now n limit rate x fits le e = unfold granted in omega arith
  granted_known (suc k) rl key now zero limit rate x fits le e =
      let rl' = with_entry rl key (entry_of 0 limit rate now) in
      omega (
        arith,
        granted_step k rl rl' key now false (
            allow_entry rl key now 0 0 limit rate false e
              (bucket_allow_none limit rate now x fits)),
        granted_known k rl' key now 0 limit rate x fits le (lookup-insert_self key _ rl.buckets),
      )
  granted_known (suc k) rl key now (suc n) limit rate x fits le e =
      let rl' = with_entry rl key (entry_of n limit rate now) in
      omega (
        arith,
        granted_step k rl rl' key now true (
            allow_entry rl key now (suc n) n limit rate true e
              (bucket_allow_some n limit rate now x fits le)),
        granted_known k rl' key now n limit rate x fits (omega arith)
            (lookup-insert_self key _ rl.buckets),
      )

  make_room-config :
      (rl : IpRateLimiter N) (now : ℕ)
      → ((make_room rl now).rate ≡ rl.rate) × ((make_room rl now).burst ≡ rl.burst)
  unfolding make_room evict_expired evict_oldest
  make_room-config rl now = ground arith

  new_entry-full :
      (rl : IpRateLimiter N) (now n : ℕ)
      → IsExact fl rl.rate
      → rl.burst ≡ fl.of_int (suc n)
      → n < 2 ^ 53
      → new_entry fl (make_room rl now) now ≡ entry_of n (suc n) rl.rate now
  unfolding new_entry
  new_entry-full rl now n x burst fits =
      let config = make_room-config rl now in rw (config.0, config.1, burst, x.sub_one n fits)

  -- A client that is not in the table gets exactly its burst at one time, if the burst is not 0 and
  -- float64 is exact on the numbers at hand.
  pub granted-min :
      (k : ℕ) (rl : IpRateLimiter N) (key : Bytes) (now n : ℕ)
      → IsExact fl rl.rate
      → rl.burst ≡ fl.of_int (suc n)
      → n < 2 ^ 53
      → lookup key rl.buckets ≡ none
      → granted k rl key now ≡ min k (suc n)
  granted-min zero rl key now n x burst fits e = unfold granted in omega arith
  granted-min (suc k) rl key now n x burst fits e =
      let rl' = admitted fl (make_room rl now) key now in
      omega (
        arith,
        granted_step k rl rl' key now true (allow_new fl rl key now e),
        granted_known k rl' key now n (suc n) rl.rate x fits (omega arith) (
            lookup-insert_self key _ (make_room rl now).buckets
            ∙ ap some (new_entry-full rl now n x burst fits)),
      )
