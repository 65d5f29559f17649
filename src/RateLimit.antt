-- ===== src/RateLimit.antt =====
-- httpbin/ratelimit.go: the token bucket, the table of buckets by client, and its middleware.
-- Time is read from the monotonic clock, in nanoseconds. A float64 is a value of a type `N` with the
-- operations of `Float64`. A Go map is an association list, in any order; a range over it goes along
-- the list. The mutex makes each call of `allow` and each cleanup one step.
pub mod Table
pub mod Eviction
pub mod Bounds
pub mod Burst
use go_httpbin.Base.{
  ℕ, Bool, true, false, not, ◌||◌, Option, none, some, List, [], ◌∷◌, ◌++◌, ltb, leb, if◌then◌else◌,
  length, take, drop, Bytes, codes, str_eq, lookup, insert, is_empty,
}
use go_httpbin.Base.Int.{ℤ, pos, sub_ℕ, ltb_ℤ, ◌-ℤ◌}
use go_httpbin.Http.{Request, Call, Handler, set_header, write_error}
use Table.{erase, retain}

-- The float64 operations that the file uses.
pub record Float64 (N : Type 0) : Type 0 where
  pub add : N → N → N
  pub sub : N → N → N
  pub mul : N → N → N
  pub lt : N → N → Bool
  pub of_int : ℕ → N
  -- time.Duration.Seconds
  pub seconds : ℤ → N

pub record TokenBucket (N : Type 0) : Type 0 where
  pub tokens : N
  pub max_tokens : N
  pub refill_rate : N
  pub last_refill : ℕ

pub record RateLimitEntry (N : Type 0) : Type 0 where
  pub bucket : TokenBucket N
  pub last_seen : ℕ

-- A burst is not negative. A negative MaxTrackedIPs is 0 here, which allows as little.
pub record RateLimiterConfig (N : Type 0) : Type 0 where
  pub rate : N
  pub burst : ℕ
  pub max_tracked_ips : ℕ
  pub entry_lifetime : ℤ

-- `max_entries` is compared with a length only, so that a negative one acts as 0 does.
pub record IpRateLimiter (N : Type 0) : Type 0 where
  pub rate : N
  pub burst : N
  pub buckets : List (Bytes × RateLimitEntry N)
  pub max_entries : ℕ
  pub entry_lifetime : ℤ

module _ {N : Type 0} where
  -- The loop of evictOldestLocked over the oldest key and its time so far.
  unfoldable pub oldest_from : Bool → Bytes → ℕ → List (Bytes × RateLimitEntry N) → Bytes
  oldest_from is_first key t [] = key
  oldest_from is_first key t ((k, e) ∷ m) =
      let older = oldest_from false k e.last_seen m in
      let same = oldest_from false key t m in if is_first || ltb e.last_seen t then older else same

  unfoldable pub evict_expired : IpRateLimiter N → ℕ → IpRateLimiter N
  unfolding ◌-ℤ◌
  evict_expired rl now =
      let cutoff = pos now -ℤ rl.entry_lifetime in
      record rl { buckets = retain (λ e. not (ltb_ℤ (pos e.last_seen) cutoff)) rl.buckets }

  unfoldable pub evict_oldest : IpRateLimiter N → IpRateLimiter N
  unfolding oldest_from
  evict_oldest rl =
      let key = oldest_from true [] 0 rl.buckets in
      if is_empty key then rl else record rl { buckets = erase key rl.buckets }

  -- The two tests of `allow` before it adds an entry.
  unfoldable pub make_room : IpRateLimiter N → ℕ → IpRateLimiter N
  make_room rl now =
      let rl' = if leb rl.max_entries (length rl.buckets) then evict_expired rl now else rl in
      if leb rl'.max_entries (length rl'.buckets) then evict_oldest rl' else rl'

module _ {N : Type 0} (fl : Float64 N) where
  open fl use {add, sub, mul, lt, of_int, seconds}

  unfoldable pub bucket_allow : TokenBucket N → ℕ → TokenBucket N × Bool
  bucket_allow b now =
      let refilled = add b.tokens (mul (seconds (sub_ℕ now b.last_refill)) b.refill_rate) in
      let tokens = if lt b.max_tokens refilled then b.max_tokens else refilled in
      if lt tokens (of_int 1)
      then (record b { tokens = tokens; last_refill = now }, false)
      else (record b { tokens = sub tokens (of_int 1); last_refill = now }, true)

  unfoldable pub new_ip_rate_limiter : RateLimiterConfig N → IpRateLimiter N
  new_ip_rate_limiter cfg = record {
    rate = cfg.rate;
    burst = of_int cfg.burst;
    buckets = [];
    max_entries = cfg.max_tracked_ips;
    entry_lifetime = cfg.entry_lifetime;
  }

  unfoldable pub new_entry : IpRateLimiter N → ℕ → RateLimitEntry N
  new_entry rl now = record {
    bucket = record {
      tokens = sub rl.burst (of_int 1);
      max_tokens = rl.burst;
      refill_rate = rl.rate;
      last_refill = now;
    };
    last_seen = now;
  }

  unfoldable pub allow : IpRateLimiter N → Bytes → ℕ → IpRateLimiter N × Bool
  allow rl key now = elim (lookup key rl.buckets) [
    | none ↦
        let roomy = make_room rl now in
        (record roomy { buckets = insert key (new_entry roomy now) roomy.buckets }, true)
    | some entry ↦
        let spent = bucket_allow entry.bucket now in
        let entry' : RateLimitEntry N = record { bucket = spent.0; last_seen = now } in
        (record rl { buckets = insert key entry' rl.buckets }, spent.1)
  ]

-- net.ParseIP (its 16 bytes), IP.Mask to the first 24 or 64 bits with IP.String.
pub record IpText : Type 0 where
  pub parse_ip : Bytes → Option Bytes
  pub show_ip : Bytes → Bytes

-- IP.To4
unfoldable pub to4 : Bytes → Option Bytes
to4 ip =
    if str_eq (take 12 ip) (0 ∷ 0 ∷ 0 ∷ 0 ∷ 0 ∷ 0 ∷ 0 ∷ 0 ∷ 0 ∷ 0 ∷ 255 ∷ 255 ∷ [])
    then some (drop 12 ip)
    else none

unfoldable pub normalize_ip_for_rate_limit : IpText → Bytes → Bool → Bytes
unfolding to4
normalize_ip_for_rate_limit net raw_ip false = raw_ip
normalize_ip_for_rate_limit net raw_ip true = elim (net.parse_ip raw_ip) [
  | none ↦ raw_ip
  | some ip ↦ elim (to4 ip) [
    | some ip4 ↦ net.show_ip (take 3 ip4 ++ 0 ∷ []) ++ codes "/24"
    | none ↦ net.show_ip (take 8 ip ++ 0 ∷ 0 ∷ 0 ∷ 0 ∷ 0 ∷ 0 ∷ 0 ∷ 0 ∷ []) ++ codes "/64"
  ]
]

-- The limiter after the request, and the calls made for it.
unfoldable pub rate_limit_middleware :
    {N : Type 0}
    → Float64 N
    → IpText
    → IpRateLimiter N
    → (Request → Bytes)
    → Bool
    → Handler
    → ℕ
    → Request
    → IpRateLimiter N × List Call
rate_limit_middleware fl net limiter client_ip use_subnets h now r =
    let key = normalize_ip_for_rate_limit net (client_ip r) use_subnets in
    let answer = allow fl limiter key now in
    if answer.1
    then (answer.0, h r)
    else (answer.0, set_header (codes "Retry-After") (codes "1") ∷ write_error 429 none)
