-- ===== src/Tests/RateLimits.antt =====
-- Concrete rate limiters, of httpbin/ratelimit.go, with whole numbers for float64.
use go_httpbin.Base.{
  ℕ, suc, ◌+◌, ◌-◌, ◌*◌, ◌/◌, ◌≤◌, ◌≡◌, refl, ◌≢◌, ◌⊎◌, none, some, List, [], ◌∷◌, arith, ltb,
  length, Bytes, codes, str_eq, str_ne, lookup,
}
use Prim.Native.Nat.{min}
use go_httpbin.Base.Int.{pos, pos_part}
use go_httpbin.RateLimit.{
  Float64, RateLimitEntry, RateLimiterConfig, IpRateLimiter, evict_oldest, new_ip_rate_limiter,
  allow,
}
use go_httpbin.RateLimit.Table.{erase}
use go_httpbin.RateLimit.Eviction.{IsOldest, evict_oldest-IsOldest, evict_oldest_unnamed}
use go_httpbin.RateLimit.Bounds.{IsValid, Event, request, cleanup, run, run-new-IsValid}
use go_httpbin.RateLimit.Burst.{allow-lookup, granted-min, granted, IsExact}

abbrev whole : Float64 ℕ
whole = record {
  add = λ a b. a + b;
  sub = λ a b. a - b;
  mul = λ a b. a * b;
  lt = λ a b. ltb a b;
  of_int = λ n. n;
  seconds = λ d. pos_part d / 1000000000;
}

abbrev entry_at : ℕ → RateLimitEntry ℕ
entry_at t = record {
  bucket = record { tokens = 1; max_tokens = 3; refill_rate = 1; last_refill = t };
  last_seen = t;
}

abbrev limiter_of : List (Bytes × RateLimitEntry ℕ) → IpRateLimiter ℕ
limiter_of m = record {
  rate = 1;
  burst = 3;
  buckets = m;
  max_entries = 2;
  entry_lifetime = pos 100;
}

abbrev two_clients : IpRateLimiter ℕ
two_clients = limiter_of ((codes "a", entry_at 8) ∷ (codes "b", entry_at 5) ∷ [])

abbrev unnamed_client : IpRateLimiter ℕ
unnamed_client = limiter_of (([], entry_at 5) ∷ (codes "b", entry_at 8) ∷ [])

other_client : codes "b" ≢ codes "a"
other_client = str_ne (codes "b") (codes "a") (unfold str_eq in refl)

evict_oldest-IsOldest_example :
    (key : Bytes) × IsOldest key two_clients.buckets
    × ((evict_oldest two_clients).buckets ≡ erase key two_clients.buckets)
    × (length (evict_oldest two_clients).buckets + 1 ≡ length two_clients.buckets)
evict_oldest-IsOldest_example =
    evict_oldest-IsOldest two_clients ((other_client, tt), (tt, tt)) ((λ e. cc), ((λ e. cc), tt))
      (λ e. cc)

evict_oldest_unnamed_example : evict_oldest unnamed_client ≡ unnamed_client
evict_oldest_unnamed_example =
    evict_oldest_unnamed unnamed_client (entry_at 5) (((λ e. cc), tt), (tt, tt)) (λ e. cc)
      (unfold lookup str_eq in refl) ((λ n. absurd (n refl)), ((λ n. omega arith), tt))

two_clients-IsValid : IsValid two_clients
two_clients-IsValid = record {
  distinct = ((other_client, tt), (tt, tt));
  named = ((λ e. cc), ((λ e. cc), tt));
  bounded = omega arith;
}

abbrev small_config : RateLimiterConfig ℕ
small_config = record { rate = 1; burst = 3; max_tracked_ips = 2; entry_lifetime = pos 100 }

abbrev history : List Event
history = request (codes "a") 1 ∷ request (codes "b") 2 ∷ request (codes "c") 3 ∷ cleanup 50 ∷ []

run-new-IsValid_example : IsValid (run whole (new_ip_rate_limiter whole small_config) history)
run-new-IsValid_example =
    run-new-IsValid whole small_config history ((λ e. cc), ((λ e. cc), ((λ e. cc), (tt, tt))))

allow-lookup_example :
    ((e : RateLimitEntry ℕ) × (lookup (codes "c") (allow whole two_clients (codes "c") 9).0.buckets
        ≡ some e)
      × (e.last_seen ≡ 9))
    × ((lookup (codes "a") (allow whole two_clients (codes "c") 9).0.buckets
          ≡ lookup (codes "a") two_clients.buckets)
        ⊎ ((lookup (codes "a") (allow whole two_clients (codes "c") 9).0.buckets ≡ none)
            × (lookup (codes "c") two_clients.buckets ≡ none)
            × (two_clients.max_entries ≤ length two_clients.buckets)))
allow-lookup_example =
    allow-lookup whole two_clients (codes "c") (codes "a") 9 two_clients-IsValid.distinct
      (str_ne (codes "c") (codes "a") (unfold str_eq in refl))

whole-IsExact : IsExact whole 1
whole-IsExact = record {
  sub_one = λ n l. omega arith;
  lt_int = λ m n l k. refl;
  add_nothing = λ n. omega arith;
}

granted-min_example : granted whole 5 two_clients (codes "c") 9 ≡ min 5 (suc 2)
granted-min_example =
    granted-min whole 5 two_clients (codes "c") 9 2 whole-IsExact refl (omega arith)
      (unfold lookup str_eq in refl)
