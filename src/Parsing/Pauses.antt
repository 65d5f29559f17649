-- ===== src/Parsing/Pauses.antt =====
-- How long computePausePerWrite of httpbin/helpers.go makes a response take.
use go_httpbin.Base.{ℕ, suc, ◌+◌, ◌-◌, ◌*◌, ◌/◌, ◌^◌, ◌≤◌, ◌<◌, ◌≡◌, refl, arith, lt→ltb}
use go_httpbin.Base.Int.{pos, add64-pos, sub64}
use native.Mathlib.Nat.{div-add-mod', mod-lt}
use go_httpbin.Parsing.{compute_pause_per_write}

pub sub64-pos : (a b : ℕ) → b ≤ a → a < 2 ^ 63 → sub64 (pos a) (pos b) ≡ pos (a - b)
unfolding sub64
sub64-pos a b h l = ground arith

pred_suc : (n : ℕ) → suc n - 1 ≡ n
pred_suc n = omega arith

ceiling : (d n : ℕ) → 0 < n → (d ≤ (d + n - 1) / n * n) × ((d + n - 1) / n * n < d + n)
ceiling d n h = omega (arith, div-add-mod' (d + n - 1) n, mod-lt (d + n - 1) h)

-- The pauses between `count` writes, of which there is one fewer, take the whole duration, and less
-- than a nanosecond more for each of them; while the sum of the duration and the count fits an int64.
pub compute_pause_per_write-covers :
    (d n : ℕ)
    → 0 < n
    → d + n < 2 ^ 63
    → (p : ℕ) × ((compute_pause_per_write (pos d) (pos (suc n)) ≡ pos p)
        × (d ≤ p * n)
        × (p * n < d + n))
unfolding compute_pause_per_write
compute_pause_per_write-covers d n h l = (
  (d + n - 1) / n,
  (
    rw
        (
          lt→ltb 1 (suc n) (omega arith),
          pred_suc n,
          add64-pos d n l,
          sub64-pos (d + n) 1 (omega arith) l,
        )
        refl,
    (ceiling d n h).0,
    (ceiling d n h).1,
  ),
)
