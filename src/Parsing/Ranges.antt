-- ===== src/Parsing/Ranges.antt =====
-- The bounds that the parsers of httpbin/helpers.go promise for what they accept.
use go_httpbin.Base.{
  ◌≡◌, refl, ◌↔◌, ◌⊎◌, inl, inr, not, ◌&&◌, some, arith, Bool-cases, Bytes, is_empty,
}
use go_httpbin.Base.Int.{ℤ, pos, ◌≤ℤ◌}
use go_httpbin.Strings.{cut}
use go_httpbin.Strings.Number.{atoi}
use go_httpbin.Http.{Result, ◌>>=◌, ok, err, Error}
use go_httpbin.Parsing.{
  parse_bounded_status_code, Clock, parse_duration, check_bounds, parse_bounded_duration,
  check_range, parse_single, choose_range, parse_delay_range,
}

-- A status code is accepted exactly when its text is a number within the bounds.
pub parse_bounded_status_code_iff :
    (input : Bytes) (lo hi code : ℤ)
    → (parse_bounded_status_code input lo hi ≡ ok code)
      ↔ ((atoi input ≡ some code) × (lo ≤ℤ code) × (code ≤ℤ hi))
unfolding parse_bounded_status_code
parse_bounded_status_code_iff input lo hi code = ground arith

pub Result-cases :
    {A : Type 0} (r : Result A) → ((a : A) × (r ≡ ok a)) ⊎ ((e : Error) × (r ≡ err e))
Result-cases (ok a) = inl (a, refl)
Result-cases (err e) = inr (e, refl)

-- A chain of results that succeeds has succeeded at its first step and behind it.
pub bind-ok {ℓ κ} :
    {A : Type ℓ} {B : Type κ} (r : Result A) (f : A → Result B) (b : B)
    → (r >>= f) ≡ ok b
    → (a : A) × (r ≡ ok a) × (f a ≡ ok b)
bind-ok (ok a) f b h = (a, refl, h)
bind-ok (err e) f b h = cc

module _ (clock : Clock) where
  -- A duration is accepted exactly when it parses and lies within the bounds.
  pub parse_bounded_duration_iff :
      (input : Bytes) (lo hi d : ℤ)
      → (parse_bounded_duration clock input lo hi ≡ ok d)
        ↔ ((parse_duration clock input ≡ ok d) × (lo ≤ℤ d) × (d ≤ℤ hi))
  unfolding parse_bounded_duration check_bounds
  parse_bounded_duration_iff input lo hi d = ground arith

  abbrev pub IsRange : ℤ → ℤ → ℤ → Type 0
  IsRange hi a b = (pos 0 ≤ℤ a) × (a ≤ℤ b) × (b ≤ℤ hi)

  check_range-IsRange :
      (hi min_d max_d a b : ℤ) → check_range clock hi min_d max_d ≡ ok (a, b) → IsRange hi a b
  unfolding check_range
  check_range-IsRange hi min_d max_d a b e = ground arith

  parse_single-IsRange :
      (input : Bytes) (hi a b : ℤ) → parse_single clock input hi ≡ ok (a, b) → IsRange hi a b
  unfolding parse_single
  parse_single-IsRange input hi a b e =
      let single = parse_bounded_duration_iff input (pos 0) hi in
      elim (Result-cases (parse_bounded_duration clock input (pos 0) hi)) [
        | inl (d, f) ↦ ground (arith, single d)
        | inr (x, f) ↦ ground arith
      ]

  choose_range-IsRange :
      (input : Bytes) (hi : ℤ) (x y : Result ℤ) (a b : ℤ)
      → choose_range clock input hi x y ≡ ok (a, b)
      → IsRange hi a b
  unfolding choose_range
  choose_range-IsRange input hi (ok c) (ok d) a b e = check_range-IsRange hi c d a b e
  choose_range-IsRange input hi (ok c) (err x) a b e = parse_single-IsRange input hi a b e
  choose_range-IsRange input hi (err x) y a b e = parse_single-IsRange input hi a b e

  -- The delays that are accepted are a range within 0 and the maximum, its lower end first, whether
  -- one duration was given or two.
  pub parse_delay_range-IsRange :
      (input : Bytes) (hi a b : ℤ) → parse_delay_range clock input hi ≡ ok (a, b) → IsRange hi a b
  unfolding parse_delay_range
  parse_delay_range-IsRange input hi a b e =
      elim (Bool-cases ((cut b'-' input).2 && not (is_empty (cut b'-' input).0))) [
        | inl both ↦
            choose_range-IsRange input hi (parse_duration clock (cut b'-' input).0)
              (parse_duration clock (cut b'-' input).1) a b (ground arith)
        | inr neither ↦ parse_single-IsRange input hi a b (ground arith)
      ]
