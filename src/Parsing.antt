-- ===== src/Parsing.antt =====
-- The parsers of user input in httpbin/helpers.go: status codes, durations and ranges of delays, and
-- the pause between two writes. Durations are int64 nanoseconds.
pub mod Ranges
pub mod Pauses
use go_httpbin.Base.{
  ℕ, suc, ◌-◌, ◌/◌, not, ◌&&◌, ◌||◌, Option, none, some, ltb, if◌then◌else◌, Bytes, is_empty,
}
use go_httpbin.Base.Int.{ℤ, pos, negsuc, ltb_ℤ, ◌≤ℤ◌, mul64, add64, sub64}
use go_httpbin.Strings.{cut}
use go_httpbin.Strings.Number.{atoi}
use go_httpbin.Http.{
  Error, Result, ok, err, invalid_status_code, status_code_out_of_range, invalid_duration,
  duration_too_long, duration_too_short, invalid_delay_range, ◌>>=◌,
}

unfoldable pub parse_bounded_status_code : Bytes → ℤ → ℤ → Result ℤ
parse_bounded_status_code input min_val max_val = elim (atoi input) [
  | none ↦ err (invalid_status_code input)
  | some code ↦
      if ltb_ℤ code min_val || ltb_ℤ max_val code
      then err (status_code_out_of_range code min_val max_val)
      else ok code
]

unfoldable pub parse_status_code : Bytes → Result ℤ
unfolding parse_bounded_status_code
parse_status_code input = parse_bounded_status_code input (pos 100) (pos 599)

-- What the Go library says of a duration's text: `parse_duration` is time.ParseDuration, and
-- `parse_thousandths` the int64 of a thousand times what strconv.ParseFloat reads.
pub record Clock : Type 0 where
  pub parse_duration : Bytes → Option ℤ
  pub parse_thousandths : Bytes → Option ℤ

module _ (clock : Clock) where
  unfoldable pub parse_duration : Bytes → Result ℤ
  parse_duration input = elim (clock.parse_duration input) [
    | some d ↦ ok d
    | none ↦ elim (clock.parse_thousandths input) [
      | none ↦ err (invalid_duration input)
      | some n ↦ ok (mul64 n (pos 1000000))
    ]
  ]

  -- The check of parseBoundedDuration on what was parsed.
  unfoldable pub check_bounds : ℤ → ℤ → ℤ → Result ℤ
  check_bounds min_val max_val d =
      if ltb_ℤ max_val d
      then err (duration_too_long d max_val)
      else if ltb_ℤ d min_val
      then err (duration_too_short d min_val)
      else ok d

  unfoldable pub parse_bounded_duration : Bytes → ℤ → ℤ → Result ℤ
  unfolding parse_duration check_bounds
  parse_bounded_duration input min_val max_val =
      parse_duration input >>= check_bounds min_val max_val

  -- The checks of parseDelayRange on a range whose two ends were parsed.
  unfoldable pub check_range : ℤ → ℤ → ℤ → Result (ℤ × ℤ)
  check_range max_val min_d max_d =
      if ltb_ℤ max_d min_d
      then err (invalid_delay_range min_d max_d)
      else if ltb_ℤ min_d (pos 0)
      then err (invalid_delay_range min_d (pos 0))
      else if ltb_ℤ max_val max_d
      then err (duration_too_long max_d max_val)
      else ok (min_d, max_d)

  unfoldable pub parse_single : Bytes → ℤ → Result (ℤ × ℤ)
  unfolding parse_bounded_duration
  parse_single input max_val = parse_bounded_duration input (pos 0) max_val >>= λ d. ok (d, d)

  unfoldable pub choose_range : Bytes → ℤ → Result ℤ → Result ℤ → Result (ℤ × ℤ)
  unfolding check_range parse_single
  choose_range input max_val (ok min_d) (ok max_d) = check_range max_val min_d max_d
  choose_range input max_val (ok min_d) (err e) = parse_single input max_val
  choose_range input max_val (err e) max_d = parse_single input max_val

  -- A dash with a text before it may separate two durations.
  unfoldable pub parse_delay_range : Bytes → ℤ → Result (ℤ × ℤ)
  unfolding choose_range
  parse_delay_range input max_val =
      let parts = cut b'-' input in
      if parts.2 && not (is_empty parts.0)
      then choose_range input max_val (parse_duration parts.0) (parse_duration parts.1)
      else parse_single input max_val

-- The quotient of Go's int64 division by a positive divisor, rounded towards zero.
abbrev pub quotient : ℤ → ℕ → ℤ
quotient (pos a) n = pos (a / n)
quotient (negsuc a) n = go_httpbin.Base.Int.sub_ℕ 0 (suc a / n)

unfoldable pub compute_pause_per_write : ℤ → ℤ → ℤ
compute_pause_per_write duration (negsuc k) = duration
compute_pause_per_write duration (pos count) =
    if ltb 1 count
    then quotient (sub64 (add64 duration (pos (count - 1))) (pos 1)) (count - 1)
    else duration
