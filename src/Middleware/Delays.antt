-- ===== src/Middleware/Delays.antt =====
-- The wait that responseDelay of httpbin/middleware.go puts before a handler.
use go_httpbin.Base.{
  ◌≡◌, refl, ◌⊎◌, inl, inr, Bool, Option, none, some, List, [], arith, if◌then◌else◌, Bool-cases,
  codes, is_empty,
}
use go_httpbin.Base.Int.{ℤ, pos, ltb_ℤ, ◌≤ℤ◌, ◌<ℤ◌}
use go_httpbin.Http.{Request, Handler, Call, Error, get, write_error}
use go_httpbin.Parsing.{Clock, parse_bounded_duration}
use go_httpbin.Parsing.Ranges.{Result-cases, parse_bounded_duration_iff}
use go_httpbin.Middleware.{response_delay}

-- What is promised of an answer: the wait, and the calls made after it.
abbrev pub IsDelayed : ℤ → Bool → List Call → Option ℤ × List Call → Type 0
IsDelayed hi gone inner (some d, cs) =
    (pos 0 <ℤ d) × (d ≤ℤ hi) × (cs ≡ (if gone then [] else inner))
IsDelayed hi gone inner (none, cs) = (cs ≡ inner) ⊎ ((e : Error) × (cs ≡ write_error 400 (some e)))

-- A request waits only for a time above zero and within the maximum; then its handler runs, unless
-- the client left. A request that does not wait is passed to its handler or answered 400.
pub response_delay-IsDelayed :
    (clock : Clock) (hi : ℤ) (gone : Bool) (h : Handler) (r : Request)
    → IsDelayed hi gone (h r) (response_delay clock hi gone h r)
unfolding response_delay
response_delay-IsDelayed clock hi gone h r =
    let v = get (codes "response_delay") r.query in
    elim (Bool-cases (is_empty v)) [
      | inl absent ↦ rw (absent, IsDelayed) (inl refl)
      | inr present ↦ elim (Result-cases (parse_bounded_duration clock v (pos 0) hi)) [
        | inr (e, failed) ↦ rw (present, failed, IsDelayed) (inr (e, refl))
        | inl (d, parsed) ↦
            let range = (parse_bounded_duration_iff clock v (pos 0) hi d).0 parsed in
            elim (Bool-cases (ltb_ℤ (pos 0) d)) [
              | inl positive ↦
                  rw (present, parsed, positive, IsDelayed) (ground arith, range.2, refl)
              | inr zero_delay ↦ rw (present, parsed, zero_delay, IsDelayed) (inl refl)
            ]
      ]
    ]
