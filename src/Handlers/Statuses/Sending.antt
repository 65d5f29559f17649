-- ===== src/Handlers/Statuses/Sending.antt =====
-- The status that a client of /status receives.
use go_httpbin.Base.{
  ℕ, ◌≤◌, ◌≡◌, refl, inl, inr, false, ◌||◌, Option, none, some, List, [], ◌∷◌, ◌++◌, arith,
  Option-cases, Bytes, codes, get_str,
}
use go_httpbin.Base.Int.{pos, ltb_ℤ}
use go_httpbin.Strings.{contains_byte}
use go_httpbin.Strings.Number.{atoi}
use go_httpbin.Http.{Request, Call}
use go_httpbin.Http.Server.{serve, status_of}
use go_httpbin.Http.Server.Starting.{IsFinal}
use go_httpbin.Middleware.Layers.{NoStatus}
use go_httpbin.Middleware.Answering.{GivesStatus, status_of-serve}
use go_httpbin.Parsing.{parse_status_code, parse_bounded_status_code}
use go_httpbin.Handlers.Statuses.{
  Float64, set_headers, special_case, create_special_cases, do_status, write_some, status,
}

set_headers-GivesStatus :
    (headers : List (Bytes × Bytes)) (s : ℕ) (cs : List Call)
    → GivesStatus s cs
    → GivesStatus s (set_headers headers ++ cs)
unfolding set_headers
set_headers-GivesStatus [] s cs g = g
set_headers-GivesStatus ((k, v) ∷ headers) s cs g = set_headers-GivesStatus headers s cs g

write_some-NoStatus : (body : Option Bytes) → NoStatus (write_some body)
write_some-NoStatus none = tt
write_some-NoStatus (some body) = tt

pub do_status-GivesStatus :
    (prefix : Bytes) (code : ℕ) → IsFinal code → GivesStatus code (do_status prefix (pos code))
unfolding do_status
do_status-GivesStatus prefix code f =
    elim (Option-cases (special_case code (create_special_cases prefix))) [
      | inl plain ↦ rw plain (refl, f, tt)
      | inr (c, special) ↦
          rw special
            (set_headers-GivesStatus c.headers code _ (refl, f, write_some-NoStatus c.body))
    ]

within :
    (code : ℕ)
    → 200 ≤ code
    → code ≤ 599
    → (ltb_ℤ (pos code) (pos 100) || ltb_ℤ (pos 599) (pos code)) ≡ false
within code low high = ground arith

-- A request for one status that is not informational is answered with that status, special cases
-- included.
pub status-serve :
    {N : Type 0} (float : Float64 N) (prefix : Bytes) (random : N) (r : Request) (code : ℕ)
    → contains_byte b',' (get_str (codes "code") r.path_values) ≡ false
    → atoi (get_str (codes "code") r.path_values) ≡ some (pos code)
    → 200 ≤ code
    → code ≤ 599
    → (cs : List Call) × (status float prefix random r ≡ some cs) × (status_of (serve cs) ≡ code)
unfolding status parse_status_code parse_bounded_status_code
status-serve float prefix random r code single parsed low high = (
  do_status prefix (pos code),
  rw (single, parsed, within code low high) refl,
  status_of-serve (do_status prefix (pos code)) code
      (do_status-GivesStatus prefix code (low, omega arith)),
)
