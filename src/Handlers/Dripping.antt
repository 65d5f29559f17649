-- ===== src/Handlers/Dripping.antt =====
-- Drip of httpbin/handlers.go, which writes over time. A wait is a duration in nanoseconds.
pub mod Timing
use go_httpbin.Base.{
  ℕ, zero, suc, ◌+◌, ◌||◌, Option, none, some, List, [], ◌∷◌, ◌++◌, if◌then◌else◌, Bytes, codes,
  is_empty,
}
use go_httpbin.Base.Int.{ℤ, pos, negsuc, ltb_ℤ, pos_part, add64}
use go_httpbin.Strings.{remove_byte}
use go_httpbin.Strings.Number.{atoi}
use go_httpbin.Http.{
  Request, Call, Handler, Result, ok, err, ◌>>=◌, set_header, append_header, write_header, write,
  raw, get, write_error, in_context, library_error, out_of_range, must_be_greater, too_much_time,
}
use go_httpbin.Parsing.{Clock, parse_bounded_duration, parse_status_code, compute_pause_per_write}
use go_httpbin.Responses.{Json, server_sent_event, text_content_type, sse_content_type}
use go_httpbin.Handlers.{Library, HttpBin, DefaultParams, show_ℤ}

-- What a handler does over time: a call, or a wait with the calls that it makes instead of all that
-- follows if the client leaves meanwhile.
pub data Event : Type 0 where
  call : Call → Event
  wait : ℤ → List Call → Event

-- The calls of a handler whose client leaves during the wait of the given number, if any.
unfoldable pub calls_until : Option ℕ → List Event → List Call
calls_until left [] = []
calls_until left (call c ∷ es) = c ∷ calls_until left es
calls_until none (wait d instead ∷ es) = calls_until none es
calls_until (some zero) (wait d instead ∷ es) = instead
calls_until (some (suc n)) (wait d instead ∷ es) = calls_until (some n) es

-- How long the waits take, if the client stays.
unfoldable pub time_of : List Event → ℕ
time_of [] = 0
time_of (call c ∷ es) = time_of es
time_of (wait d instead ∷ es) = pos_part d + time_of es

abbrev pub initial_wait : ℤ → List Event
initial_wait delay = if ltb_ℤ (pos 0) delay then wait delay (write_header 499 ∷ []) ∷ [] else []

unfoldable pub encode_server_timings : (ℤ → Bytes) → List (Bytes × ℤ × Bytes) → Bytes
encode_server_timings milliseconds [] = []
encode_server_timings milliseconds ((name, dur, desc) ∷ timings) =
    let rest = encode_server_timings milliseconds timings in
    let entry =
      name ++ codes ";dur=" ++ milliseconds dur ++ codes ";desc=\"" ++ desc ++ codes "\"" in
    entry ++ (if is_empty rest then [] else codes ", " ++ rest)

-- A parameter of the query, or its default where it is not given.
abbrev pub given_or : {A : Type 0} → Bytes → A → Result A → Result A
given_or [] default parsed = ok default
given_or (c ∷ s) default parsed = parsed

abbrev pub within_context : {A : Type 0} → Bytes → Result A → Result A
within_context text (ok a) = ok a
within_context text (err e) = err (in_context text e)

pub record Drip : Type 0 where
  pub duration : ℤ
  pub delay : ℤ
  pub num_bytes : ℤ
  pub code : ℤ

-- `count` bytes, with a pause between two of them.
unfoldable pub drip_bytes : ℤ → ℕ → List Event
drip_bytes pause zero = []
drip_bytes pause (suc zero) = call (write (raw (codes "*"))) ∷ []
drip_bytes pause (suc (suc count)) =
    call (write (raw (codes "*"))) ∷ wait pause [] ∷ drip_bytes pause (suc count)

abbrev pub stars : ℕ → Bytes
stars zero = []
stars (suc n) = b'*' ∷ stars n

unfoldable pub drip_body : ℤ → ℤ → List Event
unfolding drip_bytes
drip_body pause num_bytes =
    if ltb_ℤ (pos 0) pause || ltb_ℤ pause (pos 0)
    then drip_bytes pause (pos_part num_bytes)
    else call (write (raw (stars (pos_part num_bytes)))) ∷ []

-- `milliseconds` prints a duration in milliseconds.
unfoldable pub drip_headers : (ℤ → Bytes) → ℤ → Drip → List Event
unfolding encode_server_timings text_content_type
drip_headers milliseconds pause d =
    call (set_header (codes "Content-Type") text_content_type)
    ∷ call (set_header (codes "Content-Length") (show_ℤ d.num_bytes))
    ∷ call (
        set_header (codes "Server-Timing") (
          encode_server_timings milliseconds (
            (codes "total_duration", add64 d.delay d.duration, codes "total request duration")
            ∷ (codes "initial_delay", d.delay, codes "initial delay")
            ∷ (codes "write_duration", d.duration, codes "duration of writes after initial delay")
            ∷ (codes "pause_per_write", pause, codes "computed pause between writes")
            ∷ [])))
    ∷ call (write_header (pos_part d.code))
    ∷ []

unfoldable pub drip_events : (ℤ → Bytes) → Drip → List Event
unfolding drip_body drip_headers compute_pause_per_write
drip_events milliseconds d =
    let pause = compute_pause_per_write d.duration d.num_bytes in
    initial_wait d.delay ++ (drip_headers milliseconds pause d ++ drip_body pause d.num_bytes)

module _ (lib : Library) (h : HttpBin lib) where
  unfoldable pub parse_within : Bytes → Bytes → ℤ → ℤ → Result ℤ
  unfolding parse_bounded_duration
  parse_within name raw_duration least default = given_or raw_duration default (
      within_context (codes "invalid " ++ name)
        (parse_bounded_duration lib.clock raw_duration least h.max_duration))

  unfoldable pub parse_num_bytes : Bytes → Result ℤ
  parse_num_bytes user_num_bytes = elim (atoi user_num_bytes) [
    | none ↦ err (in_context (codes "invalid numbytes") library_error)
    | some n ↦
        if ltb_ℤ n (pos 1) || ltb_ℤ h.max_body_size n
        then err (out_of_range (codes "invalid numbytes") n h.max_body_size)
        else ok n
  ]

  unfoldable pub check_total : ℤ → ℤ → Result ℤ
  check_total duration delay =
      if ltb_ℤ h.max_duration (add64 duration delay)
      then err (too_much_time duration delay h.max_duration)
      else ok (add64 duration delay)

  -- The parameters of Drip.
  unfoldable pub parse_drip : Request → Result Drip
  unfolding parse_within parse_num_bytes check_total parse_status_code
  parse_drip r = do
    duration ←
        parse_within (codes "duration") (get (codes "duration") r.query) (pos 0)
          h.default_params.drip_duration
    delay ←
        parse_within (codes "delay") (get (codes "delay") r.query) (pos 0)
          h.default_params.drip_delay
    num_bytes ←
        given_or (get (codes "numbytes") r.query) h.default_params.drip_num_bytes
          (parse_num_bytes (get (codes "numbytes") r.query))
    code ←
        given_or (get (codes "code") r.query) (pos 200)
          (parse_status_code (get (codes "code") r.query))
    total ← check_total duration delay
    ok (record { duration = duration; delay = delay; num_bytes = num_bytes; code = code })

  unfoldable pub drip : (ℤ → Bytes) → Option ℕ → Handler
  unfolding parse_drip drip_events calls_until
  drip milliseconds left r = elim (parse_drip r) [
    | err e ↦ write_error 400 (some e)
    | ok d ↦ calls_until left (drip_events milliseconds d)
  ]
