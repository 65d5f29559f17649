-- ===== src/Handlers/EventStreams.antt =====
-- SSE of httpbin/handlers.go: server-sent events over time.
pub mod Loop
pub mod Events
use go_httpbin.Base.{
  ℕ, zero, suc, not, ◌&&◌, ◌||◌, Option, none, some, List, [], ◌∷◌, ◌++◌, map, ltb, leb,
  if◌then◌else◌, Bytes, codes, is_empty,
}
use go_httpbin.Base.Int.{ℤ, pos, negsuc, ltb_ℤ, pos_part, add64}
use go_httpbin.Strings.{remove_byte}
use go_httpbin.Strings.Number.{atoi}
use go_httpbin.Http.{
  Request, Call, Handler, Result, ok, err, ◌>>=◌, set_header, append_header, write_header, write,
  raw, get, write_error, in_context, library_error, out_of_range, must_be_greater, too_much_time,
}
use go_httpbin.Parsing.{Clock, parse_bounded_duration, parse_status_code, compute_pause_per_write}
use go_httpbin.Responses.{Json, server_sent_event, text_content_type, sse_content_type}
use go_httpbin.Handlers.{Library, HttpBin, DefaultParams, show_ℤ}
use go_httpbin.Handlers.Dripping.{
  encode_server_timings, Event, call, wait, calls_until, initial_wait, given_or, parse_within,
}

pub record Sse : Type 0 where
  pub count : ℤ
  pub duration : ℤ
  pub delay : ℤ
  pub event_name : Bytes
  pub retry_ms : ℤ
  pub fail_after : ℤ
  pub last_event_id : ℤ

-- Calls that a function defers: they are made when it ends, also when the client leaves.
unfoldable pub with_deferred : List Call → List Event → List Event
with_deferred cs [] = map call cs
with_deferred cs (call c ∷ es) = call c ∷ with_deferred cs es
with_deferred cs (wait d instead ∷ es) = wait d (instead ++ cs) ∷ with_deferred cs es

module _ (lib : Library) (h : HttpBin lib) where
  -- writeServerSentEvent, with the time of the event in milliseconds.
  unfoldable pub server_sent_event_text : ℤ → ℤ → Bytes → Bytes
  server_sent_event_text id timestamp event_name =
      codes "id: "
      ++ show_ℤ id
      ++ codes "\n"
      ++ (if is_empty event_name
          then codes "event: ping\n"
          else codes "event: " ++ remove_byte 13 (remove_byte 10 event_name) ++ codes "\n")
      ++ codes "data: "
      ++ lib.marshal_line (server_sent_event (record { id = id; timestamp = timestamp }))
      ++ codes "\n\n"

  -- The loop of SSE from the `i`-th event on, of which there are `count` more. `now` is the time of an
  -- event; a `fail_after` of 0 is none.
  unfoldable pub sse_events : (ℕ → ℤ) → ℤ → Bytes → ℕ → ℤ → ℕ → ℕ → List Event
  unfolding server_sent_event_text
  sse_events now pause event_name fail_after start_id i zero = []
  sse_events now pause event_name fail_after start_id i (suc count) =
      let rest = sse_events now pause event_name fail_after start_id (suc i) count in
      if ltb 0 fail_after && leb fail_after i
      then []
      else call (write (raw (server_sent_event_text (add64 start_id (pos i)) (now i) event_name)))
        ∷ (if ltb 0 count then wait pause [] ∷ rest else [])

  unfoldable pub parse_sse_count : Bytes → Result ℤ
  parse_sse_count user_count = elim (atoi user_count) [
    | none ↦ err (in_context (codes "invalid count") library_error)
    | some n ↦
        if ltb_ℤ n (pos 1) || ltb_ℤ h.max_sse_count n
        then err (out_of_range (codes "invalid count") n h.max_sse_count)
        else ok n
  ]

  -- A number that is at least `least`.
  unfoldable pub parse_at_least : Bytes → ℤ → Bytes → Result ℤ
  parse_at_least name least input = elim (atoi input) [
    | none ↦ err (must_be_greater name least)
    | some n ↦ if ltb_ℤ n least then err (must_be_greater name least) else ok n
  ]

  unfoldable pub parse_last_event_id : Bytes → Result ℤ
  parse_last_event_id raw_id = elim (atoi raw_id) [
    | none ↦ err (in_context (codes "invalid Last-Event-ID") library_error)
    | some n ↦ ok n
  ]

  -- The parameters of SSE, before the total time is checked.
  unfoldable pub parse_sse : Request → Result Sse
  unfolding parse_within parse_sse_count parse_at_least parse_last_event_id
  parse_sse r = do
    count ←
        given_or (get (codes "count") r.query) h.default_params.sse_count
          (parse_sse_count (get (codes "count") r.query))
    duration ←
        parse_within lib h (codes "duration") (get (codes "duration") r.query) (pos 1)
          h.default_params.sse_duration
    delay ←
        parse_within lib h (codes "delay") (get (codes "delay") r.query) (pos 0)
          h.default_params.sse_delay
    retry ←
        given_or (get (codes "retry") r.query) (pos 0)
          (parse_at_least (codes "invalid retry") (pos 0) (get (codes "retry") r.query))
    fail_after ←
        given_or (get (codes "fail_after") r.query) (pos 0)
          (parse_at_least (codes "invalid fail_after") (pos 1) (get (codes "fail_after") r.query))
    last ←
        given_or (get (codes "Last-Event-Id") r.header) (pos 0)
          (parse_last_event_id (get (codes "Last-Event-Id") r.header))
    ok (record {
      count = count;
      duration = duration;
      delay = delay;
      event_name = remove_byte 13 (remove_byte 10 (get (codes "event") r.query));
      retry_ms = retry;
      fail_after = fail_after;
      last_event_id = last;
    })

  -- The events of SSE behind its headers; `none` is the panic of a ticker whose pause is not positive.
  unfoldable pub sse_body : (ℕ → ℤ) → Sse → Option (List Event)
  unfolding sse_events compute_pause_per_write
  sse_body now d =
      let pause = compute_pause_per_write d.duration d.count in
      let start_id = add64 d.last_event_id (pos 1) in
      if not (ltb_ℤ d.count (pos 1)) && not (ltb_ℤ (pos 1) d.count)
      then some (call (write (raw (server_sent_event_text start_id (now 0) d.event_name))) ∷ [])
      else if ltb_ℤ (pos 0) pause
      then some
          (sse_events now pause d.event_name (pos_part d.fail_after) start_id 0 (pos_part d.count))
      else none

  unfoldable pub sse_headers : Sse → List Event
  unfolding sse_content_type
  sse_headers d =
      call (append_header (codes "Trailer") (codes "Server-Timing"))
      ∷ call (set_header (codes "Content-Type") sse_content_type)
      ∷ call (write_header 200)
      ∷ (if ltb_ℤ (pos 0) d.retry_ms
          then call (write (raw (codes "retry: " ++ show_ℤ d.retry_ms ++ codes "\n\n"))) ∷ []
          else [])

  -- What SSE's deferred function does. `milliseconds` prints a duration in milliseconds.
  unfoldable pub sse_trailer : (ℤ → Bytes) → ℤ → Sse → List Call
  unfolding encode_server_timings compute_pause_per_write
  sse_trailer milliseconds elapsed d =
      append_header (codes "Server-Timing") (
        encode_server_timings milliseconds (
          (codes "total_duration", elapsed, codes "total request duration")
          ∷ (codes "initial_delay", d.delay, codes "initial delay")
          ∷ (codes "write_duration", d.duration, codes "duration of writes after initial delay")
          ∷ (
            codes "pause_per_write",
            compute_pause_per_write d.duration d.count,
            codes "computed pause between writes",
          )
          ∷ []))
      ∷ []

  -- SSE, whose events come at the times `now` and which takes `elapsed` in all; `none` is a panic.
  unfoldable pub sse : (ℤ → Bytes) → (ℕ → ℤ) → ℤ → Option ℕ → Request → Option (List Call)
  unfolding parse_sse sse_body sse_headers sse_trailer calls_until with_deferred
  sse milliseconds now elapsed left r = elim (parse_sse r) [
    | err e ↦ some (write_error 400 (some e))
    | ok d ↦
        if ltb_ℤ h.max_duration (add64 d.duration d.delay)
        then some (lib.http_error (codes "Too much time") 400)
        else elim (sse_body now d) [
          | none ↦ none
          | some body ↦ some (
              calls_until left (
                initial_wait d.delay
                ++ with_deferred (sse_trailer milliseconds elapsed d) (sse_headers d ++ body)))
        ]
  ]
