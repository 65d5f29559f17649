-- ===== src/Handlers/EventStreams/Events.antt =====
-- Which events SSE sends.
use go_httpbin.Base.{
  ℕ, zero, suc, ◌+◌, ◌^◌, ◌<◌, ◌≡◌, refl, ap, ◌∙◌, ◌⊎◌, inl, inr, true, false, not, ◌&&◌, none,
  some, List, [], ◌∷◌, ◌++◌, map, arith, ◌==◌, if◌then◌else◌, Bool-cases, Bytes, codes,
}
use go_httpbin.Base.Int.{ℤ, pos, add64}
use go_httpbin.Http.{
  Request, ok, Call, set_header, append_header, write_header, write, raw, json, error_json,
}
use go_httpbin.Handlers.{Library, HttpBin, show_ℤ}
use go_httpbin.Handlers.Dripping.{Event, wait, calls_until}
use go_httpbin.Base.Int.{add64-pos, pos_part, ltb_ℤ}
use go_httpbin.Strings.{remove_byte}
use go_httpbin.Strings.Number.{itoa}
use go_httpbin.Responses.{server_sent_event}
use go_httpbin.Parsing.{compute_pause_per_write}
use go_httpbin.Handlers.EventStreams.{
  Sse, sse, sse_events, sse_body, sse_headers, sse_trailer, with_deferred, parse_sse,
  server_sent_event_text,
}
use go_httpbin.Handlers.Dripping.{call, initial_wait}
use Prim.Native.Nat.{min}
use go_httpbin.Handlers.EventStreams.Loop.{texts, consecutive, events_sent}

-- The line that names an event: "ping", or the given name without line breaks.
abbrev pub event_line : Bytes → Bytes
event_line [] = codes "event: ping\n"
event_line (c ∷ s) = codes "event: " ++ remove_byte 13 (remove_byte 10 (c ∷ s)) ++ codes "\n"

-- How many of `count` events are sent, if the stream fails after a number of them that is not 0.
abbrev pub events_until : ℕ → ℕ → ℕ
events_until fail_after count = if fail_after == 0 then count else min count fail_after

-- The text that asks a client to wait before it connects again, for a time that is positive.
abbrev pub retry_text : ℤ → List Bytes
retry_text retry_ms =
    if ltb_ℤ (pos 0) retry_ms then (codes "retry: " ++ show_ℤ retry_ms ++ codes "\n\n") ∷ [] else []

module _ (lib : Library) (h : HttpBin lib) (now : ℕ → ℤ) where
  -- The text of an event with its number, its name, and the number and the time again as JSON.
  abbrev pub event_text : ℕ → ℤ → Bytes → Bytes
  event_text id time name =
      codes "id: "
      ++ itoa id
      ++ codes "\n"
      ++ event_line name
      ++ codes "data: "
      ++ lib.marshal_line (server_sent_event (record { id = pos id; timestamp = time }))
      ++ codes "\n\n"

  -- `n` events of a name, from the `i`-th on; the `i`-th has the number `first + i`.
  abbrev pub numbered : Bytes → ℕ → ℕ → ℕ → List Bytes
  numbered name first i zero = []
  numbered name first i (suc n) =
      event_text (first + i) (now i) name ∷ numbered name first (suc i) n

  server_sent_event_text_lem :
      (id : ℕ) (time : ℤ) (name : Bytes)
      → server_sent_event_text lib h (pos id) time name ≡ event_text id time name
  unfolding server_sent_event_text
  server_sent_event_text_lem id time [] = refl
  server_sent_event_text_lem id time (c ∷ s) = refl

  consecutive-numbered :
      (pause : ℤ) (name : Bytes) (first i n : ℕ)
      → first + i + n < 2 ^ 63
      → consecutive lib h now pause name (pos first) i n ≡ numbered name first i n
  consecutive-numbered pause name first i zero small = refl
  consecutive-numbered pause name first i (suc n) small =
      rw
        (
          add64-pos first i (omega arith),
          server_sent_event_text_lem (first + i) (now i) name,
          consecutive-numbered pause name first (suc i) n (omega arith),
        )
        refl

  one_event : (fail_after : ℕ) → events_until fail_after 1 ≡ 1
  one_event fail_after = ground arith

  many :
      (count : ℕ)
      → (not (ltb_ℤ (pos (suc (suc count))) (pos 1)) && not (ltb_ℤ (pos 1) (pos (suc (suc count)))))
        ≡ false
  many count = ground arith

  one_text :
      (name : Bytes) (last : ℕ)
      → texts (
          calls_until none
            (call (write (raw (server_sent_event_text lib h (pos (last + 1)) (now 0) name))) ∷ []))
        ≡ numbered name (last + 1) 0 1
  unfolding calls_until
  one_text name last =
      ap (λ t. t ∷ [])
        (server_sent_event_text_lem (last + 1) (now 0) name
          ∙ ap (λ n. event_text n (now 0) name) (omega arith))

  sse_body_loop :
      (d : Sse)
      → (not (ltb_ℤ d.count (pos 1)) && not (ltb_ℤ (pos 1) d.count)) ≡ false
      → ltb_ℤ (pos 0) (compute_pause_per_write d.duration d.count) ≡ true
      → sse_body lib h now d
        ≡ some (
            sse_events lib h now
              (compute_pause_per_write d.duration d.count)
              d.event_name
              (pos_part d.fail_after)
              (add64 d.last_event_id (pos 1))
              0
              (pos_part d.count))
  unfolding sse_body
  sse_body_loop d several ticks = rw (several, ticks) refl

  body-sent :
      (d : Sse) (count last : ℕ)
      → d.count ≡ pos count
      → d.last_event_id ≡ pos last
      → 0 < count
      → last + 1 + count < 2 ^ 63
      → (count ≡ 1) ⊎ (ltb_ℤ (pos 0) (compute_pause_per_write d.duration d.count) ≡ true)
      → (body : List Event) × (sse_body lib h now d ≡ some body)
        × (texts (calls_until none body)
            ≡ numbered d.event_name (last + 1) 0 (events_until (pos_part d.fail_after) count))
  unfolding sse_body
  body-sent d zero last ec el positive small ticks = absurd (omega arith)
  body-sent d (suc zero) last ec el positive small ticks = (
    call (write (raw (server_sent_event_text lib h (pos (last + 1)) (now 0) d.event_name))) ∷ [],
    rw (ec, el, add64-pos last 1 (omega arith)) refl,
    rw (one_event (pos_part d.fail_after)) (one_text d.event_name last),
  )
  body-sent d (suc (suc count)) last ec el positive small ticks =
      let pause = compute_pause_per_write d.duration d.count in
      let start : add64 d.last_event_id (pos 1) ≡ pos (last + 1) =
        ap (λ z. add64 z (pos 1)) el ∙ add64-pos last 1 (omega arith) in
      let until : ℕ → ℕ = events_until (pos_part d.fail_after) in
      (
        sse_events lib h now pause d.event_name (pos_part d.fail_after)
            (add64 d.last_event_id (pos 1)) 0 (pos_part d.count),
        sse_body_loop d (rw ec (many count))
            (elim ticks [ inl one ↦ absurd (omega (arith, one)) | inr t ↦ t ]),
        events_sent lib h now pause d.event_name (add64 d.last_event_id (pos 1))
              (pos_part d.fail_after) (pos_part d.count)
            ∙ ap (λ st. consecutive lib h now pause d.event_name st 0 (until (pos_part d.count)))
                start
            ∙ ap
                (λ c.
                  consecutive lib h now pause d.event_name (pos (last + 1)) 0 (until (pos_part c)))
                ec
            ∙ consecutive-numbered pause d.event_name (last + 1) 0 (until (suc (suc count)))
                (ground arith),
      )

  headed :
      (d : Sse) (body : List Event)
      → texts (calls_until none (sse_headers lib h d ++ body))
        ≡ retry_text d.retry_ms ++ texts (calls_until none body)
  unfolding sse_headers calls_until
  headed d body = elim (Bool-cases (ltb_ℤ (pos 0) d.retry_ms)) [
    | inl asked ↦ rw asked refl
    | inr silent ↦ rw silent refl
  ]

  waited :
      (delay : ℤ) (es : List Event)
      → texts (calls_until none (initial_wait delay ++ es)) ≡ texts (calls_until none es)
  unfolding calls_until
  waited delay es = elim (Bool-cases (ltb_ℤ (pos 0) delay)) [
    | inl later ↦ rw later refl
    | inr now ↦ rw now refl
  ]

  deferred_calls : (cs : List Call) → texts (calls_until none (map call cs)) ≡ texts cs
  unfolding calls_until
  deferred_calls [] = refl
  deferred_calls (set_header k v ∷ cs) = deferred_calls cs
  deferred_calls (append_header k v ∷ cs) = deferred_calls cs
  deferred_calls (write_header s ∷ cs) = deferred_calls cs
  deferred_calls (write (raw b) ∷ cs) = ap (◌∷◌ b) (deferred_calls cs)
  deferred_calls (write (json b) ∷ cs) = deferred_calls cs
  deferred_calls (write (error_json code e) ∷ cs) = deferred_calls cs

  deferred :
      (cs : List Call) (es : List Event)
      → texts cs ≡ []
      → texts (calls_until none (with_deferred cs es)) ≡ texts (calls_until none es)
  unfolding calls_until with_deferred
  deferred cs [] e = deferred_calls cs ∙ e
  deferred cs (wait d instead ∷ es) e = deferred cs es e
  deferred cs (call (set_header k v) ∷ es) e = deferred cs es e
  deferred cs (call (append_header k v) ∷ es) e = deferred cs es e
  deferred cs (call (write_header s) ∷ es) e = deferred cs es e
  deferred cs (call (write (raw b)) ∷ es) e = ap (◌∷◌ b) (deferred cs es e)
  deferred cs (call (write (json b)) ∷ es) e = deferred cs es e
  deferred cs (call (write (error_json code x)) ∷ es) e = deferred cs es e

  -- To a client that stays, SSE sends its retry line, if one was asked for, and then events whose numbers
  -- count up from the one behind the last event that the client names: as many as asked for, or as many
  -- as are sent before the failure that was asked for, if those are fewer. This is so for a query that is
  -- accepted, whose times fit into the greatest duration, with a count that is 1 or leaves a positive
  -- pause, and numbers below 2^63.
  pub sse-sent :
      (milliseconds : ℤ → Bytes) (elapsed : ℤ) (r : Request) (d : Sse) (count last : ℕ)
      → parse_sse lib h r ≡ ok d
      → ltb_ℤ h.max_duration (add64 d.duration d.delay) ≡ false
      → d.count ≡ pos count
      → d.last_event_id ≡ pos last
      → 0 < count
      → last + 1 + count < 2 ^ 63
      → (count ≡ 1) ⊎ (ltb_ℤ (pos 0) (compute_pause_per_write d.duration d.count) ≡ true)
      → (calls : List Call) × (sse lib h milliseconds now elapsed none r ≡ some calls)
        × (texts calls
            ≡ retry_text d.retry_ms
              ++ numbered d.event_name (last + 1) 0 (events_until (pos_part d.fail_after) count))
  unfolding sse sse_trailer
  sse-sent milliseconds elapsed r d count last parsed fits ec el positive small ticks =
      let (body, made, sent) = body-sent d count last ec el positive small ticks in
      (
        calls_until none (
            initial_wait d.delay
            ++ with_deferred (sse_trailer lib h milliseconds elapsed d)
                (sse_headers lib h d ++ body)),
        rw (sse, parsed, fits, made) refl,
        waited d.delay _
            ∙ deferred (sse_trailer lib h milliseconds elapsed d) (sse_headers lib h d ++ body) refl
            ∙ headed d body
            ∙ ap (λ t. retry_text d.retry_ms ++ t) sent,
      )
