-- ===== src/Handlers/EventStreams/Loop.antt =====
-- What the loop of SSE writes, for a client that stays.
use go_httpbin.Base.{
  ℕ, zero, suc, ◌-◌, ◌≡◌, refl, sym, ap, ◌∙◌, inl, inr, true, false, ◌&&◌, none, List, [], ◌∷◌,
  arith, ltb, leb, ◌==◌, if◌then◌else◌, lt→ltb, Bool-cases, Bytes,
}
use go_httpbin.Base.Int.{ℤ, pos, add64}
use go_httpbin.Http.{Call, set_header, append_header, write_header, write, raw, json, error_json}
use go_httpbin.Handlers.{Library, HttpBin}
use go_httpbin.Handlers.Dripping.{Event, wait, calls_until}
use go_httpbin.Handlers.EventStreams.{sse_events, server_sent_event_text}
use Prim.Native.Nat.{min}

-- The texts that calls write, in order; those of JSON are left out.
abbrev pub texts : List Call → List Bytes
texts [] = []
texts (set_header k v ∷ cs) = texts cs
texts (append_header k v ∷ cs) = texts cs
texts (write_header s ∷ cs) = texts cs
texts (write (raw b) ∷ cs) = b ∷ texts cs
texts (write (json b) ∷ cs) = texts cs
texts (write (error_json code e) ∷ cs) = texts cs

-- How many of `count` events are sent, from the `i`-th on.
abbrev pub sent_of : ℕ → ℕ → ℕ → ℕ
sent_of fail_after i count = if fail_after == 0 then count else min count (fail_after - i)

sent_none : (f i : ℕ) → sent_of f i 0 ≡ 0
sent_none f i = ground arith

sent_failed : (f i n : ℕ) → (ltb 0 f && leb f i) ≡ true → sent_of f i n ≡ 0
sent_failed f i n h = ground arith

sent_on :
    (f i n : ℕ) → (ltb 0 f && leb f i) ≡ false → sent_of f i (suc n) ≡ suc (sent_of f (suc i) n)
sent_on f i n h = ground arith

module _ (lib : Library) (h : HttpBin lib) (now : ℕ → ℤ) (pause : ℤ) (name : Bytes)
    (start_id : ℤ) where
  -- `n` events, from the `i`-th on, with consecutive numbers.
  abbrev pub consecutive : ℕ → ℕ → List Bytes
  consecutive i zero = []
  consecutive i (suc n) =
      server_sent_event_text lib h (add64 start_id (pos i)) (now i) name ∷ consecutive (suc i) n

  -- What is sent behind an event, with or without a wait before it.
  texts_behind :
      (count : ℕ) (es : List Event)
      → (0 ≡ count → texts (calls_until none es) ≡ [])
      → texts (calls_until none (if ltb 0 count then wait pause [] ∷ es else []))
        ≡ texts (calls_until none es)
  unfolding calls_until
  texts_behind zero es h = sym (h refl)
  texts_behind (suc count) es h = rw (lt→ltb 0 (suc count) (omega arith)) refl

  no_events :
      (fail_after i count : ℕ)
      → 0 ≡ count
      → texts (calls_until none (sse_events lib h now pause name fail_after start_id i count)) ≡ []
  unfolding sse_events calls_until
  no_events fail_after i zero e = refl
  no_events fail_after i (suc count) e = absurd (omega arith)

  events_from :
      (fail_after i count : ℕ)
      → texts (calls_until none (sse_events lib h now pause name fail_after start_id i count))
        ≡ consecutive i (sent_of fail_after i count)
  unfolding sse_events calls_until
  events_from fail_after i zero = rw (sent_none fail_after i) refl
  events_from fail_after i (suc count) = elim (Bool-cases (ltb 0 fail_after && leb fail_after i)) [
    | inl failed ↦ rw (failed, sent_failed fail_after i (suc count) failed) refl
    | inr on ↦
        rw (on, sent_on fail_after i count on)
          (ap (◌∷◌ (server_sent_event_text lib h (add64 start_id (pos i)) (now i) name)) (
            texts_behind count (sse_events lib h now pause name fail_after start_id (suc i) count)
              (no_events fail_after (suc i) count)
            ∙ events_from fail_after (suc i) count))
  ]

  pub events_sent :
      (fail_after count : ℕ)
      → texts (calls_until none (sse_events lib h now pause name fail_after start_id 0 count))
        ≡ consecutive 0 (if fail_after == 0 then count else min count fail_after)
  events_sent fail_after count = events_from fail_after 0 count ∙ ap (consecutive 0) (ground arith)
