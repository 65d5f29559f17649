-- ===== src/Mix/Answering.antt =====
-- The answers of the /mix endpoint in httpbin/mix.go.
use go_httpbin.Base.{
  ◌≤◌, ◌≡◌, refl, subst, inl, inr, not, ◌&&◌, some, List, [], ◌∷◌, arith, ltb, Bool-cases,
  Option-cases, length, All, All-append, Bytes,
}
use go_httpbin.Base.Int.{ℤ, pos, ltb_ℤ, pos_part, ◌≤ℤ◌}
use go_httpbin.Strings.{cut}
use go_httpbin.Http.{
  Request, Call, Result, ok, err, Error, set_header, append_header, add_value, write_header, write,
  write_error, canonical,
}
use go_httpbin.Parsing.{parse_status_code, parse_bounded_duration}
use go_httpbin.Parsing.Ranges.{parse_bounded_status_code_iff, Result-cases}
use go_httpbin.Mix.{
  Kind, set_status, add_header, add_delay, set_body, MixDirective, Mixed, unmixed, World,
  without_crlf, is_allowed_mix_header, mix_status, mix_header, mix_delay, mix_body, apply_directive,
  mix_answer, finish_mix, mix_directives, mix, parse_mix_directives,
}

-- A call that names only a status that the server can send, 100 to 599.
abbrev pub IsSendable : Call → Type 0
IsSendable (set_header k v) = Unit
IsSendable (append_header k v) = Unit
IsSendable (write_header s) = (100 ≤ s) × (s ≤ 599)
IsSendable (write b) = Unit

abbrev IsMixed : Mixed → Type 0
IsMixed m = (100 ≤ pos_part m.status) × (pos_part m.status ≤ 599) × All IsSendable m.headers

error-IsSendable : (e : Error) → All IsSendable (write_error 400 (some e))
unfolding write_error
error-IsSendable e = (tt, ((omega arith, omega arith), (tt, tt)))

-- What a step of the loop makes of a good state.
abbrev Keeps : Result Mixed → Type 0
Keeps (ok m) = IsMixed m
Keeps (err e) = Unit

in_range :
    (code : ℤ) → pos 100 ≤ℤ code → code ≤ℤ pos 599 → (100 ≤ pos_part code) × (pos_part code ≤ 599)
in_range (pos n) l u = (omega arith, omega arith)
in_range (go_httpbin.Base.Int.negsuc n) l u = absurd (omega arith)

module _ (world : World) where
  mix_status-Keeps : (value : Bytes) (m : Mixed) → IsMixed m → Keeps (mix_status world value m)
  unfolding mix_status
  mix_status-Keeps value m h = elim (Result-cases (parse_status_code value)) [
    | inl (code, e) ↦
        rw (e, Keeps)
          (let range =
              (parse_bounded_status_code_iff value (pos 100) (pos 599) code).0
                (unfold parse_status_code in e) in
            let within = in_range code range.1 range.2 in (within.0, within.1, h.2))
    | inr (x, e) ↦ rw (e, Keeps) tt
  ]

  mix_header-Keeps : (value : Bytes) (m : Mixed) → IsMixed m → Keeps (mix_header world value m)
  unfolding mix_header
  mix_header-Keeps value m h =
      let parts = cut b':' value in
      let name = without_crlf parts.0 in
      elim (Bool-cases (not parts.2)) [
        | inl missing ↦ rw (missing, Keeps) tt
        | inr present ↦ elim (Bool-cases (not (is_allowed_mix_header name))) [
          | inl refused ↦ rw (present, refused, Keeps) tt
          | inr allowed ↦
              rw (present, allowed, Keeps)
                (
                  h.0,
                  h.1,
                  All-append IsSendable m.headers
                      (set_header (canonical name) (without_crlf parts.1) ∷ []) h.2 (tt, tt),
                )
        ]
      ]

  mix_delay-Keeps : (value : Bytes) (m : Mixed) → IsMixed m → Keeps (mix_delay world value m)
  unfolding mix_delay
  mix_delay-Keeps value m h =
      elim (Result-cases (parse_bounded_duration world.clock value (pos 0) world.max_duration)) [
        | inl (d, e) ↦ rw (e, Keeps) h
        | inr (x, e) ↦ rw (e, Keeps) tt
      ]

  mix_body-Keeps : (value : Bytes) (m : Mixed) → IsMixed m → Keeps (mix_body world value m)
  unfolding mix_body
  mix_body-Keeps value m h = elim (Option-cases (world.url_decode value)) [
    | inr (d, e) ↦ rw (e, Keeps) h
    | inl e ↦ elim (Option-cases (world.std_decode value)) [
      | inr (d, f) ↦ rw (e, f, Keeps) h
      | inl f ↦ rw (e, f, Keeps) tt
    ]
  ]

  apply_directive-Keeps :
      (kind : Kind) (value : Bytes) (m : Mixed)
      → IsMixed m
      → Keeps (apply_directive world kind value m)
  unfolding apply_directive
  apply_directive-Keeps set_status value m h = mix_status-Keeps value m h
  apply_directive-Keeps add_header value m h = mix_header-Keeps value m h
  apply_directive-Keeps add_delay value m h = mix_delay-Keeps value m h
  apply_directive-Keeps set_body value m h = mix_body-Keeps value m h

  mix_answer-IsSendable : (m : Mixed) → IsMixed m → All IsSendable (mix_answer m)
  unfolding mix_answer
  mix_answer-IsSendable m h = elim (Bool-cases (ltb 0 (length m.body))) [
    | inl full ↦ rw full ((h.0, h.1), (tt, tt))
    | inr empty ↦ rw empty ((h.0, h.1), tt)
  ]

  finish_mix-IsSendable : (m : Mixed) → IsMixed m → All IsSendable (finish_mix world m)
  unfolding finish_mix
  finish_mix-IsSendable m h = elim (Bool-cases (ltb_ℤ world.max_duration m.total_delay)) [
    | inl long ↦ rw long (
        All-append IsSendable m.headers
          (write_error 400
            (some (go_httpbin.Http.total_delay_too_long m.total_delay world.max_duration)))
          h.2
          (error-IsSendable
            (go_httpbin.Http.total_delay_too_long m.total_delay world.max_duration)))
    | inr short ↦ elim (Bool-cases (ltb_ℤ (pos 0) m.total_delay && world.is_done)) [
      | inl gone ↦ rw (short, gone) h.2
      | inr here ↦
          rw (short, here)
            (All-append IsSendable m.headers (mix_answer m) h.2 (mix_answer-IsSendable m h))
    ]
  ]

  step-IsSendable :
      (d : MixDirective) (ds : List MixDirective) (m : Mixed) (res : Result Mixed)
      → apply_directive world d.kind d.value m ≡ res
      → IsMixed m
      → ((m' : Mixed) → IsMixed m' → All IsSendable (mix_directives world ds m'))
      → All IsSendable (mix_directives world (d ∷ ds) m)
  step-IsSendable d ds m (ok m') e h go =
      unfold mix_directives in
      rw (e, mix_directives) (go m' (subst Keeps e (apply_directive-Keeps d.kind d.value m h)))
  step-IsSendable d ds m (err x) e h go =
      unfold mix_directives in
      rw (e, mix_directives)
        (All-append IsSendable m.headers (write_error 400 (some x)) h.2 (error-IsSendable x))

  mix_directives-IsSendable :
      (ds : List MixDirective) (m : Mixed) → IsMixed m → All IsSendable (mix_directives world ds m)
  mix_directives-IsSendable [] m h = unfold mix_directives in finish_mix-IsSendable m h
  mix_directives-IsSendable (d ∷ ds) m h =
      step-IsSendable d ds m (apply_directive world d.kind d.value m) refl h
        (mix_directives-IsSendable ds)

  -- Whatever path a request to /mix has, each status that the handler writes is between 100 and 599,
  -- so that the server never panics over one.
  pub mix-IsSendable : (r : Request) → All IsSendable (mix world r)
  unfolding mix
  mix-IsSendable r = elim (Result-cases (parse_mix_directives r.path)) [
    | inl (ds, e) ↦
        rw (e, mix) (mix_directives-IsSendable ds unmixed (omega arith, omega arith, tt))
    | inr (x, e) ↦ rw (e, mix) (error-IsSendable x)
  ]
