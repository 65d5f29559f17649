-- ===== src/Pipeline/Handling.antt =====
-- The handler Pipeline of httpbin/pipeline.go. The random draws, the client's disconnection during a
-- delay and the text of a Server-Timing header are parameters.
use go_httpbin.Base.{
  ℕ, suc, Bool, true, false, not, ◌||◌, Option, none, some, List, [], ◌∷◌, ◌++◌, if◌then◌else◌, any,
  Bytes, codes, str_eq, is_empty,
}
use go_httpbin.Base.Int.{ℤ, pos, ltb_ℤ, pos_part, add64, sub64}
use go_httpbin.Strings.{cut, contains_byte}
use go_httpbin.Http.{
  Request, Call, Result, ok, err, ◌>>=◌, set_header, write_error, invalid_header,
  header_not_allowed, invalid_header_characters, in_context, total_delay_too_long,
  method_not_allowed, canonical,
}
use go_httpbin.Mix.{is_allowed_mix_header}
use go_httpbin.Parsing.{Clock, parse_delay_range, parse_status_code}
use go_httpbin.Pipeline.{PipelineStep, PipelineResult, TerminalDef, terminal_def}
use go_httpbin.Pipeline.Parsing.{parse_pipeline, build_modifier_prefix}
use go_httpbin.Pipeline.Responses.{override_status}
use go_httpbin.Pipeline.Terminals.{Dispatcher, dispatch_terminal, set_query}

-- What the validation loop gathers.
pub record Validated : Type 0 where
  pub total_delay : ℤ
  pub delays : List (ℤ × ℤ)
  pub headers : List (Bytes × Bytes)
  pub status : Option ℤ
  pub request : Request

abbrev pub unvalidated : Request → Validated
unvalidated r = record {
  total_delay = pos 0;
  delays = [];
  headers = [];
  status = none;
  request = r;
}

-- What the handler does not decide. `int63n i n` is the draw of the i-th delay, below n, and
-- `is_done i` says that the client is gone before its end.
pub record World : Type 0 where
  pub clock : Clock
  pub max_duration : ℤ
  pub int63n : ℕ → ℤ → ℤ
  pub is_done : ℕ → Bool
  pub server_timing : ℤ → Bytes

abbrev is_one_of : Bytes → Bytes → Bytes → Bool
is_one_of s a b = str_eq s a || str_eq s b

abbrev first_arg : List Bytes → Bytes
first_arg [] = []
first_arg (a ∷ args) = a

module _ (world : World) where
  unfoldable pub add_delay : Bytes → Bytes → Validated → Result Validated
  add_delay name arg v = elim (parse_delay_range world.clock arg world.max_duration) [
    | err e ↦ err (in_context name e)
    | ok range ↦
        ok (record v { total_delay = add64 v.total_delay range.1; delays = v.delays ++ range ∷ [] })
  ]

  unfoldable pub add_header : Bytes → Validated → Result Validated
  add_header arg v =
      let parts = cut b':' arg in
      if not parts.2 || is_empty parts.0
      then err (invalid_header arg)
      else if not (is_allowed_mix_header parts.0)
      then err (header_not_allowed parts.0)
      else if contains_byte b'\r' arg || contains_byte b'\n' arg
      then err invalid_header_characters
      else ok (record v { headers = v.headers ++ (parts.0, parts.1) ∷ [] })

  -- The first status stays.
  unfoldable pub add_status : Bytes → Validated → Result Validated
  add_status arg v = elim (parse_status_code arg) [
    | err e ↦ err (in_context (codes "status") e)
    | ok code ↦ ok (elim v.status [ none ↦ record v { status = some code } | some first ↦ v ])
  ]

  unfoldable pub add_no_cache : Validated → Validated
  add_no_cache v = record v {
    request = record v.request { query = set_query (codes "nocache") (codes "1") v.request.query };
  }

  -- A round of the validation loop.
  unfoldable pub validate_modifier : PipelineStep → Validated → Result Validated
  unfolding add_delay add_header add_status add_no_cache
  validate_modifier mod_ v =
      if is_one_of mod_.name (codes "delay") (codes "response_delay")
      then add_delay mod_.name (first_arg mod_.args) v
      else if str_eq mod_.name (codes "header")
      then add_header (first_arg mod_.args) v
      else if str_eq mod_.name (codes "status")
      then add_status (first_arg mod_.args) v
      else if is_one_of mod_.name (codes "no-cache") (codes "nocache")
      then ok (add_no_cache v)
      else ok v

  unfoldable pub validate_modifiers : List PipelineStep → Validated → Result Validated
  unfolding validate_modifier
  validate_modifiers [] v = ok v
  validate_modifiers (m ∷ ms) v = validate_modifier m v >>= validate_modifiers ms

  -- The i-th delay, drawn between its ends.
  unfoldable pub draw_delay : ℕ → ℤ × ℤ → ℤ
  draw_delay i (lo, hi) =
      if ltb_ℤ lo hi then add64 lo (world.int63n i (add64 (sub64 hi lo) (pos 1))) else lo

  -- The delay spent, or `none` where the client left.
  unfoldable pub apply_delays : ℕ → List (ℤ × ℤ) → ℤ → Option ℤ
  unfolding draw_delay
  apply_delays i [] actual = some actual
  apply_delays i (d ∷ ds) actual =
      let delay = draw_delay i d in
      if ltb_ℤ (pos 0) delay
      then (if world.is_done i then none else apply_delays (suc i) ds (add64 actual delay))
      else apply_delays (suc i) ds actual

  abbrev timing : ℤ → List Call
  timing actual =
      if ltb_ℤ (pos 0) actual
      then set_header (codes "Server-Timing") (world.server_timing actual) ∷ []
      else []

  unfoldable pub set_headers : List (Bytes × Bytes) → List Call
  set_headers [] = []
  set_headers ((k, v) ∷ hs) = set_header (canonical k) v ∷ set_headers hs

  abbrev overridden : Option ℤ → List Call → List Call
  overridden none cs = cs
  overridden (some code) cs = override_status (pos_part code) false cs

  -- The definition of a terminal's name; that of Go's zero value for a name that is not there.
  abbrev definition_of : Bytes → TerminalDef
  definition_of name = elim (terminal_def name) [
    | none ↦ record { args = pos 0; path_values = []; methods = [] }
    | some def ↦ def
  ]

  abbrev allows : List Bytes → Bytes → Bool
  allows [] m = true
  allows (a ∷ more) m = any (str_eq m) (a ∷ more)

  -- From the method check on.
  unfoldable pub dispatch : Dispatcher → PipelineResult → Validated → List Call
  dispatch h result v =
      let r = v.request in
      let def = definition_of result.terminal.name in
      if allows def.methods r.method
      then overridden v.status
          (dispatch_terminal h def result.terminal (build_modifier_prefix result.modifiers) r)
      else write_error 405 (some (method_not_allowed r.method result.terminal.name))

  -- From the check of the total on.
  unfoldable pub run_pipeline : Dispatcher → PipelineResult → Validated → List Call
  unfolding apply_delays set_headers dispatch
  run_pipeline h result v =
      if ltb_ℤ world.max_duration v.total_delay
      then write_error 400 (some (total_delay_too_long v.total_delay world.max_duration))
      else elim (apply_delays 0 v.delays (pos 0)) [
        | none ↦ []
        | some actual ↦ timing actual ++ (set_headers v.headers ++ dispatch h result v)
      ]

  abbrev answer : {A : Type 0} → Result A → (A → List Call) → List Call
  answer (err e) f = write_error 400 (some e)
  answer (ok a) f = f a

  unfoldable pub pipeline : Dispatcher → Request → List Call
  unfolding validate_modifiers run_pipeline
  pipeline h r = answer (parse_pipeline r.path) (λ result.
      answer (validate_modifiers result.modifiers (unvalidated r)) (run_pipeline h result))
