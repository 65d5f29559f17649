-- ===== src/Pipeline/Terminals/Registry.antt =====
-- Every terminal that parsePipeline of httpbin/pipeline.go accepts is one that dispatchTerminal knows.
use go_httpbin.Base.{
  ◌≡◌, refl, subst, ◌≢◌, ◌⊎◌, inl, inr, Bool, true, false, ◌&&◌, ◌||◌, Option, none, some, List, [],
  ◌∷◌, arith, Bool-cases, Option-cases, Bytes, str_eq, str_eq_iff, lookup,
}
use go_httpbin.Http.{ok, Handler}
use go_httpbin.Pipeline.{PipelineResult, terminal_def, pipeline_terminals, build_terminal_handlers}
use go_httpbin.Pipeline.Parsing.{parse_segments}
use go_httpbin.Pipeline.Parsing.Soundness.{parse_segments-Describes}
use go_httpbin.Pipeline.Terminals.{Dispatcher, special_terminals}

abbrev is_some {ℓ} : {V : Type ℓ} → Option V → Bool
is_some none = false
is_some (some v) = true

abbrev is_known {ℓ} : {V : Type ℓ} → Bytes → List (Bytes × V) → Bool
is_known k m = is_some (lookup k m)

found {ℓ} : {V : Type ℓ} (o : Option V) → is_some o ≡ true → (v : V) × (o ≡ some v)
found none e = (let f : false ≡ true = e in cc)
found (some v) e = (v, refl)

every : {V : Type 0} → (Bytes → Bool) → List (Bytes × V) → Bool
every p [] = true
every p ((k, v) ∷ m) = p k && every p m

every-lookup :
    {V : Type 0} (p : Bytes → Bool) (k : Bytes) (v : V) (m : List (Bytes × V))
    → every p m ≡ true
    → lookup k m ≡ some v
    → p k ≡ true
unfolding every lookup
every-lookup p k v [] h e = (let f : none ≡ some v = e in cc)
every-lookup p k v ((j, w) ∷ m) h e = elim (Bool-cases (str_eq j k)) [
  | inl same ↦ subst (λ x. p x ≡ true) ((str_eq_iff j k).0 same) (ground arith)
  | inr other ↦ every-lookup p k v m (ground arith) (ground arith)
]

other_one : (a b : Bool) → (a || b) ≡ true → a ≡ false → b ≡ true
other_one true b e f = cc
other_one false b e f = e

module _ (h : Dispatcher) where
  abbrev is_handled : List Bytes → Bytes → Bytes → Bool
  is_handled args prefix name =
      is_known name (special_terminals h args prefix) || is_known name build_terminal_handlers

  all_handled :
      (args : List Bytes) (prefix : Bytes)
      → every (is_handled args prefix) pipeline_terminals ≡ true
  unfolding every lookup str_eq pipeline_terminals build_terminal_handlers special_terminals
  all_handled args prefix = refl

  handled :
      (r : PipelineResult) (prefix : Bytes)
      → terminal_def r.terminal.name ≢ none
      → ((handler : Handler) × (lookup r.terminal.name (special_terminals h r.terminal.args prefix)
            ≡ some handler))
        ⊎ ((method : Bytes) × (lookup r.terminal.name build_terminal_handlers ≡ some method))
  unfolding terminal_def
  handled r prefix known =
      let name = r.terminal.name in
      let args = r.terminal.args in
      elim (Option-cases (terminal_def name)) [
        | inl absent ↦ absurd (known absent)
        | inr (def, e) ↦
            let all =
              every-lookup (is_handled args prefix) name def pipeline_terminals
                (all_handled args prefix) e in
            elim (Bool-cases (is_known name (special_terminals h args prefix))) [
              | inl special ↦ inl (found (lookup name (special_terminals h args prefix)) special)
              | inr other ↦ inr (
                  found (lookup name build_terminal_handlers) (
                    other_one (is_known name (special_terminals h args prefix))
                      (is_known name build_terminal_handlers) all other))
            ]
      ]

  -- The terminal of every pipeline that parses is one of the switch or one of the registry, so that it
  -- is never answered as unknown.
  pub parse_segments-handled :
      (segments : List Bytes) (prefix : Bytes) (r : PipelineResult)
      → parse_segments segments ≡ ok r
      → ((handler : Handler) × (lookup r.terminal.name (special_terminals h r.terminal.args prefix)
            ≡ some handler))
        ⊎ ((method : Bytes) × (lookup r.terminal.name build_terminal_handlers ≡ some method))
  parse_segments-handled segments prefix r e =
      handled r prefix (parse_segments-Describes segments r e).1
