-- ===== src/Pipeline/Parsing/Chaining.antt =====
-- The path of a pipeline's next redirect, put together from its modifiers by httpbin/pipeline.go, and
-- what parsePipeline reads from it.
use go_httpbin.Base.{
  ℕ, ◌≤◌, ◌<◌, ◌≡◌, refl, ap, ◌∙◌, inl, inr, true, some, List, [], ◌∷◌, ◌++◌, append_assoc, arith,
  lt→ltb, Option-cases, length, length-append, All, Bytes, str_eq, lookup,
}
use go_httpbin.Http.{Result, ok, ◌>>=◌}
use go_httpbin.Pipeline.{
  RedirectType, redirect, absolute_redirect, relative_redirect, redirect_name, PipelineStep,
  PipelineResult, modifier_def, terminal_def, pipeline_modifier_defs, pipeline_terminals,
}
use go_httpbin.Pipeline.Parsing.{
  push, ending, take_args, one_segment, match_terminal, treat_as_modifier, parse_segments,
  read_last, read_segment, segments_of, slashed, build_modifier_prefix,
}
use go_httpbin.Pipeline.Parsing.Soundness.{
  IsModifier, parse_segments-Describes, modifier_def_at_most_one, slashed-append,
}

-- The segments of some modifiers.
unfoldable pub flat : List PipelineStep → List Bytes
flat [] = []
flat (m ∷ ms) = segments_of m ++ flat ms

-- The text that buildModifierPrefix writes is that of the modifiers' segments.
pub prefix-flat : (ms : List PipelineStep) → build_modifier_prefix ms ≡ slashed (flat ms)
unfolding build_modifier_prefix flat
prefix-flat [] = unfold slashed in refl
prefix-flat (m ∷ ms) = rw (slashed-append (segments_of m) (flat ms), prefix-flat ms) refl

modifier_follows :
    (seg : Bytes) (args : ℕ) (rest : List Bytes)
    → args < length rest
    → treat_as_modifier seg args rest ≡ true
modifier_follows seg args rest l = elim (Option-cases (terminal_def seg)) [
  | inl absent ↦ rw (absent, treat_as_modifier) refl
  | inr (def, known) ↦ rw (known, treat_as_modifier) (lt→ltb args (length rest) l)
]

read-flag :
    (seg value : Bytes) (rest : List Bytes) (flag valued : Result PipelineResult)
    → modifier_def seg ≡ some 0
    → read_segment seg value rest flag valued ≡ (flag >>= push (record { name = seg; args = [] }))
unfolding read_segment
read-flag seg value rest flag valued known =
    rw (known, modifier_follows seg 0 (value ∷ rest) (omega arith), read_segment) refl

read-valued :
    (seg value : Bytes) (rest : List Bytes) (flag valued : Result PipelineResult)
    → modifier_def seg ≡ some 1
    → 0 < length rest
    → read_segment seg value rest flag valued
      ≡ (valued >>= push (record { name = seg; args = value ∷ [] }))
unfolding read_segment
read-valued seg value rest flag valued known l =
    rw (known, modifier_follows seg 1 (value ∷ rest) (omega arith), read_segment) refl

parse-flag :
    (seg : Bytes) (rest : List Bytes)
    → modifier_def seg ≡ some 0
    → 0 < length rest
    → parse_segments (seg ∷ rest)
      ≡ (parse_segments rest >>= push (record { name = seg; args = [] }))
parse-flag seg [] known l = absurd (omega arith)
parse-flag seg (value ∷ rest) known l =
    unfold parse_segments in
    read-flag seg value rest (parse_segments (value ∷ rest)) (parse_segments rest) known

parse-valued :
    (seg value : Bytes) (rest : List Bytes)
    → modifier_def seg ≡ some 1
    → 0 < length rest
    → parse_segments (seg ∷ value ∷ rest)
      ≡ (parse_segments rest >>= push (record { name = seg; args = value ∷ [] }))
unfolding parse_segments
parse-valued seg value rest known l =
    read-valued seg value rest (parse_segments (value ∷ rest)) (parse_segments rest) known l

-- A result with some modifiers put before its own.
unfoldable pub attach : List PipelineStep → Result PipelineResult → Result PipelineResult
attach [] r = r
attach (m ∷ ms) r = attach ms r >>= push m

behind : (ms : List PipelineStep) (t : Bytes) (rest : List Bytes) → 0 < length (flat ms ++ t ∷ rest)
behind ms t rest = rw (length-append (flat ms) (t ∷ rest)) (omega arith)

parse-step :
    (name : Bytes) (args rest : List Bytes)
    → modifier_def name ≡ some (length args)
    → 0 < length rest
    → parse_segments (name ∷ args ++ rest)
      ≡ (parse_segments rest >>= push (record { name = name; args = args }))
parse-step name [] rest known l = parse-flag name rest known l
parse-step name (v ∷ []) rest known l = parse-valued name v rest known l
parse-step name (v ∷ w ∷ args) rest known l =
    let b : length (v ∷ w ∷ args) ≤ 1 =
      modifier_def_at_most_one name (length (v ∷ w ∷ args)) known in
    absurd (omega arith)

parse-flat :
    (ms : List PipelineStep) (t : Bytes) (rest : List Bytes)
    → All IsModifier ms
    → parse_segments (flat ms ++ t ∷ rest) ≡ attach ms (parse_segments (t ∷ rest))
unfolding flat attach
parse-flat [] t rest h = refl
parse-flat (m ∷ ms) t rest (h, hs) = rw (append_assoc m.args (flat ms) (t ∷ rest)) (
    parse-step m.name m.args (flat ms ++ t ∷ rest) h (behind ms t rest)
    ∙ ap (λ r. r >>= push m) (parse-flat ms t rest hs))

attach-ending :
    (ms : List PipelineStep) (name : Bytes) (args : List Bytes)
    → attach ms (ending name args)
      ≡ ok (record { modifiers = ms; terminal = record { name = name; args = args } })
unfolding attach
attach-ending [] name args = refl
attach-ending (m ∷ ms) name args = rw (attach-ending ms name args) refl

parse-redirect :
    (k : RedirectType) (rest : List Bytes)
    → parse_segments (redirect_name k ∷ rest) ≡ ending (redirect_name k) rest
unfolding parse_segments read_last read_segment match_terminal one_segment take_args modifier_def
    terminal_def pipeline_modifier_defs pipeline_terminals lookup str_eq redirect_name
parse-redirect redirect [] = refl
parse-redirect absolute_redirect [] = refl
parse-redirect relative_redirect [] = refl
parse-redirect redirect (v ∷ rest) = refl
parse-redirect absolute_redirect (v ∷ rest) = refl
parse-redirect relative_redirect (v ∷ rest) = refl

-- When a pipeline ends in a redirect, the segments of its modifiers, of the same redirect and of any
-- count and destination are read back as the same modifiers and a redirect with that count and
-- destination.
pub parse_segments-redirect :
    (segments : List Bytes) (r : PipelineResult) (k : RedirectType) (rest : List Bytes)
    → parse_segments segments ≡ ok r
    → parse_segments (flat r.modifiers ++ redirect_name k ∷ rest)
      ≡ ok (record r { terminal = record { name = redirect_name k; args = rest } })
parse_segments-redirect segments r k rest e =
    rw
      (
        parse-flat r.modifiers (redirect_name k) rest (parse_segments-Describes segments r e).0,
        parse-redirect k rest,
      )
      (attach-ending r.modifiers (redirect_name k) rest)
