-- ===== src/Pipeline/Parsing.antt =====
-- parsePipeline and buildModifierPrefix of httpbin/pipeline.go, on the segments of a path.
pub mod Soundness
pub mod Chaining
use go_httpbin.Base.{
  ℕ, Bool, true, not, ◌||◌, none, some, List, [], ◌∷◌, ◌++◌, ltb, ◌==◌, if◌then◌else◌, length, take,
  Bytes, codes, str_eq, is_empty,
}
use go_httpbin.Strings.{split, slash}
use go_httpbin.Strings.Trimming.{trim_slash}
use go_httpbin.Strings.PathClean.{clean_path}
use go_httpbin.Base.Int.{ℤ, pos, negsuc}
use go_httpbin.Http.{
  Result, ok, err, ◌>>=◌, empty_pipeline, no_terminal, too_many_segments, requires_value,
  unknown_segment, requires_arguments,
}
use go_httpbin.Pipeline.{
  PipelineStep, PipelineResult, TerminalDef, modifier_def, terminal_def, max_pipeline_segments,
}

abbrev pub push : PipelineStep → PipelineResult → Result PipelineResult
push m r = ok (record r { modifiers = m ∷ r.modifiers })

abbrev pub ending : Bytes → List Bytes → Result PipelineResult
ending name args = ok (record { modifiers = []; terminal = record { name = name; args = args } })

-- A terminal of one segment, with the segments after it.
unfoldable pub take_args : Bytes → List Bytes → ℤ → Result PipelineResult
take_args name rest (negsuc k) = ending name rest
take_args name rest (pos n) =
    if ltb (length rest) n
    then err (requires_arguments name n (length rest))
    else ending name (take n rest)

unfoldable pub one_segment : Bytes → List Bytes → Result PipelineResult
unfolding take_args
one_segment seg rest = elim (terminal_def seg) [
  | none ↦ err (unknown_segment seg)
  | some def ↦ take_args seg rest def.args
]

abbrev pub two_names : Bytes → Bytes → Bytes
two_names a b = a ++ slash ∷ b

-- The terminal at the front of the segments that remain, the longer name first.
unfoldable pub match_terminal : Bytes → List Bytes → Result PipelineResult
unfolding one_segment
match_terminal seg [] = one_segment seg []
match_terminal seg (next ∷ rest) = elim (terminal_def (two_names seg next)) [
  | some def ↦ ending (two_names seg next) rest
  | none ↦ one_segment seg (next ∷ rest)
]

-- Whether a modifier's name is read as a modifier: always, where it is no terminal; otherwise if a
-- terminal can follow its arguments.
abbrev pub treat_as_modifier : Bytes → ℕ → List Bytes → Bool
treat_as_modifier seg args rest = elim (terminal_def seg) [
  | none ↦ true
  | some def ↦ ltb args (length rest)
]

-- A round of the loop with no segment after this one.
unfoldable pub read_last : Bytes → Result PipelineResult
unfolding match_terminal
read_last seg = elim (modifier_def seg) [
  | none ↦ match_terminal seg []
  | some args ↦
      if not (treat_as_modifier seg args [])
      then match_terminal seg []
      else if args == 0
      then err no_terminal
      else err (requires_value seg)
]

-- A round of the loop with a segment `value` after this one. `flag` is what the rounds from `value`
-- on return, and `valued` what those from `rest` on return.
unfoldable pub read_segment :
    Bytes
    → Bytes
    → List Bytes
    → Result PipelineResult
    → Result PipelineResult
    → Result PipelineResult
unfolding match_terminal
read_segment seg value rest flag valued = elim (modifier_def seg) [
  | none ↦ match_terminal seg (value ∷ rest)
  | some args ↦
      if not (treat_as_modifier seg args (value ∷ rest))
      then match_terminal seg (value ∷ rest)
      else if args == 0
      then flag >>= push (record { name = seg; args = [] })
      else valued >>= push (record { name = seg; args = value ∷ [] })
]

-- The loop. A modifier takes one argument or none.
unfoldable pub parse_segments : List Bytes → Result PipelineResult
unfolding read_last read_segment
parse_segments [] = err no_terminal
parse_segments (seg ∷ []) = read_last seg
parse_segments (seg ∷ value ∷ rest) =
    read_segment seg value rest (parse_segments (value ∷ rest)) (parse_segments rest)

-- The parts that are not empty.
unfoldable pub non_empty : List Bytes → List Bytes
non_empty [] = []
non_empty (s ∷ ss) = if is_empty s then non_empty ss else s ∷ non_empty ss

unfoldable pub check_segments : List Bytes → Result PipelineResult
unfolding parse_segments max_pipeline_segments
check_segments segments =
    if length segments == 0
    then err empty_pipeline
    else if ltb max_pipeline_segments (length segments)
    then err (too_many_segments (length segments))
    else parse_segments segments

unfoldable pub parse_pipeline : Bytes → Result PipelineResult
unfolding check_segments non_empty
parse_pipeline url_path =
    let cleaned = trim_slash (clean_path url_path) in
    if is_empty cleaned || str_eq cleaned (codes ".")
    then err empty_pipeline
    else check_segments (non_empty (split slash cleaned))

-- A step with its name and its arguments.
abbrev pub segments_of : PipelineStep → List Bytes
segments_of m = m.name ∷ m.args

-- The text of some segments, each with a slash before it.
unfoldable pub slashed : List Bytes → Bytes
slashed [] = []
slashed (s ∷ ss) = slash ∷ s ++ slashed ss

unfoldable pub build_modifier_prefix : List PipelineStep → Bytes
unfolding slashed
build_modifier_prefix [] = []
build_modifier_prefix (m ∷ ms) = slashed (segments_of m) ++ build_modifier_prefix ms
