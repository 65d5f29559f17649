-- ===== src/Pipeline/Parsing/Soundness.antt =====
-- What parsePipeline of httpbin/pipeline.go returns, against the segments it was given.
use go_httpbin.Base.{
  ℕ, suc, ◌≤◌, ◌≡◌, refl, sym, ap, ◌∙◌, subst, ◌≢◌, inl, inr, Bool, true, false, none, some, List,
  [], ◌∷◌, ◌++◌, append_assoc, append-nil, arith, ltb, ◌==◌, if◌then◌else◌, Bool-cases,
  Option-cases, length, take, drop, take-append-drop, All, Bytes, str_eq, lookup,
}
use go_httpbin.Strings.{slash}
use go_httpbin.Base.Int.{ℤ, pos, negsuc}
use go_httpbin.Http.{Result, ok, err, ◌>>=◌, no_terminal, requires_value}
use go_httpbin.Pipeline.{
  PipelineStep, PipelineResult, TerminalDef, modifier_def, terminal_def, pipeline_modifier_defs,
}
use go_httpbin.Pipeline.Parsing.{
  push, ending, take_args, one_segment, two_names, match_terminal, treat_as_modifier,
  parse_segments, read_last, read_segment, slashed, segments_of, build_modifier_prefix,
}

-- A modifier of the table, with as many arguments as the table says.
abbrev pub IsModifier : PipelineStep → Type 0
IsModifier m = modifier_def m.name ≡ some (length m.args)

-- The text of a result.
abbrev pub text_of : PipelineResult → Bytes
text_of r = build_modifier_prefix r.modifiers ++ slashed (segments_of r.terminal)

-- The result is read from the segments: its modifiers and its terminal are in the tables, and its
-- text is that of the segments, less some at the end.
abbrev pub Describes : PipelineResult → List Bytes → Type 0
Describes r segments =
    All IsModifier r.modifiers
    × (terminal_def r.terminal.name ≢ none)
    × ((extra : List Bytes) × (slashed segments ≡ text_of r ++ slashed extra))

pub slashed-append : (ss ts : List Bytes) → slashed (ss ++ ts) ≡ slashed ss ++ slashed ts
unfolding slashed
slashed-append [] ts = refl
slashed-append (s ∷ ss) ts =
    rw (slashed-append ss ts) (ap (λ t. slash ∷ t) (sym (append_assoc s (slashed ss) (slashed ts))))

-- An error describes nothing.
abbrev pub IsSound : Result PipelineResult → List Bytes → Type 0
IsSound (ok r) segments = Describes r segments
IsSound (err e) segments = Unit

ending-IsSound :
    (name : Bytes) (args extra segments : List Bytes) (def : TerminalDef)
    → terminal_def name ≡ some def
    → slashed segments ≡ slashed (name ∷ args) ++ slashed extra
    → IsSound (ending name args) segments
unfolding build_modifier_prefix
ending-IsSound name args extra segments def known text =
    (tt, (λ e. (let f : some def ≡ none = sym known ∙ e in cc)), (extra, text))

slashed-take : (n : ℕ) (ss : List Bytes) → slashed ss ≡ slashed (take n ss) ++ slashed (drop n ss)
slashed-take n ss =
    ap slashed (sym (take-append-drop n ss)) ∙ slashed-append (take n ss) (drop n ss)

slashed_end : (ss : List Bytes) → slashed ss ≡ slashed ss ++ slashed []
unfolding slashed
slashed_end ss = sym (append-nil (slashed ss))

take_args-IsSound :
    (name : Bytes) (rest : List Bytes) (args : ℤ) (def : TerminalDef)
    → terminal_def name ≡ some def
    → IsSound (take_args name rest args) (name ∷ rest)
unfolding take_args
take_args-IsSound name rest (negsuc k) def known =
    ending-IsSound name rest [] (name ∷ rest) def known (slashed_end (name ∷ rest))
take_args-IsSound name rest (pos n) def known = elim (Bool-cases (ltb (length rest) n)) [
  | inl short ↦ rw short tt
  | inr long ↦ rw long (
      ending-IsSound name (take n rest) (drop n rest) (name ∷ rest) def known
        (slashed-take (suc n) (name ∷ rest)))
]

one_segment-IsSound :
    (seg : Bytes) (rest : List Bytes) → IsSound (one_segment seg rest) (seg ∷ rest)
unfolding one_segment
one_segment-IsSound seg rest = elim (Option-cases (terminal_def seg)) [
  | inl absent ↦ rw (absent, IsSound) tt
  | inr (def, known) ↦ rw (known, IsSound) (take_args-IsSound seg rest def.args def known)
]

two_names_text :
    (seg next : Bytes) (rest : List Bytes)
    → slashed (seg ∷ next ∷ rest) ≡ slashed (two_names seg next ∷ rest) ++ slashed []
unfolding slashed
two_names_text seg next rest = simp (append_assoc, append-nil)

match_terminal_two :
    (seg next : Bytes) (rest : List Bytes) (def : TerminalDef)
    → terminal_def (two_names seg next) ≡ some def
    → match_terminal seg (next ∷ rest) ≡ ending (two_names seg next) rest
unfolding match_terminal
match_terminal_two seg next rest def known = rw (known, match_terminal) refl

match_terminal_one :
    (seg next : Bytes) (rest : List Bytes)
    → terminal_def (two_names seg next) ≡ none
    → match_terminal seg (next ∷ rest) ≡ one_segment seg (next ∷ rest)
unfolding match_terminal
match_terminal_one seg next rest absent = rw (absent, match_terminal) refl

match_terminal-IsSound :
    (seg : Bytes) (rest : List Bytes) → IsSound (match_terminal seg rest) (seg ∷ rest)
match_terminal-IsSound seg [] = unfold match_terminal in one_segment-IsSound seg []
match_terminal-IsSound seg (next ∷ rest) = elim (Option-cases (terminal_def (two_names seg next))) [
  | inl absent ↦
      subst (λ r. IsSound r (seg ∷ next ∷ rest)) (sym (match_terminal_one seg next rest absent))
        (one_segment-IsSound seg (next ∷ rest))
  | inr (def, known) ↦
      subst (λ r. IsSound r (seg ∷ next ∷ rest)) (sym (match_terminal_two seg next rest def known))
        (ending-IsSound (two_names seg next) rest [] (seg ∷ next ∷ rest) def known
          (two_names_text seg next rest))
]

push-IsSound :
    (m : PipelineStep) (res : Result PipelineResult) (rest : List Bytes)
    → IsModifier m
    → IsSound res rest
    → IsSound (res >>= push m) (segments_of m ++ rest)
unfolding build_modifier_prefix
push-IsSound m (err e) rest h s = tt
push-IsSound m (ok r) rest h (ms, known, (extra, text)) =
    ((h, ms), known, (extra, rw (slashed-append (segments_of m) rest, text) (simp append_assoc)))

Bool-IsSound :
    (b : Bool) (seg : Bytes)
    → IsSound (if b then err no_terminal else err (requires_value seg)) (seg ∷ [])
Bool-IsSound true seg = tt
Bool-IsSound false seg = tt

All-lookup :
    {V : Type 0} (P : V → Type 0) (k : Bytes) (v : V) (m : List (Bytes × V))
    → All (λ p. P p.1) m
    → lookup k m ≡ some v
    → P v
unfolding lookup
All-lookup P k v [] h e = (let f : none ≡ some v = e in cc)
All-lookup P k v ((j, w) ∷ m) (h, hs) e = elim (Bool-cases (str_eq j k)) [
  | inl same ↦ subst P (ground arith) h
  | inr other ↦ All-lookup P k v m hs (ground arith)
]

-- No modifier of the table takes more than one argument.
pub modifier_def_at_most_one : (seg : Bytes) (args : ℕ) → modifier_def seg ≡ some args → args ≤ 1
unfolding modifier_def pipeline_modifier_defs
modifier_def_at_most_one seg args e =
    All-lookup (λ n. n ≤ 1) seg args pipeline_modifier_defs
      (omega arith, (omega arith, (omega arith, (omega arith, (omega arith, (omega arith, tt)))))) e

one_of : (seg : Bytes) (args : ℕ) → modifier_def seg ≡ some args → (args == 0) ≡ false → args ≡ 1
one_of seg args e h = let b : args ≤ 1 = modifier_def_at_most_one seg args e in ground arith

read_last-IsSound : (seg : Bytes) → IsSound (read_last seg) (seg ∷ [])
unfolding read_last
read_last-IsSound seg = elim (Option-cases (modifier_def seg)) [
  | inl absent ↦ rw (absent, IsSound) (match_terminal-IsSound seg [])
  | inr (args, known) ↦ elim (Bool-cases (treat_as_modifier seg args [])) [
    | inl modifier ↦ rw (known, modifier, IsSound) (Bool-IsSound (args == 0) seg)
    | inr terminal ↦ rw (known, terminal, IsSound) (match_terminal-IsSound seg [])
  ]
]

read_segment-IsSound :
    (seg value : Bytes) (rest : List Bytes) (flag valued : Result PipelineResult)
    → IsSound flag (value ∷ rest)
    → IsSound valued rest
    → IsSound (read_segment seg value rest flag valued) (seg ∷ value ∷ rest)
unfolding read_segment
read_segment-IsSound seg value rest flag valued hf hv = elim (Option-cases (modifier_def seg)) [
  | inl absent ↦ rw (absent, IsSound) (match_terminal-IsSound seg (value ∷ rest))
  | inr (args, known) ↦ elim (Bool-cases (treat_as_modifier seg args (value ∷ rest))) [
    | inl modifier ↦ elim (Bool-cases (args == 0)) [
      | inl zero_args ↦
          rw (known, modifier, zero_args, IsSound)
            (push-IsSound (record { name = seg; args = [] }) flag (value ∷ rest)
              (known ∙ ap some (ground arith)) hf)
      | inr one_arg ↦
          rw (known, modifier, one_arg, IsSound)
            (push-IsSound (record { name = seg; args = value ∷ [] }) valued rest
              (known ∙ ap some (one_of seg args known one_arg)) hv)
    ]
    | inr terminal ↦ rw (known, terminal, IsSound) (match_terminal-IsSound seg (value ∷ rest))
  ]
]

parse_segments-IsSound : (segments : List Bytes) → IsSound (parse_segments segments) segments
unfolding parse_segments
parse_segments-IsSound [] = tt
parse_segments-IsSound (seg ∷ []) = read_last-IsSound seg
parse_segments-IsSound (seg ∷ value ∷ rest) =
    read_segment-IsSound seg value rest (parse_segments (value ∷ rest)) (parse_segments rest)
      (parse_segments-IsSound (value ∷ rest)) (parse_segments-IsSound rest)

-- Whatever parsePipeline's loop accepts is a list of modifiers of the table, each with as many
-- arguments as the table says, and a terminal of the table; and their text, with slashes, is the text
-- of the segments, less some segments at the end.
pub parse_segments-Describes :
    (segments : List Bytes) (r : PipelineResult)
    → parse_segments segments ≡ ok r
    → Describes r segments
parse_segments-Describes segments r e =
    subst (λ x. IsSound x segments) e (parse_segments-IsSound segments)
