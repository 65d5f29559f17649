-- ===== src/Pipeline/Terminals/Redirects.antt =====
-- The redirects of pipelines, in dispatchRedirectTerminal of httpbin/pipeline.go.
use go_httpbin.Base.{
  ℕ, ◌-◌, ◌≤◌, ◌<◌, ◌≡◌, refl, sym, ap, ◌∙◌, Bool, true, false, Option, none, some, List, [], ◌∷◌,
  ◌++◌, append_assoc, append-nil, arith, ◌==◌, lt→ltb, all_below, all_below_at, Bytes,
}
use go_httpbin.Base.Int.{ℤ, pos, negsuc}
use go_httpbin.Strings.{slash, join}
use go_httpbin.Strings.Number.{atoi, itoa}
use go_httpbin.Http.{Request, ok}
use go_httpbin.Pipeline.{RedirectType, redirect_name, PipelineResult}
use go_httpbin.Pipeline.Parsing.{slashed, parse_segments, build_modifier_prefix}
use go_httpbin.Pipeline.Parsing.Soundness.{slashed-append}
use go_httpbin.Pipeline.Parsing.Chaining.{flat, prefix-flat, parse_segments-redirect}
use go_httpbin.Pipeline.Terminals.{
  Dispatcher, next_path, dispatch_redirect_terminal, redirect_to_path,
}

slashed-join : (d : Bytes) (ds : List Bytes) → slash ∷ join slash (d ∷ ds) ≡ slashed (d ∷ ds)
unfolding slashed join
slashed-join d [] = ap (◌∷◌ slash) (sym (append-nil d))
slashed-join d (e ∷ ds) = ap (λ t. slash ∷ d ++ t) (slashed-join e ds)

-- The segments that a redirect with a count above one leads to, behind the modifiers.
abbrev pub next_segments : RedirectType → ℕ → List Bytes → List Bytes
next_segments kind count dest = redirect_name kind ∷ itoa (count - 1) ∷ dest

reads_as : Option ℤ → ℕ → Bool
reads_as none n = false
reads_as (some (pos m)) n = m == n
reads_as (some (negsuc m)) n = false

reads_as_lem : (o : Option ℤ) (n : ℕ) → reads_as o n ≡ true → o ≡ some (pos n)
unfolding reads_as
reads_as_lem none n e = cc
reads_as_lem (some (pos m)) n e = ap (λ x. some (pos x)) (ground arith)
reads_as_lem (some (negsuc m)) n e = cc

all_small : all_below 20 (λ n. reads_as (atoi (itoa n)) n) ≡ true
unfolding all_below reads_as atoi itoa
all_small = refl

atoi-itoa_small : (n : ℕ) → n < 20 → atoi (itoa n) ≡ some (pos n)
atoi-itoa_small n l =
    reads_as_lem (atoi (itoa n)) n
      (all_below_at 20 (λ n'. reads_as (atoi (itoa n')) n') n all_small l)

module _ (h : Dispatcher) where
  next_path_text :
      (kind : RedirectType) (count : ℕ) (dest : List Bytes) (prefix : Bytes)
      → 1 < count
      → next_path h kind count dest prefix ≡ prefix ++ slashed (next_segments kind count dest)
  unfolding next_path slashed
  next_path_text kind count [] prefix l = rw (lt→ltb 1 count l) (simp (append_assoc, append-nil))
  next_path_text kind count (d ∷ more) prefix l =
      rw (lt→ltb 1 count l, slashed-join d more) (simp append_assoc)

  dispatch-counts :
      (kind : RedirectType) (arg : Bytes) (dest : List Bytes) (prefix : Bytes) (req : Request)
      (count : ℕ)
      → atoi arg ≡ some (pos count)
      → 1 ≤ count
      → count ≤ 20
      → dispatch_redirect_terminal h kind (arg ∷ dest) prefix req
        ≡ redirect_to_path h kind req (next_path h kind count dest prefix)
  unfolding dispatch_redirect_terminal
  dispatch-counts kind arg dest prefix req count e l u =
      rw (e, dispatch_redirect_terminal) (ground arith)

  -- A redirect with a count of 2 to 20, at the end of a pipeline, leads to a path whose segments are
  -- read back as the same modifiers and the same redirect with the same destination, and with a
  -- count that is one smaller.
  pub dispatch_redirect_terminal-next :
      (segments : List Bytes) (r : PipelineResult) (kind : RedirectType) (arg : Bytes)
      (dest : List Bytes) (req : Request) (count : ℕ)
      → parse_segments segments ≡ ok r
      → atoi arg ≡ some (pos count)
      → 1 < count
      → count ≤ 20
      → (dispatch_redirect_terminal h kind (arg ∷ dest) (build_modifier_prefix r.modifiers) req
          ≡ redirect_to_path h kind req
              (slashed (flat r.modifiers ++ next_segments kind count dest)))
        × (parse_segments (flat r.modifiers ++ next_segments kind count dest)
            ≡ ok (record r {
              terminal = record { name = redirect_name kind; args = itoa (count - 1) ∷ dest };
            }))
        × (atoi (itoa (count - 1)) ≡ some (pos (count - 1)))
  dispatch_redirect_terminal-next segments r kind arg dest req count p e l u = (
    dispatch-counts kind arg dest (build_modifier_prefix r.modifiers) req count e (omega arith) u
        ∙ ap (redirect_to_path h kind req) (
            next_path_text kind count dest (build_modifier_prefix r.modifiers) l
            ∙ ap (λ t. t ++ slashed (next_segments kind count dest)) (prefix-flat r.modifiers)
            ∙ sym (slashed-append (flat r.modifiers) (next_segments kind count dest))),
    parse_segments-redirect segments r kind (itoa (count - 1) ∷ dest) p,
    atoi-itoa_small (count - 1) (omega arith),
  )
