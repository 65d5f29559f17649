-- ===== src/Tests/Pipelines.antt =====
-- Concrete pipelines, delays and directives, of httpbin/pipeline.go, mix.go and helpers.go.
use go_httpbin.Base.{
  ◌-◌, ◌≡◌, refl, ◌⊎◌, false, none, some, List, [], ◌∷◌, ◌++◌, arith, All, Bytes, codes, str_eq,
  lookup,
}
use go_httpbin.Base.Int.{pos}
use go_httpbin.Strings.{cut}
use go_httpbin.Strings.Number.{atoi, itoa}
use go_httpbin.Http.{Request, Handler, Call, ok, write_header, write, raw, write_response}
use go_httpbin.Parsing.{Clock, parse_duration, parse_delay_range}
use go_httpbin.Parsing.Ranges.{IsRange, parse_delay_range-IsRange}
use go_httpbin.Pipeline.{
  PipelineResult, redirect, redirect_name, modifier_def, terminal_def, build_terminal_handlers,
  pipeline_modifier_defs, pipeline_terminals,
}
use go_httpbin.Pipeline.Parsing.{
  parse_segments, build_modifier_prefix, slashed, read_segment, read_last, match_terminal,
  one_segment, take_args,
}
use go_httpbin.Pipeline.Parsing.Soundness.{Describes, parse_segments-Describes}
use go_httpbin.Pipeline.Parsing.Chaining.{flat}
use go_httpbin.Pipeline.Terminals.{
  Dispatcher, special_terminals, dispatch_redirect_terminal, redirect_to_path,
}
use go_httpbin.Pipeline.Terminals.Registry.{parse_segments-handled}
use go_httpbin.Pipeline.Terminals.Redirects.{next_segments, dispatch_redirect_terminal-next}
use go_httpbin.Mix.{World, mix}
use go_httpbin.Mix.Answering.{IsSendable, mix-IsSendable}

-- A clock that reads whole numbers of nanoseconds.
abbrev clock : Clock
clock = record { parse_duration = atoi; parse_thousandths = λ s. none }

range_parsed : parse_delay_range clock (codes "20-30") (pos 50) ≡ ok (pos 20, pos 30)
unfolding parse_delay_range parse_duration atoi cut
range_parsed = refl

parse_delay_range-IsRange_example : IsRange clock (pos 50) (pos 20) (pos 30)
parse_delay_range-IsRange_example =
    parse_delay_range-IsRange clock (codes "20-30") (pos 50) (pos 20) (pos 30) range_parsed

abbrev chain : List Bytes
chain =
    codes "delay" ∷ codes "1" ∷ codes "no-cache" ∷ codes "redirect" ∷ codes "3" ∷ codes "get" ∷ []

abbrev chain_result : PipelineResult
chain_result = record {
  modifiers =
      record { name = codes "delay"; args = codes "1" ∷ [] }
      ∷ record { name = codes "no-cache"; args = [] }
      ∷ [];
  terminal = record { name = codes "redirect"; args = codes "3" ∷ codes "get" ∷ [] };
}

chain_parsed : parse_segments chain ≡ ok chain_result
unfolding parse_segments read_segment read_last match_terminal one_segment take_args modifier_def
    terminal_def pipeline_modifier_defs pipeline_terminals lookup str_eq
chain_parsed = refl

parse_segments-Describes_example : Describes chain_result chain
parse_segments-Describes_example = parse_segments-Describes chain chain_result chain_parsed

abbrev server : Dispatcher
server = record {
  prefix = codes "/p";
  methods = λ name r. write_response 200 (codes "text/plain") name;
  do_image = λ kind. write_response 200 (codes "image") kind;
  absolute = λ r path. codes "http://localhost" ++ path;
  base64 = record { url = λ s. none; raw_url = λ s. none; std = λ s. none; raw_std = λ s. some s };
}

parse_segments-handled_example :
    ((handler : Handler) × (lookup
          (codes "redirect")
          (special_terminals server (codes "3" ∷ codes "get" ∷ []) (codes "/delay/1/no-cache"))
        ≡ some handler))
    ⊎ ((method : Bytes) × (lookup (codes "redirect") build_terminal_handlers ≡ some method))
parse_segments-handled_example =
    parse_segments-handled server chain (codes "/delay/1/no-cache") chain_result chain_parsed

abbrev request_to : Bytes → Request
request_to path = record {
  method = codes "GET";
  path = path;
  host = codes "localhost";
  remote_addr = codes "10.0.0.1:5000";
  header = [];
  query = [];
  path_values = [];
}

three : atoi (codes "3") ≡ some (pos 3)
unfolding atoi
three = refl

dispatch_redirect_terminal-next_example :
    (dispatch_redirect_terminal server redirect
        (codes "3" ∷ codes "get" ∷ [])
        (build_modifier_prefix chain_result.modifiers)
        (request_to (codes "/x"))
      ≡ redirect_to_path server redirect
          (request_to (codes "/x"))
          (slashed (flat chain_result.modifiers ++ next_segments redirect 3 (codes "get" ∷ []))))
    × (parse_segments (flat chain_result.modifiers ++ next_segments redirect 3 (codes "get" ∷ []))
        ≡ ok (record chain_result {
          terminal = record {
            name = redirect_name redirect;
            args = itoa (3 - 1) ∷ codes "get" ∷ [];
          };
        }))
    × (atoi (itoa (3 - 1)) ≡ some (pos (3 - 1)))
dispatch_redirect_terminal-next_example =
    dispatch_redirect_terminal-next server chain chain_result redirect (codes "3")
      (codes "get" ∷ []) (request_to (codes "/x")) 3 chain_parsed three (omega arith) (omega arith)

abbrev two_writes : List Call
two_writes =
    write_header 200 ∷ write (raw (codes "a")) ∷ write_header 500 ∷ write (raw (codes "b")) ∷ []

abbrev world : World
world = record {
  clock = clock;
  max_duration = pos 1000;
  url_decode = λ s. some s;
  std_decode = λ s. none;
  is_done = false;
}

mix-IsSendable_example :
    All IsSendable (mix world (request_to (codes "/mix/s=418/h=X-A:b/b64=tea")))
mix-IsSendable_example = mix-IsSendable world (request_to (codes "/mix/s=418/h=X-A:b/b64=tea"))
