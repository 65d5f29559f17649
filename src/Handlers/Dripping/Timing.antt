-- ===== src/Handlers/Dripping/Timing.antt =====
-- How long Drip takes, and what it sends.
use go_httpbin.Base.{ℕ, suc, List, [], ◌∷◌, ◌++◌, Bytes}
use go_httpbin.Base.Int.{ℤ, pos}
use go_httpbin.Http.{Call, set_header, append_header, write_header, write, raw, json, error_json}
use go_httpbin.Handlers.Dripping.{Drip}

-- The bytes that calls write.
abbrev pub written : List Call → Bytes
written [] = []
written (set_header k v ∷ cs) = written cs
written (append_header k v ∷ cs) = written cs
written (write_header s ∷ cs) = written cs
written (write (raw b) ∷ cs) = b ++ written cs
written (write (json b) ∷ cs) = written cs
written (write (error_json code e) ∷ cs) = written cs

-- The parameters of a drip of `n + 1` bytes.
abbrev pub drip_of : ℤ → ℕ → ℕ → ℕ → Drip
drip_of code delay duration n = record {
  duration = pos duration;
  delay = pos delay;
  num_bytes = pos (suc n);
  code = code;
}
