-- ===== src/Http/Server/Starting.antt =====
-- Responses before and after their status line, and the call that sends it.
use go_httpbin.Base.{ℕ, ◌≤◌, ◌≡◌, refl, true, false, none, some, List, [], ◌∷◌, arith}
use go_httpbin.Http.{Call, Chunk, Values, write_header}
use go_httpbin.Http.Server.{Response, play, play_all, send, is_valid_status, is_informational}

-- A status that ends the headers of a response.
abbrev pub IsFinal : ℕ → Type 0
IsFinal s = (200 ≤ s) × (s ≤ 999)

-- A response whose headers are out, and one whose headers are not.
abbrev pub started : Values → ℕ × Values → List Chunk → Response
started h line b = record {
  header = h;
  informational = [];
  sent = some line;
  body = b;
  panicked = false;
}

abbrev pub before : Values → Response
before h = record { header = h; informational = []; sent = none; body = []; panicked = false }

final_valid : (s : ℕ) → IsFinal s → is_valid_status s ≡ true
final_valid s f = ground arith

final_not_informational : (s : ℕ) → IsFinal s → is_informational s ≡ false
final_not_informational s f = ground arith

pub play_all-final :
    (s : ℕ) (cs : List Call) (h : Values)
    → IsFinal s
    → play_all (write_header s ∷ cs) (before h) ≡ play_all cs (started h (s, h) [])
unfolding play_all play send
play_all-final s cs h f = rw (final_valid s f, final_not_informational s f) refl
