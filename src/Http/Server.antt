-- ===== src/Http/Server.antt =====
-- The server's own ResponseWriter (net/http), which plays the calls of a handler: the status line and
-- the headers go out once, informational statuses go out before them, and a status of other than
-- three digits panics. A write to a response whose status has no body fails.
pub mod Starting
use go_httpbin.Base.{
  ℕ, Bool, true, false, not, ◌&&◌, ◌||◌, Option, none, some, List, [], ◌∷◌, ◌++◌, leb, ◌==◌,
  if◌then◌else◌, insert,
}
use go_httpbin.Http.{
  is_marshalled, Values, Chunk, Call, set_header, append_header, add_value, write_header, write,
}

pub record Response : Type 0 where
  pub header : Values
  pub informational : List ℕ
  pub sent : Option (ℕ × Values)
  pub body : List Chunk
  pub panicked : Bool

abbrev pub fresh : Response
fresh = record { header = []; informational = []; sent = none; body = []; panicked = false }

abbrev pub is_informational : ℕ → Bool
is_informational code = leb 100 code && leb code 199 && not (code == 101)

abbrev pub is_valid_status : ℕ → Bool
is_valid_status code = leb 100 code && leb code 999

unfoldable pub send : ℕ → Response → Option (ℕ × Values) → Response
send code r (some line) = r
send code r none =
    if is_informational code
    then record r { informational = r.informational ++ code ∷ [] }
    else record r { sent = some (code, r.header) }

abbrev pub status_of : Response → ℕ
status_of r = elim r.sent [ none ↦ 0 | some line ↦ line.0 ]

-- bodyAllowedForStatus
abbrev pub allows_body : ℕ → Bool
allows_body code = not (leb 100 code && leb code 199) && not (code == 204 || code == 304)

-- A write when the status is sent. http.ErrBodyNotAllowed makes mustMarshalJSON panic.
unfoldable pub deliver : Chunk → Response → Response
deliver chunk r =
    if allows_body (status_of r)
    then record r { body = r.body ++ chunk ∷ [] }
    else if is_marshalled chunk
    then record r { panicked = true }
    else r

unfoldable pub play : Call → Response → Response
unfolding send deliver
play (set_header k v) r = record r { header = insert k (v ∷ []) r.header }
play (append_header k v) r = record r { header = add_value k v r.header }
play (write_header code) r =
    if is_valid_status code then send code r r.sent else record r { panicked = true }
play (write chunk) r = deliver chunk (send 200 r r.sent)

-- A panic ends the handler.
unfoldable pub play_all : List Call → Response → Response
unfolding play
play_all [] r = r
play_all (c ∷ cs) r =
    let r' = play c r in let rest = play_all cs r' in if r'.panicked then r' else rest

-- At the end of a handler that wrote nothing the server sends 200.
unfoldable pub finish : Response → Response
finish r = elim r.sent [ none ↦ record r { sent = some (200, r.header) } | some line ↦ r ]

unfoldable pub serve : List Call → Response
unfolding play_all finish
serve cs = finish (play_all cs fresh)
