-- ===== src/Middleware/Layers.antt =====
-- What the middleware of httpbin/middleware.go does to a response on the wire, for any handler
-- inside it.
use go_httpbin.Base.{
  ℕ, ◌≡◌, refl, sym, ◌∙◌, true, Option, none, some, List, [], ◌∷◌, ◌++◌, arith, Bytes, codes,
  str_eq, str_eq_iff, lookup, insert,
}
use go_httpbin.Http.{
  Request, Handler, Call, set_header, append_header, write_header, write, Chunk, Error, get, Values,
}
use go_httpbin.Http.Server.Starting.{started, before, IsFinal, play_all-final}
use go_httpbin.Http.Server.{
  deliver, Response, serve, play, play_all, finish, fresh, send, status_of,
}
use go_httpbin.Middleware.{
  preflight, or_star, allow_headers, discard_writes, autohead, MetaResponseWriter, meta_calls,
  new_meta, status, observe,
}

abbrev pub NoStatus : List Call → Type 0
NoStatus [] = Unit
NoStatus (set_header k v ∷ cs) = NoStatus cs
NoStatus (append_header k v ∷ cs) = NoStatus cs
NoStatus (write_header s ∷ cs) = ⊥
NoStatus (write b ∷ cs) = NoStatus cs

-- The calls write at most one status, before any body, and it is not an informational one.
abbrev pub IsOrderly : List Call → Type 0
IsOrderly [] = Unit
IsOrderly (set_header k v ∷ cs) = IsOrderly cs
IsOrderly (append_header k v ∷ cs) = IsOrderly cs
IsOrderly (write_header s ∷ cs) = IsFinal s × NoStatus cs
IsOrderly (write b ∷ cs) = NoStatus cs

-- The same, with a status always written before a body.
abbrev pub HasStatusFirst : List Call → Type 0
HasStatusFirst [] = Unit
HasStatusFirst (set_header k v ∷ cs) = HasStatusFirst cs
HasStatusFirst (append_header k v ∷ cs) = HasStatusFirst cs
HasStatusFirst (write_header s ∷ cs) = IsFinal s × NoStatus cs
HasStatusFirst (write b ∷ cs) = ⊥

play_sent :
    (c : Chunk) (r : Response) (line : ℕ × Values)
    → r.sent ≡ some line
    → (play (write c) r).sent ≡ some line
unfolding play deliver send
play_sent c r line e = ground arith

set_sent :
    (k v : Bytes) (r : Response) (line : ℕ × Values)
    → r.sent ≡ some line
    → (play (set_header k v) r).sent ≡ some line
unfolding play
set_sent k v r line e = e

append_sent :
    (k v : Bytes) (r : Response) (line : ℕ × Values)
    → r.sent ≡ some line
    → (play (append_header k v) r).sent ≡ some line
unfolding play
append_sent k v r line e = e

kept_sent :
    (cs : List Call) (r : Response) (line : ℕ × Values)
    → r.sent ≡ some line
    → NoStatus cs
    → (play_all cs r).sent ≡ some line
unfolding play_all
kept_sent [] r line e n = e
kept_sent (set_header k v ∷ cs) r line e n =
    let e' = set_sent k v r line e in
    ground (arith, e', kept_sent cs (play (set_header k v) r) line e' n)
kept_sent (append_header k v ∷ cs) r line e n =
    let e' = append_sent k v r line e in
    ground (arith, e', kept_sent cs (play (append_header k v) r) line e' n)
kept_sent (write_header s ∷ cs) r line e n = absurd n
kept_sent (write c ∷ cs) r line e n =
    let e' = play_sent c r line e in ground (arith, e', kept_sent cs (play (write c) r) line e' n)

-- Once a status is out, calls without one do not change it.
pub sent-play_all :
    (cs : List Call) (h : Values) (line : ℕ × Values) (b : List Chunk)
    → NoStatus cs
    → (play_all cs (started h line b)).sent ≡ some line
sent-play_all cs h line b n = kept_sent cs (started h line b) line refl n

meta_NoStatus :
    (size : ℕ → Option Error → ℕ) (cs : List Call) (mw : MetaResponseWriter)
    → NoStatus cs
    → (meta_calls size cs mw).status ≡ mw.status
unfolding meta_calls
meta_NoStatus size [] mw n = refl
meta_NoStatus size (set_header k v ∷ cs) mw n = meta_NoStatus size cs mw n
meta_NoStatus size (append_header k v ∷ cs) mw n = meta_NoStatus size cs mw n
meta_NoStatus size (write_header s ∷ cs) mw n = absurd n
meta_NoStatus size (write c ∷ cs) mw n = meta_NoStatus size cs _ n

pub finish_sent :
    (r : Response) (line : ℕ × Values) → r.sent ≡ some line → (finish r).sent ≡ some line
unfolding finish
finish_sent r line e = rw e refl

wire_status :
    (cs : List Call) (h : Values) (line : ℕ × Values) (b : List Chunk)
    → NoStatus cs
    → status_of (finish (play_all cs (started h line b))) ≡ line.0
wire_status cs h line b n =
    rw (finish_sent (play_all cs (started h line b)) line (sent-play_all cs h line b n)) refl

status_seen : (s : ℕ) (mw : MetaResponseWriter) → IsFinal s → mw.status ≡ s → s ≡ status mw
unfolding status
status_seen s mw f e = ground arith

status_default : (mw : MetaResponseWriter) → mw.status ≡ 0 → 200 ≡ status mw
unfolding status
status_default mw e = ground arith

status_observed :
    (size : ℕ → Option Error → ℕ) (cs : List Call) (h : Values)
    → IsOrderly cs
    → status_of (finish (play_all cs (before h))) ≡ status (meta_calls size cs new_meta)
unfolding play_all finish meta_calls
status_observed size [] h o = unfold status in refl
status_observed size (set_header k v ∷ cs) h o = status_observed size cs _ o
status_observed size (append_header k v ∷ cs) h o = status_observed size cs _ o
status_observed size (write_header s ∷ cs) h (f, n) =
    rw (play_all-final s cs h f, wire_status cs h (s, h) [] n)
      (status_seen s (meta_calls size cs (record new_meta { status = s })) f
        (meta_NoStatus size cs _ n))
status_observed size (write c ∷ cs) h o =
    rw (wire_status cs h (200, h) (c ∷ []) o) (status_default _ (meta_NoStatus size cs _ o))

-- Behind observe, a handler that writes at most one status, before any body and not an informational
-- one, is reported with the status that its client receives.
pub observe-status :
    (size : ℕ → Option Error → ℕ) (h : Handler) (r : Request)
    → IsOrderly (h r)
    → (observe size h r).1.status ≡ status_of (serve (observe size h r).0)
unfolding observe serve
observe-status size h r o = sym (status_observed size (h r) [] o)

-- A discarded body leaves the status and the headers of an orderly response alone.
discard_sent :
    (cs : List Call) (h : Values) (line : ℕ × Values) (b : List Chunk)
    → NoStatus cs
    → (play_all (discard_writes cs) (started h line b)).sent ≡ some line
unfolding discard_writes play_all send
discard_sent [] h line b n = refl
discard_sent (set_header k v ∷ cs) h line b n = discard_sent cs _ line b n
discard_sent (append_header k v ∷ cs) h line b n = discard_sent cs _ line b n
discard_sent (write_header s ∷ cs) h line b n = absurd n
discard_sent (write c ∷ cs) h line b n = discard_sent cs h line b n

same_line :
    (cs : List Call) (h : Values)
    → HasStatusFirst cs
    → (finish (play_all (discard_writes cs) (before h))).sent
      ≡ (finish (play_all cs (before h))).sent
unfolding discard_writes play_all finish
same_line [] h o = refl
same_line (set_header k v ∷ cs) h o = same_line cs _ o
same_line (append_header k v ∷ cs) h o = same_line cs _ o
same_line (write_header s ∷ cs) h (f, n) =
    rw (play_all-final s (discard_writes cs) h f, play_all-final s cs h f)
      (finish_sent _ (s, h) (discard_sent cs h (s, h) [] n)
        ∙ sym (finish_sent _ (s, h) (sent-play_all cs h (s, h) [] n)))
same_line (write c ∷ cs) h o = absurd o

play_body : (s : ℕ) (r : Response) → (play (write_header s) r).body ≡ r.body
unfolding play send
play_body s r = ground arith

finish_body : (r : Response) → (finish r).body ≡ r.body
unfolding finish
finish_body r = elim r.sent as (λ o. (finish (record r { sent = o })).body ≡ r.body) [
  | none ↦ refl
  | some line ↦ refl
]

head_test : (m : Bytes) → m ≡ codes "HEAD" → str_eq m (codes "HEAD") ≡ true
head_test m e = (str_eq_iff m (codes "HEAD")).1 e

options_test : (m : Bytes) → m ≡ codes "OPTIONS" → str_eq m (codes "OPTIONS") ≡ true
options_test m e = (str_eq_iff m (codes "OPTIONS")).1 e

no_body : (cs : List Call) (r : Response) → r.body ≡ [] → (play_all (discard_writes cs) r).body ≡ []
unfolding discard_writes play_all send
no_body [] r e = e
no_body (set_header k v ∷ cs) r e = ground (arith, no_body cs (play (set_header k v) r))
no_body (append_header k v ∷ cs) r e = ground (arith, no_body cs (play (append_header k v) r))
no_body (write_header s ∷ cs) r e =
    ground (arith, no_body cs (play (write_header s) r), play_body s r)
no_body (write c ∷ cs) r e = no_body cs r e

-- The answer to a HEAD request, of a handler that writes one status that is not informational and
-- that before any body, has the status and the headers that the handler gives, and no body.
pub autohead-response :
    (h : Handler) (r : Request)
    → r.method ≡ codes "HEAD"
    → HasStatusFirst (h r)
    → ((serve (autohead h r)).sent ≡ (serve (h r)).sent) × ((serve (autohead h r)).body ≡ [])
unfolding autohead serve
autohead-response h r e o =
    rw (head_test r.method e) (same_line (h r) [] o, (finish_body _ ∙ no_body (h r) fresh refl))

abbrev origin_name : Bytes
origin_name = codes "Access-Control-Allow-Origin"

abbrev Answers : Bytes → Response → Type 0
Answers origin p =
    (status_of p ≡ 200) × (p.body ≡ []) × (lookup origin_name p.header ≡ some (origin ∷ []))

options_answer :
    (wanted origin : Bytes)
    → Answers origin (
        serve (
          set_header origin_name origin
            ∷ set_header (codes "Access-Control-Allow-Credentials") (codes "true")
            ∷ set_header
                (codes "Access-Control-Allow-Methods")
                (codes "GET, POST, HEAD, PUT, DELETE, PATCH, OPTIONS")
            ∷ set_header (codes "Access-Control-Max-Age") (codes "3600")
            ∷ allow_headers wanted
          ++ write_header 200 ∷ []))
unfolding serve play_all play send finish insert lookup str_eq
options_answer [] origin = (refl, refl, refl)
options_answer (c ∷ wanted) origin = (refl, refl, refl)

-- Every answer to an OPTIONS request is 200, without a body, and names the origin of the request, or
-- any origin where the request has none; the handler inside is not called.
pub preflight-options :
    (h : Handler) (r : Request)
    → r.method ≡ codes "OPTIONS"
    → (status_of (serve (preflight h r)) ≡ 200)
      × ((serve (preflight h r)).body ≡ [])
      × (lookup (codes "Access-Control-Allow-Origin") (serve (preflight h r)).header
          ≡ some (or_star (get (codes "Origin") r.header) ∷ []))
unfolding preflight
preflight-options h r e = rw (options_test r.method e) (
    options_answer (get (codes "Access-Control-Request-Headers") r.header)
      (or_star (get (codes "Origin") r.header)))
