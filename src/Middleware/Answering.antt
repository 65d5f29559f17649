-- ===== src/Middleware/Answering.antt =====
-- Handlers that give one answer: what httpbin/middleware.go may count on.
use go_httpbin.Base.{ℕ, ◌≡◌, refl, sym, ap, ◌∙◌, subst, Option, none, some, List, [], ◌∷◌}
use go_httpbin.Http.{
  Call, Values, Error, set_header, append_header, write_header, write, write_error,
}
use go_httpbin.Http.Server.{serve, play, play_all, finish, status_of, send}
use go_httpbin.Http.Server.Starting.{before, IsFinal, play_all-final}
use go_httpbin.Middleware.Layers.{NoStatus, IsOrderly, sent-play_all, finish_sent}

-- The calls give one answer, of the given status: headers, then the status, then bodies. Without a
-- status of its own a body is sent with 200.
abbrev pub GivesStatus : ℕ → List Call → Type 0
GivesStatus s [] = ⊥
GivesStatus s (set_header k v ∷ cs) = GivesStatus s cs
GivesStatus s (append_header k v ∷ cs) = GivesStatus s cs
GivesStatus s (write_header n ∷ cs) = (n ≡ s) × IsFinal s × NoStatus cs
GivesStatus s (write b ∷ cs) = (s ≡ 200) × NoStatus cs

pub GivesStatus-IsOrderly : (s : ℕ) (cs : List Call) → GivesStatus s cs → IsOrderly cs
GivesStatus-IsOrderly s [] g = absurd g
GivesStatus-IsOrderly s (set_header k v ∷ cs) g = GivesStatus-IsOrderly s cs g
GivesStatus-IsOrderly s (append_header k v ∷ cs) g = GivesStatus-IsOrderly s cs g
GivesStatus-IsOrderly s (write_header n ∷ cs) (e, f, h) = (subst IsFinal (sym e) f, h)
GivesStatus-IsOrderly s (write b ∷ cs) (e, h) = h

abbrev status_line : Option (ℕ × Values) → ℕ
status_line none = 0
status_line (some line) = line.0

status_sent :
    (cs : List Call) (h : Values) (s : ℕ)
    → GivesStatus s cs
    → status_of (finish (play_all cs (before h))) ≡ s
unfolding play_all play send
status_sent [] h s g = absurd g
status_sent (set_header k v ∷ cs) h s g = status_sent cs _ s g
status_sent (append_header k v ∷ cs) h s g = status_sent cs _ s g
status_sent (write_header n ∷ cs) h s (e, f, g) =
    rw (e, play_all-final s cs h f)
      (ap status_line (finish_sent _ (s, h) (sent-play_all cs h (s, h) [] g)))
status_sent (write b ∷ cs) h s (e, g) =
    ap status_line (finish_sent _ (200, h) (sent-play_all cs h (200, h) (b ∷ []) g)) ∙ sym e

pub status_of-serve : (cs : List Call) (s : ℕ) → GivesStatus s cs → status_of (serve cs) ≡ s
unfolding serve
status_of-serve cs s g = status_sent cs [] s g

pub write_error-GivesStatus :
    (code : ℕ) (e : Option Error) → IsFinal code → GivesStatus code (write_error code e)
unfolding write_error
write_error-GivesStatus code e f = (refl, f, tt)
