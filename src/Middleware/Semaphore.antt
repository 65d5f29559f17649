-- ===== src/Middleware/Semaphore.antt =====
-- maxConcurrent of httpbin/middleware.go: a buffered channel as a semaphore. A request that finds no
-- room is answered at once, and one that is let in gives its token back when its handler ends.
use go_httpbin.Base.{
  ℕ, suc, ◌-◌, ◌≤◌, ◌<◌, ◌≡◌, refl, ◌≢◌, Option, none, some, List, arith, ltb, ◌==◌, if◌then◌else◌,
}
use go_httpbin.Http.{Call, Request, Handler, write_error}

-- `tokens` is what the channel holds, `running` how many handlers are between their send and their
-- deferred receive.
pub record State : Type 0 where
  pub tokens : ℕ
  pub running : ℕ

abbrev pub idle : State
idle = record { tokens = 0; running = 0 }

-- The select: with no room for another token, its default branch.
unfoldable pub max_concurrent : ℕ → Handler → Request → State → State × List Call
max_concurrent n h r s =
    if ltb s.tokens n
    then (record { tokens = suc s.tokens; running = suc s.running }, h r)
    else (s, write_error 503 none)

-- The deferred receive, which waits while the channel is empty.
unfoldable pub release : State → Option State
release s =
    if s.tokens == 0 then none else some (record { tokens = s.tokens - 1; running = s.running - 1 })

-- One request comes in, or one handler that is running ends.
pub data Step (n : ℕ) (h : Handler) : State → State → Type 0 where
  enter : (r : Request) (s : State) → Step n h s (max_concurrent n h r s).0
  leave : (s t : State) → 0 < s.running → release s ≡ some t → Step n h s t

pub data Reaches (n : ℕ) (h : Handler) : State → State → Type 0 where
  here : (s : State) → Reaches n h s s
  next : (s t u : State) → Step n h s t → Reaches n h t u → Reaches n h s u

abbrev pub IsValid : ℕ → State → Type 0
IsValid n s = (s.tokens ≡ s.running) × (s.running ≤ n)

Step-IsValid : (n : ℕ) (h : Handler) (s t : State) → Step n h s t → IsValid n s → IsValid n t
unfolding max_concurrent release
Step-IsValid n h s _ (enter r _) v = ground arith
Step-IsValid n h s t (leave _ _ p e) v = ground arith

Reaches-IsValid : (n : ℕ) (h : Handler) (s t : State) → Reaches n h s t → IsValid n s → IsValid n t
Reaches-IsValid n h s _ (here _) v = v
Reaches-IsValid n h s u (next _ t _ st rest) v =
    Reaches-IsValid n h t u rest (Step-IsValid n h s t st v)

-- Under any interleaving of arriving requests and ending handlers, at most `n` handlers run, and a
-- handler that ends never waits to give its token back.
pub Reaches-bounded :
    (n : ℕ) (h : Handler) (s : State)
    → Reaches n h idle s
    → (s.running ≤ n) × (0 < s.running → release s ≢ none)
unfolding release
Reaches-bounded n h s path =
    let v = Reaches-IsValid n h idle s path (refl, omega arith) in (v.1, λ p. ground arith)

-- In every state that the program can reach, a request is passed to the handler exactly while fewer
-- than `n` handlers run; any other is answered 503.
pub Reaches-admits :
    (n : ℕ) (h : Handler) (r : Request) (s : State)
    → Reaches n h idle s
    → (s.running < n → (max_concurrent n h r s).1 ≡ h r)
      × (n ≤ s.running → (max_concurrent n h r s).1 ≡ write_error 503 none)
unfolding max_concurrent
Reaches-admits n h r s path =
    let v = Reaches-IsValid n h idle s path (refl, omega arith) in
    ((λ l. ground arith), (λ l. ground arith))
