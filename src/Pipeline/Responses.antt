-- ===== src/Pipeline/Responses.antt =====
-- statusOverrideResponseWriter of httpbin/pipeline.go: the calls it passes on. Nothing unwraps it.
use go_httpbin.Base.{ℕ, ◌≡◌, Bool, true, false, ◌&&◌, ◌||◌, List, [], ◌∷◌, ◌==◌, if◌then◌else◌, any}
use go_httpbin.Http.{is_marshalled, Call, Chunk, set_header, append_header, write_header, write}
use go_httpbin.Http.Server.{Response, status_of}

-- The second argument is headersDone.
unfoldable pub override_status : ℕ → Bool → List Call → List Call
override_status code done [] = []
override_status code done (set_header k v ∷ cs) = set_header k v ∷ override_status code done cs
override_status code done (append_header k v ∷ cs) =
    append_header k v ∷ override_status code done cs
override_status code true (write_header s ∷ cs) = override_status code true cs
override_status code false (write_header s ∷ cs) = write_header code ∷ override_status code true cs
override_status code true (write b ∷ cs) = write b ∷ override_status code true cs
override_status code false (write b ∷ cs) =
    write_header code ∷ write b ∷ override_status code true cs

-- A handler that sends a status or a body.
abbrev pub Sends : List Call → Type 0
Sends [] = ⊥
Sends (set_header k v ∷ cs) = Sends cs
Sends (append_header k v ∷ cs) = Sends cs
Sends (write_header s ∷ cs) = Unit
Sends (write b ∷ cs) = Unit

-- The bodies that are written, in order.
abbrev pub bodies : List Call → List Chunk
bodies [] = []
bodies (set_header k v ∷ cs) = bodies cs
bodies (append_header k v ∷ cs) = bodies cs
bodies (write_header s ∷ cs) = bodies cs
bodies (write b ∷ cs) = b ∷ bodies cs

-- The status and the body of a response, and whether its handler panicked.
abbrev pub Answers : Response → ℕ → List Chunk → Bool → Type 0
Answers r code b panicked = (status_of r ≡ code) × (r.body ≡ b) × (r.panicked ≡ panicked)

-- The statuses without a body.
abbrev pub is_bodiless : ℕ → Bool
is_bodiless code = code == 204 || code == 304

-- What reaches the client of the bodies, and whether writing them panics.
abbrev pub delivered : ℕ → List Chunk → List Chunk
delivered code bs = if is_bodiless code then [] else bs

abbrev pub refuses : ℕ → List Chunk → Bool
refuses code bs = is_bodiless code && any is_marshalled bs
