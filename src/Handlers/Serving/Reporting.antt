-- ===== src/Handlers/Serving/Reporting.antt =====
-- What the observer of Handler in httpbin/httpbin.go is told.
use go_httpbin.Base.{ℕ, Option, none, some}
use go_httpbin.Middleware.{Result}
use go_httpbin.Handlers.Serving.{Server}

-- The status that an observer is told.
abbrev pub told_status : Option Result → Option ℕ
told_status none = none
told_status (some result) = some result.status
