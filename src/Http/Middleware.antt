-- ===== src/Http/Middleware.antt =====
-- What stands before the handlers (internal/adapters/http/middleware.go). The header that sends the
-- correlation id back is left out.
use jg_backend_challenge_go.Prelude.{suc, Option, none, some, Text, codes, is_empty, if◌then◌else◌}
use jg_backend_challenge_go.Prelude.Trimming.{trim_space, equal_fold, split_2}
use jg_backend_challenge_go.Postgres.Db.{World}
use jg_backend_challenge_go.Wagering.Service.{Service}
use jg_backend_challenge_go.Http.Identity.{Identity, has_role, Validator}
use jg_backend_challenge_go.Http.Bodies.{Response, abort_error}

-- A handler, which answers in any case.
abbrev pub Answer : Type 0
Answer = World → Response × World

abbrev pub reply : Response → Answer
reply r w = (r, w)

abbrev pub bearer_of : Option (Text × Text) → Text
bearer_of none = codes ""
bearer_of (some (scheme, token)) =
    if equal_fold scheme (codes "bearer") then trim_space token else codes ""

unfoldable pub bearer_token : Text → Text
bearer_token header = if is_empty header then codes "" else bearer_of (split_2 header b' ')

-- `next` is what `c.Next` runs with the identity that is set.
abbrev pub validated : Option Identity → (Identity → Answer) → Answer
validated none next = reply (abort_error 401 (codes "UNAUTHENTICATED"))
validated (some i) next = next i

unfoldable pub auth_middleware : Validator → Text → (Identity → Answer) → Answer
auth_middleware v header next =
    let token = bearer_token header in
    if is_empty token
    then reply (abort_error 401 (codes "UNAUTHENTICATED"))
    else validated (v token) next

-- `NewUUID` where the request brings no id.
unfoldable pub correlation_middleware : Service → Text → (Text → Answer) → Answer
correlation_middleware s header next w =
    if is_empty (trim_space header)
    then next (s.new_id w.ticks) (record w { ticks = suc w.ticks })
    else next header w

unfoldable pub require_role : Identity → Text → Answer → Answer
require_role i role next =
    if has_role i role then next else reply (abort_error 403 (codes "PROVIDER_FORBIDDEN"))
