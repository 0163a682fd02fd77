-- ===== src/Accounts/Middleware.antt =====
-- A handler behind `Authenticate` (internals/middleware/authentication.go) keeps what it keeps for every
-- identity.
use gotel_reserves.Base.{String, Option, none, some}
use gotel_reserves.Backend.Rows.{Db}
use gotel_reserves.Backend.Exec.{M, Result, ok, err}
use gotel_reserves.Backend.Preserves.{Preserves, Preserves-on_result, preserves_rules}
use gotel_reserves.Accounts.Users.{Platform}
use gotel_reserves.Accounts.Tokens.{
  JwtLibrary, Identity, ApiReply, chosen_platform, verify_jwt, on_bearer, on_identity, on_platform,
  authenticate,
}

module _ {I : Db → Type 0} where
  verify_jwt-Preserves :
      (jwt : JwtLibrary) (key token : String) → Preserves I (verify_jwt jwt key token)
  unfolding verify_jwt
  verify_jwt-Preserves jwt key token = search preserves_rules depth 8

-- A handler that keeps an invariant for every identity keeps it behind the middleware.
module _ {I : Db → Type 0} (next : Identity → M ApiReply)
    (keeps : (i : Identity) → Preserves I (next i)) where
  on_platform-Preserves : (i : Identity) (p : Option Platform) → Preserves I (on_platform next i p)
  on_platform-Preserves i none = search preserves_rules
  on_platform-Preserves i (some p) = search (preserves_rules, keeps)

  on_identity-Preserves :
      (header : String) (r : Result Identity) → Preserves I (on_identity next header r)
  on_identity-Preserves header (err e) = search preserves_rules
  on_identity-Preserves header (ok i) = on_platform-Preserves i (chosen_platform header i.platform)

  on_bearer-Preserves :
      (jwt : JwtLibrary) (key header : String) (o : Option String)
      → Preserves I (on_bearer next jwt key header o)
  on_bearer-Preserves jwt key header none = search preserves_rules
  on_bearer-Preserves jwt key header (some token) =
      Preserves-on_result _ _ (verify_jwt-Preserves jwt key token) (on_identity-Preserves header)

  pub authenticate-Preserves :
      (jwt : JwtLibrary) (key auth_header header : String)
      → Preserves I (authenticate next jwt key auth_header header)
  unfolding authenticate
  authenticate-Preserves jwt key auth_header header = on_bearer-Preserves jwt key header _
