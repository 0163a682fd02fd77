-- ===== src/Realtime/Connection.antt =====
-- `HandleWebSocketConnection` of internals/routes/websocket.go, up to the pumps: who gets a connection.
use gotel_reserves.Base.{ℕ, String, Option, none, some, ◌==◌, string_eq, if◌then◌else◌}
use gotel_reserves.Backend.Rows.{UserRow}
use gotel_reserves.Backend.Exec.{M, Result, ok, err, pure, on_result}
use gotel_reserves.Accounts.Users.{get_user_by_id}
use gotel_reserves.Accounts.Tokens.{JwtLibrary, Identity, bearer_token, verify_jwt}
use gotel_reserves.Realtime.Hub.{Client}

-- A browser cannot send the header, and puts the token into the query.
abbrev pub token_or : String → Option String → String
token_or query none = query
token_or query (some token) = token

-- `none` is the answer 401; `connection` tells the connections apart, as their addresses do.
abbrev pub on_known_user : ℕ → Result UserRow → M (Option Client)
on_known_user connection (err e) = pure none
on_known_user connection (ok u) = pure (some (record { key = connection; user = u.id }))

abbrev pub on_verified : ℕ → Result Identity → M (Option Client)
on_verified connection (err e) = pure none
on_verified connection (ok i) = on_result (get_user_by_id i.user_id) (on_known_user connection)

abbrev pub connect_with : JwtLibrary → String → ℕ → String → M (Option Client)
connect_with jwt key connection token =
    if token == "" then pure none else on_result (verify_jwt jwt key token) (on_verified connection)

-- The header `Authorization` and the parameter `token` of the query.
unfoldable pub handle_web_socket_connection :
    JwtLibrary → String → ℕ → String → String → M (Option Client)
handle_web_socket_connection jwt key connection auth query =
    connect_with jwt key connection (token_or query (bearer_token auth))
