-- ===== src/Accounts/Callback.antt =====
-- An invariant that the statements of accounts keep, and that is about nothing but the rooms and the users,
-- is kept by the GitHub callback (internals/handlers/oauth.go).
use gotel_reserves.Base.{ℕ, String, ◌==◌, string_eq, Option, none, some, List, arith}
use gotel_reserves.Backend.Rows.{UserRow, Db}
use gotel_reserves.Backend.Exec.{Result, ok, err, random_failed}
use gotel_reserves.Backend.Preserves.{
  Preserves, Preserves-if, Preserves-on_result, Preserves-or_raise, Preserves-pure, Preserves-bind,
  Preserves-logged, preserves_rules,
}
use gotel_reserves.Rooms.Methods.{IgnoresRest}
use gotel_reserves.Accounts.Users.{web}
use gotel_reserves.Accounts.Tokens.{JwtLibrary, Hasher}
use gotel_reserves.Accounts.Encryption.{Gcm}
use gotel_reserves.Accounts.Keeps.{
  IsKeptByAccounts, create_user-Preserves, update_refresh_token-Preserves,
  generate_jwt_token-Preserves, get_user_by_email-Preserves,
}
use gotel_reserves.Accounts.Oauth.{
  TokenCodec, GithubUser, redirect_error, upsert_connection, save_oauth_token, on_saved_refresh,
  on_app_refresh, on_app_access, sign_in, on_new_user, on_github_user, on_fetched, on_exchanged,
  handle_github_auth_callback,
}

module _ {I : Db → Type 0} (accounts : IsKeptByAccounts I) (elsewhere : IgnoresRest I) {T : Type 0}
    (codec : TokenCodec T) (gcm : Gcm) (oauth_key : List ℕ) (jwt : JwtLibrary) (jwt_key : String)
    (random : Option String) (nonce : Option (List ℕ)) (frontend_url : String) where
  upsert_keeps :
      (user : ℕ) (provider account : String) (encrypted : List ℕ) (t : ℕ) (d : Db)
      → I d
      → I (upsert_connection user provider account encrypted t d).1
  unfolding upsert_connection
  upsert_keeps user provider account encrypted t d h =
      elsewhere d (upsert_connection user provider account encrypted t d).1 (ground arith)
        (ground arith) (ground arith) h

  save_oauth_token-Preserves :
      (user : ℕ) (provider account : String) (token : T)
      → Preserves I (save_oauth_token codec gcm oauth_key nonce user provider account token)
  unfolding save_oauth_token
  save_oauth_token-Preserves user provider account token =
      search (preserves_rules, upsert_keeps) depth 8

  redirect_error-Preserves : (error : String) → Preserves I (redirect_error frontend_url error)
  redirect_error-Preserves error = Preserves-pure _

  on_saved_refresh-Preserves :
      (access refresh : String) (r : Result (Unit {0}))
      → Preserves I (
          on_saved_refresh codec gcm oauth_key jwt jwt_key random nonce frontend_url access refresh
            r)
  on_saved_refresh-Preserves access refresh (ok v) = Preserves-pure _
  on_saved_refresh-Preserves access refresh (err e) = Preserves-pure _

  on_app_refresh-Preserves :
      (u : UserRow) (access : String) (r : Result String)
      → Preserves I
          (on_app_refresh codec gcm oauth_key jwt jwt_key random nonce frontend_url u access r)
  on_app_refresh-Preserves u access (err e) = Preserves-pure _
  on_app_refresh-Preserves u access (ok refresh) =
      Preserves-on_result _ _ (update_refresh_token-Preserves accounts u.id web refresh)
        (on_saved_refresh-Preserves access refresh)

  on_app_access-Preserves :
      (u : UserRow) (r : Result String)
      → Preserves I (on_app_access codec gcm oauth_key jwt jwt_key random nonce frontend_url u r)
  on_app_access-Preserves u (err e) = Preserves-pure _
  on_app_access-Preserves u (ok access) =
      Preserves-on_result _ _ (Preserves-or_raise random random_failed)
        (on_app_refresh-Preserves u access)

  sign_in-Preserves :
      (gh : GithubUser) (token : T) (u : UserRow)
      → Preserves I (sign_in codec gcm oauth_key jwt jwt_key random nonce frontend_url gh token u)
  unfolding sign_in
  sign_in-Preserves gh token u =
      Preserves-bind _ _ (Preserves-logged _ (save_oauth_token-Preserves u.id "github" gh.id token))
        (λ _.
          Preserves-on_result _ _ (generate_jwt_token-Preserves jwt jwt_key u.id u.name web)
            (on_app_access-Preserves u))

  on_new_user-Preserves :
      (gh : GithubUser) (token : T) (r : Result UserRow)
      → Preserves I
          (on_new_user codec gcm oauth_key jwt jwt_key random nonce frontend_url gh token r)
  on_new_user-Preserves gh token (ok u) = sign_in-Preserves gh token u
  on_new_user-Preserves gh token (err e) = Preserves-pure _

  module _ (hasher : Hasher) (dummy : String → String) where
    on_github_user-Preserves :
        (gh : GithubUser) (token : T) (r : Result UserRow)
        → Preserves I (
            on_github_user codec gcm oauth_key jwt jwt_key random nonce frontend_url hasher dummy gh
              token r)
    on_github_user-Preserves gh token (ok u) = sign_in-Preserves gh token u
    on_github_user-Preserves gh token (err e) =
        Preserves-on_result _ _ (create_user-Preserves accounts gh.name gh.email _)
          (on_new_user-Preserves gh token)

    on_fetched-Preserves :
        (token : T) (answer : Option (Option GithubUser))
        → Preserves I (
            on_fetched codec gcm oauth_key jwt jwt_key random nonce frontend_url hasher dummy token
              answer)
    on_fetched-Preserves token none = Preserves-pure _
    on_fetched-Preserves token (some none) = Preserves-pure _
    on_fetched-Preserves token (some (some gh)) =
        Preserves-on_result _ _ (get_user_by_email-Preserves gh.email)
          (on_github_user-Preserves gh token)

    on_exchanged-Preserves :
        (token : Option T) (fetch : T → Option (Option GithubUser))
        → Preserves I (
            on_exchanged codec gcm oauth_key jwt jwt_key random nonce frontend_url hasher dummy
              token fetch)
    on_exchanged-Preserves none fetch = Preserves-pure _
    on_exchanged-Preserves (some token) fetch = on_fetched-Preserves token (fetch token)

    pub callback-Preserves :
        (state : String) (cookie : Option String) (token : Option T)
        (fetch : T → Option (Option GithubUser))
        → Preserves I (
            handle_github_auth_callback codec gcm oauth_key jwt jwt_key random nonce frontend_url
              hasher dummy state cookie token fetch)
    unfolding handle_github_auth_callback
    callback-Preserves state none token fetch = Preserves-pure _
    callback-Preserves state (some cookie) token fetch =
        Preserves-if (state == cookie) _ _ (λ _. on_exchanged-Preserves token fetch)
          (λ _. Preserves-pure _)
