-- ===== src/Accounts/Oauth.antt =====
-- internals/models/oauth.go and internals/handlers/oauth.go: signing in with a GitHub account.
use Prim.Native.String
use gotel_reserves.Base.{
  ℕ, String, Bool, ◌&&◌, Option, none, some, List, [], ◌∷◌, ◌++◌, ◌==◌, nat_eq, string_eq,
  if◌then◌else◌, leb, length, take, find, exists, update_where, has_key,
}
use gotel_reserves.Backend.Rows.{UserRow, OauthRow, Db}
use gotel_reserves.Backend.Exec.{
  M, Result, ok, err, pure, or_raise, statement, now, on_result, logged, database_failed, not_found,
  random_failed, malformed_payload, encryption_failed, ◌>>=◌, ◌>>◌,
}
use gotel_reserves.Accounts.Users.{web, id_of, get_user_by_email, create_user, update_refresh_token}
use gotel_reserves.Accounts.Tokens.{JwtLibrary, Hasher, generate_jwt_token}
use gotel_reserves.Accounts.Encryption.{Gcm, encrypt, decrypt}

-- oauth2.Token as JSON; the tokens themselves stay opaque.
pub record TokenCodec (T : Type 0) : Type 0 where
  pub marshal : T → Option (List ℕ)
  pub unmarshal : List ℕ → Option T

-- the digits 1234567890 three times, and 12
abbrev pub fallback_key : List ℕ
fallback_key =
    let digits = 49 ∷ 50 ∷ 51 ∷ 52 ∷ 53 ∷ 54 ∷ 55 ∷ 56 ∷ 57 ∷ 48 ∷ [] in
    digits ++ digits ++ digits ++ 49 ∷ 50 ∷ []

-- of the bytes of the variable OAUTH_ENCRYPTION_KEY
unfoldable pub get_encryption_key : List ℕ → List ℕ
get_encryption_key key = if leb 32 (length key) then take 32 key else fallback_key

abbrev pub is_connection : String → String → OauthRow → Bool
is_connection provider account r = r.provider == provider && r.provider_user_id == account

abbrev pub is_connected : ℕ → OauthRow → Bool
is_connected user r = r.user_id == user

abbrev pub connects : ℕ → String → OauthRow → Bool
connects user provider r = r.user_id == user && r.provider == provider

abbrev pub rewrite_token : List ℕ → ℕ → OauthRow → OauthRow
rewrite_token encrypted t r = record r { encrypted_token = encrypted; updated_at = t }

abbrev pub new_connection : ℕ → String → String → List ℕ → ℕ → OauthRow
new_connection user provider account encrypted t = record {
  user_id = user;
  provider = provider;
  provider_user_id = account;
  encrypted_token = encrypted;
  created_at = t;
  updated_at = t;
}

-- ON CONFLICT (provider, provider_user_id); the primary key and the foreign key refuse the row.
unfoldable pub upsert_connection : ℕ → String → String → List ℕ → ℕ → Db → Result (Unit {0}) × Db
upsert_connection user provider account encrypted t d =
    if exists (is_connection provider account) d.oauth_connections
    then (
      ok tt,
      record d {
        oauth_connections =
            update_where (is_connection provider account) (rewrite_token encrypted t)
              d.oauth_connections;
      },
    )
    else if exists (is_connected user) d.oauth_connections
    then (err database_failed, d)
    else if exists (has_key id_of user) d.users
    then (
      ok tt,
      record d {
        oauth_connections =
            d.oauth_connections ++ new_connection user provider account encrypted t ∷ [];
      },
    )
    else (err database_failed, d)

module _ {T : Type 0} (codec : TokenCodec T) (gcm : Gcm) (key : List ℕ) where
  -- `random` is the nonce.
  unfoldable pub save_oauth_token : Option (List ℕ) → ℕ → String → String → T → M (Unit {0})
  save_oauth_token random user provider account token = do
    plaintext ← or_raise (codec.marshal token) malformed_payload
    encrypted ← or_raise (encrypt gcm random plaintext (get_encryption_key key)) encryption_failed
    t ← now
    statement (upsert_connection user provider account encrypted t)

  unfoldable pub get_oauth_token : ℕ → String → M T
  get_oauth_token user provider = do
    found ← statement (λ d. (ok (find (connects user provider) d.oauth_connections), d))
    row ← or_raise found not_found
    plaintext ←
        or_raise (decrypt gcm row.encrypted_token (get_encryption_key key)) encryption_failed
    or_raise (codec.unmarshal plaintext) malformed_payload

-- The user that api.github.com answers with; `id` is the number as FormatInt writes it.
pub record GithubUser : Type 0 where
  pub id : String
  pub login : String
  pub name : String
  pub email : String

abbrev pub redirect_error : String → String → M String
redirect_error frontend_url error =
    pure (String.◌++◌ frontend_url (String.◌++◌ "/login?error=" error))

abbrev pub redirect_success : String → String → String → String
redirect_success frontend_url access refresh = String.◌++◌ frontend_url (
    String.◌++◌ "/oauth/success?access_token="
      (String.◌++◌ access (String.◌++◌ "&refresh_token=" refresh)))

-- `random` and `nonce` are the bytes of crypto/rand for the refresh token, as its base64 text, and for
-- the encryption. The answer is the address of the redirect.
module _ {T : Type 0} (codec : TokenCodec T) (gcm : Gcm) (oauth_key : List ℕ) (jwt : JwtLibrary)
    (jwt_key : String) (random : Option String) (nonce : Option (List ℕ))
    (frontend_url : String) where
  abbrev pub on_saved_refresh : String → String → Result (Unit {0}) → M String
  on_saved_refresh access refresh (err e) = redirect_error frontend_url "token_update_failed"
  on_saved_refresh access refresh (ok _) = pure (redirect_success frontend_url access refresh)

  abbrev pub on_app_refresh : UserRow → String → Result String → M String
  on_app_refresh u access (err e) = redirect_error frontend_url "jwt_failed"
  on_app_refresh u access (ok refresh) =
      on_result (update_refresh_token u.id web refresh) (on_saved_refresh access refresh)

  abbrev pub on_app_access : UserRow → Result String → M String
  on_app_access u (err e) = redirect_error frontend_url "jwt_failed"
  on_app_access u (ok access) = on_result (or_raise random random_failed) (on_app_refresh u access)

  -- A connection that is not saved is only logged.
  unfoldable pub sign_in : GithubUser → T → UserRow → M String
  sign_in gh token u = do
    logged (save_oauth_token codec gcm oauth_key nonce u.id "github" gh.id token)
    on_result (generate_jwt_token jwt jwt_key u.id u.name web) (on_app_access u)

  abbrev pub on_new_user : GithubUser → T → Result UserRow → M String
  on_new_user gh token (err e) = redirect_error frontend_url "user_creation_failed"
  on_new_user gh token (ok u) = sign_in gh token u

  abbrev pub or_empty : Option String → String
  or_empty none = ""
  or_empty (some s) = s

  module _ (hasher : Hasher) (dummy : String → String) where
    -- Any error of the lookup makes a new user, whose password is a hash of `dummy`, the base64 text of
    -- the login and "dummy".
    abbrev pub on_github_user : GithubUser → T → Result UserRow → M String
    on_github_user gh token (ok u) = sign_in gh token u
    on_github_user gh token (err e) =
        on_result (create_user gh.name gh.email (or_empty (hasher.hash_password (dummy gh.login))))
          (on_new_user gh token)

    -- The answer of GitHub: none if it is not there or not 200, and then the user if it decodes.
    abbrev pub on_fetched : T → Option (Option GithubUser) → M String
    on_fetched token none = redirect_error frontend_url "fetch_failed"
    on_fetched token (some none) = redirect_error frontend_url "decode_failed"
    on_fetched token (some (some gh)) =
        on_result (get_user_by_email gh.email) (on_github_user gh token)

    abbrev pub on_exchanged : Option T → (T → Option (Option GithubUser)) → M String
    on_exchanged none fetch = redirect_error frontend_url "exchange_failed"
    on_exchanged (some token) fetch = on_fetched token (fetch token)

    abbrev pub on_state :
        String → Option String → Option T → (T → Option (Option GithubUser)) → M String
    on_state state none token fetch = redirect_error frontend_url "invalid_state"
    on_state state (some cookie) token fetch =
        if state == cookie
        then on_exchanged token fetch
        else redirect_error frontend_url "invalid_state"

    -- The state in the query and in the cookie, the token for the code, and the answer for a token.
    unfoldable pub handle_github_auth_callback :
        String → Option String → Option T → (T → Option (Option GithubUser)) → M String
    handle_github_auth_callback state cookie token fetch = on_state state cookie token fetch
