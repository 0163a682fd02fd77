-- ===== src/Accounts/Handlers.antt =====
-- The handlers of accounts: internals/routes/user-register.go, and login.go, user-session.go and
-- user.go of internals/handlers. `none` is a body that does not decode. `random` is the base64 text of
-- the bytes that crypto/rand gives, if it gives any.
use gotel_reserves.Base.{ℕ, String, true, ◌||◌, Option, none, some, ◌==◌, string_eq, if◌then◌else◌}
use gotel_reserves.Backend.Rows.{UserRow}
use gotel_reserves.Backend.Exec.{M, Result, ok, err, pure, or_raise, on_result, random_failed}
use gotel_reserves.Accounts.Users.{
  Platform, get_user_by_email, get_user_by_id, create_user, update_refresh_token,
  delete_user_refresh_token, get_user_by_refresh_token,
}
use gotel_reserves.Accounts.Tokens.{
  JwtLibrary, Hasher, Identity, ApiReply, json, refuse, nothing, user, registered, session,
  read_platform, generate_jwt_token,
}

pub record RegisterRequest : Type 0 where
  pub name : String
  pub email : String
  pub password : String

module _ (hasher : Hasher) where
  abbrev pub on_created : Result UserRow → M ApiReply
  on_created (err e) = refuse 500 "Could not create user"
  on_created (ok u) =
      pure (json 201 true "Account created successfully" (registered u.id u.name u.email))

  abbrev pub with_hash : RegisterRequest → Option String → M ApiReply
  with_hash req none = refuse 500 "Signed up failed, please try again later"
  with_hash req (some hash) = on_result (create_user req.name req.email hash) on_created

  -- An error of the lookup counts as no user.
  abbrev pub on_existing : RegisterRequest → Result UserRow → M ApiReply
  on_existing req (ok u) = refuse 409 "Email is already exists"
  on_existing req (err e) = with_hash req (hasher.hash_password req.password)

  abbrev pub register : Option RegisterRequest → M ApiReply
  register none = refuse 400 "Invalid request body"
  register (some req) =
      if req.email == "" || req.name == "" || req.password == ""
      then refuse 400 "Invalid credentials"
      else on_result (get_user_by_email req.email) (on_existing req)

  unfoldable pub handle_user_registration : Option RegisterRequest → M ApiReply
  handle_user_registration body = register body

pub record EmailLoginRequest : Type 0 where
  pub email : String
  pub password : String

module _ (jwt : JwtLibrary) (key : String) (random : Option String) where
  abbrev pub on_saved : UserRow → String → String → String → Result (Unit {0}) → M ApiReply
  on_saved u message access refresh (err e) = refuse 500 "failed to save refresh token"
  on_saved u message access refresh (ok _) = pure (json 200 true message (session u access refresh))

  abbrev pub on_refresh : UserRow → Platform → String → String → Result String → M ApiReply
  on_refresh u platform message access (err e) = refuse 500 "failed to generate refresh token"
  on_refresh u platform message access (ok refresh) =
      on_result (update_refresh_token u.id platform refresh) (on_saved u message access refresh)

  abbrev pub on_access : UserRow → Platform → String → Result String → M ApiReply
  on_access u platform message (err e) = refuse 500 "failed to generate token"
  on_access u platform message (ok access) =
      on_result (or_raise random random_failed) (on_refresh u platform message access)

  -- What login and refresh have in common: new tokens, of which the refresh token is saved.
  unfoldable pub start_session : UserRow → Platform → String → M ApiReply
  start_session u platform message =
      on_result (generate_jwt_token jwt key u.id u.name platform) (on_access u platform message)

  module _ (hasher : Hasher) where
    abbrev pub on_user : Platform → String → Result UserRow → M ApiReply
    on_user platform password (err e) = refuse 401 "invalid email or password"
    on_user platform password (ok u) =
        if hasher.check_hashed_password u.password password
        then start_session u platform "login successful"
        else refuse 401 "invalid email or password"

    abbrev pub login_on : Option Platform → Option EmailLoginRequest → M ApiReply
    login_on none body = refuse 400 "Invalid platform"
    login_on (some platform) none = refuse 400 "invalid requested data"
    login_on (some platform) (some req) =
        if req.email == "" || req.password == ""
        then refuse 400 "email and password are required"
        else on_result (get_user_by_email req.email) (on_user platform req.password)

    unfoldable pub handle_email_login : String → Option EmailLoginRequest → M ApiReply
    handle_email_login platform_header body = login_on (read_platform platform_header) body

  abbrev pub on_holder : Platform → Result UserRow → M ApiReply
  on_holder platform (err e) = refuse 401 "invalid refresh token"
  on_holder platform (ok u) = start_session u platform "session refreshed successfully"

  abbrev pub refresh_on : Option Platform → Option String → M ApiReply
  refresh_on none body = refuse 400 "Invalid platform"
  refresh_on (some platform) none = refuse 400 "Invalid request data"
  refresh_on (some platform) (some token) =
      if token == ""
      then refuse 400 "refresh token is required"
      else on_result (get_user_by_refresh_token token platform) (on_holder platform)

  -- The body, if it decodes, is the refresh token.
  unfoldable pub handle_refresh_session : String → Option String → M ApiReply
  handle_refresh_session platform_header body = refresh_on (read_platform platform_header) body

abbrev pub on_current : Result UserRow → M ApiReply
on_current (err e) = refuse 401 "invalid refresh token"
on_current (ok u) = pure (json 200 true "Current user is fetched successfully" (user u))

abbrev pub current_on : Option Platform → Option String → M ApiReply
current_on none body = refuse 400 "Invalid platform"
current_on (some platform) none = refuse 400 "Invalid request data"
current_on (some platform) (some token) =
    if token == ""
    then refuse 400 "refresh token is required"
    else on_result (get_user_by_refresh_token token platform) on_current

unfoldable pub handle_get_current_user : String → Option String → M ApiReply
handle_get_current_user platform_header body = current_on (read_platform platform_header) body

abbrev pub on_deleted : Result (Unit {0}) → M ApiReply
on_deleted (err e) = refuse 500 "Something went wrong please retry"
on_deleted (ok _) = pure (json 200 true "User logged out successfully" nothing)

-- `Authenticate` has put the identity into the context.
unfoldable pub handle_logout : Identity → M ApiReply
handle_logout i = on_result (delete_user_refresh_token i.user_id i.platform) on_deleted

abbrev pub on_found : Result UserRow → M ApiReply
on_found (err e) = refuse 404 "User not found"
on_found (ok u) = pure (json 200 true "User found Successfully" (user u))

abbrev pub get_user_on : Option ℕ → M ApiReply
get_user_on none = refuse 400 "Failed to parse the id"
get_user_on (some id) = on_result (get_user_by_id id) on_found

-- The number in the path, if it is one; a number that is not positive, which no user has, counts as 0.
unfoldable pub handle_get_user_by_id : Option ℕ → M ApiReply
handle_get_user_by_id id = get_user_on id
