-- ===== src/Accounts/Tokens.antt =====
-- internals/utils/jwt.go, internals/utils/hash.go and internals/middleware/authentication.go. The
-- libraries that sign tokens and hash passwords are arguments.
use gotel_reserves.Base.{
  ℕ, ◌+◌, ◌*◌, ◌/◌, ◌≡◌, String, Bool, true, false, ◌||◌, Option, none, some, ◌==◌, nat_eq,
  string_eq, if◌then◌else◌, ltb, trim_space, lower_is, take_text, drop_text,
}
use gotel_reserves.Backend.Rows.{UserRow, second, minute}
use gotel_reserves.Backend.Exec.{
  M, Result, ok, err, pure, or_raise, now, on_result, signing_failed, invalid_token, ◌>>=◌,
}
use gotel_reserves.Accounts.Users.{Platform, web, mobile}

-- CustomClaims; `expires_at` is a number of seconds, `subject` the number that the text spells
pub record Claims : Type 0 where
  pub user_id : ℕ
  pub name : String
  pub x_platform : String
  pub expires_at : ℕ
  pub subject : ℕ

-- github.com/golang-jwt/jwt with HS256: `sign key claims`, and `parse key t token` at the moment t.
pub record JwtLibrary : Type 0 where
  pub sign : String → Claims → Option String
  pub parse : String → ℕ → String → Option Claims

-- A token that was signed parses with the key that signed it, until it expires.
pub record IsVerifying (jwt : JwtLibrary) : Type 0 where
  pub parse-sign :
      (key : String) (c : Claims) (token : String)
      → jwt.sign key c ≡ some token
      → (t : ℕ) → jwt.parse key t token ≡ (if ltb t (c.expires_at * second) then some c else none)

-- golang.org/x/crypto/bcrypt
pub record Hasher : Type 0 where
  pub hash_password : String → Option String
  pub check_hashed_password : String → String → Bool

pub record IsHashing (h : Hasher) : Type 0 where
  pub check-hash :
      (password hash : String)
      → h.hash_password password ≡ some hash
      → h.check_hashed_password hash password ≡ true

abbrev pub text_of : Platform → String
text_of web = "web"
text_of mobile = "mobile"

-- a platform spelled as it is
abbrev pub platform_of : String → Option Platform
platform_of text =
    if text == "web" then some web else if text == "mobile" then some mobile else none

-- strings.ToLower(strings.TrimSpace(header)), if it is a platform
unfoldable pub read_platform : String → Option Platform
read_platform header =
    let text = trim_space header in
    if lower_is text "web" then some web else if lower_is text "mobile" then some mobile else none

abbrev pub same_platform : Platform → Platform → Bool
same_platform web web = true
same_platform mobile mobile = true
same_platform _ _ = false

-- jwt.NewNumericDate: whole seconds
abbrev pub claims_for : ℕ → String → Platform → ℕ → Claims
claims_for id name platform t = record {
  user_id = id;
  name = name;
  x_platform = text_of platform;
  expires_at = (t + 30 * minute) / second;
  subject = id;
}

pub record Identity : Type 0 where
  pub user_id : ℕ
  pub name : String
  pub platform : Platform

abbrev pub identity_of : Claims → Option Platform → Option Identity
identity_of c none = none
identity_of c (some p) =
    if c.user_id == 0 || c.name == ""
    then none
    else some (record { user_id = c.user_id; name = c.name; platform = p })

module _ (jwt : JwtLibrary) (key : String) where
  unfoldable pub generate_jwt_token : ℕ → String → Platform → M String
  generate_jwt_token id name platform = do
    t ← now
    or_raise (jwt.sign key (claims_for id name platform t)) signing_failed

  unfoldable pub verify_jwt : String → M Identity
  verify_jwt token = do
    t ← now
    c ← or_raise (jwt.parse key t token) invalid_token
    or_raise (identity_of c (platform_of c.x_platform)) invalid_token

pub data ApiData : Type 0 where
  nothing : ApiData
  user : UserRow → ApiData
  registered : ℕ → String → String → ApiData
  -- the user, the access token and the refresh token
  session : UserRow → String → String → ApiData

-- internals/utils/api-response.go
pub record ApiReply : Type 0 where
  pub status : ℕ
  pub success : Bool
  pub message : String
  pub body : ApiData

abbrev pub json : ℕ → Bool → String → ApiData → ApiReply
json status success message body = record {
  status = status;
  success = success;
  message = message;
  body = body;
}

abbrev pub refuse : ℕ → String → M ApiReply
refuse status message = pure (json status false message nothing)

-- The token of an `Authorization` header. That of a WebSocket request may stand in the query instead.
unfoldable pub bearer_token : String → Option String
bearer_token header =
    if lower_is (take_text 7 header) "bearer " then some (trim_space (drop_text 7 header)) else none

-- A blank header leaves the platform of the token.
abbrev pub chosen_platform : String → Platform → Option Platform
chosen_platform header p = if trim_space header == "" then some p else read_platform header

module _ (next : Identity → M ApiReply) where
  abbrev pub on_platform : Identity → Option Platform → M ApiReply
  on_platform i none = refuse 400 "Invalid platform"
  on_platform i (some p) = if same_platform i.platform p then next i else refuse 401 "Unauthorized"

  abbrev pub on_identity : String → Result Identity → M ApiReply
  on_identity platform_header (err e) = refuse 401 "Unauthorized"
  on_identity platform_header (ok i) = on_platform i (chosen_platform platform_header i.platform)

  abbrev pub on_bearer : JwtLibrary → String → String → Option String → M ApiReply
  on_bearer jwt key platform_header none = refuse 401 "Unauthorized"
  on_bearer jwt key platform_header (some token) =
      on_result (verify_jwt jwt key token) (on_identity platform_header)

  -- The handler `next` finds the identity in the context of the request.
  unfoldable pub authenticate : JwtLibrary → String → String → String → M ApiReply
  authenticate jwt key auth_header platform_header =
      on_bearer jwt key platform_header (bearer_token (trim_space auth_header))
