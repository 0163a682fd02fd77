-- ===== src/Accounts/Tests.antt =====
-- Ann logs in, refreshes her session and logs out.
use gotel_reserves.Base.{
  ◌*◌, ◌≡◌, ◌≢◌, refl, String, Bool, true, false, none, some, [], ◌∷◌, ◌==◌, nat_eq, string_eq,
  ◌&&◌, arith, eq_iff, if◌then◌else◌, ltb, find, exists, has_key, trim_space, lower_is,
}
use gotel_reserves.Backend.Rows.{UserRow, Db, second}
use gotel_reserves.Backend.Exec.{
  World, Result, ok, pure, now, on_result, or_raise, statement, request, ◌>>=◌,
}
use gotel_reserves.Accounts.Users.{
  web, email_of, holds, new_user, get_user_by_email, get_user_by_refresh_token,
  update_refresh_token, delete_user_refresh_token,
}
use gotel_reserves.Accounts.Tokens.{
  JwtLibrary, IsVerifying, Claims, Hasher, Identity, ApiReply, session, nothing, json, refuse,
  bearer_token, authenticate, read_platform, generate_jwt_token,
}
use gotel_reserves.Accounts.Handlers.{
  EmailLoginRequest, handle_email_login, handle_refresh_session, handle_logout, start_session,
}
use gotel_reserves.Accounts.Columns.{AreUsers}
use gotel_reserves.Accounts.Sessions.{expiry, login_authenticates}
use gotel_reserves.Accounts.Rotation.{refresh_rotates, logout_revokes}
use gotel_reserves.Samples.{world, empty_db}

abbrev ann : UserRow
ann = record (new_user 1 "Ann" "ann@example.com" "secret" 5) { refresh_token_web = some "old" }

abbrev bob : UserRow
bob = new_user 2 "Bob" "bob@example.com" "hidden" 6

abbrev two_users : Db
two_users = record empty_db { users = ann ∷ bob ∷ [] }

full : (s : String) → (s == "") ≡ false → s ≢ ""
full s h e = cc (h, (eq_iff s "").1 e)

two_users-AreUsers : AreUsers two_users
two_users-AreUsers = record {
  emails_apart = (refl, (refl, tt));
  ids_apart = (refl, (refl, tt));
  numbered = ((omega arith, omega arith), ((omega arith, omega arith), tt));
  some_id = omega arith;
}

-- A library that signs one kind of claims, those of Ann's login.
abbrev claims : Claims
claims = record { user_id = 1; name = "Ann"; x_platform = "web"; expires_at = 5401; subject = 1 }

abbrev same_claims : Claims → Bool
same_claims c =
    c.user_id == 1
    && c.name == "Ann"
    && c.x_platform == "web"
    && c.expires_at == 5401
    && c.subject == 1

abbrev one_token : JwtLibrary
one_token = record {
  sign = λ key c. if same_claims c then some "tok" else none;
  parse = λ key t token. if token == "tok" && ltb t (5401 * second) then some claims else none;
}

one_token-IsVerifying : IsVerifying one_token
one_token-IsVerifying = record {
  parse-sign = λ key c token signed t.
      ground (arith, eq_iff c.name "Ann", eq_iff c.x_platform "web", eq_iff token "tok", signed);
}

abbrev plain : Hasher
plain = record {
  hash_password = λ password. some password;
  check_hashed_password = λ hash password. hash == password;
}

abbrev start : World
start = world two_users []

abbrev credentials : EmailLoginRequest
credentials = record { email = "ann@example.com"; password = "secret" }

abbrev login : Result ApiReply × World
login = handle_email_login one_token "key" (some "new") plain " Web " (some credentials) start

abbrev welcome : ApiReply
welcome = json 200 true "login successful" (session ann "tok" "new")

logged_in : login ≡ (ok welcome, login.1)
unfolding handle_email_login start_session generate_jwt_token get_user_by_email update_refresh_token
    on_result or_raise pure statement request now read_platform trim_space lower_is ◌>>=◌
logged_in = refl

abbrev ann_on_web : Identity
ann_on_web = record { user_id = 1; name = "Ann"; platform = web }

bearer : bearer_token (trim_space "Bearer  tok") ≡ some "tok"
unfolding bearer_token trim_space lower_is
bearer = refl

blank_header : trim_space "  " ≡ ""
unfolding trim_space
blank_header = refl

web_header : read_platform " Web " ≡ some web
unfolding read_platform trim_space lower_is
web_header = refl

login_authenticates_example :
    (find (has_key email_of "ann@example.com") two_users.users ≡ some ann)
    × ((ann.password == "secret") ≡ true)
    × (authenticate handle_logout one_token "key" "Bearer  tok" "  " login.1 ≡ (
        if ltb (now login.1).1.clock (expiry (now start).1.clock)
        then handle_logout ann_on_web (now login.1).1
        else refuse 401 "Unauthorized" (now login.1).1))
login_authenticates_example =
    login_authenticates one_token "key" one_token-IsVerifying (some "new") plain " Web " web
      credentials start login.1 welcome ann "tok" "new" two_users-AreUsers web_header logged_in refl
      (full "Ann" refl) handle_logout "Bearer  tok" "  " bearer blank_header login.1

abbrev refresh : Result ApiReply × World
refresh = handle_refresh_session one_token "key" (some "new") "web" (some "old") start

abbrev refreshed_reply : ApiReply
refreshed_reply = json 200 true "session refreshed successfully" (session ann "tok" "new")

refreshed : refresh ≡ (ok refreshed_reply, refresh.1)
unfolding handle_refresh_session start_session generate_jwt_token get_user_by_refresh_token
    update_refresh_token on_result or_raise pure statement request now read_platform trim_space
    lower_is ◌>>=◌
refreshed = refl

plain_web : read_platform "web" ≡ some web
unfolding read_platform trim_space lower_is
plain_web = refl

refresh_rotates_example :
    (find (holds web "old") two_users.users ≡ some ann)
    × (exists (holds web "old") refresh.1.db.users ≡ false)
    × ((x : UserRow) × (find (holds web "new") refresh.1.db.users ≡ some x) × (x.id ≡ 1))
refresh_rotates_example =
    refresh_rotates one_token "key" (some "new") "web" "old" web start refresh.1 refreshed_reply ann
      "tok" "new" plain_web ((λ h. refl), ((λ h. cc), tt)) refl refreshed refl

abbrev logout : Result ApiReply × World
logout = handle_logout ann_on_web start

logged_out : logout ≡ (ok (json 200 true "User logged out successfully" nothing), logout.1)
unfolding handle_logout delete_user_refresh_token on_result pure statement request
logged_out = refl

logout_revokes_example : exists (holds web "old") logout.1.db.users ≡ false
logout_revokes_example =
    logout_revokes ann_on_web "old" start logout.1
      (json 200 true "User logged out successfully" nothing) ((λ h. refl), ((λ h. cc), tt))
      logged_out refl
