-- ===== src/Accounts/Users.antt =====
-- internals/models/user.go and the statements of internals/utils/refresh-token.go. Postgres writes its
-- moment into `created_at` and `updated_at`.
use gotel_reserves.Base.{
  ℕ, ◌+◌, String, Bool, false, Option, none, some, [], ◌∷◌, ◌++◌, ◌==◌, nat_eq, string_eq,
  if◌then◌else◌, find, exists, update_where, has_key,
}
use gotel_reserves.Backend.Rows.{UserRow, Db}
use gotel_reserves.Backend.Exec.{
  M, Result, ok, err, or_raise, statement, now, not_found, database_failed, ◌>>=◌,
}

-- internals/utils/constants.go
pub data Platform : Type 0 where
  web mobile : Platform

abbrev pub email_of : UserRow → String
email_of u = u.email

abbrev pub id_of : UserRow → ℕ
id_of u = u.id

abbrev pub find_row : (UserRow → Bool) → M UserRow
find_row p = do row ← statement (λ d. (ok (find p d.users), d)); or_raise row not_found

unfoldable pub get_user_by_email : String → M UserRow
get_user_by_email email = find_row (has_key email_of email)

unfoldable pub get_user_by_id : ℕ → M UserRow
get_user_by_id id = find_row (has_key id_of id)

abbrev pub new_user : ℕ → String → String → String → ℕ → UserRow
new_user id name email password t = record {
  id = id;
  name = name;
  email = email;
  password = password;
  refresh_token_web = none;
  refresh_token_web_updated_at = none;
  refresh_token_mobile = none;
  refresh_token_mobile_updated_at = none;
  avatar_url = none;
  created_at = t;
  updated_at = t;
}

-- UNIQUE (email)
unfoldable pub insert_user : String → String → String → ℕ → Db → Result UserRow × Db
insert_user name email password t d =
    let u = new_user d.next_id name email password t in
    if exists (has_key email_of email) d.users
    then (err database_failed, d)
    else (ok u, record d { users = d.users ++ u ∷ []; next_id = d.next_id + 1 })

unfoldable pub create_user : String → String → String → M UserRow
create_user name email password = do t ← now; statement (insert_user name email password t)

abbrev pub token_of : Platform → UserRow → Option String
token_of web u = u.refresh_token_web
token_of mobile u = u.refresh_token_mobile

abbrev pub set_token : Platform → Option String → Option ℕ → UserRow → UserRow
set_token web token t u = record u { refresh_token_web = token; refresh_token_web_updated_at = t }
set_token mobile token t u = record u {
  refresh_token_mobile = token;
  refresh_token_mobile_updated_at = t;
}

abbrev pub is_token : String → Option String → Bool
is_token token none = false
is_token token (some s) = s == token

abbrev pub holds : Platform → String → UserRow → Bool
holds platform token u = is_token token (token_of platform u)

abbrev pub with_token : ℕ → Platform → Option String → Option ℕ → Db → Db
with_token id platform token t d = record d {
  users = update_where (has_key id_of id) (set_token platform token t) d.users;
}

unfoldable pub update_refresh_token : ℕ → Platform → String → M (Unit {0})
update_refresh_token id platform token = do
  t ← now
  statement (λ d. (ok tt, with_token id platform (some token) (some t) d))

unfoldable pub delete_user_refresh_token : ℕ → Platform → M (Unit {0})
delete_user_refresh_token id platform = statement (λ d. (ok tt, with_token id platform none none d))

unfoldable pub get_user_by_refresh_token : String → Platform → M UserRow
get_user_by_refresh_token token platform = find_row (holds platform token)
