-- ===== src/Accounts/Examples.antt =====
-- Ann signs in with a GitHub account, on two users.
use gotel_reserves.Base.{
  update_where, has_key, arith, String, zero, suc, ap, Bool, ◌&&◌, ◌*◌, ltb, nat_eq, eq_iff,
  if◌then◌else◌, ℕ, ◌≡◌, refl, some, none, List, [], ◌∷◌, ◌==◌, string_eq,
}
use gotel_reserves.Backend.Rows.{UserRow, Db, second}
use gotel_reserves.Backend.Exec.{World, ok, err, invalid_token, now}
use gotel_reserves.Accounts.Users.{web, id_of, set_token, new_user}
use gotel_reserves.Accounts.Tokens.{JwtLibrary, Hasher, Claims, IsVerifying, claims_for, verify_jwt}
use gotel_reserves.Accounts.Encryption.{Gcm, IsOpening}
use gotel_reserves.Accounts.Oauth.{
  TokenCodec, GithubUser, save_oauth_token, get_oauth_token, handle_github_auth_callback,
  redirect_success,
}
use gotel_reserves.Accounts.Connections.{
  SignedIn, get_oauth_token-save, handle_github_auth_callback_known,
}
use gotel_reserves.Accounts.Nameless.{handle_github_auth_callback_nameless}
use gotel_reserves.Samples.{world, empty_db}

-- An encryption that only puts the key in front.
abbrev open_gcm : Gcm
open_gcm = record {
  nonce_size = 2;
  seal = λ key nonce plaintext. 0 ∷ plaintext;
  unseal = λ key nonce ciphertext. elim ciphertext [ [] ↦ none | x ∷ xs ↦ some xs ];
}

open_gcm-IsOpening : IsOpening open_gcm
open_gcm-IsOpening = record { unseal-seal = λ key nonce plaintext size. refl }

-- Tokens are their bytes.
abbrev as_bytes : TokenCodec (List ℕ)
as_bytes = record { marshal = λ token. some token; unmarshal = λ bytes. some bytes }

abbrev ann : UserRow
ann = new_user 1 "Ann" "ann@example.com" "secret" 5

abbrev one_user : Db
one_user = record empty_db { users = ann ∷ [] }

abbrev github_token : List ℕ
github_token = 7 ∷ 8 ∷ []

get_oauth_token-save_example :
    let (r, w') =
      save_oauth_token as_bytes open_gcm []
        (some (1 ∷ 2 ∷ []))
        1
        "github"
        "42"
        github_token
        (world one_user []) in
    (r ≡ ok tt) × ((get_oauth_token as_bytes open_gcm [] 1 "github" w').0 ≡ ok github_token)
get_oauth_token-save_example =
    get_oauth_token-save as_bytes open_gcm [] open_gcm-IsOpening (1 ∷ 2 ∷ []) github_token 1
      "github" "42" github_token github_token (world one_user []) refl refl refl refl refl refl refl

abbrev any_token : JwtLibrary
any_token = record { sign = λ key c. some c.name; parse = λ key t token. none }

abbrev plain : Hasher
plain = record {
  hash_password = λ password. some password;
  check_hashed_password = λ hash password. hash == password;
}

-- Another account of GitHub, with Ann's address.
abbrev ann_at_github : GithubUser
ann_at_github = record { id = "43"; login = "ann43"; name = "Ann B."; email = "ann@example.com" }

handle_github_auth_callback_known_example :
    SignedIn any_token "key" "new" "https://recallo.tech" ann (ann ∷ []) (
      handle_github_auth_callback as_bytes open_gcm [] any_token "key"
        (some "new")
        (some (1 ∷ 2 ∷ []))
        "https://recallo.tech"
        plain
        (λ login. login)
        "s"
        (some "s")
        (some github_token)
        (λ token. some (some ann_at_github))
        (world one_user []))
handle_github_auth_callback_known_example =
    handle_github_auth_callback_known as_bytes open_gcm [] any_token "key" "new" (some (1 ∷ 2 ∷ []))
      "https://recallo.tech" plain (λ login. login) "s" github_token
      (λ token. some (some ann_at_github)) ann_at_github ann (world one_user []) refl refl refl
      (λ t. ("Ann", refl))

-- A token that says by its length when it expires, for the claims of user 10 without a name.
marks : ℕ → String
marks zero = String.[]
marks (suc n) = String.◌∷◌ "a" (marks n)

count : String → ℕ
count String.[] = 0
count (String.◌∷◌ c s) = suc (count s)

count-marks : (n : ℕ) → count (marks n) ≡ n
unfolding count marks
count-marks zero = refl
count-marks (suc n) = ap suc (count-marks n)

abbrev nameless_claims : ℕ → Claims
nameless_claims e = record {
  user_id = 10;
  name = "";
  x_platform = "web";
  expires_at = e;
  subject = 10;
}

abbrev is_nameless : Claims → Bool
is_nameless c = c.user_id == 10 && c.name == "" && c.x_platform == "web" && c.subject == 10

abbrev nameless_tokens : JwtLibrary
nameless_tokens = record {
  sign = λ key c. if is_nameless c then some (marks c.expires_at) else none;
  parse = λ key t token.
      if ltb t (count token * second) then some (nameless_claims (count token)) else none;
}

nameless_tokens-IsVerifying : IsVerifying nameless_tokens
nameless_tokens-IsVerifying = record {
  parse-sign = λ key c token signed t.
      ground (arith, eq_iff c.name "", eq_iff c.x_platform "web", count-marks c.expires_at, signed);
}

abbrev nobody_at_github : GithubUser
nobody_at_github = record { id = "44"; login = "cem"; name = ""; email = "" }

handle_github_auth_callback_nameless_example :
    let (r, w') =
      handle_github_auth_callback as_bytes open_gcm [] nameless_tokens "key"
        (some "new")
        (some (1 ∷ 2 ∷ []))
        "https://recallo.tech"
        plain
        (λ login. login)
        "s"
        (some "s")
        (some github_token)
        (λ token. some (some nobody_at_github))
        (world one_user []) in
    (u : UserRow) × (access : String) × (saved_at : ℕ) × (u.id ≡ 10)
    × (u.name ≡ "")
    × (u.email ≡ "")
    × (w'.db.users
        ≡ update_where
            (has_key id_of u.id)
            (set_token web (some "new") (some saved_at))
            (ann ∷ u ∷ []))
    × (r ≡ ok (redirect_success "https://recallo.tech" access "new"))
    × ((v : World) → verify_jwt nameless_tokens "key" access v ≡ (err invalid_token, (now v).1))
handle_github_auth_callback_nameless_example =
    handle_github_auth_callback_nameless as_bytes open_gcm [] nameless_tokens "key" "new"
      (some (1 ∷ 2 ∷ [])) "https://recallo.tech" plain (λ login. login) nameless_tokens-IsVerifying
      "s" github_token (λ token. some (some nobody_at_github)) nobody_at_github (world one_user [])
      refl refl refl refl (λ t. (marks ((claims_for 10 "" web t).expires_at), refl))
