-- ===== src/Accounts/Connections.antt =====
-- What the connection to a GitHub account keeps and whom it signs in (internals/models/oauth.go,
-- internals/handlers/oauth.go).
use gotel_reserves.Base.{
  ℕ, ◌≡◌, refl, ap, sym, ◌∙◌, String, true, false, Option, none, some, List, [], ◌∷◌, ◌++◌, nat_eq,
  string_eq, eq_refl, leb→le, length-take_long, leb, length, find, exists, update_where, has_key,
  find-append, arith, Bool-cases, Option-cases, inl, inr,
}
use gotel_reserves.Backend.Rows.{UserRow, OauthRow, Db}
use gotel_reserves.Backend.Exec.{
  World, Result, ok, pure, or_raise, statement, request, now, on_result, ◌>>=◌,
}
use gotel_reserves.Accounts.Users.{
  web, id_of, email_of, set_token, get_user_by_email, update_refresh_token,
}
use gotel_reserves.Accounts.Tokens.{JwtLibrary, Hasher, claims_for, generate_jwt_token}
use gotel_reserves.Accounts.Encryption.{Gcm, IsOpening, encrypt, decrypt, decrypt-encrypt}
use gotel_reserves.Accounts.Oauth.{
  TokenCodec, get_encryption_key, is_connection, is_connected, connects, new_connection,
  upsert_connection, save_oauth_token, get_oauth_token, GithubUser, redirect_success, on_app_access,
  sign_in, handle_github_auth_callback,
}

not_connects :
    (user : ℕ) (provider : String) (rows : List OauthRow)
    → exists (is_connected user) rows ≡ false
    → find (connects user provider) rows ≡ none
not_connects user provider [] h = refl
not_connects user provider (r ∷ rows) h = ground (arith, not_connects user provider rows)

length-get_encryption_key : (key : List ℕ) → length (get_encryption_key key) ≡ 32
unfolding get_encryption_key
length-get_encryption_key key = elim (Bool-cases (leb 32 (length key))) [
  | inl e ↦ rw e (length-take_long 32 key (leb→le 32 (length key) e))
  | inr e ↦ rw e refl
]

module _ {T : Type 0} (codec : TokenCodec T) (gcm : Gcm) (key : List ℕ) where
  read_back :
      (user : ℕ) (provider account : String) (token : T) (encrypted plaintext : List ℕ) (t : ℕ)
      (rows : List OauthRow) (w : World)
      → w.faults ≡ []
      → exists (is_connected user) rows ≡ false
      → w.db.oauth_connections ≡ rows ++ new_connection user provider account encrypted t ∷ []
      → decrypt gcm encrypted (get_encryption_key key) ≡ some plaintext
      → codec.unmarshal plaintext ≡ some token
      → (get_oauth_token codec gcm key user provider w).0 ≡ ok token
  unfolding get_oauth_token statement request or_raise ◌>>=◌
  read_back user provider account token encrypted plaintext t rows w f fresh e opened decoded =
      let row = new_connection user provider account encrypted t in
      let found : find (connects user provider) w.db.oauth_connections ≡ some row =
        ap (find (connects user provider)) e
        ∙ find-append (connects user provider) rows (row ∷ [])
            (not_connects user provider rows fresh)
        ∙ ground (arith, eq_refl provider) in
      rw (f, found, opened, decoded) refl

  save_run :
      (nonce plaintext : List ℕ) (user : ℕ) (provider account : String) (token : T) (w : World)
      → w.faults ≡ []
      → codec.marshal token ≡ some plaintext
      → exists (is_connection provider account) w.db.oauth_connections ≡ false
      → exists (is_connected user) w.db.oauth_connections ≡ false
      → exists (has_key id_of user) w.db.users ≡ true
      → let (r, w') = save_oauth_token codec gcm key (some nonce) user provider account token w in
        let encrypted = nonce ++ gcm.seal (get_encryption_key key) nonce plaintext in
        (r ≡ ok tt)
        × (w'.faults ≡ [])
        × (w'.db.oauth_connections
            ≡ w.db.oauth_connections
              ++ new_connection user provider account encrypted (now w).1.clock ∷ [])
  unfolding save_oauth_token encrypt upsert_connection statement request or_raise now ◌>>=◌
  save_run nonce plaintext user provider account token w f written no_account no_user there =
      rw (written, length-get_encryption_key key, f, no_account, no_user, there) (refl, refl, refl)

  -- Where nothing fails, for a user who has no connection yet and an account that is not connected: what is
  -- read for that user is what JSON makes of the JSON of the token that was saved, if it makes something
  -- of it; with an encryption that opens what it sealed, and a nonce of the right length.
  pub get_oauth_token-save :
      (opening : IsOpening gcm) (nonce plaintext : List ℕ) (user : ℕ) (provider account : String)
      (token read : T) (w : World)
      → length nonce ≡ gcm.nonce_size
      → w.faults ≡ []
      → codec.marshal token ≡ some plaintext
      → codec.unmarshal plaintext ≡ some read
      → exists (is_connection provider account) w.db.oauth_connections ≡ false
      → exists (is_connected user) w.db.oauth_connections ≡ false
      → exists (has_key id_of user) w.db.users ≡ true
      → let (r, w') = save_oauth_token codec gcm key (some nonce) user provider account token w in
        (r ≡ ok tt) × ((get_oauth_token codec gcm key user provider w').0 ≡ ok read)
  unfolding encrypt
  get_oauth_token-save opening nonce plaintext user provider account token read w size f written
        decoded no_account no_user there =
      let (saved, calm, rows) =
        save_run nonce plaintext user provider account token w f written no_account no_user there in
      let k = get_encryption_key key in
      let opened =
        decrypt-encrypt gcm opening nonce plaintext k (nonce ++ gcm.seal k nonce plaintext) size
          (rw (length-get_encryption_key key) refl) in
      (
        saved,
        read_back user provider account read (nonce ++ gcm.seal k nonce plaintext) plaintext
            (now w).1.clock w.db.oauth_connections _ calm no_user rows opened decoded,
      )

  upsert_connection_users :
      (user : ℕ) (provider account : String) (encrypted : List ℕ) (t : ℕ) (d : Db)
      → (upsert_connection user provider account encrypted t d).1.users ≡ d.users
  unfolding upsert_connection
  upsert_connection_users user provider account encrypted t d = ground arith

  -- The attempt to save a connection leaves the users, whatever comes of it.
  save_oauth_token_keeps :
      (nonce : Option (List ℕ)) (user : ℕ) (provider account : String) (token : T) (w : World)
      → w.faults ≡ []
      → let w' = (save_oauth_token codec gcm key nonce user provider account token w).1 in
        (w'.faults ≡ []) × (w'.db.users ≡ w.db.users)
  unfolding save_oauth_token or_raise statement request now ◌>>=◌
  save_oauth_token_keeps nonce user provider account token w f =
      elim (Option-cases (codec.marshal token)) [
        | inl e ↦ rw e (f, refl)
        | inr (bytes, e) ↦ elim (Option-cases (encrypt gcm nonce bytes (get_encryption_key key))) [
          | inl e' ↦ rw (e, e') (f, refl)
          | inr (encrypted, e') ↦
              rw (e, e', f)
                (refl, upsert_connection_users user provider account encrypted (now w).1.clock w.db)
        ]
      ]

-- The session that signing in as `u` starts: its access token is signed for `u`, and its refresh token
-- is saved for `u`.
pub record SignedIn (jwt : JwtLibrary) (key refresh frontend_url : String) (u : UserRow)
    (users : List UserRow) (run : Result String × World) : Type 0 where
  pub access : String
  pub signed_at : ℕ
  pub saved_at : ℕ
  pub signed : jwt.sign key (claims_for u.id u.name web signed_at) ≡ some access
  pub reply : run.0 ≡ ok (redirect_success frontend_url access refresh)
  pub saved :
      run.1.db.users
      ≡ update_where (has_key id_of u.id) (set_token web (some refresh) (some saved_at)) users

module _ {T : Type 0} (codec : TokenCodec T) (gcm : Gcm) (oauth_key : List ℕ) (jwt : JwtLibrary)
    (jwt_key : String) (refresh : String) (nonce : Option (List ℕ)) (frontend_url : String) where
  -- The tokens of `u` can be signed.
  abbrev pub Signs : UserRow → Type 0
  Signs u =
      (t : ℕ) → (access : String) × (jwt.sign jwt_key (claims_for u.id u.name web t) ≡ some access)

  session_run :
      (u : UserRow) (users : List UserRow) (w : World)
      → w.faults ≡ []
      → w.db.users ≡ users
      → Signs u
      → SignedIn jwt jwt_key refresh frontend_url u users (
          on_result
            (generate_jwt_token jwt jwt_key u.id u.name web)
            (on_app_access codec gcm oauth_key jwt jwt_key (some refresh) nonce frontend_url u)
            w)
  unfolding on_result generate_jwt_token update_refresh_token statement request pure or_raise now
      ◌>>=◌
  session_run u users w f same signs =
      let t = (now w).1.clock in
      let (access, signed) = signs t in
      record {
        access = access;
        signed_at = t;
        saved_at = (now (now w).1).1.clock;
        signed = signed;
        reply = rw (signed, f) refl;
        saved = rw (signed, f, sym same) refl;
      }

  pub sign_in_run :
      (gh : GithubUser) (token : T) (u : UserRow) (w : World)
      → w.faults ≡ []
      → Signs u
      → SignedIn jwt jwt_key refresh frontend_url u w.db.users
          (sign_in codec gcm oauth_key jwt jwt_key (some refresh) nonce frontend_url gh token u w)
  unfolding sign_in ◌>>=◌
  sign_in_run gh token u w f signs =
      let w1 = (save_oauth_token codec gcm oauth_key nonce u.id "github" gh.id token w).1 in
      let (calm, users) =
        save_oauth_token_keeps codec gcm oauth_key nonce u.id "github" gh.id token w f in
      session_run u w.db.users w1 calm users signs

  module _ (hasher : Hasher) (dummy : String → String) where
    -- Where nothing fails and the state in the query is that of the cookie, the callback signs in as the
    -- user with the email of the GitHub account, whatever the number of that account is: the access token
    -- is signed for that user, and the refresh token saved for no one else.
    pub handle_github_auth_callback_known :
        (state : String) (token : T) (fetch : T → Option (Option GithubUser)) (gh : GithubUser)
        (u : UserRow) (w : World)
        → w.faults ≡ []
        → fetch token ≡ some (some gh)
        → find (has_key email_of gh.email) w.db.users ≡ some u
        → Signs u
        → SignedIn jwt jwt_key refresh frontend_url u w.db.users (
            handle_github_auth_callback codec gcm oauth_key jwt jwt_key
              (some refresh)
              nonce
              frontend_url
              hasher
              dummy
              state
              (some state)
              (some token)
              fetch
              w)
    unfolding handle_github_auth_callback get_user_by_email on_result statement request or_raise
        ◌>>=◌
    handle_github_auth_callback_known state token fetch gh u w f answer found signs =
        rw (eq_refl state, answer, f, found)
          (sign_in_run gh token u (record w { faults = [] }) refl signs)
