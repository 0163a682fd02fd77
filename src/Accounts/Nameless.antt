-- ===== src/Accounts/Nameless.antt =====
-- A sign-in with a GitHub account that shows no name (internals/handlers/oauth.go, internals/utils/jwt.go).
use gotel_reserves.Base.{
  ℕ, ◌+◌, ◌*◌, ◌≡◌, refl, ap, sym, ◌∙◌, String, false, Option, none, some, List, [], ◌∷◌, ◌++◌,
  nat_eq, string_eq, eq_refl, ltb, exists, update_where, has_key, find-none_iff_exists, arith,
  Bool-cases, inl, inr,
}
use gotel_reserves.Backend.Rows.{UserRow, second}
use gotel_reserves.Backend.Exec.{
  World, ok, err, or_raise, statement, request, now, on_result, invalid_token, ◌>>=◌,
}
use gotel_reserves.Accounts.Users.{
  Platform, web, email_of, id_of, set_token, new_user, get_user_by_email, create_user, insert_user,
}
use gotel_reserves.Accounts.Tokens.{
  JwtLibrary, IsVerifying, Hasher, claims_for, text_of, identity_of, platform_of, verify_jwt,
}
use gotel_reserves.Accounts.Encryption.{Gcm}
use gotel_reserves.Accounts.Oauth.{
  TokenCodec, GithubUser, or_empty, redirect_success, handle_github_auth_callback,
}
use gotel_reserves.Accounts.Connections.{SignedIn, sign_in_run}

identity_of_nameless :
    (id : ℕ) (p : Platform) (t : ℕ) (o : Option Platform)
    → identity_of (claims_for id "" p t) o ≡ none
identity_of_nameless id p t none = refl
identity_of_nameless id p t (some q) = ground arith

verify_jwt_nameless :
    (jwt : JwtLibrary) (key : String)
    → IsVerifying jwt
    → (id : ℕ) (p : Platform) (t : ℕ) (token : String)
    → jwt.sign key (claims_for id "" p t) ≡ some token
    → (v : World) → verify_jwt jwt key token v ≡ (err invalid_token, (now v).1)
unfolding verify_jwt ◌>>=◌ now
verify_jwt_nameless jwt key verifying id p t token signed v =
    elim (Bool-cases (ltb (now v).1.clock ((claims_for id "" p t).expires_at * second))) [
      | inl e ↦
          rw
            (
              verifying.parse-sign key _ token signed,
              e,
              identity_of_nameless id p t (platform_of (text_of p)),
            )
            refl
      | inr e ↦ rw (verifying.parse-sign key _ token signed, e) refl
    ]

module _ {T : Type 0} (codec : TokenCodec T) (gcm : Gcm) (oauth_key : List ℕ) (jwt : JwtLibrary)
    (jwt_key : String) (refresh : String) (nonce : Option (List ℕ)) (frontend_url : String)
    (hasher : Hasher) (dummy : String → String) where
  -- With no user of that email, the callback signs in as a new one.
  handle_github_auth_callback_new :
      (state : String) (token : T) (fetch : T → Option (Option GithubUser)) (gh : GithubUser)
      (w : World)
      → w.faults ≡ []
      → fetch token ≡ some (some gh)
      → exists (has_key email_of gh.email) w.db.users ≡ false
      → ((t : ℕ)
          → (access : String) × (jwt.sign jwt_key (claims_for w.db.next_id gh.name web t)
              ≡ some access))
      → (u : UserRow) × (u.id ≡ w.db.next_id)
        × (u.name ≡ gh.name)
        × (u.email ≡ gh.email)
        × SignedIn jwt jwt_key refresh frontend_url u (w.db.users ++ u ∷ []) (
            handle_github_auth_callback codec gcm oauth_key jwt jwt_key
              (some refresh)
              nonce
              frontend_url
              hasher
              dummy
              state
              (some state)
              (some token)
              fetch
              w)
  unfolding handle_github_auth_callback get_user_by_email create_user insert_user on_result
      statement request or_raise now ◌>>=◌
  handle_github_auth_callback_new state token fetch gh w f answer absent signs =
      let u =
        new_user w.db.next_id gh.name gh.email
          (or_empty codec gcm oauth_key jwt jwt_key (some refresh) nonce frontend_url
            (hasher.hash_password (dummy gh.login)))
          (now w).1.clock in
      let w1 = record (now w).1 {
        faults = [];
        db = record w.db { users = w.db.users ++ u ∷ []; next_id = w.db.next_id + 1 };
      } in
      (
        u,
        refl,
        refl,
        refl,
        rw
            (
              eq_refl state,
              answer,
              f,
              find-none_iff_exists (has_key email_of gh.email) w.db.users absent,
              absent,
            )
            (sign_in_run codec gcm oauth_key jwt jwt_key refresh nonce frontend_url gh token u w1
              refl signs),
      )

  -- Where nothing fails, an account of GitHub without a name whose email no user has is answered
  -- with the redirect to success, and the table of users has a new row without a name, with the
  -- next number, that email and the new refresh token for the web; but `VerifyJWT` refuses the
  -- access token at every moment, with a library that parses what it signed until it expires.
  pub handle_github_auth_callback_nameless :
      (verifying : IsVerifying jwt) (state : String) (token : T)
      (fetch : T → Option (Option GithubUser)) (gh : GithubUser) (w : World)
      → w.faults ≡ []
      → fetch token ≡ some (some gh)
      → gh.name ≡ ""
      → exists (has_key email_of gh.email) w.db.users ≡ false
      → ((t : ℕ)
          → (access : String) × (jwt.sign jwt_key (claims_for w.db.next_id "" web t) ≡ some access))
      → let (r, w') =
          handle_github_auth_callback codec gcm oauth_key jwt jwt_key
            (some refresh)
            nonce
            frontend_url
            hasher
            dummy
            state
            (some state)
            (some token)
            fetch
            w in
        (u : UserRow) × (access : String) × (saved_at : ℕ) × (u.id ≡ w.db.next_id)
        × (u.name ≡ "")
        × (u.email ≡ gh.email)
        × (w'.db.users
            ≡ update_where
                (has_key id_of u.id)
                (set_token web (some refresh) (some saved_at))
                (w.db.users ++ u ∷ []))
        × (r ≡ ok (redirect_success frontend_url access refresh))
        × ((v : World) → verify_jwt jwt jwt_key access v ≡ (err invalid_token, (now v).1))
  handle_github_auth_callback_nameless verifying state token fetch gh w f answer nameless absent
        signs =
      let (u, id, name, email, session) =
        handle_github_auth_callback_new state token fetch gh w f answer absent
          (rw nameless signs) in
      (
        u,
        session.access,
        session.saved_at,
        id,
        name ∙ nameless,
        email,
        session.saved,
        session.reply,
        verify_jwt_nameless jwt jwt_key verifying w.db.next_id web session.signed_at session.access
            (ap (λ n. jwt.sign jwt_key (claims_for n "" web session.signed_at)) (sym id)
              ∙ ap (λ n. jwt.sign jwt_key (claims_for u.id n web session.signed_at))
                  (sym (name ∙ nameless))
              ∙ session.signed),
      )
