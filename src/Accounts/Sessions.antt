-- ===== src/Accounts/Sessions.antt =====
-- What a session that login or refresh starts gives (internals/handlers/login.go, user-session.go,
-- internals/utils/jwt.go).
use gotel_reserves.Base.{
  ℕ, ◌+◌, ◌*◌, ◌/◌, ◌≡◌, ◌≢◌, refl, sym, ap, String, true, Option, some, ◌==◌, nat_eq, string_eq,
  arith, eq_iff, if◌then◌else◌, ltb, Bool-cases, inl, inr, find, find_sound, has_key, ◌||◌, All-imp,
  trim_space,
}
use gotel_reserves.Backend.Rows.{UserRow, second, minute}
use gotel_reserves.Backend.Exec.{
  M, World, Result, ok, err, pure, now, on_result, invalid_token, ◌>>=◌,
}
use gotel_reserves.Accounts.Users.{Platform, web, mobile, email_of, find_row, get_user_by_email}
use gotel_reserves.Accounts.Tokens.{
  JwtLibrary, IsVerifying, Hasher, Identity, ApiReply, session, refuse, claims_for, text_of,
  identity_of, platform_of, same_platform, verify_jwt, bearer_token, authenticate, read_platform,
}
use gotel_reserves.Accounts.Handlers.{handle_email_login, on_user, EmailLoginRequest}
use gotel_reserves.Accounts.Columns.{AreUsers}
use gotel_reserves.Accounts.Starting.{start_session_lem, find_row_ok, find_row_keeps}

platform_of-text_of : (p : Platform) → platform_of (text_of p) ≡ some p
platform_of-text_of web = refl
platform_of-text_of mobile = refl

same_platform_refl : (p : Platform) → same_platform p p ≡ true
same_platform_refl web = refl
same_platform_refl mobile = refl

-- The moment at which an access token made at the moment t expires: a whole second.
abbrev pub expiry : ℕ → ℕ
expiry t = ((t + 30 * minute) / second) * second

module _ (jwt : JwtLibrary) (key : String) (verifying : IsVerifying jwt) where
  identity_of-claims_for :
      (id : ℕ) (name : String) (p : Platform) (t : ℕ)
      → id ≢ 0
      → name ≢ ""
      → identity_of (claims_for id name p t) (platform_of (text_of p))
        ≡ some (record { user_id = id; name = name; platform = p })
  identity_of-claims_for id name p t i n =
      rw (platform_of-text_of p) (ground (arith, i, n, eq_iff name ""))

  verify_jwt_signed :
      (id : ℕ) (name : String) (p : Platform) (t : ℕ) (token : String)
      → id ≢ 0
      → name ≢ ""
      → jwt.sign key (claims_for id name p t) ≡ some token
      → (v : World)
      → verify_jwt jwt key token v ≡ (
        if ltb (now v).1.clock (expiry t)
            then ok (record { user_id = id; name = name; platform = p })
            else err invalid_token,
        (now v).1,
      )
  unfolding verify_jwt ◌>>=◌ now
  verify_jwt_signed id name p t token i n signed v =
      elim (Bool-cases (ltb (now v).1.clock (expiry t))) [
        | inl e ↦
            rw (verifying.parse-sign key _ token signed, e, identity_of-claims_for id name p t i n)
              refl
        | inr e ↦ rw (verifying.parse-sign key _ token signed, e) refl
      ]

  -- The middleware lets a request with a fresh token pass, under the identity that was signed.
  authenticate_signed :
      (next : Identity → M ApiReply) (id : ℕ) (name : String) (p : Platform) (t : ℕ)
      (token auth platform : String)
      → id ≢ 0
      → name ≢ ""
      → jwt.sign key (claims_for id name p t) ≡ some token
      → bearer_token (trim_space auth) ≡ some token
      → trim_space platform ≡ ""
      → (v : World)
      → authenticate next jwt key auth platform v ≡ (
          if ltb (now v).1.clock (expiry t)
          then next (record { user_id = id; name = name; platform = p }) (now v).1
          else refuse 401 "Unauthorized" (now v).1)
  unfolding authenticate on_result
  authenticate_signed next id name p t token auth platform i n signed sent blank v =
      elim (Bool-cases (ltb (now v).1.clock (expiry t))) [
        | inl e ↦
            rw
              (
                sent,
                verify_jwt_signed id name p t token i n signed v,
                e,
                blank,
                same_platform_refl p,
              )
              refl
        | inr e ↦ rw (sent, verify_jwt_signed id name p t token i n signed v, e) refl
      ]

module _ (jwt : JwtLibrary) (key : String) (verifying : IsVerifying jwt) (random : Option String)
    (hasher : Hasher) where
  on_user_session :
      (p : Platform) (password : String) (x : Result UserRow) (w w' : World) (r : ApiReply)
      (u : UserRow) (a f : String)
      → r.body ≡ session u a f
      → on_user jwt key random hasher p password x w ≡ (ok r, w')
      → (x ≡ ok u)
        × (hasher.check_hashed_password u.password password ≡ true)
        × (jwt.sign key (claims_for u.id u.name p (now w).1.clock) ≡ some a)
  unfolding pure
  on_user_session p password (err e) w w' r u a f b h = cc
  on_user_session p password (ok v) w w' r u a f b h =
      elim (Bool-cases (hasher.check_hashed_password v.password password)) [
        | inl right ↦
            let (same, signed, saved) =
              start_session_lem jwt key random v p "login successful" b w (rw right at h) in
            (ap ok (sym same), rw same right, rw same signed)
        | inr wrong ↦ cc (rw wrong at h)
      ]

  -- Where no two users have the same number or address and each number is positive, and where the
  -- user of the session has a name, which a GitHub account may lack, with a library whose signed
  -- tokens parse until they expire: the session that a login starts is of the user with that
  -- address and password. Until its moment of expiry, and not after, `Authenticate` lets a request
  -- with its access token pass, under the number and the name of that user and the platform of the
  -- login, where the header X-Platform is blank.
  pub login_authenticates :
      (header : String) (p : Platform) (req : EmailLoginRequest) (w w' : World) (r : ApiReply)
      (u : UserRow) (a f : String)
      → AreUsers w.db
      → read_platform header ≡ some p
      → handle_email_login jwt key random hasher header (some req) w ≡ (ok r, w')
      → r.body ≡ session u a f
      → u.name ≢ ""
      → (next : Identity → M ApiReply) (auth platform : String)
      → bearer_token (trim_space auth) ≡ some a
      → trim_space platform ≡ ""
      → (v : World)
      → (find (has_key email_of req.email) w.db.users ≡ some u)
        × (hasher.check_hashed_password u.password req.password ≡ true)
        × (authenticate next jwt key auth platform v ≡ (
            if ltb (now v).1.clock (expiry (now w).1.clock)
            then next (record { user_id = u.id; name = u.name; platform = p }) (now v).1
            else refuse 401 "Unauthorized" (now v).1))
  unfolding handle_email_login on_result get_user_by_email pure
  login_authenticates header p req w w' r u a f users platform_read h b named next auth platform
        sent blank v =
      elim (Bool-cases (req.email == "" || req.password == "")) [
        | inl empty ↦ cc (rw (platform_read, empty) at h)
        | inr full ↦
            let (row, w1) = find_row (has_key email_of req.email) w in
            let (got, checked, signed) =
              on_user_session p req.password row w1 w' r u a f b (rw (platform_read, full) at h) in
            let found = find_row_ok (has_key email_of req.email) w u got in
            let both =
              find_sound (λ (x : UserRow). x.id ≢ 0) (has_key email_of req.email) w.db.users u
                (All-imp _ _ w.db.users (λ x b. omega (arith, b.0)) users.numbered) found in
            let clock = (find_row_keeps (has_key email_of req.email) w).1 in
            (
              found,
              checked,
              authenticate_signed jwt key verifying next u.id u.name p (now w).1.clock a auth
                  platform both.0 named (rw clock at signed) sent blank v,
            )
      ]
