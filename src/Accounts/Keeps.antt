-- ===== src/Accounts/Keeps.antt =====
-- An invariant that the statements of accounts keep is kept by every handler of accounts.
use gotel_reserves.Base.{ℕ, String, ◌||◌, Option, none, some, ◌==◌, string_eq}
use gotel_reserves.Backend.Rows.{UserRow, Db}
use gotel_reserves.Backend.Exec.{Result, ok, err}
use gotel_reserves.Backend.Preserves.{
  Preserves, Preserves-if, Preserves-on_result, Preserves-or_raise, preserves_rules,
}
use gotel_reserves.Accounts.Users.{
  Platform, insert_user, with_token, get_user_by_email, get_user_by_id, create_user,
  update_refresh_token, delete_user_refresh_token, get_user_by_refresh_token,
}
use gotel_reserves.Accounts.Tokens.{
  JwtLibrary, Hasher, Identity, refuse, read_platform, generate_jwt_token,
}
use gotel_reserves.Accounts.Handlers

pub record IsKeptByAccounts (I : Db → Type 0) : Type 0 where
  pub insert :
      (name email password : String) (t : ℕ) (d : Db)
      → I d
      → I (insert_user name email password t d).1
  pub token :
      (id : ℕ) (platform : Platform) (token : Option String) (t : Option ℕ) (d : Db)
      → I d
      → I (with_token id platform token t d)

module _ {I : Db → Type 0} where
  refuse-Preserves : (status : ℕ) (message : String) → Preserves I (refuse status message)
  refuse-Preserves status message = search preserves_rules

  pub get_user_by_email-Preserves : (email : String) → Preserves I (get_user_by_email email)
  unfolding get_user_by_email
  get_user_by_email-Preserves email = search preserves_rules

  get_user_by_id-Preserves : (id : ℕ) → Preserves I (get_user_by_id id)
  unfolding get_user_by_id
  get_user_by_id-Preserves id = search preserves_rules

  get_user_by_refresh_token-Preserves :
      (token : String) (p : Platform) → Preserves I (get_user_by_refresh_token token p)
  unfolding get_user_by_refresh_token
  get_user_by_refresh_token-Preserves token p = search preserves_rules

  pub generate_jwt_token-Preserves :
      (jwt : JwtLibrary) (key : String) (id : ℕ) (name : String) (p : Platform)
      → Preserves I (generate_jwt_token jwt key id name p)
  unfolding generate_jwt_token
  generate_jwt_token-Preserves jwt key id name p = search preserves_rules

module _ {I : Db → Type 0} (kept : IsKeptByAccounts I) where
  pub create_user-Preserves :
      (name email password : String) → Preserves I (create_user name email password)
  unfolding create_user
  create_user-Preserves name email password = search (preserves_rules, kept.insert)

  pub update_refresh_token-Preserves :
      (id : ℕ) (p : Platform) (token : String) → Preserves I (update_refresh_token id p token)
  unfolding update_refresh_token
  update_refresh_token-Preserves id p token = search (preserves_rules, kept.token)

  delete_user_refresh_token-Preserves :
      (id : ℕ) (p : Platform) → Preserves I (delete_user_refresh_token id p)
  unfolding delete_user_refresh_token
  delete_user_refresh_token-Preserves id p = search (preserves_rules, kept.token)

  module _ (hasher : Hasher) where
    on_created-Preserves : (r : Result UserRow) → Preserves I (Handlers.on_created hasher r)
    on_created-Preserves (ok u) = search preserves_rules
    on_created-Preserves (err e) = search preserves_rules

    with_hash-Preserves :
        (req : Handlers.RegisterRequest) (hash : Option String)
        → Preserves I (Handlers.with_hash hasher req hash)
    with_hash-Preserves req none = search preserves_rules
    with_hash-Preserves req (some hash) =
        Preserves-on_result _ _ (create_user-Preserves req.name req.email hash) on_created-Preserves

    on_existing-Preserves :
        (req : Handlers.RegisterRequest) (r : Result UserRow)
        → Preserves I (Handlers.on_existing hasher req r)
    on_existing-Preserves req (ok u) = search preserves_rules
    on_existing-Preserves req (err x) = with_hash-Preserves req (hasher.hash_password req.password)

    pub registration-Preserves :
        (body : Option Handlers.RegisterRequest)
        → Preserves I (Handlers.handle_user_registration hasher body)
    unfolding Handlers.handle_user_registration
    registration-Preserves none = search preserves_rules
    registration-Preserves (some req) =
        Preserves-if (req.email == "" || req.name == "" || req.password == "")
          (refuse 400 "Invalid credentials") _ (λ _. refuse-Preserves _ _)
          (λ _.
            Preserves-on_result _ _ (get_user_by_email-Preserves req.email)
              (λ r. on_existing-Preserves req r))

  module _ (jwt : JwtLibrary) (key : String) (random : Option String) where
    on_saved-Preserves :
        (u : UserRow) (message access refresh : String) (r : Result (Unit {0}))
        → Preserves I (Handlers.on_saved jwt key random u message access refresh r)
    on_saved-Preserves u message access refresh (ok v) = search preserves_rules
    on_saved-Preserves u message access refresh (err e) = search preserves_rules

    on_refresh-Preserves :
        (u : UserRow) (p : Platform) (message access : String) (r : Result String)
        → Preserves I (Handlers.on_refresh jwt key random u p message access r)
    on_refresh-Preserves u p message access (err e) = search preserves_rules
    on_refresh-Preserves u p message access (ok refresh) =
        Preserves-on_result _ _ (update_refresh_token-Preserves u.id p refresh)
          (on_saved-Preserves u message access refresh)

    on_access-Preserves :
        (u : UserRow) (p : Platform) (message : String) (r : Result String)
        → Preserves I (Handlers.on_access jwt key random u p message r)
    on_access-Preserves u p message (err e) = search preserves_rules
    on_access-Preserves u p message (ok access) =
        Preserves-on_result _ _ (Preserves-or_raise random _)
          (on_refresh-Preserves u p message access)

    start_session-Preserves :
        (u : UserRow) (p : Platform) (message : String)
        → Preserves I (Handlers.start_session jwt key random u p message)
    unfolding Handlers.start_session
    start_session-Preserves u p message =
        Preserves-on_result _ _ (generate_jwt_token-Preserves jwt key u.id u.name p)
          (on_access-Preserves u p message)

    on_user-Preserves :
        (hasher : Hasher) (p : Platform) (password : String) (r : Result UserRow)
        → Preserves I (Handlers.on_user jwt key random hasher p password r)
    on_user-Preserves hasher p password (err e) = search preserves_rules
    on_user-Preserves hasher p password (ok u) = search (preserves_rules, start_session-Preserves)

    login_on-Preserves :
        (hasher : Hasher) (p : Option Platform) (body : Option Handlers.EmailLoginRequest)
        → Preserves I (Handlers.login_on jwt key random hasher p body)
    login_on-Preserves hasher none body = search preserves_rules
    login_on-Preserves hasher (some p) none = search preserves_rules
    login_on-Preserves hasher (some p) (some req) =
        search (preserves_rules, get_user_by_email-Preserves, on_user-Preserves) depth 8

    pub login-Preserves :
        (hasher : Hasher) (header : String) (body : Option Handlers.EmailLoginRequest)
        → Preserves I (Handlers.handle_email_login jwt key random hasher header body)
    unfolding Handlers.handle_email_login
    login-Preserves hasher header body = login_on-Preserves hasher (read_platform header) body

    on_holder-Preserves :
        (p : Platform) (r : Result UserRow) → Preserves I (Handlers.on_holder jwt key random p r)
    on_holder-Preserves p (err e) = search preserves_rules
    on_holder-Preserves p (ok u) = start_session-Preserves u p _

    refresh_on-Preserves :
        (p : Option Platform) (body : Option String)
        → Preserves I (Handlers.refresh_on jwt key random p body)
    refresh_on-Preserves none body = search preserves_rules
    refresh_on-Preserves (some p) none = search preserves_rules
    refresh_on-Preserves (some p) (some token) =
        search (preserves_rules, get_user_by_refresh_token-Preserves, on_holder-Preserves) depth 8

    pub refresh-Preserves :
        (header : String) (body : Option String)
        → Preserves I (Handlers.handle_refresh_session jwt key random header body)
    unfolding Handlers.handle_refresh_session
    refresh-Preserves header body = refresh_on-Preserves (read_platform header) body

  on_deleted-Preserves : (r : Result (Unit {0})) → Preserves I (Handlers.on_deleted r)
  on_deleted-Preserves (ok v) = search preserves_rules
  on_deleted-Preserves (err e) = search preserves_rules

  pub logout-Preserves : (i : Identity) → Preserves I (Handlers.handle_logout i)
  unfolding Handlers.handle_logout
  logout-Preserves i =
      Preserves-on_result _ _ (delete_user_refresh_token-Preserves i.user_id i.platform)
        on_deleted-Preserves

module _ {I : Db → Type 0} where
  on_current-Preserves : (r : Result UserRow) → Preserves I (Handlers.on_current r)
  on_current-Preserves (ok u) = search preserves_rules
  on_current-Preserves (err e) = search preserves_rules

  current_on-Preserves :
      (p : Option Platform) (body : Option String) → Preserves I (Handlers.current_on p body)
  current_on-Preserves none body = search preserves_rules
  current_on-Preserves (some p) none = search preserves_rules
  current_on-Preserves (some p) (some token) =
      search (preserves_rules, get_user_by_refresh_token-Preserves, on_current-Preserves) depth 8

  pub current_user-Preserves :
      (header : String) (body : Option String)
      → Preserves I (Handlers.handle_get_current_user header body)
  unfolding Handlers.handle_get_current_user
  current_user-Preserves header body = current_on-Preserves (read_platform header) body

  on_found-Preserves : (r : Result UserRow) → Preserves I (Handlers.on_found r)
  on_found-Preserves (ok u) = search preserves_rules
  on_found-Preserves (err e) = search preserves_rules

  pub get_user-Preserves : (id : Option ℕ) → Preserves I (Handlers.handle_get_user_by_id id)
  unfolding Handlers.handle_get_user_by_id
  get_user-Preserves none = search preserves_rules
  get_user-Preserves (some id) =
      Preserves-on_result _ _ (get_user_by_id-Preserves id) on_found-Preserves
