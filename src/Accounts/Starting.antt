-- ===== src/Accounts/Starting.antt =====
-- What it takes for a session to start, as login and refresh do (internals/handlers/login.go,
-- user-session.go): a user that is found, a signed token, a saved token.
use gotel_reserves.Base.{
  ℕ, ◌≡◌, refl, sym, ap, ◌∙◌, String, Bool, Option, none, some, nat_eq, string_eq, arith, find,
}
use gotel_reserves.Backend.Rows.{UserRow}
use gotel_reserves.Backend.Exec.{
  Error, not_found, World, Result, ok, err, pure, or_raise, statement, request, now, on_result,
  signing_failed, random_failed, ◌>>=◌,
}
use gotel_reserves.Accounts.Users.{Platform, find_row, update_refresh_token, with_token}
use gotel_reserves.Accounts.Tokens.{JwtLibrary, ApiReply, session, claims_for, generate_jwt_token}
use gotel_reserves.Accounts.Handlers.{start_session, on_saved, on_refresh, on_access}

module _ {A : Type 0} where
  or_raise_ok :
      (o : Option A) (e : Error) (w : World) (a : A) → (or_raise o e w).0 ≡ ok a → o ≡ some a
  unfolding or_raise
  or_raise_ok none e w a h = cc
  or_raise_ok (some x) e w a h = ground arith

  or_raise_world : (o : Option A) (e : Error) (w : World) → (or_raise o e w).1 ≡ w
  unfolding or_raise
  or_raise_world none e w = refl
  or_raise_world (some x) e w = refl

pub find_row_ok :
    (p : UserRow → Bool) (w : World) (u : UserRow)
    → (find_row p w).0 ≡ ok u
    → find p w.db.users ≡ some u
unfolding statement request ◌>>=◌
find_row_ok p w u h = ground (arith, or_raise_ok (find p w.db.users) not_found)

pub find_row_keeps :
    (p : UserRow → Bool) (w : World)
    → ((find_row p w).1.db ≡ w.db) × ((now (find_row p w).1).1.clock ≡ (now w).1.clock)
unfolding statement request ◌>>=◌ now or_raise
find_row_keeps p w = (ground arith, ground arith)

update_refresh_token_ok :
    (id : ℕ) (p : Platform) (token : String) (w w' : World) (v : Unit {0})
    → update_refresh_token id p token w ≡ (ok v, w')
    → (t : ℕ) × (w'.db ≡ with_token id p (some token) (some t) w.db)
unfolding update_refresh_token ◌>>=◌ now statement
update_refresh_token_ok id p token w w' v h = ((now w).1.clock, ground arith)

module _ (jwt : JwtLibrary) (key : String) (random : Option String) (u : UserRow) (p : Platform)
    (message : String) {w' : World} {r : ApiReply} {u' : UserRow} {a f : String}
    (answered : r.body ≡ session u' a f) where
  on_saved_session :
      (access refresh : String) (x : Result (Unit {0})) (w : World)
      → on_saved jwt key random u message access refresh x w ≡ (ok r, w')
      → (u' ≡ u) × (a ≡ access) × (f ≡ refresh) × (w' ≡ w) × (x ≡ ok tt)
  unfolding pure
  on_saved_session access refresh (err e) w h = cc
  on_saved_session access refresh (ok v) w h = ground arith

  on_refresh_session :
      (access : String) (x : Result String) (w : World)
      → on_refresh jwt key random u p message access x w ≡ (ok r, w')
      → (u' ≡ u) × (a ≡ access) × ((t : ℕ) × (w'.db ≡ with_token u.id p (some f) (some t) w.db))
  unfolding pure on_result
  on_refresh_session access (err e) w h = cc
  on_refresh_session access (ok refresh) w h =
      let run = update_refresh_token u.id p refresh w in
      let (same_user, same_access, same_refresh, same_world, done) =
        on_saved_session access refresh run.0 run.1 h in
      let (t, e) = update_refresh_token_ok u.id p refresh w run.1 tt (ap (λ y. (y, run.1)) done) in
      (same_user, same_access, (t, ap (λ (x : World). x.db) same_world ∙ rw same_refresh e))

  on_random_session :
      (access : String) (o : Option String) (w : World)
      → on_result (or_raise o random_failed) (on_refresh jwt key random u p message access) w
        ≡ (ok r, w')
      → (u' ≡ u) × (a ≡ access) × ((t : ℕ) × (w'.db ≡ with_token u.id p (some f) (some t) w.db))
  unfolding on_result or_raise pure
  on_random_session access none w h = cc
  on_random_session access (some refresh) w h = on_refresh_session access (ok refresh) w h

  on_access_session :
      (x : Result String) (w : World)
      → on_access jwt key random u p message x w ≡ (ok r, w')
      → (u' ≡ u) × (x ≡ ok a) × ((t : ℕ) × (w'.db ≡ with_token u.id p (some f) (some t) w.db))
  unfolding pure
  on_access_session (err e) w h = cc
  on_access_session (ok access) w h =
      let (same_user, same_access, saved) = on_random_session access random w h in
      (same_user, ap ok (sym same_access), saved)

  -- A session is of the user, its access token is signed for the user at the first moment, and its
  -- refresh token is saved.
  pub start_session_lem :
      (w : World)
      → start_session jwt key random u p message w ≡ (ok r, w')
      → (u' ≡ u)
        × (jwt.sign key (claims_for u.id u.name p (now w).1.clock) ≡ some a)
        × ((t : ℕ) × (w'.db ≡ with_token u.id p (some f) (some t) w.db))
  unfolding start_session on_result generate_jwt_token ◌>>=◌ now
  start_session_lem w h =
      let t = (now w).1.clock in
      let o = jwt.sign key (claims_for u.id u.name p t) in
      let run = or_raise o signing_failed (now w).1 in
      let (same_user, signed, (t', saved)) = on_access_session run.0 run.1 h in
      (
        same_user,
        or_raise_ok o signing_failed (now w).1 a signed,
        (
          t',
          saved
              ∙ ap (λ (x : World). with_token u.id p (some f) (some t') x.db)
                  (or_raise_world o signing_failed (now w).1),
        ),
      )
