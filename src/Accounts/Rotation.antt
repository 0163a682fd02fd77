-- ===== src/Accounts/Rotation.antt =====
-- What refreshing a session and logging out do to the refresh tokens (internals/handlers/user-session.go
-- and login.go, internals/utils/refresh-token.go).
use gotel_reserves.Base.{
  ℕ, ◌≡◌, refl, sym, ap, ◌∙◌, String, true, false, Option, none, some, List, [], ◌∷◌, ◌==◌, nat_eq,
  string_eq, arith, eq_iff, eq_refl, Bool-cases, inl, inr, find, find_test, exists, exists-found,
  update_where, has_key, All,
}
use gotel_reserves.Backend.Rows.{UserRow, Db}
use gotel_reserves.Backend.Exec.{World, Result, ok, err, pure, on_result, statement, request}
use gotel_reserves.Accounts.Users.{
  Platform, web, mobile, id_of, find_row, get_user_by_refresh_token, delete_user_refresh_token,
  set_token, is_token, holds, with_token,
}
use gotel_reserves.Accounts.Tokens.{JwtLibrary, Identity, ApiReply, session, read_platform}
use gotel_reserves.Accounts.Handlers.{on_holder, handle_refresh_session, handle_logout}
use gotel_reserves.Accounts.Starting.{start_session_lem, find_row_ok, find_row_keeps}

-- No other user has this token.
abbrev pub HeldBy : Platform → String → ℕ → List UserRow → Type 0
HeldBy p token id users = All (λ (x : UserRow). holds p token x ≡ true → x.id ≡ id) users

holds-set_token :
    (p : Platform) (token : String) (o : Option String) (t : Option ℕ) (x : UserRow)
    → holds p token (set_token p o t x) ≡ is_token token o
holds-set_token web token o t x = refl
holds-set_token mobile token o t x = refl

set_token-id :
    (p : Platform) (o : Option String) (t : Option ℕ) (x : UserRow) → (set_token p o t x).id ≡ x.id
set_token-id web o t x = refl
set_token-id mobile o t x = refl

-- A token that its one holder no longer has is held by nobody.
revoked :
    (p : Platform) (token : String) (o : Option String) (t : Option ℕ) (id : ℕ)
    → is_token token o ≡ false
    → (users : List UserRow) → HeldBy p token id users
    → exists (holds p token) (update_where (has_key id_of id) (set_token p o t) users) ≡ false
revoked p token o t id other [] h = refl
revoked p token o t id other (x ∷ xs) h = elim (Bool-cases (has_key id_of id x)) [
  | inl e ↦ rw (e, holds-set_token p token o t x, other) (revoked p token o t id other xs h.1)
  | inr e ↦ elim (Bool-cases (holds p token x)) [
    | inl had ↦ ground (arith, e, h.0 had)
    | inr had ↦ rw (e, had) (revoked p token o t id other xs h.1)
  ]
]

-- A token that was given to one user, and that nobody had, finds that user.
given :
    (p : Platform) (token : String) (t : Option ℕ) (id : ℕ) (users : List UserRow)
    → exists (holds p token) users ≡ false
    → exists (has_key id_of id) users ≡ true
    → (x : UserRow) × (find
          (holds p token)
          (update_where (has_key id_of id) (set_token p (some token) t) users)
        ≡ some x)
      × (x.id ≡ id)
given p token t id [] fresh there = cc
given p token t id (x ∷ xs) fresh there = elim (Bool-cases (has_key id_of id x)) [
  | inl e ↦ (
    set_token p (some token) t x,
    rw (e, holds-set_token p token (some token) t x, eq_refl token) refl,
    set_token-id p (some token) t x ∙ ground (arith, e),
  )
  | inr e ↦ elim (Bool-cases (holds p token x)) [
    | inl had ↦ cc (rw had at fresh)
    | inr had ↦
        let (y, found, same) = given p token t id xs (rw had at fresh) (rw e at there) in
        (y, rw (e, had) found, same)
  ]
]

holds-is_token :
    (p : Platform) (token other : String) (u : UserRow)
    → holds p token u ≡ true
    → is_token token (some other) ≡ true
    → holds p other u ≡ true
holds-is_token p token other u h e = rw (← (eq_iff other token).0 e) at h

module _ (p : Platform) (token f : String) (t : Option ℕ) (u : UserRow) (users : List UserRow)
    (found : find (holds p token) users ≡ some u) (fresh : exists (holds p f) users ≡ false) where
  other_token : is_token token (some f) ≡ false
  other_token = elim (Bool-cases (is_token token (some f))) [
    | inl same ↦
        let had = holds-is_token p token f u (find_test (holds p token) users u found) same in
        cc (exists-found (holds p token) (holds p f) users u found had, fresh)
    | inr e ↦ e
  ]

  rotated :
      (users' : List UserRow)
      → HeldBy p token u.id users
      → users' ≡ update_where (has_key id_of u.id) (set_token p (some f) t) users
      → (exists (holds p token) users' ≡ false)
        × ((x : UserRow) × (find (holds p f) users' ≡ some x) × (x.id ≡ u.id))
  rotated users' alone e =
      let there = exists-found (holds p token) (has_key id_of u.id) users u found (ground arith) in
      rw e (
        revoked p token (some f) t u.id other_token users alone,
        given p f t u.id users fresh there,
      )

on_holder_session :
    (jwt : JwtLibrary) (key : String) (random : Option String) (p : Platform) (x : Result UserRow)
    (w w' : World) (r : ApiReply) (u : UserRow) (a f : String)
    → r.body ≡ session u a f
    → on_holder jwt key random p x w ≡ (ok r, w')
    → (x ≡ ok u) × ((t : ℕ) × (w'.db ≡ with_token u.id p (some f) (some t) w.db))
unfolding pure
on_holder_session jwt key random p (err e) w w' r u a f b h = cc
on_holder_session jwt key random p (ok v) w w' r u a f b h =
    let (same, signed, (t, saved)) =
      start_session_lem jwt key random v p "session refreshed successfully" b w h in
    (ap ok (sym same), (t, rw same saved))

-- Refreshing rotates. The token that was sent has to be that of a user. Where no other user held it for
-- that platform, and nobody held the new token before, after a success the token that was sent is
-- nobody's, so that it cannot be used again, and the new one finds the same user.
pub refresh_rotates :
    (jwt : JwtLibrary) (key : String) (random : Option String) (header token : String)
    (p : Platform) (w w' : World) (r : ApiReply) (u : UserRow) (a f : String)
    → read_platform header ≡ some p
    → HeldBy p token u.id w.db.users
    → exists (holds p f) w.db.users ≡ false
    → handle_refresh_session jwt key random header (some token) w ≡ (ok r, w')
    → r.body ≡ session u a f
    → (find (holds p token) w.db.users ≡ some u)
      × (exists (holds p token) w'.db.users ≡ false)
      × ((x : UserRow) × (find (holds p f) w'.db.users ≡ some x) × (x.id ≡ u.id))
unfolding handle_refresh_session get_user_by_refresh_token on_result pure
refresh_rotates jwt key random header token p w w' r u a f platform alone fresh h b =
    elim (Bool-cases (token == "")) [
      | inl empty ↦ cc (rw (platform, empty) at h)
      | inr full ↦
          let (row, w1) = find_row (holds p token) w in
          let (got, (t, saved)) =
            on_holder_session jwt key random p row w1 w' r u a f b (rw (platform, full) at h) in
          let found = find_row_ok (holds p token) w u got in
          let users : w'.db.users ≡ (with_token u.id p (some f) (some t) w.db).users =
            ap (λ (d : Db). d.users) saved
            ∙ ap (λ (d : Db). (with_token u.id p (some f) (some t) d).users)
                (find_row_keeps (holds p token) w).0 in
          let (gone, given_) =
            rotated p token f (some t) u w.db.users found fresh w'.db.users alone users in
          (found, gone, given_)
    ]

-- Where a logout succeeds, a refresh token that only the user had for that platform is nobody's, so
-- that it cannot be used any more.
pub logout_revokes :
    (i : Identity) (token : String) (w w' : World) (r : ApiReply)
    → HeldBy i.platform token i.user_id w.db.users
    → handle_logout i w ≡ (ok r, w')
    → r.status ≡ 200
    → exists (holds i.platform token) w'.db.users ≡ false
unfolding handle_logout on_result pure delete_user_refresh_token statement request
logout_revokes i token w w' r alone h done =
    let gone = revoked i.platform token none none i.user_id refl w.db.users alone in
    ground (arith, gone)
