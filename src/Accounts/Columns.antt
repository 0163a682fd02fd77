-- ===== src/Accounts/Columns.antt =====
-- What the columns of the table `users` say together, and that the statements of accounts keep it.
use gotel_reserves.Base.{
  ℕ, ◌<◌, ◌≡◌, refl, String, Option, [], ◌∷◌, nat_eq, string_eq, arith, Bool-cases, inl, inr,
  exists, All, All-append, All-imp, All-update_where, has_key, DistinctKeys, DistinctKeys-append,
  DistinctKeys-update_where, exists_below,
}
use gotel_reserves.Backend.Rows.{UserRow, Db}
use gotel_reserves.Accounts.Users.{
  Platform, web, mobile, email_of, id_of, new_user, insert_user, set_token, with_token,
}
use gotel_reserves.Accounts.Keeps.{IsKeptByAccounts}

-- No two users have the same number or the same address, and each has a number that was given out.
pub record AreUsers (d : Db) : Type 0 where
  pub emails_apart : DistinctKeys email_of d.users
  pub ids_apart : DistinctKeys id_of d.users
  pub numbered : All (λ u. (0 < u.id) × (u.id < d.next_id)) d.users
  pub some_id : 0 < d.next_id

set_token_same :
    (p : Platform) (token : Option String) (t : Option ℕ) (u : UserRow)
    → ((set_token p token t u).id ≡ u.id)
      × ((set_token p token t u).name ≡ u.name)
      × ((set_token p token t u).email ≡ u.email)
set_token_same web token t u = (refl, refl, refl)
set_token_same mobile token t u = (refl, refl, refl)

insert_user-AreUsers :
    (name email password : String) (t : ℕ) (d : Db)
    → AreUsers d
    → AreUsers (insert_user name email password t d).1
unfolding insert_user
insert_user-AreUsers name email password t d h =
    let u = new_user d.next_id name email password t in
    elim (Bool-cases (exists (has_key email_of email) d.users)) [
      | inl there ↦ rw there h
      | inr absent ↦ rw absent (record {
        emails_apart = DistinctKeys-append email_of d.users u h.emails_apart absent;
        ids_apart =
            DistinctKeys-append id_of d.users u h.ids_apart
              (exists_below id_of d.next_id d.users (All-imp _ _ d.users (λ x b. b.1) h.numbered));
        numbered =
            All-append _ d.users (u ∷ [])
              (All-imp _ _ d.users (λ x b. (b.0, omega arith)) h.numbered)
              ((h.some_id, omega arith), tt);
        some_id = omega arith;
      })
    ]

with_token-AreUsers :
    (id : ℕ) (p : Platform) (token : Option String) (t : Option ℕ) (d : Db)
    → AreUsers d
    → AreUsers (with_token id p token t d)
with_token-AreUsers id p token t d h =
    let same = set_token_same p token t in
    record {
      emails_apart =
          DistinctKeys-update_where email_of (has_key id_of id) (set_token p token t)
            (λ u. (same u).2) d.users h.emails_apart;
      ids_apart =
          DistinctKeys-update_where id_of (has_key id_of id) (set_token p token t) (λ u. (same u).0)
            d.users h.ids_apart;
      numbered =
          All-update_where _ (has_key id_of id) (set_token p token t) d.users
            (λ u _ b. rw ((same u).0) b) h.numbered;
      some_id = h.some_id;
    }

pub AreUsers-IsKeptByAccounts : IsKeptByAccounts AreUsers
AreUsers-IsKeptByAccounts = record { insert = insert_user-AreUsers; token = with_token-AreUsers }
