-- ===== src/Conversations/Private.antt =====
-- internals/models/private.go: the conversations of two users, with the constraints of the tables
-- `privates` and `users` (db/sql.db.go). Statements are not lost here.
use gotel_reserves.Base.{
  newest_first, select, ℕ, ◌+◌, String, Bool, ◌&&◌, Option, none, some, List, [], ◌∷◌, ◌++◌, ◌==◌,
  nat_eq, if◌then◌else◌, ltb, find,
}
use gotel_reserves.Backend.Rows.{UserRow}
use gotel_reserves.Conversations.Messages.{Private, ChatDb, has_user}

-- models.Private
pub record PrivateView : Type 0 where
  pub id : ℕ
  pub user1 : ℕ
  pub user2 : ℕ
  pub user1_name : String
  pub user2_name : String
  pub created_at : ℕ

pub data PrivateResult : Type 0 where
  found : PrivateView → PrivateResult
  same_user no_rows refused : PrivateResult

abbrev pub with_names : Private → Option UserRow → Option UserRow → PrivateResult
with_names p none u2 = no_rows
with_names p (some u1) none = no_rows
with_names p (some u1) (some u2) = found (record {
  id = p.id;
  user1 = p.user1_id;
  user2 = p.user2_id;
  user1_name = u1.name;
  user2_name = u2.name;
  created_at = p.created_at;
})

abbrev pub user_of : List UserRow → ℕ → Option UserRow
user_of users id = find (λ (u : UserRow). u.id == id) users

abbrev pub join_names : List UserRow → Option Private → PrivateResult
join_names users none = no_rows
join_names users (some p) = with_names p (user_of users p.user1_id) (user_of users p.user2_id)

unfoldable pub get_private_by_id : List UserRow → ℕ → ChatDb → PrivateResult
get_private_by_id users id d = join_names users (find (λ (p : Private). p.id == id) d.privates)

abbrev pub is_between : ℕ → ℕ → Private → Bool
is_between user1 user2 p = p.user1_id == user1 && p.user2_id == user2

-- The names are left empty.
abbrev pub without_names : Private → PrivateView
without_names p = record {
  id = p.id;
  user1 = p.user1_id;
  user2 = p.user2_id;
  user1_name = "";
  user2_name = "";
  created_at = p.created_at;
}

-- The row that the statement of `GetPrivateByUsers` finds.
unfoldable pub get_private_by_users : ℕ → ℕ → ChatDb → Option Private
get_private_by_users user1 user2 d =
    if ltb user2 user1
    then find (is_between user2 user1) d.privates
    else find (is_between user1 user2) d.privates

abbrev pub new_private : ℕ → ℕ → ℕ → ℕ → Private
new_private t id user1 user2 = record {
  id = id;
  user1_id = user1;
  user2_id = user2;
  created_at = t;
}

-- `t` is the moment at which Postgres inserts the row.
abbrev pub inserted : ℕ → ℕ → ℕ → ChatDb → ChatDb
inserted t user1 user2 d = record d {
  privates = d.privates ++ new_private t d.next_id user1 user2 ∷ [];
  next_id = d.next_id + 1;
}

-- The foreign keys: the statement is refused for a user that is not there.
abbrev pub insert_private :
    List UserRow → ℕ → ℕ → ℕ → ChatDb → Option UserRow → Option UserRow → PrivateResult × ChatDb
insert_private users t user1 user2 d none u2 = (refused, d)
insert_private users t user1 user2 d (some u1) none = (refused, d)
insert_private users t user1 user2 d (some u1) (some u2) =
    let d' = inserted t user1 user2 d in (get_private_by_id users d.next_id d', d')

abbrev pub or_insert : List UserRow → ℕ → ℕ → ℕ → ChatDb → Option Private → PrivateResult × ChatDb
or_insert users t user1 user2 d (some p) = (found (without_names p), d)
or_insert users t user1 user2 d none =
    insert_private users t user1 user2 d (user_of users user1) (user_of users user2)

abbrev pub create_ordered : List UserRow → ℕ → ℕ → ℕ → ChatDb → PrivateResult × ChatDb
create_ordered users t user1 user2 d =
    or_insert users t user1 user2 d (get_private_by_users user1 user2 d)

unfoldable pub create_private : List UserRow → ℕ → ℕ → ℕ → ChatDb → PrivateResult × ChatDb
create_private users t user1 user2 d =
    if user1 == user2
    then (same_user, d)
    else if ltb user2 user1
    then create_ordered users t user2 user1 d
    else create_ordered users t user1 user2 d

abbrev pub with_user_names : List UserRow → Private → PrivateResult
with_user_names users p = with_names p (user_of users p.user1_id) (user_of users p.user2_id)

-- The rows of an inner join: those with both users.
abbrev pub keep_found : PrivateResult → List PrivateView → List PrivateView
keep_found (found p) ps = p ∷ ps
keep_found _ ps = ps

abbrev pub joined_rows : List UserRow → List Private → List PrivateView
joined_rows users [] = []
joined_rows users (p ∷ ps) = keep_found (with_user_names users p) (joined_rows users ps)

unfoldable pub get_privates_for_user : List UserRow → ℕ → ChatDb → List PrivateView
get_privates_for_user users user d =
    newest_first (λ (p : PrivateView). p.created_at)
      (joined_rows users (select (has_user user) d.privates))
