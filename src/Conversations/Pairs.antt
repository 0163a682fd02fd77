-- ===== src/Conversations/Pairs.antt =====
-- The conversations that `CreatePrivate` of internals/models/private.go makes: one for two users.
use gotel_reserves.Base.{
  ℕ, ◌≡◌, sym, ◌∙◌, ap, Option, none, some, List, [], ◌∷◌, ◌++◌, ◌==◌, nat_eq, find, find-append,
  arith, Bool-cases, Option-cases, inl, inr,
}
use gotel_reserves.Backend.Rows.{UserRow}
use gotel_reserves.Conversations.Messages.{Private, ChatDb}
use gotel_reserves.Conversations.Private.{
  PrivateView, found, with_names, join_names, get_private_by_id, get_private_by_users, is_between,
  create_private, without_names, or_insert, insert_private, user_of, new_private,
}

-- Asking for a conversation with the two users in the other order has the same answer and leaves the
-- same tables.
pub create_private_symmetric :
    (users : List UserRow) (t a b : ℕ) (d : ChatDb)
    → create_private users t a b d ≡ create_private users t b a d
unfolding create_private get_private_by_users
create_private_symmetric users t a b d = ground arith

find_id :
    (n : ℕ) (ps : List Private) (p : Private)
    → find (λ (q : Private). q.id == n) ps ≡ some p
    → p.id ≡ n
find_id n [] p h = cc
find_id n (q ∷ qs) p h = elim (Bool-cases (q.id == n)) [
  | inl t ↦ ground arith
  | inr f ↦ find_id n qs p (ground arith)
]

with_names_id :
    (q : Private) (u1 u2 : Option UserRow) (p : PrivateView)
    → with_names q u1 u2 ≡ found p
    → p.id ≡ q.id
with_names_id q none u2 p h = cc
with_names_id q (some u1) none p h = cc
with_names_id q (some u1) (some u2) p h = ground arith

join_names_id :
    (users : List UserRow) (n : ℕ) (ps : List Private) (p : PrivateView)
    → join_names users (find (λ (q : Private). q.id == n) ps) ≡ found p
    → p.id ≡ n
join_names_id users n ps p h = elim (Option-cases (find (λ (q : Private). q.id == n) ps)) [
  | inl e ↦ ground arith
  | inr (q, e) ↦
      with_names_id q (user_of users q.user1_id) (user_of users q.user2_id) p
        (ap (join_names users) (sym e) ∙ h)
      ∙ find_id n ps q e
]

module _ (users : List UserRow) (p : PrivateView) where
  find_new :
      (t a b n : ℕ) (ps : List Private)
      → find (is_between a b) ps ≡ none
      → find (is_between a b) (ps ++ new_private t n a b ∷ []) ≡ some (new_private t n a b)
  find_new t a b n ps h =
      find-append (is_between a b) ps (new_private t n a b ∷ []) h ∙ ground arith

  insert_private_found :
      (t a b : ℕ) (d d' : ChatDb) (u1 u2 : Option UserRow)
      → find (is_between a b) d.privates ≡ none
      → insert_private users t a b d u1 u2 ≡ (found p, d')
      → (row : Private) × (find (is_between a b) d'.privates ≡ some row) × (row.id ≡ p.id)
  unfolding get_private_by_id
  insert_private_found t a b d d' none u2 f h = cc
  insert_private_found t a b d d' (some u1) none f h = cc
  insert_private_found t a b d d' (some u1) (some u2) f h =
      let new = new_private t d.next_id a b in
      (
        new,
        ap (λ x. find (is_between a b) x.1.privates) (sym h)
            ∙ find_new t a b d.next_id d.privates f,
        sym (join_names_id users d.next_id (d.privates ++ new ∷ []) p (ap (λ x. x.0) h)),
      )

  or_insert_found :
      (t a b : ℕ) (d d' : ChatDb)
      → or_insert users t a b d (find (is_between a b) d.privates) ≡ (found p, d')
      → (row : Private) × (find (is_between a b) d'.privates ≡ some row) × (row.id ≡ p.id)
  or_insert_found t a b d d' h = elim (Option-cases (find (is_between a b) d.privates)) [
    | inl e ↦
        insert_private_found t a b d d' (user_of users a) (user_of users b) e
          (ap (or_insert users t a b d) (sym e) ∙ h)
    | inr (q, e) ↦ (q, ground arith, ground arith)
  ]

  -- Where `CreatePrivate` returns a conversation, the tables have one of these two users with that
  -- identifier, which `GetPrivateByUsers` finds, and asking again later, in either order of the users,
  -- returns the same one and adds nothing.
  pub create_private_once :
      (t a b : ℕ) (d d' : ChatDb) (t' : ℕ)
      → create_private users t a b d ≡ (found p, d')
      → (row : Private) × (get_private_by_users a b d' ≡ some row)
        × (row.id ≡ p.id)
        × (create_private users t' a b d' ≡ (found (without_names row), d'))
        × (create_private users t' b a d' ≡ (found (without_names row), d'))
  unfolding create_private get_private_by_users
  create_private_once t a b d d' t' h =
      ground (arith, or_insert_found t a b d d', or_insert_found t b a d d')
