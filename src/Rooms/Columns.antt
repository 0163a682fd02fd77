-- ===== src/Rooms/Columns.antt =====
-- What the columns of the table `rooms` say together, and that the statements keep it.
use gotel_reserves.Base.{
  ℕ, ◌<◌, String, ◌≡◌, refl, Bool, true, false, none, some, List, [], ◌∷◌, ◌++◌, arith, eq_iff, sym,
  ◌∙◌, is_some, Bool-cases, inl, inr, find, exists, update_where, All, All-append, All-imp,
  All-update_where,
}
use gotel_reserves.Backend.Rows.{RoomRow, Db, draft, live, ended}
use gotel_reserves.Rooms.Repository.{InsertRoomParams, has_id, has_name, new_row, insert_row}

-- What the columns of one row say together.
pub record IsConsistent (r : RoomRow) : Type 0 where
  pub draft_untouched : r.status ≡ draft → (r.started_at ≡ none) × (r.ended_at ≡ none)
  pub live_started : r.status ≡ live → (is_some r.started_at ≡ true) × (r.ended_at ≡ none)
  pub ended_dated : r.status ≡ ended → is_some r.ended_at ≡ true

-- No two rows have the same name.
abbrev pub DistinctNames : List RoomRow → Type 0
DistinctNames [] = Unit
DistinctNames (r ∷ rows) = (exists (has_name r.livekit_room_name) rows ≡ false) × DistinctNames rows

-- Rows come in the order of their numbers.
abbrev pub Ascending : List RoomRow → Type 0
Ascending [] = Unit
Ascending (r ∷ rows) = All (λ x. r.id < x.id) rows × Ascending rows

pub record AreSound (d : Db) : Type 0 where
  pub consistent : All IsConsistent d.rooms
  pub named_apart : DistinctNames d.rooms
  pub numbered : All (λ r. r.id < d.next_id) d.rooms
  pub ascending : Ascending d.rooms

pub exists-update_where :
    (p : RoomRow → Bool) (f : RoomRow → RoomRow)
    → ((r : RoomRow) → (f r).livekit_room_name ≡ r.livekit_room_name)
    → (name : String) (rows : List RoomRow)
    → exists (has_name name) (update_where p f rows) ≡ exists (has_name name) rows
exists-update_where p f same name [] = refl
exists-update_where p f same name (r ∷ rows) = elim (Bool-cases (p r)) [
  | inl e ↦ rw (e, same r, exists-update_where p f same name rows)
  | inr e ↦ rw (e, exists-update_where p f same name rows)
]

DistinctNames-update_where :
    (p : RoomRow → Bool) (f : RoomRow → RoomRow)
    → ((r : RoomRow) → (f r).livekit_room_name ≡ r.livekit_room_name)
    → (rows : List RoomRow) → DistinctNames rows
    → DistinctNames (update_where p f rows)
DistinctNames-update_where p f same [] h = tt
DistinctNames-update_where p f same (r ∷ rows) h = elim (Bool-cases (p r)) [
  | inl e ↦
      rw (e, same r, exists-update_where p f same r.livekit_room_name rows)
        (h.0, DistinctNames-update_where p f same rows h.1)
  | inr e ↦
      rw (e, exists-update_where p f same r.livekit_room_name rows)
        (h.0, DistinctNames-update_where p f same rows h.1)
]

exists-append_absent :
    (name : String) (rows : List RoomRow) (row : RoomRow)
    → exists (has_name name) rows ≡ false
    → has_name name row ≡ false
    → exists (has_name name) (rows ++ row ∷ []) ≡ false
exists-append_absent name [] row h k = rw k
exists-append_absent name (r ∷ rows) row h k = ground (arith, exists-append_absent name rows row)

name_sym : (r row : RoomRow) → has_name row.livekit_room_name r ≡ has_name r.livekit_room_name row
name_sym r row = ground (
  arith,
  eq_iff r.livekit_room_name row.livekit_room_name,
  eq_iff row.livekit_room_name r.livekit_room_name,
)

DistinctNames-append :
    (rows : List RoomRow) (row : RoomRow)
    → DistinctNames rows
    → exists (has_name row.livekit_room_name) rows ≡ false
    → DistinctNames (rows ++ row ∷ [])
DistinctNames-append [] row h k = (refl, tt)
DistinctNames-append (r ∷ rows) row h k = elim (Bool-cases (has_name row.livekit_room_name r)) [
  | inl e ↦ cc (rw e at k)
  | inr e ↦ (
    exists-append_absent r.livekit_room_name rows row h.0 (sym (name_sym r row) ∙ e),
    DistinctNames-append rows row h.1 (rw e at k),
  )
]

Ascending-update_where :
    (p : RoomRow → Bool) (f : RoomRow → RoomRow)
    → ((r : RoomRow) → (f r).id ≡ r.id)
    → (rows : List RoomRow) → Ascending rows
    → Ascending (update_where p f rows)
Ascending-update_where p f same [] h = tt
Ascending-update_where p f same (r ∷ rows) h = elim (Bool-cases (p r)) [
  | inl e ↦
      rw (e, same r)
        (
          All-update_where _ p f rows (λ x _ above. omega (arith, same x)) h.0,
          Ascending-update_where p f same rows h.1,
        )
  | inr e ↦ rw e (
    All-update_where _ p f rows (λ x _ above. omega (arith, same x)) h.0,
    Ascending-update_where p f same rows h.1,
  )
]

Ascending-append :
    (rows : List RoomRow) (row : RoomRow)
    → Ascending rows
    → All (λ r. r.id < row.id) rows
    → Ascending (rows ++ row ∷ [])
Ascending-append [] row h below = (tt, tt)
Ascending-append (r ∷ rows) row h below =
    (All-append _ rows (row ∷ []) h.0 (below.0, tt), Ascending-append rows row h.1 below.1)

All-find_below :
    (x : RoomRow) (rows sub : List RoomRow)
    → All (λ r. x.id < r.id) sub
    → All (λ r. find (has_id r.id) rows ≡ some r) sub
    → All (λ r. find (has_id r.id) (x ∷ rows) ≡ some r) sub
All-find_below x rows [] above h = tt
All-find_below x rows (r ∷ sub) above h =
    (ground (arith, above.0, h.0), All-find_below x rows sub above.1 h.1)

-- So each row is the one that its number finds.
pub find_self :
    (rows : List RoomRow) → Ascending rows → All (λ r. find (has_id r.id) rows ≡ some r) rows
find_self [] h = tt
find_self (x ∷ rows) h = (ground arith, All-find_below x rows rows h.0 (find_self rows h.1))

-- An UPDATE that leaves names and numbers alone, and each row consistent.
pub AreSound-update_where :
    (p : RoomRow → Bool) (f : RoomRow → RoomRow)
    → ((r : RoomRow) → (f r).livekit_room_name ≡ r.livekit_room_name)
    → ((r : RoomRow) → (f r).id ≡ r.id)
    → ((r : RoomRow) → p r ≡ true → IsConsistent r → IsConsistent (f r))
    → (d : Db) → AreSound d
    → AreSound (record d { rooms = update_where p f d.rooms })
AreSound-update_where p f names ids keeps d h = record {
  consistent = All-update_where IsConsistent p f d.rooms keeps h.consistent;
  named_apart = DistinctNames-update_where p f names d.rooms h.named_apart;
  numbered = All-update_where _ p f d.rooms (λ r _ below. omega (arith, ids r)) h.numbered;
  ascending = Ascending-update_where p f ids d.rooms h.ascending;
}

-- The statements of internals/rooms/service.go.
pub insert_row-AreSound :
    (q : InsertRoomParams) (t : ℕ)
    → q.status ≡ draft
    → (d : Db) → AreSound d
    → AreSound (insert_row q t d).1
unfolding insert_row
insert_row-AreSound q t e d h = elim (Bool-cases (exists (has_name q.livekit_room_name) d.rooms)) [
  | inl there ↦ rw there h
  | inr absent ↦ rw absent (record {
    consistent =
        All-append IsConsistent d.rooms (new_row d q t ∷ []) h.consistent (ground arith, tt);
    named_apart = DistinctNames-append d.rooms (new_row d q t) h.named_apart absent;
    numbered =
        All-append _ d.rooms (new_row d q t ∷ [])
          (All-imp _ _ d.rooms (λ r below. omega arith) h.numbered) (omega arith, tt);
    ascending = Ascending-append d.rooms (new_row d q t) h.ascending h.numbered;
  })
]
