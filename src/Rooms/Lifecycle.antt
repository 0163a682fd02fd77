-- ===== src/Rooms/Lifecycle.antt =====
-- Where a room stands in its life, and what moves it (the statements of internals/rooms/service.go
-- and of the webhooks).
use gotel_reserves.Base.{
  ℕ, ◌≤◌, ◌≡◌, Bool, true, Option, none, some, List, [], ◌∷◌, ◌++◌, arith, find, update_where,
}
use gotel_reserves.Backend.Rows.{RoomStatus, RoomRow, Db, draft, live, ended}
use gotel_reserves.Rooms.Repository.{InsertRoomParams, has_id, new_row, insert_row}

-- draft, then live, then ended; 0 where there is no such room.
abbrev pub rank_of : RoomStatus → ℕ
rank_of draft = 1
rank_of live = 2
rank_of ended = 3

abbrev pub rank_in : Option RoomRow → ℕ
rank_in none = 0
rank_in (some r) = rank_of r.status

abbrev pub rank : ℕ → List RoomRow → ℕ
rank id rows = rank_in (find (has_id id) rows)

-- From `d₀` to `d` no room goes back in its life, and none is lost.
pub record Advances (d₀ d : Db) : Type 0 where
  pub at : (id : ℕ) → rank id d₀.rooms ≤ rank id d.rooms

pub rank-update_where :
    (p : RoomRow → Bool) (f : RoomRow → RoomRow)
    → ((r : RoomRow) → (f r).id ≡ r.id)
    → ((r : RoomRow) → p r ≡ true → rank_of r.status ≤ rank_of (f r).status)
    → (id : ℕ) (rows : List RoomRow) → rank id rows ≤ rank id (update_where p f rows)
rank-update_where p f same up id [] = omega arith
rank-update_where p f same up id (r ∷ rows) =
    ground (arith, same r, up r, rank-update_where p f same up id rows)

pub rank-append : (id : ℕ) (rows more : List RoomRow) → rank id rows ≤ rank id (rows ++ more)
rank-append id [] more = omega arith
rank-append id (r ∷ rows) more = ground (arith, rank-append id rows more)

pub Advances-update_where :
    (p : RoomRow → Bool) (f : RoomRow → RoomRow)
    → ((r : RoomRow) → (f r).id ≡ r.id)
    → ((r : RoomRow) → p r ≡ true → rank_of r.status ≤ rank_of (f r).status)
    → (d₀ d : Db) → Advances d₀ d
    → Advances d₀ (record d { rooms = update_where p f d.rooms })
Advances-update_where p f same up d₀ d h = record {
  at = λ id. omega (arith, h.at id, rank-update_where p f same up id d.rooms);
}

pub insert_row-Advances :
    (d₀ : Db) (q : InsertRoomParams) (t : ℕ) (d : Db)
    → Advances d₀ d
    → Advances d₀ (insert_row q t d).1
unfolding insert_row
insert_row-Advances d₀ q t d h = record {
  at = λ id. ground (arith, h.at id, rank-append id d.rooms (new_row d q t ∷ []));
}
