-- ===== src/Backend/Transactions.antt =====
-- What `BeginTx`, `Commit` and the deferred `Rollback` give: all of the body or nothing of it.
use gotel_reserves.Base.{◌≡◌, refl, Bool, List, arith}
use gotel_reserves.Backend.Rows.{Db}
use gotel_reserves.Backend.Exec.{
  Error, Result, ok, err, World, M, next_fault, roll_back, request, statement, commit, atomically,
  transaction, ◌>>=◌,
}

roll_back_err :
    {A : Type 0} (before : Db) (r : Result A) (w : World) {e : Error}
    → (roll_back before (r, w)).0 ≡ err e
    → (roll_back before (r, w)).1.db ≡ before
roll_back_err before (ok a) w h = cc
roll_back_err before (err e) w h = refl

-- A body that fails, or a commit that does, leaves the tables as they were before the body.
pub atomically_err :
    {A : Type 0} (body : M A) (w : World) {e : Error}
    → (atomically body w).0 ≡ err e
    → (atomically body w).1.db ≡ w.db
unfolding atomically
atomically_err body w h = roll_back_err w.db _ _ h

pub transaction_err :
    {A : Type 0} (body : M A) (w : World) {e : Error}
    → (transaction body w).0 ≡ err e
    → (transaction body w).1.db ≡ w.db
unfolding transaction statement request ◌>>=◌
transaction_err body w {e} h =
    ground (arith, atomically_err body (record w { faults = (next_fault w.faults).1 }) {e = e})

-- A transaction that succeeds ran its body to the end, from the same state but for the faults, and
-- leaves the tables and Redis as the body did.
pub transaction_ok :
    {A : Type 0} (body : M A) (w w' : World) (a : A)
    → transaction body w ≡ (ok a, w')
    → (rest : List Bool) × (w₁ : World) × (body (record w { faults = rest }) ≡ (ok a, w₁))
      × (w'.db ≡ w₁.db)
      × (w'.redis ≡ w₁.redis)
unfolding transaction atomically commit statement request ◌>>=◌
transaction_ok body w w' a h = (
  (next_fault w.faults).1,
  (body (record w { faults = (next_fault w.faults).1 })).1,
  ground arith,
  ground arith,
  ground arith,
)
