-- ===== src/Backend/Runs.antt =====
-- What a run that succeeds says of its parts.
use gotel_reserves.Base.{◌≡◌, refl, ap, ◌∙◌, arith}
use gotel_reserves.Backend.Rows.{Db}
use gotel_reserves.Backend.Exec.{
  Error, Result, ok, err, World, M, and_then, request, statement, ◌>>=◌,
}

module _ {A B : Type 0} where
  and_then_ok :
      (r : Result A) (f : A → M B) (w w' : World) (b : B)
      → and_then r f w ≡ (ok b, w')
      → (a : A) × (r ≡ ok a) × (f a w ≡ (ok b, w'))
  and_then_ok (ok a) f w w' b h = (a, refl, h)
  and_then_ok (err e) f w w' b h = ground arith

  -- Both parts of a sequence succeed where it does.
  pub bind_ok :
      (m : M A) (f : A → M B) (w w' : World) (b : B)
      → (m >>= f) w ≡ (ok b, w')
      → (a : A) × (w₁ : World) × (m w ≡ (ok a, w₁)) × (f a w₁ ≡ (ok b, w'))
  unfolding ◌>>=◌
  bind_ok m f w w' b h =
      let (a, e, run) = and_then_ok (m w).0 f (m w).1 w' b h in
      (a, (m w).1, ap (λ r. (r, (m w).1)) e, run)

  and_then_err :
      (r : Result A) (f : A → M B) (w : World) (e : Error)
      → ((a : A) → r ≡ ok a → (f a w).0 ≡ err e → (f a w).1.db ≡ w.db)
      → (and_then r f w).0 ≡ err e
      → (and_then r f w).1.db ≡ w.db
  and_then_err (ok a) f w e k h = k a refl h
  and_then_err (err x) f w e k h = refl

  -- A sequence restores the tables after an error where the first part does not write to them and the
  -- second restores them.
  pub bind_err :
      (m : M A) (f : A → M B) (w : World) (e : Error)
      → (m w).1.db ≡ w.db
      → ((a : A) (w₁ : World) → (f a w₁).0 ≡ err e → (f a w₁).1.db ≡ w₁.db)
      → ((m >>= f) w).0 ≡ err e
      → ((m >>= f) w).1.db ≡ w.db
  unfolding ◌>>=◌
  bind_err m f w e same k h = and_then_err (m w).0 f (m w).1 e (λ a _ g. k a (m w).1 g) h ∙ same

-- A statement that succeeds took effect.
pub statement_ok :
    {A : Type 0} (f : Db → Result A × Db) (w w' : World) (a : A)
    → statement f w ≡ (ok a, w')
    → ((f w.db).0 ≡ ok a) × (w'.db ≡ (f w.db).1)
unfolding statement request
statement_ok f w w' a h = (ground arith, ground arith)
