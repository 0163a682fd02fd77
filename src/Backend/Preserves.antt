-- ===== src/Backend/Preserves.antt =====
-- Invariants of actions, a rule for each way to build an action.
use gotel_reserves.Base.{
  ◌≡◌, refl, Bool, true, false, Option, none, some, List, [], ◌∷◌, if◌then◌else◌,
}
use gotel_reserves.Backend.Rows.{Db}
use gotel_reserves.Backend.Exec.{
  Error, Result, ok, err, World, M, and_then, roll_back, pure, raise, or_raise, raise_if, logged,
  database_failed, ◌>>=◌, on_result, request, statement, commit, atomically, transaction, now,
  new_uuid,
}

-- `I` holds of the tables after `m` if it did before, whatever fails on the way.
pub record Preserves (I : Db → Type 0) {A : Type 0} (m : M A) : Type 0 where
  pub after : (w : World) → I w.db → I (m w).1.db

module _ {I : Db → Type 0} {A : Type 0} where
  pub Preserves-pure : (a : A) → Preserves I (pure a)
  unfolding pure
  Preserves-pure a = record { after = λ w h. h }

  pub Preserves-raise : (e : Error) → Preserves I (raise {A = A} e)
  unfolding raise
  Preserves-raise e = record { after = λ w h. h }

  pub Preserves-or_raise : (o : Option A) (e : Error) → Preserves I (or_raise o e)
  unfolding or_raise
  Preserves-or_raise none e = record { after = λ w h. h }
  Preserves-or_raise (some a) e = record { after = λ w h. h }

  pub Preserves-if :
      (b : Bool) (m n : M A)
      → (b ≡ true → Preserves I m)
      → (b ≡ false → Preserves I n)
      → Preserves I (if b then m else n)
  Preserves-if true m n hm hn = hm refl
  Preserves-if false m n hm hn = hn refl

  request_after :
      (e : Error) (m : M A) (w : World) (faults : List Bool)
      → Preserves I m
      → I w.db
      → I (request e m (record w { faults = faults })).1.db
  unfolding request
  request_after e m w [] h i = h.after (record w { faults = [] }) i
  request_after e m w (true ∷ rest) h i = i
  request_after e m w (false ∷ rest) h i = h.after (record w { faults = rest }) i

  pub Preserves-request : (e : Error) (m : M A) → Preserves I m → Preserves I (request e m)
  Preserves-request e m h = record { after = λ w i. request_after e m w w.faults h i }

  pub Preserves-statement :
      (f : Db → Result A × Db) → ((d : Db) → I d → I (f d).1) → Preserves I (statement f)
  unfolding statement
  Preserves-statement f h = Preserves-request database_failed _ (record { after = λ w i. h w.db i })

pub Preserves-logged : {I : Db → Type 0} (m : M (Unit {0})) → Preserves I m → Preserves I (logged m)
unfolding logged
Preserves-logged m h = record { after = λ w i. h.after w i }

pub Preserves-raise_if : {I : Db → Type 0} (b : Bool) (e : Error) → Preserves I (raise_if b e)
unfolding raise_if
Preserves-raise_if true e = record { after = λ w h. h }
Preserves-raise_if false e = record { after = λ w h. h }

pub Preserves-now : {I : Db → Type 0} → Preserves I now
unfolding now
Preserves-now = record { after = λ w h. h }

module _ {I : Db → Type 0} {A B : Type 0} where
  and_then_after :
      (r : Result A) (f : A → M B) (w : World)
      → ((a : A) → Preserves I (f a))
      → I w.db
      → I (and_then r f w).1.db
  and_then_after (ok a) f w h i = (h a).after w i
  and_then_after (err e) f w h i = i

  pub Preserves-bind :
      (m : M A) (f : A → M B)
      → Preserves I m
      → ((a : A) → Preserves I (f a))
      → Preserves I (m >>= f)
  unfolding ◌>>=◌
  Preserves-bind m f hm hf = record {
    after = λ w i. and_then_after (m w).0 f (m w).1 hf (hm.after w i);
  }

  pub Preserves-on_result :
      (m : M A) (next : Result A → M B)
      → Preserves I m
      → ((r : Result A) → Preserves I (next r))
      → Preserves I (on_result m next)
  unfolding on_result
  Preserves-on_result m next hm hn = record {
    after = λ w i. (hn (m w).0).after (m w).1 (hm.after w i);
  }

roll_back_after :
    (I : Db → Type 0) {A : Type 0} (before : Db) (r : Result A) (w : World)
    → I before
    → I w.db
    → I (roll_back before (r, w)).1.db
roll_back_after I before (ok a) w i j = j
roll_back_after I before (err e) w i j = i

module _ {I : Db → Type 0} {A : Type 0} where
  pub Preserves-commit : (a : A) → Preserves I (commit a)
  unfolding commit
  Preserves-commit a = Preserves-statement {I = I} _ (λ d i. i)

  pub Preserves-atomically : (body : M A) → Preserves I body → Preserves I (atomically body)
  unfolding atomically
  Preserves-atomically body h = record {
    after = λ w i.
        let run = (body >>= commit) w in
        roll_back_after I w.db run.0 run.1 i
          ((Preserves-bind body commit h Preserves-commit).after w i);
  }

  pub Preserves-transaction : (body : M A) → Preserves I body → Preserves I (transaction body)
  unfolding transaction
  Preserves-transaction body h =
      Preserves-bind _ _ (Preserves-statement _ (λ d i. i)) (λ _. Preserves-atomically body h)

pub Preserves-new_uuid : {I : Db → Type 0} → Preserves I new_uuid
unfolding new_uuid
Preserves-new_uuid = record { after = λ w h. h }

-- An action that leaves the tables alone.
pub Preserves-untouched :
    {I : Db → Type 0} {A : Type 0} (m : M A) → ((w : World) → (m w).1.db ≡ w.db) → Preserves I m
Preserves-untouched {I} m same = record { after = λ w h. rw (same w) h }

pub ruleset preserves_rules = (
  Preserves-pure, Preserves-raise, Preserves-or_raise, Preserves-if, Preserves-request,
  Preserves-statement, Preserves-logged, Preserves-raise_if, Preserves-now, Preserves-new_uuid,
  Preserves-bind, Preserves-on_result, Preserves-transaction,
)
