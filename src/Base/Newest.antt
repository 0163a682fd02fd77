-- ===== src/Base/Newest.antt =====
-- ORDER BY created_at DESC; rows of one moment stay in the order of the table.
use Prim.Native.Nat.{ℕ}
use mathlib.Core.Path.{◌≡◌, refl}
use mathlib.Core.Bool.{Bool, true}
use mathlib.Core.Option.{Option, none, some}
use mathlib.Core.Logic.{inl, inr}
use mathlib.Core.List.{List, [], ◌∷◌}
use native.Mathlib.Omega.{arith}
use gotel_reserves.Base.Tests.{if◌then◌else◌, leb, is_some, Bool-cases}
use gotel_reserves.Base.Lists.{All, select, exists}

module _ {ℓ} {A : Type ℓ} (moment : A → ℕ) where
  place : A → List A → List A
  place x [] = x ∷ []
  place x (y ∷ ys) =
      let rest = place x ys in if leb (moment y) (moment x) then x ∷ y ∷ ys else y ∷ rest

  unfoldable pub newest_first : List A → List A
  unfolding place
  newest_first [] = []
  newest_first (x ∷ xs) = place x (newest_first xs)

-- ORDER BY created_at DESC LIMIT 1
abbrev pub first {ℓ} : {A : Type ℓ} → List A → Option A
first [] = none
first (x ∷ xs) = some x

module _ {ℓ} {A : Type ℓ} (moment : A → ℕ) where
  abbrev pub latest : List A → Option A
  latest xs = first (newest_first moment xs)

  All-place {κ} :
      (P : A → Type κ) (x : A) (ys : List A) → P x → All P ys → All P (place moment x ys)
  unfolding place
  All-place P x [] p h = (p, tt)
  All-place P x (y ∷ ys) p h = elim (Bool-cases (leb (moment y) (moment x))) [
    | inl e ↦ rw e (p, h)
    | inr e ↦ rw e (h.0, All-place P x ys p h.1)
  ]

  pub All-newest_first {κ} :
      (P : A → Type κ) (xs : List A) → All P xs → All P (newest_first moment xs)
  unfolding newest_first
  All-newest_first P [] h = tt
  All-newest_first P (x ∷ xs) h = All-place P x _ h.0 (All-newest_first P xs h.1)

  pub latest_sound {κ} :
      (P : A → Type κ) (xs : List A) (x : A) → All P xs → latest xs ≡ some x → P x
  latest_sound P xs x h e = first_sound (newest_first moment xs) (All-newest_first P xs h) e
    where
      first_sound : (ys : List A) → All P ys → first ys ≡ some x → P x
      first_sound [] h e = cc
      first_sound (y ∷ ys) h e = ground (arith, h.0)

  is_some-place : (x : A) (ys : List A) → is_some (first (place moment x ys)) ≡ true
  unfolding place
  is_some-place x [] = refl
  is_some-place x (y ∷ ys) = elim (Bool-cases (leb (moment y) (moment x))) [
    | inl e ↦ rw e refl
    | inr e ↦ rw e refl
  ]

  -- There is a latest of the rows that meet a condition just where one meets it.
  pub is_some-latest : (p : A → Bool) (xs : List A) → is_some (latest (select p xs)) ≡ exists p xs
  unfolding newest_first
  is_some-latest p [] = refl
  is_some-latest p (x ∷ xs) = elim (Bool-cases (p x)) [
    | inl e ↦ rw e (is_some-place x (newest_first moment (select p xs)))
    | inr e ↦ rw e (is_some-latest p xs)
  ]
