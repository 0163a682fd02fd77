-- ===== src/Base/Lists.antt =====
-- Lists measured and indexed by native numbers, and the SQL statements on the rows of a table.
use Prim.Native.Nat.{ℕ, zero, suc, ◌+◌}
use mathlib.Core.Path.{◌≡◌, refl, ap, ◌∙◌}
use mathlib.Core.Logic.{inl, inr}
use mathlib.Core.Bool.{Bool, true, false}
use mathlib.Core.Option.{Option, none, some}
use mathlib.Core.List.{List, [], ◌∷◌, ◌++◌}
use native.Mathlib.Omega.{arith}
use gotel_reserves.Base.Tests.{if◌then◌else◌, is_some, Bool-cases, Option-cases}

module _ {ℓ} {A : Type ℓ} where
  abbrev pub length : List A → ℕ
  length [] = 0
  length (x ∷ xs) = suc (length xs)

  abbrev pub take : ℕ → List A → List A
  take zero xs = []
  take (suc n) [] = []
  take (suc n) (x ∷ xs) = x ∷ take n xs

  abbrev pub drop : ℕ → List A → List A
  drop zero xs = xs
  drop (suc n) [] = []
  drop (suc n) (x ∷ xs) = drop n xs

  abbrev pub get_elem? : List A → ℕ → Option A
  get_elem? [] i = none
  get_elem? (x ∷ xs) zero = some x
  get_elem? (x ∷ xs) (suc i) = get_elem? xs i

  pub length-append : (xs ys : List A) → length (xs ++ ys) ≡ length xs + length ys
  length-append [] ys = omega arith
  length-append (x ∷ xs) ys = omega (arith, length-append xs ys)

  -- Every element satisfies the predicate.
  abbrev pub All {κ} : (A → Type κ) → List A → Type κ
  All P [] = Unit
  All P (x ∷ xs) = P x × All P xs

  pub All-append {κ} : (P : A → Type κ) (xs ys : List A) → All P xs → All P ys → All P (xs ++ ys)
  All-append P [] ys hx hy = hy
  All-append P (x ∷ xs) ys hx hy = (hx.0, All-append P xs ys hx.1 hy)

  pub All-imp {κ} : (P Q : A → Type κ) (xs : List A) → ((x : A) → P x → Q x) → All P xs → All Q xs
  All-imp P Q [] f h = tt
  All-imp P Q (x ∷ xs) f h = (f x h.0, All-imp P Q xs f h.1)

  pub All-both {κ} :
      (P Q : A → Type κ) (xs : List A) → All P xs → All Q xs → All (λ x. P x × Q x) xs
  All-both P Q [] hx hy = tt
  All-both P Q (x ∷ xs) hx hy = ((hx.0, hy.0), All-both P Q xs hx.1 hy.1)

  -- SELECT ... WHERE p, for a condition that at most one row meets.
  abbrev pub find : (A → Bool) → List A → Option A
  find p [] = none
  find p (x ∷ xs) = if p x then some x else find p xs

  -- SELECT ... WHERE p
  abbrev pub select : (A → Bool) → List A → List A
  select p [] = []
  select p (x ∷ xs) = let rest = select p xs in if p x then x ∷ rest else rest

  -- UPDATE ... SET f WHERE p
  abbrev pub update_where : (A → Bool) → (A → A) → List A → List A
  update_where p f [] = []
  update_where p f (x ∷ xs) = (if p x then f x else x) ∷ update_where p f xs

  -- Some row meets the condition.
  abbrev pub exists : (A → Bool) → List A → Bool
  exists p [] = false
  exists p (x ∷ xs) = if p x then true else exists p xs

  pub All-update_where {κ} :
      (P : A → Type κ) (p : A → Bool) (f : A → A) (xs : List A)
      → ((x : A) → p x ≡ true → P x → P (f x))
      → All P xs
      → All P (update_where p f xs)
  All-update_where P p f [] step h = tt
  All-update_where P p f (x ∷ xs) step h = (
    elim (Bool-cases (p x)) [ inl e ↦ rw e (step x e h.0) | inr e ↦ rw e h.0 ],
    All-update_where P p f xs step h.1,
  )

  pub All-select {κ} :
      (P : A → Type κ) (p : A → Bool) (xs : List A) → All P xs → All P (select p xs)
  All-select P p [] h = tt
  All-select P p (x ∷ xs) h = elim (Bool-cases (p x)) [
    | inl e ↦ rw e (h.0, All-select P p xs h.1)
    | inr e ↦ rw e (All-select P p xs h.1)
  ]

  pub All-select_test : (p : A → Bool) (xs : List A) → All (λ x. p x ≡ true) (select p xs)
  All-select_test p [] = tt
  All-select_test p (x ∷ xs) = elim (Bool-cases (p x)) [
    | inl e ↦ rw e (e, All-select_test p xs)
    | inr e ↦ rw e (All-select_test p xs)
  ]

  -- What `find` returns is a row that meets the condition.
  pub find_sound {κ} :
      (P : A → Type κ) (p : A → Bool) (xs : List A) (x : A)
      → All P xs
      → find p xs ≡ some x
      → P x × (p x ≡ true)
  find_sound P p [] x h e = cc
  find_sound P p (y ∷ ys) x h e = elim (Bool-cases (p y)) [
    | inl t ↦ ground arith
    | inr f ↦ find_sound P p ys x h.1 (ground arith)
  ]

  pub find-none_iff_exists : (p : A → Bool) (xs : List A) → exists p xs ≡ false → find p xs ≡ none
  find-none_iff_exists p [] h = refl
  find-none_iff_exists p (x ∷ xs) h = ground (arith, find-none_iff_exists p xs)

  pub find-append :
      (p : A → Bool) (xs ys : List A) → find p xs ≡ none → find p (xs ++ ys) ≡ find p ys
  find-append p [] ys h = refl
  find-append p (x ∷ xs) ys h = ground (arith, find-append p xs ys)

  pub length-update_where :
      (p : A → Bool) (f : A → A) (xs : List A) → length (update_where p f xs) ≡ length xs
  length-update_where p f [] = refl
  length-update_where p f (x ∷ xs) = ap suc (length-update_where p f xs)

  -- INSERT ... ON CONFLICT (what p tests) DO UPDATE SET change
  abbrev pub upsert_where : (A → Bool) → (A → A) → A → List A → List A
  upsert_where p change row rows =
      if exists p rows then update_where p change rows else rows ++ row ∷ []

  -- the row after an upsert
  abbrev pub upserted : (A → A) → A → Option A → A
  upserted change row none = row
  upserted change row (some old) = change old

  pub find-update_where :
      (p : A → Bool) (change : A → A)
      → ((x : A) → p x ≡ true → p (change x) ≡ true)
      → (xs : List A) (old : A) → find p xs ≡ some old
      → find p (update_where p change xs) ≡ some (change old)
  find-update_where p change keeps [] old h = cc
  find-update_where p change keeps (x ∷ xs) old h = elim (Bool-cases (p x)) [
    | inl e ↦ rw (e, keeps x e) (ground (arith, e, h))
    | inr e ↦ rw (e, e) (find-update_where p change keeps xs old (ground (arith, e, h)))
  ]

  exists-find : (p : A → Bool) (xs : List A) → exists p xs ≡ is_some (find p xs)
  exists-find p [] = refl
  exists-find p (x ∷ xs) = ground (arith, exists-find p xs)

  -- An upsert leaves one row to be found: the old one changed, or the new one.
  pub find-upsert_where :
      (p : A → Bool) (change : A → A) (row : A)
      → p row ≡ true
      → ((x : A) → p x ≡ true → p (change x) ≡ true)
      → (xs : List A)
      → find p (upsert_where p change row xs) ≡ some (upserted change row (find p xs))
  find-upsert_where p change row new keeps xs = elim (Option-cases (find p xs)) [
    | inl e ↦ rw (exists-find p xs, e) (find-append p xs (row ∷ []) e ∙ rw new refl)
    | inr (old, e) ↦ rw (exists-find p xs, e) (find-update_where p change keeps xs old e)
  ]

  pub exists-found :
      (p q : A → Bool) (xs : List A) (x : A) → find p xs ≡ some x → q x ≡ true → exists q xs ≡ true
  exists-found p q [] x h e = cc
  exists-found p q (y ∷ ys) x h e = elim (Bool-cases (p y)) [
    | inl t ↦ ground (arith, t, h, e)
    | inr f ↦ ground (arith, exists-found p q ys x (rw f at h) e)
  ]

  -- What `find` returns meets the condition.
  pub find_test : (p : A → Bool) (xs : List A) (x : A) → find p xs ≡ some x → p x ≡ true
  find_test p [] x h = cc
  find_test p (y ∷ ys) x h = elim (Bool-cases (p y)) [
    | inl t ↦ ground (arith, t, h)
    | inr f ↦ find_test p ys x (rw f at h)
  ]
