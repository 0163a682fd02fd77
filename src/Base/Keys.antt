-- ===== src/Base/Keys.antt =====
-- Rows of a table under a UNIQUE constraint: no two of them have the same key.
use Prim.Native.Nat.{ℕ, ◌<◌}
use mathlib.Core.Path.{◌≡◌, refl, sym, ◌∙◌}
use mathlib.Core.Logic.{inl, inr}
use mathlib.Core.Bool.{Bool, true, false}
use mathlib.Core.Option.{some}
use mathlib.Core.List.{List, [], ◌∷◌, ◌++◌}
use native.Mathlib.Omega.{arith}
use gotel_reserves.Base.Tests.{Comparable, ◌==◌, nat_eq, Bool-cases}
use gotel_reserves.Base.Lists.{find, exists, update_where, All}

module _ {ℓ κ} {A : Type ℓ} {K : Type κ} ⦃c : Comparable K⦄ (key : A → K) where
  abbrev pub has_key : K → A → Bool
  has_key k x = key x == k

  abbrev pub DistinctKeys : List A → Type 0
  DistinctKeys [] = Unit
  DistinctKeys (x ∷ xs) = (exists (has_key (key x)) xs ≡ false) × DistinctKeys xs

  exists-key_update_where :
      (p : A → Bool) (f : A → A)
      → ((x : A) → key (f x) ≡ key x)
      → (k : K) (xs : List A) → exists (has_key k) (update_where p f xs) ≡ exists (has_key k) xs
  exists-key_update_where p f same k [] = refl
  exists-key_update_where p f same k (x ∷ xs) = elim (Bool-cases (p x)) [
    | inl e ↦ rw (e, same x, exists-key_update_where p f same k xs)
    | inr e ↦ rw (e, exists-key_update_where p f same k xs)
  ]

  pub DistinctKeys-update_where :
      (p : A → Bool) (f : A → A)
      → ((x : A) → key (f x) ≡ key x)
      → (xs : List A) → DistinctKeys xs
      → DistinctKeys (update_where p f xs)
  DistinctKeys-update_where p f same [] h = tt
  DistinctKeys-update_where p f same (x ∷ xs) h = elim (Bool-cases (p x)) [
    | inl e ↦
        rw (e, same x, exists-key_update_where p f same (key x) xs)
          (h.0, DistinctKeys-update_where p f same xs h.1)
    | inr e ↦
        rw (e, exists-key_update_where p f same (key x) xs)
          (h.0, DistinctKeys-update_where p f same xs h.1)
  ]

  exists-append_absent_key :
      (k : K) (xs : List A) (x : A)
      → exists (has_key k) xs ≡ false
      → has_key k x ≡ false
      → exists (has_key k) (xs ++ x ∷ []) ≡ false
  exists-append_absent_key k [] x h n = rw n
  exists-append_absent_key k (y ∷ ys) x h n = ground (arith, exists-append_absent_key k ys x)

  key_sym : (x y : A) → has_key (key y) x ≡ has_key (key x) y
  key_sym x y = ground (arith, c.decides (key x) (key y), c.decides (key y) (key x))

  pub DistinctKeys-append :
      (xs : List A) (x : A)
      → DistinctKeys xs
      → exists (has_key (key x)) xs ≡ false
      → DistinctKeys (xs ++ x ∷ [])
  DistinctKeys-append [] x h n = (refl, tt)
  DistinctKeys-append (y ∷ ys) x h n = elim (Bool-cases (has_key (key x) y)) [
    | inl e ↦ cc (rw e at n)
    | inr e ↦ (
      exists-append_absent_key (key y) ys x h.0 (sym (key_sym y x) ∙ e),
      DistinctKeys-append ys x h.1 (rw e at n),
    )
  ]

pub exists_below {ℓ} :
    {A : Type ℓ} (key : A → ℕ) (n : ℕ) (xs : List A)
    → All (λ x. key x < n) xs
    → exists (has_key key n) xs ≡ false
exists_below key n [] h = refl
exists_below key n (x ∷ xs) h = ground (arith, exists_below key n xs, h.0)

module _ {ℓ κ} {A : Type ℓ} {K : Type κ} ⦃c : Comparable K⦄ (key : A → K) where
  not_later :
      (k : K) (y : A) (xs : List A)
      → exists (has_key key k) xs ≡ false
      → All (λ x. has_key key k x ≡ true → x ≡ y) xs
  not_later k y [] h = tt
  not_later k y (x ∷ xs) h = elim (Bool-cases (has_key key k x)) [
    | inl e ↦ cc (rw e at h)
    | inr e ↦ ((λ t. cc), not_later k y xs (rw e at h))
  ]

  -- The row that a key finds is the only one with that key.
  pub found_alone :
      (k : K) (xs : List A) (y : A)
      → DistinctKeys key xs
      → find (has_key key k) xs ≡ some y
      → All (λ x. has_key key k x ≡ true → x ≡ y) xs
  found_alone k [] y d h = tt
  found_alone k (x ∷ xs) y d h = elim (Bool-cases (has_key key k x)) [
    | inl e ↦
        ((λ t. ground (arith, e, h)), not_later k y xs (rw ((c.decides (key x) k).0 e) at d.0))
    | inr e ↦ ((λ t. cc), found_alone k xs y d.1 (rw e at h))
  ]

module _ {ℓ κ} {A : Type ℓ} {K : Type κ} ⦃c : Comparable K⦄ (key : A → K) where
  not_the_key :
      (x : A) (xs : List A)
      → exists (has_key key (key x)) xs ≡ false
      → All (λ y. has_key key (key y) x ≡ false) xs
  not_the_key x [] h = tt
  not_the_key x (y ∷ ys) h = elim (Bool-cases (has_key key (key x) y)) [
    | inl e ↦ cc (rw e at h)
    | inr e ↦ (key_sym key x y ∙ e, not_the_key x ys (rw e at h))
  ]

  found_later :
      (x : A) (xs ys : List A)
      → All (λ y. has_key key (key y) x ≡ false) ys
      → All (λ y. find (has_key key (key y)) xs ≡ some y) ys
      → All (λ y. find (has_key key (key y)) (x ∷ xs) ≡ some y) ys
  found_later x xs [] others h = tt
  found_later x xs (y ∷ ys) others h = (rw others.0 h.0, found_later x xs ys others.1 h.1)

  -- Each row is the one that its key finds.
  pub key-finds_row :
      (xs : List A) → DistinctKeys key xs → All (λ x. find (has_key key (key x)) xs ≡ some x) xs
  key-finds_row [] h = tt
  key-finds_row (x ∷ xs) h = (
    rw ((c.decides (key x) (key x)).1 refl) refl,
    found_later x xs xs (not_the_key x xs h.0) (key-finds_row xs h.1),
  )
