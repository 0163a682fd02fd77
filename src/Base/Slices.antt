-- ===== src/Base/Slices.antt =====
-- Parts of lists, as Go's slices and SQL's LIMIT and OFFSET take them.
use Prim.Native.Nat.{ℕ, zero, suc, ◌+◌, ◌-◌, ◌≤◌, ◌<◌}
use mathlib.Core.Path.{◌≡◌, refl, ap, sym, ◌∙◌}
use mathlib.Core.List.{List, [], ◌∷◌, ◌++◌}
use native.Mathlib.Omega.{arith}
use gotel_reserves.Base.Lists.{length, take, drop}

module _ {ℓ} {A : Type ℓ} where
  pub take_all : (n : ℕ) (xs : List A) → length xs ≤ n → take n xs ≡ xs
  take_all zero [] h = refl
  take_all (suc n) [] h = refl
  take_all zero (x ∷ xs) h = ground arith
  take_all (suc n) (x ∷ xs) h = ap (λ l. x ∷ l) (take_all n xs (omega arith))

  pub take-take : (m n : ℕ) (xs : List A) → m ≤ n → take m (take n xs) ≡ take m xs
  take-take zero n xs h = refl
  take-take (suc m) zero xs h = ground arith
  take-take (suc m) (suc n) [] h = refl
  take-take (suc m) (suc n) (x ∷ xs) h = ap (λ l. x ∷ l) (take-take m n xs (omega arith))

  pub take-drop : (n : ℕ) (xs : List A) → take n xs ++ drop n xs ≡ xs
  take-drop zero xs = refl
  take-drop (suc n) [] = refl
  take-drop (suc n) (x ∷ xs) = ap (λ l. x ∷ l) (take-drop n xs)

  pub take_nil : (n : ℕ) → take {A = A} n [] ≡ []
  take_nil zero = refl
  take_nil (suc n) = refl

  pub drop-take : (m n k : ℕ) (xs : List A) → m + k ≡ n → drop m (take n xs) ≡ take k (drop m xs)
  drop-take zero n k xs h = ap (λ j. take j xs) (omega arith)
  drop-take (suc m) zero k xs h = ground arith
  drop-take (suc m) (suc n) k [] h = sym (take_nil k)
  drop-take (suc m) (suc n) k (x ∷ xs) h = drop-take m n k xs (omega arith)

  pub length-drop : (n : ℕ) (xs : List A) → length (drop n xs) ≡ length xs - n
  length-drop zero xs = omega arith
  length-drop (suc n) [] = omega arith
  length-drop (suc n) (x ∷ xs) = omega (arith, length-drop n xs)

  pub length-take_le : (n : ℕ) (xs : List A) → length (take n xs) ≤ n
  length-take_le zero xs = omega arith
  length-take_le (suc n) [] = omega arith
  length-take_le (suc n) (x ∷ xs) = omega (arith, length-take_le n xs)

  drop_nil : (n : ℕ) → drop {A = A} n [] ≡ []
  drop_nil zero = refl
  drop_nil (suc n) = refl

  pub drop-drop : (m n : ℕ) (xs : List A) → drop m (drop n xs) ≡ drop (n + m) xs
  drop-drop m zero xs = ap (λ k. drop k xs) (omega arith)
  drop-drop zero (suc n) [] = sym (drop_nil (suc n + 0))
  drop-drop (suc m) (suc n) [] = sym (drop_nil (suc n + suc m))
  drop-drop m (suc n) (x ∷ xs) =
      let e : suc (n + m) ≡ suc n + m = omega arith in
      drop-drop m n xs ∙ ap (λ k. drop k (x ∷ xs)) e

  -- What stands from here on: its first elements, one more, and the rest.
  pub split_at :
      (n : ℕ) (xs : List A) → n < length xs → (x : A) × (xs ≡ take n xs ++ x ∷ drop (suc n) xs)
  split_at zero [] h = ground arith
  split_at (suc n) [] h = ground arith
  split_at zero (x ∷ xs) h = (x, refl)
  split_at (suc n) (x ∷ xs) h = let (y, e) = split_at n xs (omega arith) in (y, ap (λ l. x ∷ l) e)

  pub length-take_short : (n : ℕ) (xs : List A) → length (take n xs) ≤ length xs
  length-take_short zero xs = omega arith
  length-take_short (suc n) [] = omega arith
  length-take_short (suc n) (x ∷ xs) = omega (arith, length-take_short n xs)

  pub take-append : (xs ys : List A) → take (length xs) (xs ++ ys) ≡ xs
  take-append [] ys = refl
  take-append (x ∷ xs) ys = ap (λ l. x ∷ l) (take-append xs ys)

  pub drop-append : (xs ys : List A) → drop (length xs) (xs ++ ys) ≡ ys
  drop-append [] ys = refl
  drop-append (x ∷ xs) ys = drop-append xs ys

  pub length-take_long : (n : ℕ) (xs : List A) → n ≤ length xs → length (take n xs) ≡ n
  length-take_long zero xs h = refl
  length-take_long (suc n) [] h = ground arith
  length-take_long (suc n) (x ∷ xs) h = omega (arith, length-take_long n xs (omega (arith, h)))
