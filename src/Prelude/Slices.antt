-- ===== src/Prelude/Slices.antt =====
-- `std::copy` into a vector and ranges of a vector.
use private_data_objects.Prelude.Lists.{length}
use Prim.Native.Nat.{ℕ, zero, suc, ◌+◌, ◌≤◌}
use mathlib.Core.Path.{◌≡◌, refl, ap}
use mathlib.Core.Logic.{◌⊎◌}
use mathlib.Core.List.{List, [], ◌∷◌, ◌++◌}
use native.Mathlib.Omega.{arith}

module _ {ℓ} {A : Type ℓ} where
  -- `std::copy(v.begin(), v.end(), xs.begin() + i)`, as far as `xs` goes.
  unfoldable pub overwrite : List A → ℕ → List A → List A
  overwrite [] i v = []
  overwrite (x ∷ xs) (suc i) v = x ∷ overwrite xs i v
  overwrite (x ∷ xs) zero [] = x ∷ xs
  overwrite (x ∷ xs) zero (b ∷ v) = b ∷ overwrite xs zero v

  -- The range of `n` elements from `xs.begin() + i`.
  unfoldable pub slice : List A → ℕ → ℕ → List A
  slice [] i n = []
  slice (x ∷ xs) (suc i) n = slice xs i n
  slice (x ∷ xs) zero zero = []
  slice (x ∷ xs) zero (suc n) = x ∷ slice xs zero n

  pub length-overwrite : (xs : List A) (i : ℕ) (v : List A) → length (overwrite xs i v) ≡ length xs
  unfolding overwrite
  length-overwrite [] i v = refl
  length-overwrite (x ∷ xs) (suc i) v = ap suc (length-overwrite xs i v)
  length-overwrite (x ∷ xs) zero [] = refl
  length-overwrite (x ∷ xs) zero (b ∷ v) = ap suc (length-overwrite xs zero v)

  pub length-slice : (xs : List A) (i n : ℕ) → i + n ≤ length xs → length (slice xs i n) ≡ n
  unfolding slice
  length-slice [] i n h = omega arith
  length-slice (x ∷ xs) (suc i) n h = length-slice xs i n (omega arith)
  length-slice (x ∷ xs) zero zero h = refl
  length-slice (x ∷ xs) zero (suc n) h = ap suc (length-slice xs zero n (omega arith))

  pub slice-overwrite_self :
      (xs : List A) (i : ℕ) (v : List A)
      → i + length v ≤ length xs
      → slice (overwrite xs i v) i (length v) ≡ v
  unfolding overwrite slice
  slice-overwrite_self [] i [] h = refl
  slice-overwrite_self [] i (b ∷ v) h = absurd (omega arith)
  slice-overwrite_self (x ∷ xs) (suc i) v h = slice-overwrite_self xs i v (omega arith)
  slice-overwrite_self (x ∷ xs) zero [] h = refl
  slice-overwrite_self (x ∷ xs) zero (b ∷ v) h =
      ap (λ r. b ∷ r) (slice-overwrite_self xs zero v (omega arith))

  slice-zero : (xs : List A) (i : ℕ) → slice xs i 0 ≡ []
  unfolding slice
  slice-zero [] i = refl
  slice-zero (x ∷ xs) zero = refl
  slice-zero (x ∷ xs) (suc i) = slice-zero xs i

  -- A range that ends before the write, or begins behind it, is not changed.
  pub slice-overwrite_apart :
      (xs : List A) (i j n : ℕ) (v : List A)
      → (j + n ≤ i) ⊎ (i + length v ≤ j)
      → slice (overwrite xs i v) j n ≡ slice xs j n
  unfolding overwrite slice
  slice-overwrite_apart [] i j n v h = refl
  slice-overwrite_apart (x ∷ xs) zero j n [] h = refl
  slice-overwrite_apart (x ∷ xs) (suc i) (suc j) n v h =
      slice-overwrite_apart xs i j n v (omega arith)
  slice-overwrite_apart (x ∷ xs) (suc i) zero zero v h = refl
  slice-overwrite_apart (x ∷ xs) (suc i) zero (suc n) v h =
      ap (λ r. x ∷ r) (slice-overwrite_apart xs i zero n v (omega arith))
  slice-overwrite_apart (x ∷ xs) zero (suc j) n (b ∷ v) h =
      slice-overwrite_apart xs zero j n v (omega arith)
  slice-overwrite_apart (x ∷ xs) zero zero zero (b ∷ v) h = refl
  slice-overwrite_apart (x ∷ xs) zero zero (suc n) (b ∷ v) h = absurd (omega arith)

  -- A write at the beginning leaves the written elements in front.
  pub overwrite-prefix :
      (xs v : List A) → length v ≤ length xs → (r : List A) × (overwrite xs 0 v ≡ v ++ r)
  unfolding overwrite
  overwrite-prefix [] [] h = ([], refl)
  overwrite-prefix [] (b ∷ v) h = absurd (omega arith)
  overwrite-prefix (x ∷ xs) [] h = (x ∷ xs, refl)
  overwrite-prefix (x ∷ xs) (b ∷ v) h =
      let (r, e) = overwrite-prefix xs v (omega arith) in (r, ap (λ l. b ∷ l) e)

  pub slice_all : (xs : List A) → slice xs 0 (length xs) ≡ xs
  unfolding slice
  slice_all [] = refl
  slice_all (x ∷ xs) = ap (λ l. x ∷ l) (slice_all xs)

  -- The first part of a concatenation, and what stands behind it.
  pub slice-append_left : (xs ys : List A) (n : ℕ) → length xs ≡ n → slice (xs ++ ys) 0 n ≡ xs
  unfolding slice
  slice-append_left [] ys n e = rw (← e) (slice-zero ys 0)
  slice-append_left (x ∷ xs) ys zero e = absurd (omega arith)
  slice-append_left (x ∷ xs) ys (suc n) e =
      ap (λ l. x ∷ l) (slice-append_left xs ys n (omega arith))

  pub slice-append_right :
      (xs ys : List A) (i m n : ℕ) → i ≡ length xs + m → slice (xs ++ ys) i n ≡ slice ys m n
  unfolding slice
  slice-append_right [] ys i m n e = let e' : i ≡ m = omega arith in rw e'
  slice-append_right (x ∷ xs) ys zero m n e = absurd (omega arith)
  slice-append_right (x ∷ xs) ys (suc i) m n e = slice-append_right xs ys i m n (omega arith)

  pub slice_rest :
      (xs ys : List A) (i n : ℕ) → i ≡ length xs → n ≡ length ys → slice (xs ++ ys) i n ≡ ys
  slice_rest xs ys i n e d = rw (slice-append_right xs ys i 0 n (omega arith), d) (slice_all ys)
