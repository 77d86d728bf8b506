-- ===== src/Prelude/Slices.antt =====
-- Parts of lists that lie in a part of a longer one.
use Prim.Native.Nat.{ℕ, zero, suc, ◌+◌, ◌-◌, ◌≤◌}
use mathlib.Core.Path.{◌≡◌, refl, ap, sym}
use mathlib.Core.List.{List, [], ◌∷◌, ◌++◌}
use native.Mathlib.Omega.{arith}
use casacure.Prelude.Lists.{length, take, drop, slice, drop-add, drop-append, length-drop}

module _ {ℓ} {A : Type ℓ} where
  drop-prefix : (n : ℕ) (xs ys : List A) → n ≤ length xs → drop n (xs ++ ys) ≡ drop n xs ++ ys
  drop-prefix zero xs ys h = refl
  drop-prefix (suc n) [] ys h = absurd (omega arith)
  drop-prefix (suc n) (x ∷ xs) ys h = drop-prefix n xs ys (omega arith)

  take-prefix : (n : ℕ) (xs ys : List A) → n ≤ length xs → take n (xs ++ ys) ≡ take n xs
  take-prefix zero xs ys h = refl
  take-prefix (suc n) [] ys h = absurd (omega arith)
  take-prefix (suc n) (x ∷ xs) ys h = ap (λ t. x ∷ t) (take-prefix n xs ys (omega arith))

  take-nil : (n : ℕ) → take {A = A} n [] ≡ []
  take-nil zero = refl
  take-nil (suc n) = refl

  drop-take : (m n : ℕ) (xs : List A) → drop m (take n xs) ≡ take (n - m) (drop m xs)
  drop-take zero n xs = let e : n - 0 ≡ n = omega arith in rw e refl
  drop-take (suc m) zero xs = let e : 0 - suc m ≡ 0 = omega arith in rw e refl
  drop-take (suc m) (suc n) [] =
      let e : suc n - suc m ≡ n - m = omega arith in rw e (sym (take-nil (n - m)))
  drop-take (suc m) (suc n) (x ∷ xs) =
      let e : suc n - suc m ≡ n - m = omega arith in rw e (drop-take m n xs)

  take-take : (m n : ℕ) (xs : List A) → m ≤ n → take m (take n xs) ≡ take m xs
  take-take zero n xs h = refl
  take-take (suc m) zero xs h = absurd (omega arith)
  take-take (suc m) (suc n) [] h = refl
  take-take (suc m) (suc n) (x ∷ xs) h = ap (λ t. x ∷ t) (take-take m n xs (omega arith))

  -- A part of the first of two lists.
  pub slice-prefix :
      (xs ys : List A) (start n : ℕ)
      → start + n ≤ length xs
      → slice (xs ++ ys) start n ≡ slice xs start n
  slice-prefix xs ys start n h =
      rw (drop-prefix start xs ys (omega arith))
        (take-prefix n (drop start xs) ys (omega (arith, length-drop start xs)))

  -- A part of the second.
  pub slice-suffix :
      (xs ys : List A) (start n : ℕ) → slice (xs ++ ys) (length xs + start) n ≡ slice ys start n
  slice-suffix xs ys start n = rw (drop-add (length xs) start (xs ++ ys), drop-append xs ys) refl

  -- A part of a part.
  pub slice-slice :
      (xs : List A) (start n from m : ℕ)
      → from + m ≤ n
      → slice (slice xs start n) from m ≡ slice xs (start + from) m
  slice-slice xs start n from m h =
      rw (drop-take from n (drop start xs), ← drop-add start from xs)
        (take-take m (n - from) (drop (start + from) xs) (omega arith))
