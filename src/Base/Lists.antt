-- ===== src/Base/Lists.antt =====
-- Lists measured and indexed by native numbers, under the library's names: C arrays.
use Prim.Native.Nat.{ℕ, zero, suc, ◌+◌, ◌-◌, ◌≤◌, min}
use mathlib.Core.Path.{◌≡◌, refl, ap}
use mathlib.Core.List.{List, [], ◌∷◌, ◌++◌}
use native.Mathlib.Omega.{arith}

module _ {ℓ} {A : Type ℓ} where
  abbrev pub length : List A → ℕ
  length [] = 0
  length (x ∷ xs) = suc (length xs)

  abbrev pub get_or : List A → ℕ → A → A
  get_or [] i d = d
  get_or (x ∷ xs) zero d = x
  get_or (x ∷ xs) (suc i) d = get_or xs i d

  -- A write out of bounds changes nothing.
  abbrev pub set : List A → ℕ → A → List A
  set [] i v = []
  set (x ∷ xs) zero v = v ∷ xs
  set (x ∷ xs) (suc i) v = x ∷ set xs i v

  abbrev pub take : ℕ → List A → List A
  take zero xs = []
  take (suc n) [] = []
  take (suc n) (x ∷ xs) = x ∷ take n xs

  abbrev pub drop : ℕ → List A → List A
  drop zero xs = xs
  drop (suc n) [] = []
  drop (suc n) (x ∷ xs) = drop n xs

  abbrev pub replicate : ℕ → A → List A
  replicate zero a = []
  replicate (suc n) a = a ∷ replicate n a

  -- `memcpy`: the items of the second list over those of the first, from index `i` on.
  abbrev pub overwrite : List A → ℕ → List A → List A
  overwrite [] i ys = []
  overwrite (x ∷ xs) (suc i) ys = x ∷ overwrite xs i ys
  overwrite (x ∷ xs) zero [] = x ∷ xs
  overwrite (x ∷ xs) zero (y ∷ ys) = y ∷ overwrite xs zero ys

module _ {ℓ} {A : Type ℓ} where
  pub length-append : (xs ys : List A) → length (xs ++ ys) ≡ length xs + length ys
  length-append [] ys = omega arith
  length-append (x ∷ xs) ys = omega (arith, length-append xs ys)

  pub length-set : (xs : List A) (i : ℕ) (v : A) → length (set xs i v) ≡ length xs
  length-set [] i v = refl
  length-set (x ∷ xs) zero v = refl
  length-set (x ∷ xs) (suc i) v = ap suc (length-set xs i v)

  pub length-take : (n : ℕ) (xs : List A) → length (take n xs) ≡ min n (length xs)
  length-take zero xs = omega arith
  length-take (suc n) [] = omega arith
  length-take (suc n) (x ∷ xs) = omega (arith, length-take n xs)

  pub length-drop : (n : ℕ) (xs : List A) → length (drop n xs) ≡ length xs - n
  length-drop zero xs = omega arith
  length-drop (suc n) [] = omega arith
  length-drop (suc n) (x ∷ xs) = omega (arith, length-drop n xs)

  pub length-replicate : (n : ℕ) (a : A) → length (replicate n a) ≡ n
  length-replicate zero a = refl
  length-replicate (suc n) a = ap suc (length-replicate n a)

  pub length-overwrite :
      (xs : List A) (i : ℕ) (ys : List A) → length (overwrite xs i ys) ≡ length xs
  length-overwrite [] i ys = refl
  length-overwrite (x ∷ xs) (suc i) ys = ap suc (length-overwrite xs i ys)
  length-overwrite (x ∷ xs) zero [] = refl
  length-overwrite (x ∷ xs) zero (y ∷ ys) = ap suc (length-overwrite xs zero ys)

  pub take_all : (n : ℕ) (xs : List A) → length xs ≤ n → take n xs ≡ xs
  take_all zero [] h = refl
  take_all zero (x ∷ xs) h = absurd (omega arith)
  take_all (suc n) [] h = refl
  take_all (suc n) (x ∷ xs) h = ap (λ ys. x ∷ ys) (take_all n xs (omega arith))

  -- What stands before a copied block stays.
  pub take-overwrite : (xs : List A) (i : ℕ) (ys : List A) → take i (overwrite xs i ys) ≡ take i xs
  take-overwrite [] zero ys = refl
  take-overwrite [] (suc i) ys = refl
  take-overwrite (x ∷ xs) (suc i) ys = ap (λ zs. x ∷ zs) (take-overwrite xs i ys)
  take-overwrite (x ∷ xs) zero ys = refl

  -- The prefix up to the end of a copied block: what stood before it, then the block.
  pub take-overwrite_block :
      (xs : List A) (i n : ℕ) (ys : List A)
      → n ≡ i + length ys
      → n ≤ length xs
      → take n (overwrite xs i ys) ≡ take i xs ++ ys
  take-overwrite_block [] zero zero [] e h = refl
  take-overwrite_block [] zero (suc n) [] e h = absurd (omega arith)
  take-overwrite_block [] zero n (y ∷ ys) e h = absurd (omega arith)
  take-overwrite_block [] (suc i) n ys e h = absurd (omega arith)
  take-overwrite_block (x ∷ xs) (suc i) zero ys e h = absurd (omega arith)
  take-overwrite_block (x ∷ xs) (suc i) (suc n) ys e h =
      ap (λ zs. x ∷ zs) (take-overwrite_block xs i n ys (omega arith) (omega arith))
  take-overwrite_block (x ∷ xs) zero zero [] e h = refl
  take-overwrite_block (x ∷ xs) zero (suc n) [] e h = absurd (omega arith)
  take-overwrite_block (x ∷ xs) zero zero (y ∷ ys) e h = absurd (omega arith)
  take-overwrite_block (x ∷ xs) zero (suc n) (y ∷ ys) e h =
      ap (λ zs. y ∷ zs) (take-overwrite_block xs zero n ys (omega arith) (omega arith))
