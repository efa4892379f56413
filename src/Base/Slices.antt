-- ===== src/Base/Slices.antt =====
-- Laws of `take`, `drop`, `get_or` and `set` along a list.
use Prim.Native.Nat.{ℕ, zero, suc, ◌+◌, ◌≤◌, ◌<◌}
use mathlib.Core.Path.{◌≡◌, refl, ap, sym, ◌∙◌}
use mathlib.Core.List.{List, [], ◌∷◌, ◌++◌}
use native.Mathlib.Omega.{arith}
use iol_hat.Base.Lists.{length, get_or, set, take, drop, overwrite, take-overwrite_block}

module _ {ℓ} {A : Type ℓ} where
  pub get_or-drop :
      (xs : List A) (i k : ℕ) (d : A) {n : ℕ} → n ≡ i + k → get_or xs n d ≡ get_or (drop i xs) k d
  get_or-drop [] zero k d {n} e = refl
  get_or-drop [] (suc i) k d {n} e = refl
  get_or-drop (x ∷ xs) zero k d {n} e = ap (λ j. get_or (x ∷ xs) j d) (omega arith)
  get_or-drop (x ∷ xs) (suc i) k d {n = zero} e = absurd (omega arith)
  get_or-drop (x ∷ xs) (suc i) k d {n = suc n} e = get_or-drop xs i k d (omega arith)

  pub drop-drop : (xs : List A) (i k : ℕ) {n : ℕ} → n ≡ i + k → drop n xs ≡ drop k (drop i xs)
  drop-drop [] zero k {n} e = ap (λ j. drop j []) (omega arith)
  drop-drop [] (suc i) zero {n = zero} e = refl
  drop-drop [] (suc i) zero {n = suc n} e = refl
  drop-drop [] (suc i) (suc k) {n = zero} e = refl
  drop-drop [] (suc i) (suc k) {n = suc n} e = refl
  drop-drop (x ∷ xs) zero k {n} e = ap (λ j. drop j (x ∷ xs)) (omega arith)
  drop-drop (x ∷ xs) (suc i) k {n = zero} e = absurd (omega arith)
  drop-drop (x ∷ xs) (suc i) k {n = suc n} e = drop-drop xs i k (omega arith)

  pub take-append : (xs ys : List A) {n : ℕ} → n ≡ length xs → take n (xs ++ ys) ≡ xs
  take-append [] ys {n = zero} e = refl
  take-append [] ys {n = suc n} e = absurd (omega arith)
  take-append (x ∷ xs) ys {n = zero} e = absurd (omega arith)
  take-append (x ∷ xs) ys {n = suc n} e = ap (λ zs. x ∷ zs) (take-append xs ys (omega arith))

  pub drop-append : (xs ys : List A) {n : ℕ} → n ≡ length xs → drop n (xs ++ ys) ≡ ys
  drop-append [] ys {n = zero} e = refl
  drop-append [] ys {n = suc n} e = absurd (omega arith)
  drop-append (x ∷ xs) ys {n = zero} e = absurd (omega arith)
  drop-append (x ∷ xs) ys {n = suc n} e = drop-append xs ys (omega arith)

  -- A prefix of known length is all of a list that was cut there.
  pub take-drop_split : (xs : List A) (n : ℕ) → take n xs ++ drop n xs ≡ xs
  take-drop_split [] zero = refl
  take-drop_split [] (suc n) = refl
  take-drop_split (x ∷ xs) zero = refl
  take-drop_split (x ∷ xs) (suc n) = ap (λ zs. x ∷ zs) (take-drop_split xs n)

  -- A write at the end of a prefix extends it.
  pub take-set :
      (xs : List A) (i : ℕ) (v : A) {n : ℕ}
      → n ≡ i + 1
      → i < length xs
      → take n (set xs i v) ≡ take i xs ++ (v ∷ [])
  take-set [] i v e h = absurd (omega arith)
  take-set (x ∷ xs) zero v {n = zero} e h = absurd (omega arith)
  take-set (x ∷ xs) zero v {n = suc zero} e h = refl
  take-set (x ∷ xs) zero v {n = suc (suc n)} e h = absurd (omega arith)
  take-set (x ∷ xs) (suc i) v {n = zero} e h = absurd (omega arith)
  take-set (x ∷ xs) (suc i) v {n = suc n} e h =
      ap (λ zs. x ∷ zs) (take-set xs i v (omega arith) (omega arith))

  -- A block is copied item by item.
  pub overwrite-set :
      (xs : List A) (i : ℕ) (y : A) (ys : List A)
      → overwrite xs i (y ∷ ys) ≡ overwrite (set xs i y) (suc i) ys
  overwrite-set [] i y ys = refl
  overwrite-set (x ∷ xs) zero y ys = refl
  overwrite-set (x ∷ xs) (suc i) y ys = ap (λ zs. x ∷ zs) (overwrite-set xs i y ys)

  pub overwrite_none : (xs : List A) (i : ℕ) → overwrite xs i [] ≡ xs
  overwrite_none [] i = refl
  overwrite_none (x ∷ xs) zero = refl
  overwrite_none (x ∷ xs) (suc i) = ap (λ zs. x ∷ zs) (overwrite_none xs i)

  -- What stands behind a copied block stays.
  pub get_or-overwrite :
      (xs : List A) (i k : ℕ) (ys : List A) (d : A)
      → i + length ys ≤ k
      → get_or (overwrite xs i ys) k d ≡ get_or xs k d
  get_or-overwrite [] i k ys d h = refl
  get_or-overwrite (x ∷ xs) zero k [] d h = refl
  get_or-overwrite (x ∷ xs) zero zero (y ∷ ys) d h = absurd (omega arith)
  get_or-overwrite (x ∷ xs) zero (suc k) (y ∷ ys) d h =
      get_or-overwrite xs zero k ys d (omega arith)
  get_or-overwrite (x ∷ xs) (suc i) zero ys d h = absurd (omega arith)
  get_or-overwrite (x ∷ xs) (suc i) (suc k) ys d h = get_or-overwrite xs i k ys d (omega arith)

  pub get_or-overwrite_in :
      (xs : List A) (k : ℕ) (ys : List A) (d : A)
      → k < length ys
      → length ys ≤ length xs
      → get_or (overwrite xs 0 ys) k d ≡ get_or ys k d
  get_or-overwrite_in xs k [] d h l = absurd (omega arith)
  get_or-overwrite_in [] k (y ∷ ys) d h l = absurd (omega arith)
  get_or-overwrite_in (x ∷ xs) zero (y ∷ ys) d h l = refl
  get_or-overwrite_in (x ∷ xs) (suc k) (y ∷ ys) d h l =
      get_or-overwrite_in xs k ys d (omega arith) (omega arith)

  pub get_or_outside : (xs : List A) (k : ℕ) (d : A) → length xs ≤ k → get_or xs k d ≡ d
  get_or_outside [] k d h = refl
  get_or_outside (x ∷ xs) zero d h = absurd (omega arith)
  get_or_outside (x ∷ xs) (suc k) d h = get_or_outside xs k d (omega arith)

  -- A block that was copied is read back.
  pub slice-overwrite :
      (xs ys : List A) (i n : ℕ)
      → n ≡ length ys
      → i + n ≤ length xs
      → take n (drop i (overwrite xs i ys)) ≡ ys
  slice-overwrite xs ys zero n e h =
      take-overwrite_block xs 0 n ys (omega (arith, e)) (omega (arith, h))
  slice-overwrite [] [] (suc i) zero e h = refl
  slice-overwrite [] ys (suc i) (suc n) e h = absurd (omega arith)
  slice-overwrite [] (y ∷ ys) (suc i) zero e h = absurd (omega arith)
  slice-overwrite (x ∷ xs) ys (suc i) n e h = slice-overwrite xs ys i n e (omega arith)

  -- What stands before a copied block is read as before.
  pub slice-overwrite_before :
      (xs ys : List A) (i n k : ℕ)
      → i + n ≤ k
      → take n (drop i (overwrite xs k ys)) ≡ take n (drop i xs)
  slice-overwrite_before [] ys i n k h = refl
  slice-overwrite_before (x ∷ xs) ys zero zero k h = refl
  slice-overwrite_before (x ∷ xs) ys zero (suc n) zero h = absurd (omega arith)
  slice-overwrite_before (x ∷ xs) ys zero (suc n) (suc k) h =
      ap (λ zs. x ∷ zs) (slice-overwrite_before xs ys zero n k (omega arith))
  slice-overwrite_before (x ∷ xs) ys (suc i) n zero h = absurd (omega arith)
  slice-overwrite_before (x ∷ xs) ys (suc i) n (suc k) h =
      slice-overwrite_before xs ys i n k (omega arith)

  -- Slices that follow each other.
  pub take-slice :
      (xs : List A) (i n : ℕ) {m : ℕ} → m ≡ i + n → take m xs ≡ take i xs ++ take n (drop i xs)
  take-slice xs zero n {m} e = ap (λ k. take k xs) (omega (arith, e))
  take-slice [] (suc i) n {m = zero} e = absurd (omega arith)
  take-slice [] (suc i) zero {m = suc m} e = refl
  take-slice [] (suc i) (suc n) {m = suc m} e = refl
  take-slice (x ∷ xs) (suc i) n {m = zero} e = absurd (omega arith)
  take-slice (x ∷ xs) (suc i) n {m = suc m} e = ap (λ zs. x ∷ zs) (take-slice xs i n (omega arith))

  pub take-take : (n m : ℕ) (xs : List A) → n ≤ m → take n (take m xs) ≡ take n xs
  take-take zero m xs h = refl
  take-take (suc n) zero xs h = absurd (omega arith)
  take-take (suc n) (suc m) [] h = refl
  take-take (suc n) (suc m) (x ∷ xs) h = ap (λ ys. x ∷ ys) (take-take n m xs (omega arith))

  pub get_or-take : (xs : List A) (i n : ℕ) (d : A) → i < n → get_or (take n xs) i d ≡ get_or xs i d
  get_or-take xs i zero d h = absurd (omega arith)
  get_or-take [] i (suc n) d h = refl
  get_or-take (x ∷ xs) zero (suc n) d h = refl
  get_or-take (x ∷ xs) (suc i) (suc n) d h = get_or-take xs i n d (omega arith)

  -- Lists that agree up to an index agree at each earlier one.
  pub get_or_prefix :
      (xs ys : List A) (n i : ℕ) (d : A)
      → take n xs ≡ take n ys
      → i < n
      → get_or xs i d ≡ get_or ys i d
  get_or_prefix xs ys n i d e h =
      sym (get_or-take xs i n d h) ∙ ap (λ zs. get_or zs i d) e ∙ get_or-take ys i n d h

  -- A shorter prefix of what agrees.
  pub take_shorter :
      (xs ys : List A) (n m : ℕ) → n ≤ m → take m xs ≡ take m ys → take n xs ≡ take n ys
  take_shorter xs ys n m h e = sym (take-take n m xs h) ∙ ap (take n) e ∙ take-take n m ys h

  pub take-drop_swap :
      (xs : List A) (i n : ℕ) {m : ℕ} → m ≡ i + n → take n (drop i xs) ≡ drop i (take m xs)
  take-drop_swap xs zero n {m} e = ap (λ k. take k xs) (omega (arith, e))
  take-drop_swap [] (suc i) zero {m = zero} e = absurd (omega arith)
  take-drop_swap [] (suc i) zero {m = suc m} e = refl
  take-drop_swap [] (suc i) (suc n) {m = zero} e = absurd (omega arith)
  take-drop_swap [] (suc i) (suc n) {m = suc m} e = refl
  take-drop_swap (x ∷ xs) (suc i) n {m = zero} e = absurd (omega arith)
  take-drop_swap (x ∷ xs) (suc i) n {m = suc m} e = take-drop_swap xs i n (omega arith)
