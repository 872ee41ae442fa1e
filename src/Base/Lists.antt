-- ===== src/Base/Lists.antt =====
-- Go slices as lists: lengths and cuts by native numbers, and `copy`.
use Prim.Native.Nat.{ℕ, zero, suc, ◌+◌, ◌-◌, ◌≤◌, min}
use mathlib.Core.Path.{◌≡◌, refl, ap, ◌∙◌}
use mathlib.Core.List.{List, [], ◌∷◌, ◌++◌}
use native.Mathlib.Omega.{arith}

module _ {ℓ} {A : Type ℓ} where
  abbrev pub length : List A → ℕ
  length [] = 0
  length (x ∷ xs) = suc (length xs)

  -- xs[:n], for n in range
  abbrev pub take : ℕ → List A → List A
  take zero xs = []
  take (suc n) [] = []
  take (suc n) (x ∷ xs) = x ∷ take n xs

  -- xs[n:], for n in range
  abbrev pub drop : ℕ → List A → List A
  drop zero xs = xs
  drop (suc n) [] = []
  drop (suc n) (x ∷ xs) = drop n xs

  abbrev pub replicate : ℕ → A → List A
  replicate zero a = []
  replicate (suc n) a = a ∷ replicate n a

  abbrev pub concat : List (List A) → List A
  concat [] = []
  concat (c ∷ cs) = c ++ concat cs

  abbrev pub All {κ} : (A → Type κ) → List A → Type κ
  All P [] = Unit
  All P (x ∷ xs) = P x × All P xs

  -- the slice `dst` after `copy(dst[i:], src)`
  pub copy_at : ℕ → List A → List A → List A
  copy_at i src [] = []
  copy_at zero [] (d ∷ dst) = d ∷ dst
  copy_at zero (x ∷ src) (d ∷ dst) = x ∷ copy_at zero src dst
  copy_at (suc i) src (d ∷ dst) = d ∷ copy_at i src dst

  -- how many elements `copy(dst[i:], src[j:])` moves
  abbrev pub copied : ℕ → List A → ℕ → List A → ℕ
  copied i dst j src = min (length dst - i) (length src - j)

module _ {ℓ} {A : Type ℓ} where
  pub length-append : (xs ys : List A) → length (xs ++ ys) ≡ length xs + length ys
  length-append [] ys = omega arith
  length-append (x ∷ xs) ys = omega (arith, length-append xs ys)

  pub length-take : (n : ℕ) (xs : List A) → length (take n xs) ≡ min n (length xs)
  length-take zero xs = omega arith
  length-take (suc n) [] = omega arith
  length-take (suc n) (x ∷ xs) = omega (arith, length-take n xs)

  pub length-drop : (n : ℕ) (xs : List A) → length (drop n xs) ≡ length xs - n
  length-drop zero xs = omega arith
  length-drop (suc n) [] = omega arith
  length-drop (suc n) (x ∷ xs) = omega (arith, length-drop n xs)

  pub length-replicate : (n : ℕ) (a : A) → length (replicate n a) ≡ n
  length-replicate zero a = refl
  length-replicate (suc n) a = ap suc (length-replicate n a)

  pub take-append-drop : (n : ℕ) (xs : List A) → take n xs ++ drop n xs ≡ xs
  take-append-drop zero xs = refl
  take-append-drop (suc n) [] = refl
  take-append-drop (suc n) (x ∷ xs) = ap (◌∷◌ x) (take-append-drop n xs)

  pub take_all : (n : ℕ) (xs : List A) → length xs ≤ n → take n xs ≡ xs
  take_all zero [] h = refl
  take_all zero (x ∷ xs) h = absurd (omega arith)
  take_all (suc n) [] h = refl
  take_all (suc n) (x ∷ xs) h = ap (◌∷◌ x) (take_all n xs (omega arith))

  pub drop_all : (n : ℕ) (xs : List A) → length xs ≤ n → drop n xs ≡ []
  drop_all zero [] h = refl
  drop_all zero (x ∷ xs) h = absurd (omega arith)
  drop_all (suc n) [] h = refl
  drop_all (suc n) (x ∷ xs) h = drop_all n xs (omega arith)

  pub take-append : (n : ℕ) (xs ys : List A) → length xs ≡ n → take n (xs ++ ys) ≡ xs
  take-append zero [] ys h = refl
  take-append zero (x ∷ xs) ys h = absurd (omega arith)
  take-append (suc n) [] ys h = absurd (omega arith)
  take-append (suc n) (x ∷ xs) ys h = ap (◌∷◌ x) (take-append n xs ys (omega arith))

  pub drop-append : (n : ℕ) (xs ys : List A) → length xs ≡ n → drop n (xs ++ ys) ≡ ys
  drop-append zero [] ys h = refl
  drop-append zero (x ∷ xs) ys h = absurd (omega arith)
  drop-append (suc n) [] ys h = absurd (omega arith)
  drop-append (suc n) (x ∷ xs) ys h = drop-append n xs ys (omega arith)

  pub drop-drop : (m n k : ℕ) (xs : List A) → m + n ≡ k → drop n (drop m xs) ≡ drop k xs
  drop-drop zero n k xs e = ap (λ i. drop i xs) (omega arith)
  drop-drop (suc m) zero zero [] e = refl
  drop-drop (suc m) zero (suc k) [] e = refl
  drop-drop (suc m) (suc n) zero [] e = refl
  drop-drop (suc m) (suc n) (suc k) [] e = refl
  drop-drop (suc m) n zero (x ∷ xs) e = absurd (omega arith)
  drop-drop (suc m) n (suc k) (x ∷ xs) e = drop-drop m n k xs (omega arith)

module _ {ℓ} {A : Type ℓ} where
  pub length-copy_at : (i : ℕ) (src dst : List A) → length (copy_at i src dst) ≡ length dst
  unfolding copy_at
  length-copy_at i src [] = refl
  length-copy_at zero [] (d ∷ dst) = refl
  length-copy_at zero (x ∷ src) (d ∷ dst) = ap suc (length-copy_at zero src dst)
  length-copy_at (suc i) src (d ∷ dst) = ap suc (length-copy_at i src dst)

  take-copy_zero :
      (n : ℕ) (src dst : List A)
      → n ≤ length src
      → n ≤ length dst
      → take n (copy_at zero src dst) ≡ take n src
  unfolding copy_at
  take-copy_zero zero src dst h g = refl
  take-copy_zero (suc n) [] dst h g = absurd (omega arith)
  take-copy_zero (suc n) (x ∷ src) [] h g = absurd (omega arith)
  take-copy_zero (suc n) (x ∷ src) (d ∷ dst) h g =
      ap (◌∷◌ x) (take-copy_zero n src dst (omega arith) (omega arith))

  -- What lies before the copied part and the copied part itself.
  pub take-copy_at :
      (i n k : ℕ) (src dst : List A)
      → i + n ≡ k
      → n ≤ length src
      → k ≤ length dst
      → take k (copy_at i src dst) ≡ take i dst ++ take n src
  unfolding copy_at
  take-copy_at zero n k src dst e h g =
      ap (λ j. take j (copy_at zero src dst)) (omega arith)
      ∙ take-copy_zero n src dst h (omega arith)
  take-copy_at (suc i) n k src [] e h g = absurd (omega arith)
  take-copy_at (suc i) n zero src (d ∷ dst) e h g = absurd (omega arith)
  take-copy_at (suc i) n (suc k) src (d ∷ dst) e h g =
      ap (◌∷◌ d) (take-copy_at i n k src dst (omega arith) h (omega arith))
