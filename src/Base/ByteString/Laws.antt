-- ===== src/Base/ByteString/Laws.antt =====
-- Laws of byte strings: comparison decides equality, decimal numerals are injective.
use Prim.Native.Nat.{ℕ, zero, suc, ◌+◌, ◌-◌, ◌*◌, ◌/◌, ◌%◌, ◌<◌}
use mathlib.Core.Path.{◌≡◌, refl, sym, ap, ◌∙◌}
use mathlib.Core.Logic.{◌≢◌}
use mathlib.Core.Bool.{true, false}
use mathlib.Core.List.{[], ◌∷◌, ◌++◌}
use native.Mathlib.Omega.{arith}
use webcb.Base.Tests.{ltb}
use webcb.Base.Lists.{length, length-append, drop-append, All}
use webcb.Base.Tests.{Bool-cases}
use mathlib.Core.Logic.{inl, inr}
use webcb.Base.ByteString.Defs.{
  Bytes, bytes_eq, has_prefix, has_suffix, before_slash, decimal_from, decimal, lt_bytes,
}

pub bytes_eq_refl : (xs : Bytes) → bytes_eq xs xs ≡ true
unfolding bytes_eq
bytes_eq_refl [] = refl
bytes_eq_refl (x ∷ xs) = ground (arith, bytes_eq_refl xs)

pub eq_of_bytes_eq : (xs ys : Bytes) → bytes_eq xs ys ≡ true → xs ≡ ys
unfolding bytes_eq
eq_of_bytes_eq [] [] h = refl
eq_of_bytes_eq [] (y ∷ ys) h = absurd (ground arith)
eq_of_bytes_eq (x ∷ xs) [] h = absurd (ground arith)
eq_of_bytes_eq (x ∷ xs) (y ∷ ys) h = ground (arith, eq_of_bytes_eq xs ys)

pub bytes_eq-flip : (xs ys : Bytes) → bytes_eq xs ys ≡ false → bytes_eq ys xs ≡ false
unfolding bytes_eq
bytes_eq-flip [] [] h = h
bytes_eq-flip [] (y ∷ ys) h = refl
bytes_eq-flip (x ∷ xs) [] h = refl
bytes_eq-flip (x ∷ xs) (y ∷ ys) h = ground (arith, bytes_eq-flip xs ys)

-- the number that decimal digits stand for, after the number `a`
value : ℕ → Bytes → ℕ
value a [] = a
value a (d ∷ ds) = value (a * 10 + (d - 48)) ds

value-decimal_from :
    (fuel n : ℕ) (acc : Bytes) → n < fuel → value 0 (decimal_from fuel n acc) ≡ value n acc
unfolding value decimal_from
value-decimal_from zero n acc h = absurd (omega arith)
value-decimal_from (suc fuel) n acc h = ground (
  arith,
  value-decimal_from fuel (n / 10) ((48 + n % 10) ∷ acc),
  ap (λ a. value a acc) (id_small n),
  ap (λ a. value a acc) (id_split n),
)
  where
    id_small : (n : ℕ) → 0 * 10 + (48 + n - 48) ≡ n
    id_small n = omega arith

    id_split : (n : ℕ) → n / 10 * 10 + (48 + n % 10 - 48) ≡ n
    id_split n = omega arith

-- Two numbers with the same numeral are the same.
pub decimal_injective : (m n : ℕ) → decimal m ≡ decimal n → m ≡ n
unfolding decimal value
decimal_injective m n h =
    sym (value-decimal_from (suc m) m [] (omega arith))
    ∙ ap (value 0) h
    ∙ value-decimal_from (suc n) n [] (omega arith)

abbrev pub NoSlash : Bytes → Type 0
NoSlash = All (λ d. d ≢ b'/')

decimal_from-NoSlash : (fuel n : ℕ) (acc : Bytes) → NoSlash acc → NoSlash (decimal_from fuel n acc)
unfolding decimal_from
decimal_from-NoSlash zero n acc h = h
decimal_from-NoSlash (suc fuel) n acc h = elim (Bool-cases (ltb n 10)) [
  | inl small ↦ rw small (omega arith, h)
  | inr big ↦ rw big (decimal_from-NoSlash fuel (n / 10) ((48 + n % 10) ∷ acc) (omega arith, h))
]

pub decimal-NoSlash : (n : ℕ) → NoSlash (decimal n)
unfolding decimal
decimal-NoSlash n = decimal_from-NoSlash (suc n) n [] tt

-- What stands before the first slash.
pub before_slash-append : (xs ys : Bytes) → NoSlash xs → before_slash (xs ++ b'/' ∷ ys) ≡ xs
unfolding before_slash
before_slash-append [] ys h = refl
before_slash-append (x ∷ xs) ys h = ground (arith, h.0, before_slash-append xs ys h.1)

pub has_prefix-append : (xs ys : Bytes) → has_prefix (xs ++ ys) xs ≡ true
unfolding has_prefix
has_prefix-append [] [] = refl
has_prefix-append [] (y ∷ ys) = refl
has_prefix-append (x ∷ xs) ys = ground (arith, has_prefix-append xs ys)

-- A prefix that ends in its only slash decides what stands before the first slash.
pub prefix_before_slash :
    (s xs : Bytes) → NoSlash xs → has_prefix s (xs ++ b'/' ∷ []) ≡ true → before_slash s ≡ xs
unfolding has_prefix before_slash
prefix_before_slash [] [] n h = absurd (ground arith)
prefix_before_slash [] (x ∷ xs) n h = absurd (ground arith)
prefix_before_slash (y ∷ s) [] n h = ground arith
prefix_before_slash (y ∷ s) (x ∷ xs) n h = ground (arith, n.0, prefix_before_slash s xs n.1)

pub lt_bytes_irrefl : (xs : Bytes) → lt_bytes xs xs ≡ true → ⊥
unfolding lt_bytes
lt_bytes_irrefl [] h = absurd (ground arith)
lt_bytes_irrefl (x ∷ xs) h = ground (arith, lt_bytes_irrefl xs)

pub lt_bytes_trans :
    (xs ys zs : Bytes) → lt_bytes xs ys ≡ true → lt_bytes ys zs ≡ true → lt_bytes xs zs ≡ true
unfolding lt_bytes
lt_bytes_trans xs [] zs h g = absurd (ground arith)
lt_bytes_trans xs (y ∷ ys) [] h g = absurd (ground arith)
lt_bytes_trans [] (y ∷ ys) (z ∷ zs) h g = refl
lt_bytes_trans (x ∷ xs) (y ∷ ys) (z ∷ zs) h g = ground (arith, lt_bytes_trans xs ys zs)

-- A common prefix does not matter.
pub lt_bytes-append_left :
    (ps xs ys : Bytes) → lt_bytes xs ys ≡ true → lt_bytes (ps ++ xs) (ps ++ ys) ≡ true
unfolding lt_bytes
lt_bytes-append_left [] xs ys h = h
lt_bytes-append_left (p ∷ ps) xs ys h = ground (arith, lt_bytes-append_left ps xs ys h)

-- Nor does what follows two different strings of one length.
pub lt_bytes-append_right :
    (xs ys us vs : Bytes)
    → length xs ≡ length ys
    → lt_bytes xs ys ≡ true
    → lt_bytes (xs ++ us) (ys ++ vs) ≡ true
unfolding lt_bytes
lt_bytes-append_right [] [] us vs e h = absurd (ground arith)
lt_bytes-append_right [] (y ∷ ys) us vs e h = absurd (omega arith)
lt_bytes-append_right (x ∷ xs) [] us vs e h = absurd (omega arith)
lt_bytes-append_right (x ∷ xs) (y ∷ ys) us vs e h =
    ground (arith, lt_bytes-append_right xs ys us vs)

pub prefix_has_slash : (s xs : Bytes) → NoSlash s → has_prefix s (xs ++ b'/' ∷ []) ≡ true → ⊥
unfolding has_prefix
prefix_has_slash [] [] n h = absurd (ground arith)
prefix_has_slash [] (x ∷ xs) n h = absurd (ground arith)
prefix_has_slash (y ∷ s) [] n h = n.0 (ground arith)
prefix_has_slash (y ∷ s) (x ∷ xs) n h = prefix_has_slash s xs n.1 (ground arith)

pub has_suffix-append : (xs ys : Bytes) → has_suffix (xs ++ ys) ys ≡ true
unfolding has_suffix
has_suffix-append xs ys =
    rw
      (
        length-append xs ys,
        not_shorter,
        drop-append (length xs + length ys - length ys) xs ys (omega arith),
      )
      (bytes_eq_refl ys)
  where
    not_shorter : ltb (length xs + length ys) (length ys) ≡ false
    not_shorter = ground arith
