-- ===== src/Command/Ui.antt =====
-- `formatDuration` of command/ui.go.
use webcb.Base.{
  ℕ, zero, suc, ◌*◌, subst, ◌/◌, ◌<◌, ◌≤◌, ◌≡◌, ◌⊎◌, inl, inr, refl, ◌∙◌, Bool, true, arith, Option,
  none, some, Bytes, ltb, Bool-cases, if◌then◌else◌,
}
use webcb.Base.Int.{ℤ, pos, negsuc}

-- `scale > d`
abbrev larger : ℕ → ℤ → Bool
larger scale (pos d) = ltb d scale
larger scale (negsuc d) = true

-- the loop, with at most so many rounds
pub scale_for : ℕ → ℕ → ℤ → Option ℕ
scale_for zero scale d = none
scale_for (suc rounds) scale d =
    let smaller = scale_for rounds (scale / 10) d in if larger scale d then smaller else some scale

-- `formatDuration`; `text` is what `d.Round(m).String()` gives.
pub format_duration : (ℤ → ℕ → Bytes) → ℕ → ℤ → Option Bytes
unfolding scale_for
format_duration text rounds d = elim (scale_for rounds 100_000_000_000 d) [
  | none ↦ none
  | some scale ↦ some (text d (scale / 100))
]

abbrev pub power : ℕ → ℕ
power zero = 1
power (suc k) = 10 * power k

tenth : (k : ℕ) → power (suc k) / 10 ≡ power k
tenth k = omega arith

power-same : (j k : ℕ) → j ≡ k → power j ≤ power k
power-same j k e = subst (λ (m : ℕ). power j ≤ power m) e (omega arith)

power-le : (j k : ℕ) → j ≤ k → power j ≤ power k
power-le j zero h = power-same j zero (omega arith)
power-le j (suc k) h = elim (Bool-cases (ltb j (suc k))) [
  | inl below ↦ omega (arith, power-le j k (ground arith))
  | inr same ↦ power-same j (suc k) (ground arith)
]

-- The power of ten, up to 100 seconds, that is the largest not above the duration.
pub record Largest (scale d : ℕ) : Type 0 where
  pub exponent : ℕ
  pub bounded : exponent ≤ 11
  pub is_power : scale ≡ power exponent
  pub fits : scale ≤ d
  pub maximal : (j : ℕ) → j ≤ 11 → power j ≤ d → power j ≤ scale

-- The scale for a duration: none fits 0.
abbrev pub Fitting : ℕ → ℕ → Type 0
Fitting scale d = Largest scale d ⊎ ((d ≡ 0) × (scale ≡ 0))

power-Largest :
    (k d : ℕ) → k ≤ 11 → power k ≤ d → (k ≡ 11) ⊎ (d < 10 * power k) → Largest (power k) d
power-Largest k d b f h = record {
  exponent = k;
  bounded = b;
  is_power = refl;
  fits = f;
  maximal = λ j l p. elim (Bool-cases (ltb k j)) [
    | inl above ↦ absurd (beyond j l p (ground arith) h)
    | inr q ↦ power-le j k (ground arith)
  ];
}
  where
    beyond : (j : ℕ) → j ≤ 11 → power j ≤ d → k < j → (k ≡ 11) ⊎ (d < 10 * power k) → ⊥
    beyond j l p n (inl e) = omega arith
    beyond j l p n (inr s) = omega (arith, power-le (suc k) j (omega arith))

smaller_scale :
    (rounds scale d : ℕ)
    → d < scale
    → scale_for (suc rounds) scale (pos d) ≡ scale_for rounds (scale / 10) (pos d)
unfolding scale_for
smaller_scale rounds scale d h = ground arith

this_scale : (rounds scale d : ℕ) → scale ≤ d → scale_for (suc rounds) scale (pos d) ≡ some scale
unfolding scale_for
this_scale rounds scale d h = ground arith

abbrev Found : Option ℕ → ℕ → Type 0
Found r d = (scale : ℕ) × (r ≡ some scale) × Fitting scale d

scale_for-Found :
    (k rounds d : ℕ)
    → suc k < rounds
    → k ≤ 11
    → (k ≡ 11) ⊎ (d < 10 * power k)
    → Found (scale_for rounds (power k) (pos d)) d
scale_for-Found k zero d l b h = absurd (omega arith)
scale_for-Found zero (suc zero) d l b h = absurd (omega arith)
scale_for-Found zero (suc (suc rounds)) d l b h = elim (Bool-cases (ltb d 1)) [
  | inl small ↦ (
    0,
    smaller_scale (suc rounds) 1 d (ground arith) ∙ this_scale rounds 0 d (omega arith),
    inr (ground arith, refl),
  )
  | inr large ↦
      (1, this_scale (suc rounds) 1 d (ground arith), inl (power-Largest zero d b (ground arith) h))
]
scale_for-Found (suc k) (suc rounds) d l b h = elim (Bool-cases (ltb d (power (suc k)))) [
  | inl small ↦
      rw (smaller_scale rounds (power (suc k)) d (ground arith), tenth k)
        (scale_for-Found k rounds d (omega arith) (omega arith) (inr (ground arith)))
  | inr large ↦ (
    power (suc k),
    this_scale rounds (power (suc k)) d (ground arith),
    inl (power-Largest (suc k) d b (ground arith) h),
  )
]

-- For a duration that is not negative, `formatDuration` ends, within 13 rounds. The scale is the
-- largest power of ten nanoseconds, from 1 to 100 seconds, that is not above the duration, or 0 for
-- the duration 0. It rounds to a hundredth of the scale.
pub format_duration-Found :
    (text : ℤ → ℕ → Bytes) (rounds d : ℕ)
    → 12 < rounds
    → (scale : ℕ) × (format_duration text rounds (pos d) ≡ some (text (pos d) (scale / 100)))
      × Fitting scale d
unfolding format_duration
format_duration-Found text rounds d l =
    let (scale, e, f) = scale_for-Found 11 rounds d l (omega arith) (inl refl) in
    (scale, rw (format_duration, e), f)

-- For a negative duration it does not end: no number of rounds is enough.
pub format_duration-negative :
    (text : ℤ → ℕ → Bytes) (rounds n : ℕ) → format_duration text rounds (negsuc n) ≡ none
unfolding format_duration scale_for
format_duration-negative text rounds n = rw (format_duration, endless rounds 100_000_000_000)
  where
    endless : (rounds scale : ℕ) → scale_for rounds scale (negsuc n) ≡ none
    endless zero scale = refl
    endless (suc rounds) scale = endless rounds (scale / 10)
