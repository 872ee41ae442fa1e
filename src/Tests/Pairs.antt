-- ===== src/Tests/Pairs.antt =====
-- Lists of keys and values in the order of the keys.
use webcb.Base.{
  ◌≡◌, refl, sym, ◌∙◌, ap, ap₂, subst, Bool, true, false, List, [], ◌∷◌, arith, Result, ok, err,
  Bytes, All, bytes_eq, bytes_eq_refl, eq_of_bytes_eq, lt_bytes, lt_bytes_irrefl, lt_bytes_trans,
  if◌then◌else◌, Bool-cases, inl, inr,
}
use webcb.Storage.Badger.{Get, found, missing, Item, In, Ascending}

abbrev pub Pairs : Type 0
Pairs = List (Bytes × Bytes)

abbrev pub lookup : Pairs → Bytes → Get
lookup [] k = missing
lookup ((j, v) ∷ m) k = if bytes_eq j k then found v else lookup m k

abbrev pub store : Bytes → Bytes → Pairs → Pairs
store k v [] = (k, v) ∷ []
store k v ((j, w) ∷ m) =
    let rest = store k v m in
    if bytes_eq j k then (k, v) ∷ m else if lt_bytes k j then (k, v) ∷ (j, w) ∷ m else (j, w) ∷ rest

abbrev pub keep : (Bytes → Bool) → Pairs → Pairs
keep p [] = []
keep p ((j, w) ∷ m) = let rest = keep p m in if p j then (j, w) ∷ rest else rest

abbrev pub listed : Pairs → List Item
listed [] = []
listed ((j, w) ∷ m) = (j, ok w) ∷ listed m

abbrev pub Sorted : Pairs → Type 0
Sorted [] = Unit
Sorted (x ∷ m) = All (λ y. lt_bytes x.0 y.0 ≡ true) m × Sorted m

lt_bytes_total : (x y : Bytes) → bytes_eq y x ≡ false → lt_bytes x y ≡ false → lt_bytes y x ≡ true
unfolding bytes_eq lt_bytes
lt_bytes_total [] [] h g = absurd (ground arith)
lt_bytes_total [] (b ∷ y) h g = absurd (ground arith)
lt_bytes_total (a ∷ x) [] h g = refl
lt_bytes_total (a ∷ x) (b ∷ y) h g = ground (arith, lt_bytes_total x y)

store-All :
    (P : Bytes × Bytes → Type 0) (k v : Bytes) (m : Pairs)
    → P (k, v)
    → All P m
    → All P (store k v m)
store-All P k v [] p h = (p, tt)
store-All P k v ((j, w) ∷ m) p h = elim (Bool-cases (bytes_eq j k)) [
  | inl e ↦ rw e (p, h.1)
  | inr e ↦ elim (Bool-cases (lt_bytes k j)) [
    | inl l ↦ rw (e, l) (p, h)
    | inr l ↦ rw (e, l) (h.0, store-All P k v m p h.1)
  ]
]

All-below :
    (k j : Bytes) (m : Pairs)
    → lt_bytes k j ≡ true
    → All (λ y. lt_bytes j y.0 ≡ true) m
    → All (λ y. lt_bytes k y.0 ≡ true) m
All-below k j [] l h = tt
All-below k j (y ∷ m) l h = (lt_bytes_trans k j y.0 l h.0, All-below k j m l h.1)

pub store-Sorted : (k v : Bytes) (m : Pairs) → Sorted m → Sorted (store k v m)
store-Sorted k v [] h = (tt, tt)
store-Sorted k v ((j, w) ∷ m) h = elim (Bool-cases (bytes_eq j k)) [
  | inl e ↦ rw e (subst (λ i. All (λ y. lt_bytes i y.0 ≡ true) m) (eq_of_bytes_eq j k e) h.0, h.1)
  | inr e ↦ elim (Bool-cases (lt_bytes k j)) [
    | inl l ↦ rw (e, l) ((l, All-below k j m l h.0), h)
    | inr l ↦
        rw (e, l)
          (
            store-All (λ y. lt_bytes j y.0 ≡ true) k v m (lt_bytes_total k j e l) h.0,
            store-Sorted k v m h.1,
          )
  ]
]

keep-All : (P : Bytes × Bytes → Type 0) (p : Bytes → Bool) (m : Pairs) → All P m → All P (keep p m)
keep-All P p [] h = tt
keep-All P p ((j, w) ∷ m) h = elim (Bool-cases (p j)) [
  | inl e ↦ rw e (h.0, keep-All P p m h.1)
  | inr e ↦ rw e (keep-All P p m h.1)
]

pub keep-Sorted : (p : Bytes → Bool) (m : Pairs) → Sorted m → Sorted (keep p m)
keep-Sorted p [] h = tt
keep-Sorted p ((j, w) ∷ m) h = elim (Bool-cases (p j)) [
  | inl e ↦ rw e (keep-All (λ y. lt_bytes j y.0 ≡ true) p m h.0, keep-Sorted p m h.1)
  | inr e ↦ rw e (keep-Sorted p m h.1)
]

pub lookup-store :
    (k v : Bytes) (m : Pairs) (j : Bytes)
    → lookup (store k v m) j ≡ (if bytes_eq k j then found v else lookup m j)
lookup-store k v [] j = refl
lookup-store k v ((i, w) ∷ m) j = elim (Bool-cases (bytes_eq i k)) [
  | inl e ↦ rw (e, eq_of_bytes_eq i k e) again
  | inr e ↦ elim (Bool-cases (lt_bytes k i)) [
    | inl l ↦ rw (e, l)
    | inr l ↦ rw (e, l, lookup-store k v m j) (swapped e)
  ]
]
  where
    again :
        (if bytes_eq k j then found v else lookup m j)
        ≡ (if bytes_eq k j then found v else if bytes_eq k j then found w else lookup m j)
    again = ground arith

    swapped :
        bytes_eq i k ≡ false
        → (if bytes_eq i j then found w else if bytes_eq k j then found v else lookup m j)
          ≡ (if bytes_eq k j then found v else if bytes_eq i j then found w else lookup m j)
    swapped e = elim (Bool-cases (bytes_eq i j)) [
      | inl f ↦ elim (Bool-cases (bytes_eq k j)) [
        | inl g ↦ absurd (
            ground (
              arith,
              subst (λ x. bytes_eq i x ≡ true) (eq_of_bytes_eq i j f ∙ sym (eq_of_bytes_eq k j g))
                  (bytes_eq_refl i),
              e,
            ))
        | inr g ↦ rw (f, g)
      ]
      | inr f ↦ rw f
    ]

listed-All :
    (k : Bytes) (m : Pairs)
    → All (λ y. lt_bytes k y.0 ≡ true) m
    → All (λ y. lt_bytes k y.0 ≡ true) (listed m)
listed-All k [] h = tt
listed-All k (x ∷ m) h = (h.0, listed-All k m h.1)

pub listed-Ascending : (m : Pairs) → Sorted m → Ascending (listed m)
listed-Ascending [] h = tt
listed-Ascending ((j, w) ∷ m) h = (listed-All j m h.0, listed-Ascending m h.1)

pub listed_readable : (m : Pairs) → All (λ x. (v : Bytes) × (x.1 ≡ ok v)) (listed m)
listed_readable [] = tt
listed_readable ((j, w) ∷ m) = ((w, refl), listed_readable m)

pub found-In :
    (p : Bytes → Bool) (m : Pairs) (k v : Bytes)
    → p k ≡ true
    → lookup m k ≡ found v
    → In (k, ok v) (listed (keep p m))
found-In p [] k v h g = absurd (ground arith)
found-In p ((j, w) ∷ m) k v h g = elim (Bool-cases (bytes_eq j k)) [
  | inl e ↦
      rw (subst (λ i. p i ≡ true) (sym (eq_of_bytes_eq j k e)) h) (inl (at_head e (rw e at g)))
  | inr e ↦ elim (Bool-cases (p j)) [
    | inl f ↦ rw f (inr (found-In p m k v h (rw e at g)))
    | inr f ↦ rw f (found-In p m k v h (rw e at g))
  ]
]
  where
    value_of : Get → Bytes
    value_of (found x) = x
    value_of _ = []

    at_head :
        bytes_eq j k ≡ true → ◌≡◌ {A = Get} (found w) (found v) → ◌≡◌ {A = Item} (k, ok v) (j, ok w)
    at_head e q = ap₂ (λ x y. (x, ok y)) (sym (eq_of_bytes_eq j k e)) (sym (ap value_of q))

absent :
    (k : Bytes) (m : Pairs) (p : Bytes → Bool) (v : Bytes)
    → All (λ y. lt_bytes k y.0 ≡ true) m
    → In (k, ok v) (listed (keep p m))
    → ⊥
absent k [] p v h i = absurd i
absent k ((j, w) ∷ m) p v h i = elim (Bool-cases (p j)) [
  | inl f ↦ elim (rw f at i) [
    | inl e ↦
        absurd (
          lt_bytes_irrefl k (subst (λ x. lt_bytes k x ≡ true) (sym (ap (λ (x : Item). x.0) e)) h.0))
    | inr r ↦ absent k m p v h.1 r
  ]
  | inr f ↦ absent k m p v h.1 (rw f at i)
]

pub In-found :
    (p : Bytes → Bool) (m : Pairs) (k v : Bytes)
    → Sorted m
    → In (k, ok v) (listed (keep p m))
    → (p k ≡ true) × (lookup m k ≡ found v)
In-found p [] k v s i = absurd i
In-found p ((j, w) ∷ m) k v s i = elim (Bool-cases (p j)) [
  | inl f ↦ elim (rw f at i) [
    | inl e ↦ (subst (λ x. p x ≡ true) (sym (ap (λ (x : Item). x.0) e)) f, here e)
    | inr r ↦ later (In-found p m k v s.1 r) r
  ]
  | inr f ↦ later (In-found p m k v s.1 (rw f at i)) (rw f at i)
]
  where
    bytes_of : Result Bytes → Bytes
    bytes_of (ok x) = x
    bytes_of (err e) = []

    here :
        ◌≡◌ {A = Item} (k, ok v) (j, ok w)
        → (if bytes_eq j k then found w else lookup m k) ≡ found v
    here e =
        rw
          (sym (
            subst (λ x. true ≡ bytes_eq j x) (sym (ap (λ (x : Item). x.0) e))
              (sym (bytes_eq_refl j))))
          (ap found (sym (ap (λ (x : Item). bytes_of x.1) e)))

    later :
        (p k ≡ true) × (lookup m k ≡ found v)
        → In (k, ok v) (listed (keep p m))
        → (p k ≡ true) × ((if bytes_eq j k then found w else lookup m k) ≡ found v)
    later t r = elim (Bool-cases (bytes_eq j k)) [
      | inl e ↦ absurd (
          absent k m p v
            (subst (λ x. All (λ y. lt_bytes x y.0 ≡ true) m) (eq_of_bytes_eq j k e) s.0) r)
      | inr e ↦ rw e t
    ]
