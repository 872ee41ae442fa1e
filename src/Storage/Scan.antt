-- ===== src/Storage/Scan.antt =====
-- An iteration of badger is determined by what the database holds.
use webcb.Base.{
  ◌≡◌, refl, sym, ◌∙◌, ap₂, subst, true, List, [], ◌∷◌, Result, ok, Bytes, All, lt_bytes, inl, inr,
  lt_bytes_irrefl, lt_bytes_trans,
}
use webcb.Storage.Badger.{Get, Item, In, Ascending, Scanned}

In-All : (P : Item → Type 0) (x : Item) (xs : List Item) → All P xs → In x xs → P x
In-All P x [] h m = absurd m
In-All P x (y ∷ ys) h (inl e) = subst P (sym e) h.0
In-All P x (y ∷ ys) h (inr m) = In-All P x ys h.1 m

-- what is below every element of a list is none of them
below_not-In : (x : Item) (xs : List Item) → All (λ y. lt_bytes x.0 y.0 ≡ true) xs → In x xs → ⊥
below_not-In x xs h m =
    absurd (lt_bytes_irrefl x.0 (In-All (λ y. lt_bytes x.0 y.0 ≡ true) x xs h m))

Ascending-unique :
    (xs ys : List Item)
    → Ascending xs
    → Ascending ys
    → ((z : Item) → In z xs → In z ys)
    → ((z : Item) → In z ys → In z xs)
    → xs ≡ ys
Ascending-unique [] [] a b f g = refl
Ascending-unique [] (y ∷ ys) a b f g = absurd (g y (inl refl))
Ascending-unique (x ∷ xs) [] a b f g = absurd (f x (inl refl))
Ascending-unique (x ∷ xs) (y ∷ ys) a b f g =
    ap₂ ◌∷◌ same (Ascending-unique xs ys a.1 b.1 forth back)
  where
    heads : In x (y ∷ ys) → In y (x ∷ xs) → x ≡ y
    heads (inl e) m = e
    heads (inr l) (inl e) = sym e
    heads (inr l) (inr m) = absurd (
        lt_bytes_irrefl x.0 (
          lt_bytes_trans x.0 y.0 x.0 (In-All (λ z. lt_bytes x.0 z.0 ≡ true) y xs a.0 m)
            (In-All (λ z. lt_bytes y.0 z.0 ≡ true) x ys b.0 l)))

    same : x ≡ y
    same = heads (f x (inl refl)) (g y (inl refl))

    forth_of : (z : Item) → In z xs → In z (y ∷ ys) → In z ys
    forth_of z m (inr l) = l
    forth_of z m (inl e) = absurd (below_not-In x xs a.0 (subst (λ w. In w xs) (e ∙ sym same) m))

    forth : (z : Item) → In z xs → In z ys
    forth z m = forth_of z m (f z (inr m))

    back_of : (z : Item) → In z ys → In z (x ∷ xs) → In z xs
    back_of z m (inr l) = l
    back_of z m (inl e) = absurd (below_not-In y ys b.0 (subst (λ w. In w ys) (e ∙ same) m))

    back : (z : Item) → In z ys → In z xs
    back z m = back_of z m (g z (inr m))

-- Two iterations that list the same entries are the same list.
pub Scanned-unique :
    {get : Bytes → Get} {p : Bytes} (xs ys : List Item)
    → Scanned get p xs
    → Scanned get p ys
    → xs ≡ ys
Scanned-unique {get} {p} xs ys a b =
    Ascending-unique xs ys a.ascending b.ascending (λ z. over xs ys a b z) (λ z. over ys xs b a z)
  where
    over :
        (xs ys : List Item) → Scanned get p xs → Scanned get p ys → (z : Item) → In z xs → In z ys
    over xs ys a b (k, r) m =
        let (v, e) = In-All (λ x. (v : Bytes) × (x.1 ≡ ok v)) (k, r) xs a.readable m in
        let found_it = a.in_db k v (subst (λ (w : Result Bytes). In (k, w) xs) e m) in
        subst (λ (w : Result Bytes). In (k, w) ys) (sym e) (b.in_scan k v found_it.0 found_it.1)
