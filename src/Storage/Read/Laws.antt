-- ===== src/Storage/Read/Laws.antt =====
-- The iteration of `ReadBatch` of storage/badger.go after a `WriteBatch`.
use webcb.Base.{
  ℕ, suc, ◌<◌, ◌≡◌, refl, sym, ◌∙◌, ap, subst, true, false, List, [], ◌∷◌, arith, Result, ok, Bytes,
  All, bytes_eq, bytes_eq_refl, eq_of_bytes_eq, has_prefix, lt_bytes, lt_bytes_irrefl, length, inl,
  inr, ◌⊎◌, Bool-cases, NoSlash,
}
use webcb.Storage.Badger.{Get, found, missing, Entry, Item, In, Ascending, Scanned, written}
use webcb.Storage.Keys.{
  latest_key, pending_key, index_of, chunk_key, chunk_key-lt, chunk_key-has_prefix, no_index_prefix,
}
use webcb.Storage.Write.Laws.{chunk_entries}

-- What ulid promises of the ULIDs of one monotonic source.
pub record Monotonic (ulid : ℕ → Bytes) : Type 0 where
  pub same_length : (i j : ℕ) → length (ulid i) ≡ length (ulid j)
  pub increasing : (i j : ℕ) → i < j → lt_bytes (ulid i) (ulid j) ≡ true

abbrev pub item_of : Entry → Item
item_of e = (e.key, ok e.value)

abbrev pub items_of : List Entry → List Item
items_of [] = []
items_of (e ∷ es) = item_of e ∷ items_of es

-- An entry that is found was written or was there.
written-In :
    (es : List Entry) (k v : Bytes) (old : Get)
    → written es k old ≡ found v
    → In (k, ok v) (items_of es) ⊎ (old ≡ found v)
written-In [] k v old h = inr h
written-In (e ∷ es) k v old h = elim (Bool-cases (bytes_eq e.key k)) [
  | inl same ↦ elim (written-In es k v (found e.value) (rw same at h)) [
    | inl m ↦ inl (inr m)
    | inr f ↦ inl (inl cc (eq_of_bytes_eq e.key k same))
  ]
  | inr ne ↦ elim (written-In es k v old (rw ne at h)) [ inl m ↦ inl (inr m) | inr f ↦ inr f ]
]

written_absent :
    (es : List Entry) (k : Bytes) (old : Get)
    → All (λ y. lt_bytes k y.0 ≡ true) (items_of es)
    → written es k old ≡ old
written_absent [] k old h = refl
written_absent (e ∷ es) k old h = elim (Bool-cases (bytes_eq e.key k)) [
  | inl same ↦
      absurd
        (lt_bytes_irrefl k (subst (λ j. lt_bytes k j ≡ true) (eq_of_bytes_eq e.key k same) h.0))
  | inr ne ↦ rw ne (written_absent es k old h.1)
]

In-written :
    (es : List Entry) (k v : Bytes) (old : Get)
    → Ascending (items_of es)
    → In (k, ok v) (items_of es)
    → written es k old ≡ found v
In-written [] k v old a m = absurd m
In-written (e ∷ es) k v old a (inl x) =
    written_absent es k _
      (subst (λ j. All (λ y. lt_bytes j y.0 ≡ true) (items_of es)) (sym key_eq) a.0)
    ∙ rw (← key_eq, bytes_eq_refl) (cc value_eq)
  where
    key_eq : k ≡ e.key
    key_eq = ap (λ (p : Item). p.0) x

    value_eq : ◌≡◌ {A = Result Bytes} (ok v) (ok e.value)
    value_eq = ap (λ (p : Item). p.1) x
In-written (e ∷ es) k v old a (inr m) = In-written es k v _ a.1 m

module _ (ulid : ℕ → Bytes) (u : Monotonic ulid) (v : ℕ) where
  later_keys :
      (i j : ℕ) (cs : List Bytes)
      → i < j
      → All (λ y. lt_bytes (chunk_key v (ulid i)) y.0 ≡ true) (items_of (chunk_entries ulid v j cs))
  later_keys i j [] h = tt
  later_keys i j (c ∷ cs) h = (
    chunk_key-lt v (ulid i) (ulid j) (u.same_length i j) (u.increasing i j h),
    later_keys i (suc j) cs (omega arith),
  )

  chunks-Ascending : (i : ℕ) (cs : List Bytes) → Ascending (items_of (chunk_entries ulid v i cs))
  chunks-Ascending i [] = tt
  chunks-Ascending i (c ∷ cs) = (later_keys i (suc i) cs (omega arith), chunks-Ascending (suc i) cs)

  chunks_readable :
      (i : ℕ) (cs : List Bytes)
      → All (λ x. (w : Bytes) × (x.1 ≡ ok w)) (items_of (chunk_entries ulid v i cs))
  chunks_readable i [] = tt
  chunks_readable i (c ∷ cs) = ((c, refl), chunks_readable (suc i) cs)

  chunks_indexed :
      (i : ℕ) (cs : List Bytes) (x : Item)
      → In x (items_of (chunk_entries ulid v i cs))
      → has_prefix x.0 (index_of v) ≡ true
  chunks_indexed i [] x m = absurd m
  chunks_indexed i (c ∷ cs) x (inl e) =
      ap (λ (y : Item). has_prefix y.0 (index_of v)) e ∙ (chunk_key-has_prefix v v (ulid i)).1 refl
  chunks_indexed i (c ∷ cs) x (inr m) = chunks_indexed (suc i) cs x m

  -- If no chunk of a version was there before, the ULIDs grow, and the chunks `cs` were written,
  -- then an iteration over the version's index is exactly those chunks, in the order in which they
  -- were written.
  pub chunks-Scanned :
      (i : ℕ) (cs : List Bytes) (old new : Bytes → Get)
      → ((k : Bytes) → has_prefix k (index_of v) ≡ true → old k ≡ missing)
      → ((k : Bytes)
          → bytes_eq pending_key k ≡ false
          → bytes_eq latest_key k ≡ false
          → new k ≡ written (chunk_entries ulid v i cs) k (old k))
      → Scanned new (index_of v) (items_of (chunk_entries ulid v i cs))
  chunks-Scanned i cs old new fresh sees = record {
    ascending = chunks-Ascending i cs;
    readable = chunks_readable i cs;
    in_scan = λ k w p f.
        was_written k w p (written-In (chunk_entries ulid v i cs) k w (old k) (sym (seen k p) ∙ f));
    in_db = λ k w m. (
      chunks_indexed i cs (k, ok w) m,
      seen k (chunks_indexed i cs (k, ok w) m)
          ∙ In-written (chunk_entries ulid v i cs) k w (old k) (chunks-Ascending i cs) m,
    );
  }
    where
      not_reserved :
          (r k : Bytes) → NoSlash r → has_prefix k (index_of v) ≡ true → bytes_eq r k ≡ false
      not_reserved r k n p = elim (Bool-cases (bytes_eq r k)) [
        | inl same ↦ absurd (no_index_prefix v r n (rw (eq_of_bytes_eq r k same) p))
        | inr ne ↦ ne
      ]

      seen :
          (k : Bytes)
          → has_prefix k (index_of v) ≡ true
          → new k ≡ written (chunk_entries ulid v i cs) k (old k)
      seen k p =
          sees k (not_reserved pending_key k (omega arith) p)
            (not_reserved latest_key k (omega arith) p)

      impossible : (g : Get) (w : Bytes) → g ≡ missing → g ≡ found w → ⊥
      impossible g w a b = ground arith

      was_written :
          (k w : Bytes)
          → has_prefix k (index_of v) ≡ true
          → In (k, ok w) (items_of (chunk_entries ulid v i cs)) ⊎ (old k ≡ found w)
          → In (k, ok w) (items_of (chunk_entries ulid v i cs))
      was_written k w p (inl m) = m
      was_written k w p (inr f) = absurd (impossible (old k) w (fresh k p) f)
