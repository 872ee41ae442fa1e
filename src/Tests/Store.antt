-- ===== src/Tests/Store.antt =====
-- A database in memory that keeps every promise of badger which the development relies on.
pub mod Removing
use webcb.Base.{
  ◌≡◌, refl, sym, ◌∙◌, ap, ap₂, subst, Bool, true, false, not, List, [], ◌∷◌, ◌++◌, arith, none,
  Result, ok, err, Bytes, All, bytes_eq, bytes_eq_refl, eq_of_bytes_eq, has_prefix, lt_bytes,
  lt_bytes_irrefl, lt_bytes_trans, if◌then◌else◌, Bool-cases, inl, inr,
}
use webcb.Storage.Gc.Laws.{Deleting}
use webcb.Storage.Badger.{
  Get, found, missing, Entry, Item, Badger, Deletion, In, Ascending, Healthy, written,
}
use webcb.Tests.Pairs.{
  store-Sorted, keep-Sorted, Pairs, lookup, store, keep, listed, Sorted, lookup-store,
  listed-Ascending, listed_readable, found-In, In-found,
}

-- the pairs in the order of their keys
pub record Store : Type 0 where
  pub pairs : Pairs
  pub sorted : Sorted pairs

abbrev pub empty : Store
empty = record { pairs = []; sorted = tt }

abbrev set : Bytes → Bytes → Store → Store
set k v d = record { pairs = store k v d.pairs; sorted = store-Sorted k v d.pairs d.sorted }

abbrev set_all : List Entry → Store → Store
set_all [] d = d
set_all (e ∷ es) d = set_all es (set e.key e.value d)

abbrev delete_all : List Bytes → Store → Store
delete_all [] d = d
delete_all (k ∷ ks) d = delete_all ks (record {
  pairs = keep (λ j. not (bytes_eq j k)) d.pairs;
  sorted = keep-Sorted (λ j. not (bytes_eq j k)) d.pairs d.sorted;
})

-- A batch is the list of its entries, a transaction the list of the keys that it deletes.
abbrev pub memory : Badger Store (List Entry) (List Bytes)
memory = record {
  get = λ d k. lookup d.pairs k;
  scan = λ d p. listed (keep (λ k. has_prefix k p) d.pairs);
  put = λ d k v. (none, set k v d);
  new_batch = [];
  set_entry = λ t e. (none, t ++ e ∷ []);
  flush = λ d t. (none, set_all t d);
  new_txn = λ d. [];
  delete = λ t k. (Deletion.deleted, t ++ k ∷ []);
  commit = λ d t. (none, delete_all t d);
}

lookup-set_all :
    (es : List Entry) (d : Store) (k : Bytes)
    → lookup (set_all es d).pairs k ≡ written es k (lookup d.pairs k)
lookup-set_all [] d k = refl
lookup-set_all (e ∷ es) d k =
    lookup-set_all es (set e.key e.value d) k
    ∙ ap (written es k) (lookup-store e.key e.value d.pairs k)

pub memory-Healthy : Healthy memory
memory-Healthy = record {
  entries = λ t. t;
  entries_new = refl;
  set_entry_ok = λ t e. refl;
  entries_set = λ t e. refl;
  flush_ok = λ d t. refl;
  get_flush = λ d t k l. lookup-set_all t d k;
  put_ok = λ d k v. refl;
  get_put = λ d k v j. lookup-store k v d.pairs j;
  scan_lem = λ d p. record {
    ascending =
        listed-Ascending (keep (λ k. has_prefix k p) d.pairs)
          (keep-Sorted (λ k. has_prefix k p) d.pairs d.sorted);
    readable = listed_readable (keep (λ k. has_prefix k p) d.pairs);
    in_scan = λ k v h g. found-In (λ j. has_prefix j p) d.pairs k v h g;
    in_db = λ k v i. In-found (λ j. has_prefix j p) d.pairs k v d.sorted i;
  };
}

lookup-keep :
    (p : Bytes → Bool) (m : Pairs) (j : Bytes) → p j ≡ true → lookup (keep p m) j ≡ lookup m j
lookup-keep p [] j h = refl
lookup-keep p ((i, w) ∷ m) j h = elim (Bool-cases (bytes_eq i j)) [
  | inl e ↦ rw (subst (λ x. p x ≡ true) (sym (eq_of_bytes_eq i j e)) h, e)
  | inr e ↦ elim (Bool-cases (p i)) [
    | inl f ↦ rw (f, e) (lookup-keep p m j h)
    | inr f ↦ rw (f, e) (lookup-keep p m j h)
  ]
]

lookup-delete_all :
    (ks : List Bytes) (d : Store) (j : Bytes)
    → All (λ k. bytes_eq k j ≡ false) ks
    → lookup (delete_all ks d).pairs j ≡ lookup d.pairs j
lookup-delete_all [] d j h = refl
lookup-delete_all (k ∷ ks) d j h =
    lookup-delete_all ks _ j h.1 ∙ lookup-keep (λ i. not (bytes_eq i k)) d.pairs j (rw other)
  where
    other : bytes_eq j k ≡ false
    other = elim (Bool-cases (bytes_eq j k)) [
      | inl e ↦ absurd (
          ground (
            arith,
            subst (λ x. bytes_eq x j ≡ false) (sym (eq_of_bytes_eq j k e)) h.0,
            bytes_eq_refl j,
          ))
      | inr e ↦ e
    ]

pub memory-Deleting : Deleting memory
memory-Deleting = record {
  deletes = λ t. t;
  deletes_new = λ d. refl;
  deletes_more = λ t k. inl refl;
  get_commit = λ d t j h. lookup-delete_all t d j h;
}
