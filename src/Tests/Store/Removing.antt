-- ===== src/Tests/Store/Removing.antt =====
-- Deletions from the database in memory.
use webcb.Base.{
  ◌≡◌, refl, sym, subst, true, not, List, [], ◌∷◌, arith, Bytes, bytes_eq, eq_of_bytes_eq,
  Bool-cases, inl, inr, Bool,
}
use webcb.Storage.Badger.{missing}
use webcb.Storage.Gc.Removing.{Removing, lists}
use webcb.Tests.Pairs.{Pairs, lookup, keep}
use webcb.Tests.Store.{Store, delete_all, memory, memory-Deleting}

-- a key that is not there is not there in a part
lookup-missing :
    (p : Bytes → Bool) (m : Pairs) (j : Bytes)
    → lookup m j ≡ missing
    → lookup (keep p m) j ≡ missing
lookup-missing p [] j h = refl
lookup-missing p ((i, w) ∷ m) j h = elim (Bool-cases (bytes_eq i j)) [
  | inl e ↦ absurd (ground (arith, h, e))
  | inr e ↦ elim (Bool-cases (p i)) [
    | inl f ↦ rw (f, e) (lookup-missing p m j (rw e at h))
    | inr f ↦ rw f (lookup-missing p m j (rw e at h))
  ]
]

lookup-removed : (m : Pairs) (j : Bytes) → lookup (keep (λ i. not (bytes_eq i j)) m) j ≡ missing
lookup-removed [] j = refl
lookup-removed ((i, w) ∷ m) j = elim (Bool-cases (bytes_eq i j)) [
  | inl e ↦ rw e (lookup-removed m j)
  | inr e ↦ rw (e, e) (lookup-removed m j)
]

delete_all-missing :
    (ks : List Bytes) (d : Store) (j : Bytes)
    → lookup d.pairs j ≡ missing
    → lookup (delete_all ks d).pairs j ≡ missing
delete_all-missing [] d j h = h
delete_all-missing (k ∷ ks) d j h =
    delete_all-missing ks _ j (lookup-missing (λ i. not (bytes_eq i k)) d.pairs j h)

delete_all-gone :
    (ks : List Bytes) (d : Store) (j : Bytes)
    → lists j ks ≡ true
    → lookup (delete_all ks d).pairs j ≡ missing
delete_all-gone [] d j h = absurd (ground arith)
delete_all-gone (k ∷ ks) d j h = elim (Bool-cases (bytes_eq k j)) [
  | inl e ↦ delete_all-missing ks _ j (
      subst (λ x. lookup (keep (λ i. not (bytes_eq i x)) d.pairs) j ≡ missing)
        (sym (eq_of_bytes_eq k j e)) (lookup-removed d.pairs j))
  | inr e ↦ delete_all-gone ks _ j (rw e at h)
]

pub memory-Removing : Removing memory memory-Deleting
unfolding memory-Deleting
memory-Removing = record {
  takes = λ t k. refl;
  notes = λ t k. refl;
  commits = λ d t. refl;
  gone = λ d t j h. delete_all-gone t d j h;
}
