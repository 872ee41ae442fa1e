-- ===== src/Storage/Gc/Removing.antt =====
-- What a run of `discard` of storage/gc.go that is not interrupted deletes.
use webcb.Base.{
  ℕ, suc, ◌+◌, ◌≤◌, ◌≡◌, refl, sym, ap, subst, Bool, true, false, ◌||◌, List, [], ◌∷◌, ◌++◌,
  append-nil, append_assoc, arith, Option, none, Result, ok, Error, Bytes, length, bytes_eq, ltb,
  Bool-cases, inl, inr, if◌then◌else◌,
}
use webcb.Storage.Badger.{missing, Badger, Deletion}
use webcb.Storage.Keys.{latest_key, pending_key}
use webcb.Storage.Batch.{Versions}
use webcb.Storage.Write.{Env}
use webcb.Storage.Gc.{
  Visit, Discarding, get_index, get_locked_transaction, collectable, closed, discard_key, sweep,
  opened, discard,
}
use webcb.Storage.Gc.Laws.{Deleting}

abbrev pub lists : Bytes → List Bytes → Bool
lists j [] = false
lists j (k ∷ ks) = bytes_eq k j || lists j ks

-- A database whose transactions take every deletion, and whose commits succeed: the keys are gone.
pub record Removing {Db Batch Txn : Type 0} (b : Badger Db Batch Txn) (l : Deleting b)
    : Type 0 where
  pub takes : (t : Txn) (k : Bytes) → (b.delete t k).0 ≡ Deletion.deleted
  pub notes : (t : Txn) (k : Bytes) → l.deletes (b.delete t k).1 ≡ l.deletes t ++ k ∷ []
  pub commits : (d : Db) (t : Txn) → (b.commit d t).0 ≡ none
  pub gone :
      (d : Db) (t : Txn) (j : Bytes)
      → lists j (l.deletes t) ≡ true
      → b.get (b.commit d t).1 j ≡ missing

-- an iteration over the keys in time
abbrev pub visits : List Bytes → List Visit
visits [] = []
visits (k ∷ ks) = (false, k) ∷ visits ks

-- the keys that are to be deleted
abbrev pub chosen : Option Bytes → Versions → List Bytes → List Bytes
chosen index versions [] = []
chosen index versions (k ∷ ks) =
    let later = chosen index versions ks in
    if collectable index versions k then k ∷ later else later

-- `n` keys were deleted, and `j` is gone.
abbrev pub Removed :
    {Db Batch Txn : Type 0} → Badger Db Batch Txn → ℕ → Bytes → Result ℕ × Db → Type 0
Removed badger n j out = (out.0 ≡ ok n) × (badger.get out.1 j ≡ missing)

module _ {Db Batch Txn : Type 0} {badger : Badger Db Batch Txn} (l : Deleting badger)
    (w : Removing badger l) where
  module _ (index : Option Bytes) (versions : Versions) (keys : ℕ) (j : Bytes) where
    closed-Removed :
        (st : Discarding Db Txn)
        → lists j (l.deletes st.txn) ≡ true
        → Removed badger st.deleted j (closed badger st (badger.commit st.db st.txn))
    unfolding closed
    closed-Removed st h =
        subst
          (λ (e : Option Error).
            Removed badger st.deleted j (closed badger st (e, (badger.commit st.db st.txn).1)))
          (sym (w.commits st.db st.txn)) (refl, w.gone st.db st.txn j h)

    deleted_next :
        (key : Bytes) (st : Discarding Db Txn) (go : Discarding Db Txn → Result ℕ × Db)
        → discard_key badger key st go (badger.delete st.txn key)
          ≡ go (record st { txn = (badger.delete st.txn key).1; deleted = suc st.deleted })
    unfolding discard_key
    deleted_next key st go =
        ap (λ (x : Deletion). discard_key badger key st go (x, (badger.delete st.txn key).1))
          (w.takes st.txn key)

    sweep-Removed :
        (ks : List Bytes) (st : Discarding Db Txn)
        → st.deleted + length ks ≤ keys
        → lists j (l.deletes st.txn ++ chosen index versions ks) ≡ true
        → Removed badger
            (st.deleted + length (chosen index versions ks))
            j
            (sweep badger index versions keys (visits ks) st)
    unfolding sweep
    sweep-Removed [] st b h =
        subst (λ n. Removed badger n j (closed badger st (badger.commit st.db st.txn)))
          (omega arith) (closed-Removed st (rw (append-nil) at h))
    sweep-Removed (k ∷ ks) st b h = elim (Bool-cases (collectable index versions k)) [
      | inl c ↦
          rw
            (
              small st.deleted (length ks) b,
              c,
              deleted_next k st (sweep badger index versions keys (visits ks)),
            )
            (subst
              (λ n. Removed badger n j (sweep badger index versions keys (visits ks) (after st k)))
              (omega arith)
              (sweep-Removed ks (after st k) (omega arith) (
                rw
                  (
                    w.notes st.txn k,
                    append_assoc (l.deletes st.txn) (k ∷ []) (chosen index versions ks),
                  )
                  (rw c at h))))
      | inr c ↦
          rw (small st.deleted (length ks) b, c) (sweep-Removed ks st (omega arith) (rw c at h))
    ]
      where
        after : Discarding Db Txn → Bytes → Discarding Db Txn
        after st k = record st { txn = (badger.delete st.txn k).1; deleted = suc st.deleted }

        small : (n m : ℕ) → n + suc m ≤ keys → ltb n keys ≡ true
        small n m h = ground arith

  -- If the latest version and the list of locked ones can be read, the transactions of the database
  -- take every deletion, and an iteration meets no more keys than `discard` may delete before it is
  -- timed out, then `discard` deletes each of them that is collectable, and returns their number.
  pub discard-Removed :
      (env : Env) (keys : ℕ) (ks : List Bytes) (db : Db) (index : Option Bytes)
      (versions : Versions) (j : Bytes)
      → get_index env.clipboard_codec (badger.get db latest_key) ≡ ok index
      → get_locked_transaction env.versions_codec (badger.get db pending_key) ≡ ok versions
      → length ks ≤ keys
      → lists j (chosen index versions ks) ≡ true
      → Removed badger
          (length (chosen index versions ks))
          j
          (discard badger env keys (visits ks) db)
  unfolding discard opened
  discard-Removed env keys ks db index versions j hi hv b h =
      rw (hi, hv)
        (subst
          (λ n. Removed badger n j (
            sweep badger index versions keys (visits ks)
              (record { db = db; txn = badger.new_txn db; deleted = 0 })))
          (omega arith)
          (sweep-Removed index versions keys j ks
            (record { db = db; txn = badger.new_txn db; deleted = 0 }) (omega arith)
            (rw (l.deletes_new db) h)))
