-- ===== src/Storage/Gc/Laws.antt =====
-- What `discard` of storage/gc.go leaves alone.
use webcb.Base.{
  ℕ, suc, ◌≤◌, ◌<◌, ◌≡◌, refl, ◌∙◌, subst, true, false, not, ◌&&◌, ◌↔◌, ◌≢◌, decimal, has_prefix,
  List, [], ◌∷◌, ◌++◌, arith, Option, none, some, Result, ok, err, Error, Bytes, All, bytes_eq,
  eq_of_bytes_eq, ltb, Bool-cases, inl, inr, ◌⊎◌,
}
use webcb.Storage.Badger.{Get, Badger, Deletion}
use webcb.Storage.Keys.{
  latest_key, version_key, pending_key, index_of, chunk_key, chunk_key-ne, chunk_key-has_prefix,
  before_slash-chunk_key,
}
use webcb.Storage.Batch.{Versions, holds}
use webcb.Storage.Write.{Env}
use webcb.Storage.Gc.{
  Visit, Discarding, get_index, get_locked_transaction, outside, collectable, closed, retried,
  recommitted, discard_key, sweep, opened, discard,
}

-- What badger promises of transactions that delete; `deletes` lists the keys that one would delete.
pub record Deleting {Db Batch Txn : Type 0} (b : Badger Db Batch Txn) : Type 0 where
  pub deletes : Txn → List Bytes
  pub deletes_new : (d : Db) → deletes (b.new_txn d) ≡ []
  pub deletes_more :
      (t : Txn) (k : Bytes)
      → (deletes (b.delete t k).1 ≡ deletes t ++ k ∷ []) ⊎ (deletes (b.delete t k).1 ≡ deletes t)
  -- a key that is not to be deleted stays, whether or not the commit succeeds
  pub get_commit :
      (d : Db) (t : Txn) (j : Bytes)
      → All (λ k. bytes_eq k j ≡ false) (deletes t)
      → b.get (b.commit d t).1 j ≡ b.get d j

All-append :
    (P : Bytes → Type 0) (ks : List Bytes) (k : Bytes) → All P ks → P k → All P (ks ++ k ∷ [])
All-append P [] k h p = (p, tt)
All-append P (x ∷ ks) k h p = (h.0, All-append P ks k h.1 p)

module _ {Db Batch Txn : Type 0} {badger : Badger Db Batch Txn} (l : Deleting badger) where
  abbrev St : Type 0
  St = Discarding Db Txn

  -- no more than `keys` keys, and `get` of `j` gives `old`
  abbrev pub Spares : Bytes → Get → ℕ → Result ℕ × Db → Type 0
  Spares j old keys out = (badger.get out.1 j ≡ old) × ((n : ℕ) → out.0 ≡ ok n → n ≤ keys)

  module _ (index : Option Bytes) (versions : Versions) (keys : ℕ) (j : Bytes)
      (safe : collectable index versions j ≡ false) (old : Get) where
    -- nothing in the transaction touches `j`
    abbrev Clean : St → Type 0
    Clean st = All (λ k. bytes_eq k j ≡ false) (l.deletes st.txn) × (badger.get st.db j ≡ old)

    other : (k : Bytes) → collectable index versions k ≡ true → bytes_eq k j ≡ false
    other k h = elim (Bool-cases (bytes_eq k j)) [
      | inl e ↦ absurd (
          ground (
            arith,
            subst (λ x. collectable index versions x ≡ true) (eq_of_bytes_eq k j e) h,
            safe,
          ))
      | inr e ↦ e
    ]

    after_delete :
        (t : Txn) (k : Bytes)
        → collectable index versions k ≡ true
        → All (λ i. bytes_eq i j ≡ false) (l.deletes t)
        → All (λ i. bytes_eq i j ≡ false) (l.deletes (badger.delete t k).1)
    after_delete t k h a = elim (l.deletes_more t k) [
      | inl e ↦ rw e (All-append (λ i. bytes_eq i j ≡ false) (l.deletes t) k a (other k h))
      | inr e ↦ rw e a
    ]

    committed : (st : St) → Clean st → badger.get (badger.commit st.db st.txn).1 j ≡ old
    committed st c = l.get_commit st.db st.txn j c.0 ∙ c.1

    Spares-error : (d : Db) (x : Error) → badger.get d j ≡ old → Spares j old keys (err x, d)
    Spares-error d x h = (h, λ n e. absurd (ground arith))

    Spares-closed :
        (st : St) (r : Option Error × Db)
        → st.deleted ≤ keys
        → badger.get r.1 j ≡ old
        → Spares j old keys (closed badger st r)
    unfolding closed
    Spares-closed st (none, d) b h = (h, λ n e. ground arith)
    Spares-closed st (some x, d) b h = Spares-error d x h

    -- what a step goes on with
    abbrev Goes : (St → Result ℕ × Db) → Type 0
    Goes go = (st : St) → st.deleted ≤ keys → Clean st → Spares j old keys (go st)

    Spares-retried :
        (st : St) (go : St → Result ℕ × Db) (r : Deletion × Txn)
        → st.deleted < keys
        → All (λ i. bytes_eq i j ≡ false) (l.deletes r.1)
        → badger.get st.db j ≡ old
        → Goes go
        → Spares j old keys (retried badger st go r)
    unfolding retried
    Spares-retried st go (Deletion.deleted, t) b a c g =
        g (record { db = st.db; txn = t; deleted = suc st.deleted }) (omega arith) (a, c)
    Spares-retried st go (Deletion.too_big, t) b a c g = Spares-error st.db _ c
    Spares-retried st go (Deletion.refused x, t) b a c g = Spares-error st.db x c

    Spares-recommitted :
        (key : Bytes) (st : St) (go : St → Result ℕ × Db) (r : Option Error × Db)
        → collectable index versions key ≡ true
        → st.deleted < keys
        → badger.get r.1 j ≡ old
        → Goes go
        → Spares j old keys (recommitted badger key st go r)
    unfolding recommitted
    Spares-recommitted key st go (none, d) h b c g =
        Spares-retried (record st { db = d }) go (badger.delete (badger.new_txn d) key) b
          (after_delete (badger.new_txn d) key h (rw (l.deletes_new d) tt)) c g
    Spares-recommitted key st go (some x, d) h b c g = Spares-error d x c

    Spares-discard_key :
        (key : Bytes) (st : St) (go : St → Result ℕ × Db) (r : Deletion × Txn)
        → collectable index versions key ≡ true
        → st.deleted < keys
        → All (λ i. bytes_eq i j ≡ false) (l.deletes r.1)
        → badger.get st.db j ≡ old
        → Goes go
        → Spares j old keys (discard_key badger key st go r)
    unfolding discard_key
    Spares-discard_key key st go (Deletion.deleted, t) h b a c g =
        g (record st { txn = t; deleted = suc st.deleted }) (omega arith) (a, c)
    Spares-discard_key key st go (Deletion.too_big, t) h b a c g =
        Spares-recommitted key (record st { txn = t }) go (badger.commit st.db t) h b
          (committed (record st { txn = t }) (a, c)) g
    Spares-discard_key key st go (Deletion.refused x, t) h b a c g = Spares-error st.db x c

    Spares-sweep : (vs : List Visit) → Goes (sweep badger index versions keys vs)
    unfolding sweep
    Spares-sweep [] st b c = Spares-closed st (badger.commit st.db st.txn) b (committed st c)
    Spares-sweep ((done, key) ∷ vs) st b c = elim (Bool-cases done) [
      | inl d ↦ rw d (Spares-closed st (badger.commit st.db st.txn) b (committed st c))
      | inr d ↦ elim (Bool-cases (ltb st.deleted keys)) [
        | inl m ↦ elim (Bool-cases (collectable index versions key)) [
          | inl h ↦
              rw (d, m, h)
                (Spares-discard_key key st (sweep badger index versions keys vs)
                  (badger.delete st.txn key) h (ground arith) (after_delete st.txn key h c.0) c.1
                  (Spares-sweep vs))
          | inr h ↦ rw (d, m, h) (Spares-sweep vs st b c)
        ]
        | inr m ↦ rw (d, m) (Spares-closed st (badger.commit st.db st.txn) b (committed st c))
      ]
    ]

  -- If the latest version and the list of locked ones can be read, and badger's transactions keep
  -- their laws, `discard` reports no more than `keys` deletions. Whatever it returns, a key that
  -- is not collectable, given that version and that list, is read after it as before. The iterator
  -- may meet any keys in any order, and the context may end at any of them.
  pub discard-Spares :
      (env : Env) (keys : ℕ) (vs : List Visit) (db : Db) (index : Option Bytes)
      (versions : Versions) (j : Bytes)
      → get_index env.clipboard_codec (badger.get db latest_key) ≡ ok index
      → get_locked_transaction env.versions_codec (badger.get db pending_key) ≡ ok versions
      → collectable index versions j ≡ false
      → Spares j (badger.get db j) keys (discard badger env keys vs db)
  unfolding discard opened
  discard-Spares env keys vs db index versions j hi hv safe =
      rw (hi, hv)
        (Spares-sweep index versions keys j safe (badger.get db j) vs
          (record { db = db; txn = badger.new_txn db; deleted = 0 }) (omega arith)
          (rw (l.deletes_new db) tt, refl))

-- Given the latest version `v`, a chunk of the version `w` is collectable exactly when `w` is
-- another version that is not locked.
pub collectable-chunk_key :
    (v w : ℕ) (ulid : Bytes) (versions : Versions)
    → (collectable (some (index_of v)) versions (chunk_key w ulid) ≡ true)
      ↔ ((v ≢ w) × (holds (decimal w) versions ≡ false))
unfolding collectable outside
collectable-chunk_key v w ulid versions =
    rw
      (
        chunk_key-ne w ulid latest_key (omega arith),
        chunk_key-ne w ulid version_key (omega arith),
        chunk_key-ne w ulid pending_key (omega arith),
        before_slash-chunk_key w ulid,
      )
      (to, from)
  where
    iff : (has_prefix (chunk_key w ulid) (index_of v) ≡ true) ↔ (v ≡ w)
    iff = chunk_key-has_prefix v w ulid

    to :
        (not (has_prefix (chunk_key w ulid) (index_of v))
            && true
            && true
            && true
            && not (holds (decimal w) versions))
          ≡ true
        → (v ≢ w) × (holds (decimal w) versions ≡ false)
    to h = (λ e. absurd (ground (arith, iff.1 e)), ground arith)

    from :
        (v ≢ w) × (holds (decimal w) versions ≡ false)
        → (not (has_prefix (chunk_key w ulid) (index_of v))
            && true
            && true
            && true
            && not (holds (decimal w) versions))
          ≡ true
    from (ne, free) = elim (Bool-cases (has_prefix (chunk_key w ulid) (index_of v))) [
      | inl p ↦ absurd (ne (iff.0 p))
      | inr p ↦ rw (p, free)
    ]
