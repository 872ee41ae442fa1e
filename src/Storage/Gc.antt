-- ===== src/Storage/Gc.antt =====
-- storage/gc.go: keys of versions that are neither the latest nor locked are deleted.
pub mod Laws
pub mod Reading
pub mod Removing
use webcb.Base.{
  ℕ, zero, suc, ◌+◌, Bool, true, false, not, ◌&&◌, List, [], ◌∷◌, Option, none, some, Result, ok,
  err, Error, message, Bytes, bytes_eq, has_prefix, before_slash, ltb, if◌then◌else◌,
}
use webcb.Storage.Badger.{Get, found, missing, broken, Badger, Codec, Deletion}
use webcb.Storage.Keys.{latest_key, version_key, pending_key, index_of}
use webcb.Storage.Batch.{Versions, holds}
use webcb.Storage.Write.{Clipboard, Env}

-- `getIndex`, of what `Get` said: no index without a latest version
unfoldable pub get_index : Codec Clipboard → Get → Result (Option Bytes)
get_index codec missing = ok none
get_index codec (broken e) = err e
get_index codec (found v) =
    let c = codec.unmarshal v in elim c [ ok cb ↦ ok (some (index_of cb.sequence)) | err e ↦ err e ]

-- `getLockedTransaction`, of what `Get` said
unfoldable pub get_locked_transaction : Codec Versions → Get → Result Versions
get_locked_transaction codec missing = ok []
get_locked_transaction codec (broken e) = err e
get_locked_transaction codec (found v) = codec.unmarshal v

-- `index == nil || !bytes.HasPrefix(key, index)`
unfoldable pub outside : Option Bytes → Bytes → Bool
outside none key = true
outside (some index) key = not (has_prefix key index)

-- The conditions under which a key is deleted.
unfoldable pub collectable : Option Bytes → Versions → Bytes → Bool
unfolding outside
collectable index versions key =
    outside index key
    && not (bytes_eq key latest_key)
    && not (bytes_eq key version_key)
    && not (bytes_eq key pending_key)
    && not (holds (before_slash key) versions)

-- What the iteration meets: whether the context is done by then, and the key.
abbrev pub Visit : Type 0
Visit = Bool × Bytes

-- the database, the open transaction, and the count of the deleted keys
pub record Discarding (Db Txn : Type 0) : Type 0 where
  pub db : Db
  pub txn : Txn
  pub deleted : ℕ

module _ {Db Batch Txn : Type 0} (badger : Badger Db Batch Txn) where
  abbrev St : Type 0
  St = Discarding Db Txn

  -- what the commit after the loop comes to
  closed : St → Option Error × Db → Result ℕ × Db
  closed st (none, d) = (ok st.deleted, d)
  closed st (some x, d) = (err x, d)

  -- what a second `Delete`, in a new transaction, comes to
  retried : St → (St → Result ℕ × Db) → Deletion × Txn → Result ℕ × Db
  retried st go (Deletion.deleted, t) =
      go (record { db = st.db; txn = t; deleted = suc st.deleted })
  retried st go (Deletion.too_big, t) =
      (err (message "Txn is too big to fit into one request"), st.db)
  retried st go (Deletion.refused x, t) = (err x, st.db)

  -- what the commit of a transaction that is too big comes to
  recommitted : Bytes → St → (St → Result ℕ × Db) → Option Error × Db → Result ℕ × Db
  unfolding retried
  recommitted key st go (none, d) =
      retried (record st { db = d }) go (badger.delete (badger.new_txn d) key)
  recommitted key st go (some x, d) = (err x, d)

  -- what the `Delete` of one key comes to
  discard_key : Bytes → St → (St → Result ℕ × Db) → Deletion × Txn → Result ℕ × Db
  unfolding recommitted
  discard_key key st go (Deletion.deleted, t) = go (record st { txn = t; deleted = suc st.deleted })
  discard_key key st go (Deletion.too_big, t) =
      recommitted key (record st { txn = t }) go (badger.commit st.db t)
  discard_key key st go (Deletion.refused x, t) = (err x, st.db)

  module _ (index : Option Bytes) (versions : Versions) (keys : ℕ) where
    -- The loop over the iterator; it ends at a context that is done, or after `keys` deletions.
    sweep : List Visit → St → Result ℕ × Db
    unfolding discard_key closed
    sweep [] st = closed st (badger.commit st.db st.txn)
    sweep ((done, key) ∷ vs) st =
        let skipped = sweep vs st in
        if done
        then closed st (badger.commit st.db st.txn)
        else if ltb st.deleted keys
        then (if collectable index versions key
            then discard_key key st (sweep vs) (badger.delete st.txn key)
            else skipped)
        else closed st (badger.commit st.db st.txn)

  module _ (env : Env) where
    opened : ℕ → List Visit → Db → Result (Option Bytes) → Result Versions → Result ℕ × Db
    unfolding sweep
    opened keys vs db (err e) locked = (err e, db)
    opened keys vs db (ok index) (err e) = (err e, db)
    opened keys vs db (ok index) (ok versions) =
        sweep index versions keys vs (record { db = db; txn = badger.new_txn db; deleted = 0 })

    -- `discard`, whose iteration meets `vs`; it reads the two keys in the transaction that it opens.
    pub discard : ℕ → List Visit → Db → Result ℕ × Db
    unfolding opened get_index get_locked_transaction
    discard keys vs db =
        opened keys vs db (get_index env.clipboard_codec (badger.get db latest_key))
          (get_locked_transaction env.versions_codec (badger.get db pending_key))
