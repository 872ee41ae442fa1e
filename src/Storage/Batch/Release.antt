-- ===== src/Storage/Batch/Release.antt =====
-- `Release` of storage/batch_writer.go.
use webcb.Base.{
  ◌≡◌, refl, subst, sym, ◌∙◌, ap, false, [], Result, Bytes, bytes_eq, decimal, inl, inr,
}
use webcb.Storage.Badger.{Badger, Codec, Healthy}
use webcb.Storage.Keys.{pending_key}
use webcb.Storage.Batch.{
  Versions, holds, remove, BadgerDb, BatchWriter, unlocking, unlock_version, release,
}
use webcb.Storage.Batch.Laws.{RoundTrips, Locks, unlock_version-lem, holds-remove_self}

module _ {Db Batch Txn : Type 0} {badger : Badger Db Batch Txn} (h : Healthy badger)
    {codec : Codec Versions} (rt : RoundTrips codec) where
  abbrev Bw : Type 0
  Bw = BatchWriter Db Batch

  -- `Release` touches nothing but the lock.
  pub record Released (bw : Bw) (b : BadgerDb Db) : Type 0 where
    pub sees :
        (k : Bytes) → bytes_eq pending_key k ≡ false → badger.get b.db k ≡ badger.get bw.b.db k
    pub held : Versions
    pub lock : Locks h rt b.db held
    pub unlocked : holds (decimal bw.version) held ≡ false

  pub release-Released :
      (bw : Bw) (m : Versions) → Locks h rt bw.b.db m → Released bw (release badger codec bw).1.b
  unfolding release unlock_version holds
  release-Released bw m (inl (e, z)) =
      rw (e, unlocking)
        (record { sees = λ k ne. refl; held = []; lock = inl (e, refl); unlocked = refl })
  release-Released bw m (inr (v, e, u)) =
      let bw1 : Bw = record bw { batch = badger.new_batch } in
      let r = unlock_version-lem h rt bw1 v m e u in
      record {
        sees = λ k ne. ap (λ (x : Result (Unit {0}) × Bw). badger.get x.1.b.db k) r.1 ∙ r.3 k ne;
        held = remove (decimal bw.version) m;
        lock = ap_locks (remove (decimal bw.version) m) (sym r.1) r.2;
        unlocked = holds-remove_self (decimal bw.version) m;
      }
    where
      ap_locks :
          (n : Versions) {x y : Result (Unit {0}) × Bw}
          → x ≡ y
          → Locks h rt x.1.b.db n
          → Locks h rt y.1.b.db n
      ap_locks n p = subst (λ (x : Result (Unit {0}) × Bw). Locks h rt x.1.b.db n) p
