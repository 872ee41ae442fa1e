-- ===== src/Storage/Write/Locking.antt =====
-- What `Validate` of storage/batch_writer.go does about the lock of its version.
use webcb.Base.{
  ℕ, ◌+◌, ◌≡◌, ◌⊎◌, inl, inr, refl, sym, ◌∙◌, ap, subst, true, false, [], arith, Option, Result, ok,
  Bytes, bytes_eq_refl, decimal, ltb, Bool-cases,
}
use webcb.Storage.Badger.{Get, found, missing, Badger, written, Healthy}
use webcb.Storage.Keys.{latest_key, pending_key, chunk_key, before_slash-chunk_key}
use webcb.Storage.Batch.{
  Versions, BatchWriter, holds, validate, estimate_entry_size, lock_version, renew,
}
use webcb.Storage.Batch.Laws.{
  RoundTrips, Sound, Locks, lock_version-once, lock_version-again, holds-insert,
}
use webcb.Storage.Batch.Pending.{Open, flushed, flush-lem, flushed-Locks}
use webcb.Storage.Write.{Env}
use webcb.Storage.Gc.{get_index, get_locked_transaction, collectable}
use webcb.Storage.Gc.Laws.{Deleting}

pub locked-not_collectable :
    (index : Option Bytes) (versions : Versions) (v : ℕ) (ulid : Bytes)
    → holds (decimal v) versions ≡ true
    → collectable index versions (chunk_key v ulid) ≡ false
unfolding collectable
locked-not_collectable index versions v ulid h =
    rw (before_slash-chunk_key v ulid, h) (ground arith)

module _ {Db Batch Txn : Type 0} {badger : Badger Db Batch Txn} (h : Healthy badger)
    (l : Deleting badger) (env : Env) (rt : RoundTrips env.versions_codec) where
  abbrev Bw : Type 0
  Bw = BatchWriter Db Batch

  -- The database records the version as locked.
  abbrev pub Holding : ℕ → Db → Type 0
  Holding v d = (m : Versions) × Locks h rt d m × (holds (decimal v) m ≡ true)

  -- The state of a copy of the version `v`: the records of the latest version and of the locked ones
  -- can be read, no batch writes the first one, and the version is locked once `lockVersion` was called.
  pub record Guarded (v : ℕ) (bw : Bw) : Type 0 where
    pub is_open : Open h rt bw
    pub index : Option Bytes
    pub indexed : get_index env.clipboard_codec (badger.get bw.b.db latest_key) ≡ ok index
    pub latest_left : (old : Get) → written (h.entries bw.batch) latest_key old ≡ old
    pub version : bw.version ≡ v
    pub locked : (bw.once ≡ false) ⊎ ((bw.once ≡ true) × Holding v bw.b.db)

  -- what `Validate` does about the lock
  abbrev pub Locking : ℕ → Bw → Bw → Type 0
  Locking v bw bw' =
      ((bw'.once ≡ true) × Holding v bw'.b.db × (bw'.batch ≡ badger.new_batch))
      ⊎ ((bw'.once ≡ bw.once) × (bw'.b.db ≡ bw.b.db) × (bw'.batch ≡ bw.batch))

  pub Locks-same :
      (m : Versions) (d d' : Db)
      → badger.get d' pending_key ≡ badger.get d pending_key
      → Locks h rt d m
      → Locks h rt d' m
  Locks-same m d d' e q =
      subst
        (λ (g : Get).
          ((g ≡ missing) × (m ≡ []))
          ⊎ ((x : Bytes) × (g ≡ found x) × (env.versions_codec.unmarshal x ≡ ok m)))
        (sym e) q

  pub get_locked_transaction-Locks :
      (d : Db) (m : Versions)
      → Locks h rt d m
      → get_locked_transaction env.versions_codec (badger.get d pending_key) ≡ ok m
  unfolding get_locked_transaction
  get_locked_transaction-Locks d m (inl (e, z)) = rw (e, z) refl
  get_locked_transaction-Locks d m (inr (x, e, u)) = rw e u

  pub Holding-same :
      (v : ℕ) (d d' : Db)
      → badger.get d' pending_key ≡ badger.get d pending_key
      → Holding v d
      → Holding v d'
  Holding-same v d d' e (m, q, b) = (m, Locks-same m d d' e q, b)

  -- after `lockVersion`, whether or not it is the first call
  locked_version :
      (v : ℕ) (bw : Bw)
      → Guarded v bw
      → (bw' : Bw) × (lock_version badger env.versions_codec bw ≡ (ok tt, bw'))
        × (bw'.once ≡ true)
        × (bw'.batch ≡ bw.batch)
        × Holding v bw'.b.db
  locked_version v bw g = elim g.locked [
    | inl first ↦
        (let (bw', e, q, o, b) = lock_version-once h rt bw g.is_open.held g.is_open.lock first in
          (
            bw',
            e,
            o,
            b,
            (
              _,
              q,
              holds-insert (decimal bw.version) (decimal v) g.is_open.held
                  ∙ rw (g.version, bytes_eq_refl (decimal v)),
            ),
          ))
    | inr (again, held) ↦
        (bw, lock_version-again badger env.versions_codec bw again, again, refl, held)
  ]

  pub validate-Locking :
      (key value : Bytes) (v : ℕ) (bw bw' : Bw)
      → Guarded v bw
      → validate badger env.versions_codec key value bw ≡ (ok tt, bw')
      → Locking v bw bw'
  unfolding validate renew flushed
  validate-Locking key value v bw bw' g e =
      elim (Bool-cases
        (ltb bw.b.value_log_file_size (bw.batch_size + estimate_entry_size key value))) [
          | inl over ↦
              (let bw1 : Bw = record bw {
                batch_size = bw.batch_size + estimate_entry_size key value;
              } in
                let (bw2, q, o, b, held) = locked_version v bw1 (record {
                  is_open = record {
                    sound = g.is_open.sound;
                    held = g.is_open.held;
                    lock = g.is_open.lock;
                  };
                  index = g.index;
                  indexed = g.indexed;
                  latest_left = g.latest_left;
                  version = g.version;
                  locked = g.locked;
                }) in
                let out : ◌≡◌ {A = Result (Unit {0}) × Bw}
                    (ok tt, record (flushed h rt bw2) { batch = badger.new_batch; batch_size = 0 })
                    (ok tt, bw') =
                  sym (rw (over, q, flush-lem h rt bw2) refl) ∙ e in
                inl (
                  ap (λ (r : Result (Unit {0}) × Bw). r.1.once) (sym out) ∙ o,
                  subst (λ (r : Result (Unit {0}) × Bw). Holding v r.1.b.db) out
                      (
                        held.0,
                        flushed-Locks h rt bw2 held.0
                            (subst (λ (t : Batch). Sound (h.entries t)) (sym b) g.is_open.sound)
                            held.1,
                        held.2,
                      ),
                  ap (λ (r : Result (Unit {0}) × Bw). r.1.batch) (sym out),
                ))
          | inr fits ↦ inr (
            ap (λ (r : Result (Unit {0}) × Bw). r.1.once) (sym (rw fits at e)),
            ap (λ (r : Result (Unit {0}) × Bw). r.1.b.db) (sym (rw fits at e)),
            ap (λ (r : Result (Unit {0}) × Bw). r.1.batch) (sym (rw fits at e)),
          )
        ]
