-- ===== src/Storage/Batch/Pending.antt =====
-- `Validate`, `SetEntry` and `Flush` of storage/batch_writer.go: what is pending, and its size.
use webcb.Base.{
  ℕ, ◌+◌, ◌≤◌, ◌<◌, ◌∷◌, ◌++◌, length, ◌≡◌, refl, sym, ◌∙◌, ap, subst, true, false, [], arith, ok,
  Bytes, bytes_eq, ltb, if◌then◌else◌, Bool-cases, inl, inr, ◌⊎◌,
}
use webcb.Storage.Badger.{Get, found, missing, Entry, Badger, Codec, written, lasting, Healthy}
use webcb.Storage.Keys.{pending_key}
use webcb.Storage.Batch.{
  Versions, BatchWriter, returned, lock_version, set_entry, flush, renew, validate,
  estimate_entry_size,
}
use webcb.Storage.Batch.Laws.{
  RoundTrips, Sound, Sound-lasting, Sound-append, written_pending, written-append, view, Locks,
  Keeps, Keeps-trans, lock_version-first, lock_version-again,
}

-- 21 bytes for a header and 4 for a checksum, with the key and the value
abbrev pub entry_room : Bytes → Bytes → ℕ
entry_room key value = 25 + length key + length value

module _ {Db Batch Txn : Type 0} {badger : Badger Db Batch Txn} (h : Healthy badger)
    {codec : Codec Versions} (rt : RoundTrips codec) where
  abbrev Bw : Type 0
  Bw = BatchWriter Db Batch

  unfoldable pub flushed : Bw → Bw
  flushed bw = record bw { b = record bw.b { db = (badger.flush bw.b.db bw.batch).1 } }

  pub flush-lem : (bw : Bw) → flush badger codec bw ≡ (ok tt, flushed bw)
  unfolding flush flushed returned
  flush-lem bw = rw (h.flush_ok bw.b.db bw.batch)

  renewed : Bw → Bw
  renewed bw = record (flushed bw) { batch = badger.new_batch; batch_size = 0 }

  -- After a flush a reader finds what was to be found after it.
  pub get-flushed :
      (bw : Bw) (k : Bytes)
      → Sound (h.entries bw.batch)
      → badger.get (flushed bw).b.db k ≡ view h rt bw k
  unfolding flushed
  get-flushed bw k l = h.get_flush bw.b.db bw.batch k (Sound-lasting (h.entries bw.batch) l)

  pub flushed-Locks :
      (bw : Bw) (m : Versions)
      → Sound (h.entries bw.batch)
      → Locks h rt bw.b.db m
      → Locks h rt (flushed bw).b.db m
  flushed-Locks bw m l =
      subst
        (λ (g : Get).
          ((g ≡ missing) × (m ≡ [])) ⊎ ((v : Bytes) × (g ≡ found v) × (codec.unmarshal v ≡ ok m)))
        (sym (
          get-flushed bw pending_key l
          ∙ written_pending (h.entries bw.batch) (badger.get bw.b.db pending_key) l))

  pub flushed-version : (bw : Bw) → (flushed bw).version ≡ bw.version
  unfolding flushed
  flushed-version bw = refl

  flushed-Keeps : (bw : Bw) → Sound (h.entries bw.batch) → Keeps h rt bw (renewed bw)
  unfolding renewed flushed
  flushed-Keeps bw l = record {
    same_view = λ k ne.
        ap (λ es. written es k (badger.get (flushed bw).b.db k)) h.entries_new
        ∙ h.get_flush bw.b.db bw.batch k (Sound-lasting (h.entries bw.batch) l);
    same_version = refl;
    same_ulids = refl;
    same_limit = refl;
    same_chunk_size = refl;
    lasts = λ _. subst Sound (sym h.entries_new) tt;
    locks = λ m q. (m, flushed-Locks bw m l q);
  }

  -- A state of a batch from which its operations succeed.
  pub record Open (bw : Bw) : Type 0 where
    pub sound : Sound (h.entries bw.batch)
    pub held : Versions
    pub lock : Locks h rt bw.b.db held

  pub Open-Keeps : {a b : Bw} → Keeps h rt a b → Open a → Open b
  Open-Keeps k o =
      let l = k.locks o.held o.lock in record { sound = k.lasts o.sound; held = l.0; lock = l.1 }

  Keeps-refl : (bw : Bw) (n : ℕ) → Keeps h rt bw (record bw { batch_size = n })
  Keeps-refl bw n = record {
    same_view = λ k e. refl;
    same_version = refl;
    same_ulids = refl;
    same_limit = refl;
    same_chunk_size = refl;
    lasts = λ l. l;
    locks = λ m q. (m, q);
  }

  lock_version-Keeps :
      (bw : Bw)
      → Open bw
      → (bw' : Bw) × (lock_version badger codec bw ≡ (ok tt, bw')) × Keeps h rt bw bw'
  lock_version-Keeps bw o = elim (Bool-cases bw.once) [
    | inl again ↦ (bw, lock_version-again badger codec bw again, Keeps-refl bw bw.batch_size)
    | inr first ↦ (let r = lock_version-first h rt bw o.held o.lock first in (r.0, r.1, r.3))
  ]

  -- What `Validate` makes of the batch and of its size: a new batch if the entry has no room, or else
  -- the same one, with the entry counted.
  abbrev pub Counts : Bytes → Bytes → Bw → Bw → Type 0
  Counts key value bw bw' =
      ((bw.b.value_log_file_size < bw.batch_size + entry_room key value)
        × (bw'.batch ≡ badger.new_batch)
        × (bw'.batch_size ≡ 0))
      ⊎ ((bw.batch_size + entry_room key value ≤ bw.b.value_log_file_size)
          × (bw'.batch ≡ bw.batch)
          × (bw'.batch_size ≡ bw.batch_size + entry_room key value))

  room : (key value : Bytes) → estimate_entry_size key value ≡ entry_room key value
  unfolding estimate_entry_size
  room key value = omega arith

  -- With a database that takes what it is given, `Validate` succeeds, and leaves every entry but the
  -- lock as a reader would find it after a flush.
  pub validate-Counts :
      (key value : Bytes) (bw : Bw)
      → Open bw
      → (bw' : Bw) × (validate badger codec key value bw ≡ (ok tt, bw'))
        × Keeps h rt bw bw'
        × Counts key value bw bw'
  unfolding validate renew renewed
  validate-Counts key value bw o =
      elim (Bool-cases
        (ltb bw.b.value_log_file_size (bw.batch_size + estimate_entry_size key value))) [
          | inl over ↦
              (let bw1 : Bw = record bw {
                batch_size = bw.batch_size + estimate_entry_size key value;
              } in
                let l =
                  lock_version-Keeps bw1
                    (record { sound = o.sound; held = o.held; lock = o.lock }) in
                (
                  renewed l.0,
                  rw (over, l.1, flush-lem l.0),
                  Keeps-trans h rt (Keeps-refl bw _)
                      (Keeps-trans h rt l.2 (flushed-Keeps l.0 (l.2.lasts o.sound))),
                  inl (ground (arith, room key value, over), refl, refl),
                ))
          | inr fits ↦ (
            record bw { batch_size = bw.batch_size + estimate_entry_size key value },
            rw fits,
            Keeps-refl bw _,
            inr (
              ground (arith, room key value, fits),
              refl,
              ap (λ n. bw.batch_size + n) (room key value),
            ),
          )
        ]

  -- `SetEntry` of an entry that does not expire at once.
  pub set_entry-view :
      (e : Entry) (bw : Bw)
      → Open bw
      → lasting e ≡ true
      → bytes_eq e.key pending_key ≡ false
      → (bw' : Bw) × (set_entry badger codec e bw ≡ (ok tt, bw'))
        × ((k : Bytes)
            → view h rt bw' k ≡ (if bytes_eq e.key k then found e.value else view h rt bw k))
        × Open bw'
        × (bw'.b ≡ bw.b)
        × (bw'.version ≡ bw.version)
        × (h.entries bw'.batch ≡ h.entries bw.batch ++ e ∷ [])
        × (bw'.batch_size ≡ bw.batch_size)
        × (bw'.once ≡ bw.once)
  unfolding set_entry returned
  set_entry-view e bw o l n = (
    record bw { batch = (badger.set_entry bw.batch e).1 },
    rw (h.set_entry_ok bw.batch e),
    λ k.
        rw (h.entries_set bw.batch e)
          (written-append (h.entries bw.batch) e k (badger.get bw.b.db k)),
    record {
      sound = rw (h.entries_set bw.batch e) (Sound-append (h.entries bw.batch) e o.sound l n);
      held = o.held;
      lock = o.lock;
    },
    refl,
    refl,
    h.entries_set bw.batch e,
    refl,
    refl,
  )
