-- ===== src/Storage/Batch/Laws.antt =====
-- What the operations of storage/batch_writer.go do to the entries that a reader will find.
use webcb.Base.{
  ◌≡◌, refl, ◌∙◌, ap, true, false, List, [], ◌∷◌, ◌++◌, Result, ok, Bytes, All, bytes_eq,
  bytes_eq_refl, eq_of_bytes_eq, decimal, if◌then◌else◌, Bool-cases, inl, inr, ◌⊎◌,
}
use webcb.Storage.Badger.{Get, found, missing, Entry, Badger, Codec, written, lasting, Healthy}
use webcb.Storage.Keys.{pending_key}
use webcb.Storage.Batch.{
  Versions, insert, remove, holds, BatchWriter, lift, returned, set_key, read_versions, locking,
  lock_version, unlocking, unlock_version,
}

-- What protobuf promises: a message is marshalled, and unmarshalled to itself.
abbrev pub RoundTrips : {M : Type 0} → Codec M → Type 0
RoundTrips {M} c = (m : M) → (v : Bytes) × (c.marshal m ≡ ok v) × (c.unmarshal v ≡ ok m)

-- The entries of a version: none expires at once, and none is for the key PENDING.
abbrev pub Sound : List Entry → Type 0
Sound = All (λ e. (lasting e ≡ true) × (bytes_eq e.key pending_key ≡ false))

pub Sound-lasting : (es : List Entry) → Sound es → All (λ e. lasting e ≡ true) es
Sound-lasting [] h = tt
Sound-lasting (e ∷ es) h = (h.0.0, Sound-lasting es h.1)

pub written_pending : (es : List Entry) (old : Get) → Sound es → written es pending_key old ≡ old
written_pending [] old h = refl
written_pending (e ∷ es) old h = rw h.0.1 (written_pending es old h.1)

pub written-append :
    (es : List Entry) (e : Entry) (k : Bytes) (old : Get)
    → written (es ++ e ∷ []) k old ≡ (if bytes_eq e.key k then found e.value else written es k old)
written-append [] e k old = refl
written-append (x ∷ es) e k old = written-append es e k _

pub Sound-append :
    (es : List Entry) (e : Entry)
    → Sound es
    → lasting e ≡ true
    → bytes_eq e.key pending_key ≡ false
    → Sound (es ++ e ∷ [])
Sound-append [] e h l n = ((l, n), tt)
Sound-append (x ∷ es) e h l n = (h.0, Sound-append es e h.1 l n)

module _ {Db Batch Txn : Type 0} {badger : Badger Db Batch Txn} (h : Healthy badger)
    {codec : Codec Versions} (rt : RoundTrips codec) where
  abbrev Bw : Type 0
  Bw = BatchWriter Db Batch

  -- What will be found under `k` once the batch is flushed.
  abbrev pub view : Bw → Bytes → Get
  view bw k = written (h.entries bw.batch) k (badger.get bw.b.db k)

  -- The versions that the database records as locked.
  abbrev pub Locks : Db → Versions → Type 0
  Locks d m =
      ((badger.get d pending_key ≡ missing) × (m ≡ []))
      ⊎ ((v : Bytes) × (badger.get d pending_key ≡ found v) × (codec.unmarshal v ≡ ok m))

  -- A step that leaves all but the lock as a reader will find it.
  pub record Keeps (bw bw' : Bw) : Type 0 where
    pub same_view : (k : Bytes) → bytes_eq pending_key k ≡ false → view bw' k ≡ view bw k
    pub same_version : bw'.version ≡ bw.version
    pub same_ulids : bw'.b.ulids ≡ bw.b.ulids
    pub same_limit : bw'.b.value_log_file_size ≡ bw.b.value_log_file_size
    pub same_chunk_size : bw'.b.chunk_size ≡ bw.b.chunk_size
    pub lasts : Sound (h.entries bw.batch) → Sound (h.entries bw'.batch)
    pub locks : (m : Versions) → Locks bw.b.db m → (m' : Versions) × Locks bw'.b.db m'

  pub Keeps-trans : {a b c : Bw} → Keeps a b → Keeps b c → Keeps a c
  Keeps-trans p q = record {
    same_view = λ k e. q.same_view k e ∙ p.same_view k e;
    same_version = q.same_version ∙ p.same_version;
    same_ulids = q.same_ulids ∙ p.same_ulids;
    same_limit = q.same_limit ∙ p.same_limit;
    same_chunk_size = q.same_chunk_size ∙ p.same_chunk_size;
    lasts = λ l. q.lasts (p.lasts l);
    locks = λ m l. let r = p.locks m l in q.locks r.0 r.1;
  }

  put_pending : Bw → Bytes → Bw
  put_pending bw v = record bw { b = record bw.b { db = (badger.put bw.b.db pending_key v).1 } }

  set_key-lem :
      (bw : Bw) (v : Bytes) → set_key badger codec pending_key v bw ≡ (ok tt, put_pending bw v)
  unfolding set_key put_pending returned
  set_key-lem bw v = rw (h.put_ok bw.b.db pending_key v)

  -- what the lock of the version leaves behind
  record Locked (bw : Bw) (m : Versions) (out : Result (Unit {0}) × Bw) : Type 0 where
    after : Bw
    result : out ≡ (ok tt, after)
    now_held : Locks after.b.db m
    keeps : Keeps bw after
    untouched :
        (k : Bytes)
        → bytes_eq pending_key k ≡ false
        → badger.get after.b.db k ≡ badger.get bw.b.db k
    same_once : after.once ≡ bw.once
    same_batch : after.batch ≡ bw.batch

  put_pending-Locked :
      (bw : Bw) (m : Versions) (v : Bytes)
      → codec.unmarshal v ≡ ok m
      → Locked bw m (set_key badger codec pending_key v bw)
  unfolding put_pending
  put_pending-Locked bw m v e = record {
    after = put_pending bw v;
    result = set_key-lem bw v;
    now_held =
        inr (v, h.get_put bw.b.db pending_key v pending_key ∙ rw (bytes_eq_refl pending_key), e);
    keeps = record {
      same_view =
          λ k ne. ap (written (h.entries bw.batch) k) (h.get_put bw.b.db pending_key v k ∙ rw ne);
      same_version = refl;
      same_ulids = refl;
      same_limit = refl;
      same_chunk_size = refl;
      lasts = λ l. l;
      locks = λ n l. (
        m,
        inr (v, h.get_put bw.b.db pending_key v pending_key ∙ rw (bytes_eq_refl pending_key), e),
      );
    };
    untouched = λ k ne. h.get_put bw.b.db pending_key v k ∙ rw ne;
    same_once = refl;
    same_batch = refl;
  }

  read_versions-lem :
      (bw : Bw) (m : Versions)
      → Locks bw.b.db m
      → read_versions badger codec (badger.get bw.b.db pending_key) bw ≡ (ok m, bw)
  unfolding read_versions lift
  read_versions-lem bw m (inl (e, z)) = rw (e, z)
  read_versions-lem bw m (inr (v, e, u)) = rw (e, u)

  locking-Locked :
      (bw : Bw) (m : Versions)
      → Locks bw.b.db m
      → Locked bw (insert (decimal bw.version) m) (locking badger codec bw)
  unfolding locking lift
  locking-Locked bw m l =
      let n = insert (decimal bw.version) m in
      rw (read_versions-lem bw m l, (rt n).1) (put_pending-Locked bw n (rt n).0 (rt n).2)

  -- `lockVersion`, the first time that it is called for a batch, if the list of locked versions
  -- can be read and the database and the encoding keep their laws: it succeeds, it adds the
  -- version to those that are locked and removes none, and it changes no other entry.
  pub lock_version-first :
      (bw : Bw) (m : Versions)
      → Locks bw.b.db m
      → bw.once ≡ false
      → (bw' : Bw) × (lock_version badger codec bw ≡ (ok tt, bw'))
        × Locks bw'.b.db (insert (decimal bw.version) m)
        × Keeps bw bw'
  unfolding lock_version
  lock_version-first bw m l o =
      let r = locking-Locked (record bw { once = true }) m l in
      (r.after, rw o r.result, r.now_held, first r.keeps)
    where
      first : {c : Bw} → Keeps (record bw { once = true }) c → Keeps bw c
      first k = record {
        same_view = k.same_view;
        same_version = k.same_version;
        same_ulids = k.same_ulids;
        same_limit = k.same_limit;
        same_chunk_size = k.same_chunk_size;
        lasts = k.lasts;
        locks = k.locks;
      }

  -- what else the first call leaves
  pub lock_version-once :
      (bw : Bw) (m : Versions)
      → Locks bw.b.db m
      → bw.once ≡ false
      → (bw' : Bw) × (lock_version badger codec bw ≡ (ok tt, bw'))
        × Locks bw'.b.db (insert (decimal bw.version) m)
        × (bw'.once ≡ true)
        × (bw'.batch ≡ bw.batch)
  unfolding lock_version
  lock_version-once bw m l o =
      let r = locking-Locked (record bw { once = true }) m l in
      (r.after, rw o r.result, r.now_held, r.same_once, r.same_batch)

  -- `unlockVersion`, if a readable list of locked versions is there and the database and the
  -- encoding keep their laws, succeeds, removes the version from those that are locked, and
  -- changes no other entry.
  pub unlock_version-lem :
      (bw : Bw) (v : Bytes) (m : Versions)
      → badger.get bw.b.db pending_key ≡ found v
      → codec.unmarshal v ≡ ok m
      → (bw' : Bw) × (unlock_version badger codec bw ≡ (ok tt, bw'))
        × Locks bw'.b.db (remove (decimal bw.version) m)
        × ((k : Bytes)
            → bytes_eq pending_key k ≡ false
            → badger.get bw'.b.db k ≡ badger.get bw.b.db k)
  unfolding unlock_version lift
  unlock_version-lem bw v m e u =
      let n = remove (decimal bw.version) m in
      let r = put_pending-Locked bw n (rt n).0 (rt n).2 in
      (r.after, rw (e, unlocking, u, (rt n).1) r.result, r.now_held, r.untouched)

pub holds-remove_self : (k : Bytes) (m : Versions) → holds k (remove k m) ≡ false
unfolding holds remove
holds-remove_self k [] = refl
holds-remove_self k ((j, v) ∷ m) = elim (Bool-cases (bytes_eq j k)) [
  | inl same ↦ rw same (holds-remove_self k m)
  | inr other ↦ rw (other, other) (holds-remove_self k m)
]

holds-remove_ne :
    (k j : Bytes) (m : Versions) → bytes_eq k j ≡ false → holds j (remove k m) ≡ holds j m
unfolding holds remove
holds-remove_ne k j [] h = refl
holds-remove_ne k j ((i, v) ∷ m) h = elim (Bool-cases (bytes_eq i k)) [
  | inl same ↦ rw (same, other i same) (holds-remove_ne k j m h)
  | inr ne ↦ rw ne (ap (λ b. if bytes_eq i j then true else b) (holds-remove_ne k j m h))
]
  where
    other : (i : Bytes) → bytes_eq i k ≡ true → bytes_eq i j ≡ false
    other i same = rw (eq_of_bytes_eq i k same) h

-- After `insert` the version is locked, and every other version is as it was.
pub holds-insert :
    (k j : Bytes) (m : Versions) → holds j (insert k m) ≡ (if bytes_eq k j then true else holds j m)
unfolding holds insert
holds-insert k j m = elim (Bool-cases (bytes_eq k j)) [
  | inl same ↦ rw same
  | inr ne ↦ rw ne (holds-remove_ne k j m ne)
]

-- After `remove` the version is not locked, and every other version is as it was.
pub holds-remove :
    (k j : Bytes) (m : Versions)
    → holds j (remove k m) ≡ (if bytes_eq k j then false else holds j m)
holds-remove k j m = elim (Bool-cases (bytes_eq k j)) [
  | inl same ↦ rw (same, ← eq_of_bytes_eq k j same) (holds-remove_self k m)
  | inr ne ↦ rw ne (holds-remove_ne k j m ne)
]

-- `lockVersion` does nothing once it has been called.
pub lock_version-again :
    {Db Batch Txn : Type 0} (badger : Badger Db Batch Txn) (codec : Codec Versions)
    (bw : BatchWriter Db Batch)
    → bw.once ≡ true
    → lock_version badger codec bw ≡ (ok tt, bw)
unfolding lock_version
lock_version-again badger codec bw o = rw o
