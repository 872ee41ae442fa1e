-- ===== src/Storage/Write/Guarding.antt =====
-- What `Validate` and `SetEntry` of storage/batch_writer.go do about the lock of a version while its
-- entries are stored.
use webcb.Base.{
  ℕ, ◌≡◌, ◌⊎◌, inl, inr, refl, sym, ◌∙◌, ap, subst, true, false, [], ◌∷◌, ◌++◌, Result, ok, Bytes,
  bytes_eq, bytes_eq_refl, if◌then◌else◌,
}
use webcb.Storage.Badger.{Get, found, Entry, Badger, lasting, written, Healthy}
use webcb.Storage.Keys.{latest_key, pending_key}
use webcb.Storage.Batch.{BadgerDb, BatchWriter}
use webcb.Storage.Batch.Laws.{RoundTrips, view, Keeps, written-append}
use webcb.Storage.Batch.Pending.{Open, Open-Keeps, validate-Counts, set_entry-view}
use webcb.Storage.Write.{Env, put_entry}
use webcb.Storage.Gc.{get_index}
use webcb.Storage.Gc.Laws.{Deleting}
use webcb.Storage.Write.Locking.{Guarded, Holding, Locking, validate-Locking}

module _ {Db Batch Txn : Type 0} {badger : Badger Db Batch Txn} (h : Healthy badger)
    (l : Deleting badger) (env : Env) (rt : RoundTrips env.versions_codec) where
  abbrev Bw : Type 0
  Bw = BatchWriter Db Batch

  -- what `Validate` and `SetEntry` of one entry do
  abbrev pub Effect : Entry → Bw → Bw → Type 0
  Effect e bw bw' =
      ((k : Bytes)
        → bytes_eq pending_key k ≡ false
        → view h rt bw' k ≡ (if bytes_eq e.key k then found e.value else view h rt bw k))
      × ((bw'.once ≡ true)
          ⊎ ((bw'.once ≡ bw.once) × (h.entries bw'.batch ≡ h.entries bw.batch ++ e ∷ [])))

  -- after `Validate` no entry of the batch is for the key LATEST
  left_mid :
      (v : ℕ) (bw mid : Bw)
      → Guarded h l env rt v bw
      → Locking h l env rt v bw mid
      → (old : Get) → written (h.entries mid.batch) latest_key old ≡ old
  left_mid v bw mid g (inl (_, _, b)) old =
      ap (λ t. written (h.entries t) latest_key old) b
      ∙ ap (λ es. written es latest_key old) h.entries_new
  left_mid v bw mid g (inr (_, _, b)) old =
      ap (λ t. written (h.entries t) latest_key old) b ∙ g.latest_left old

  locked_mid :
      (v : ℕ) (bw mid : Bw)
      → Guarded h l env rt v bw
      → Locking h l env rt v bw mid
      → (mid.once ≡ false) ⊎ ((mid.once ≡ true) × Holding h l env rt v mid.b.db)
  locked_mid v bw mid g (inl (o, held, _)) = inr (o, held)
  locked_mid v bw mid g (inr (o, d, _)) = elim g.locked [
    | inl f ↦ inl (o ∙ f)
    | inr (t, held) ↦ inr (o ∙ t, subst (Holding h l env rt v) (sym d) held)
  ]

  -- After `Validate` and `SetEntry`.
  set-Guarded :
      (e : Entry) (v : ℕ) (bw mid bw' : Bw)
      → Guarded h l env rt v bw
      → bytes_eq e.key latest_key ≡ false
      → Keeps h rt bw mid
      → Locking h l env rt v bw mid
      → Open h rt bw'
      → bw'.b ≡ mid.b
      → bw'.version ≡ mid.version
      → h.entries bw'.batch ≡ h.entries mid.batch ++ e ∷ []
      → bw'.once ≡ mid.once
      → Guarded h l env rt v bw'
  unfolding bytes_eq
  set-Guarded e v bw mid bw' g m k c o same ver es once = record {
    is_open = o;
    index = g.index;
    indexed =
        ap (λ (b : BadgerDb Db). get_index env.clipboard_codec (badger.get b.db latest_key)) same
        ∙ ap (get_index env.clipboard_codec)
            (sym (left_mid v bw mid g c _) ∙ k.same_view latest_key ne ∙ g.latest_left _)
        ∙ g.indexed;
    latest_left = λ old.
        rw es (
          written-append (h.entries mid.batch) e latest_key old ∙ rw m (left_mid v bw mid g c old));
    version = ver ∙ k.same_version ∙ g.version;
    locked = elim (locked_mid v bw mid g c) [
      | inl f ↦ inl (once ∙ f)
      | inr (t, held) ↦
          inr (once ∙ t, subst (λ (b : BadgerDb Db). Holding h l env rt v b.db) (sym same) held)
    ];
  }
    where
      ne : bytes_eq pending_key latest_key ≡ false
      ne = refl

  pub put_entry-Guarded :
      (e : Entry) (v : ℕ) (bw bw' : Bw)
      → Guarded h l env rt v bw
      → lasting e ≡ true
      → bytes_eq e.key pending_key ≡ false
      → bytes_eq e.key latest_key ≡ false
      → put_entry badger env e bw ≡ (ok tt, bw')
      → Guarded h l env rt v bw' × Effect e bw bw'
  unfolding put_entry
  put_entry-Guarded e v bw bw' g a n m q =
      let x = validate-Counts h rt e.key e.value bw g.is_open in
      let c = validate-Locking h l env rt e.key e.value v bw x.0 g x.1 in
      let s = set_entry-view h rt e x.0 (Open-Keeps h rt x.2 g.is_open) a n in
      let done : put_entry badger env e bw ≡ (ok tt, s.0) = rw x.1 s.1 in
      subst (λ (z : Result (Unit {0}) × Bw). Guarded h l env rt v z.1 × Effect e bw z.1)
        (sym done ∙ q)
        (
          set-Guarded e v bw x.0 s.0 g m x.2 c s.3 s.4 s.5 s.6 s.8,
          (
            λ k p.
                s.2 k ∙ ap (λ y. if bytes_eq e.key k then found e.value else y) (x.2.same_view k p),
            growing x.0 s.0 c s.6 s.8,
          ),
        )
    where
      growing :
          (mid z : Bw)
          → Locking h l env rt v bw mid
          → h.entries z.batch ≡ h.entries mid.batch ++ e ∷ []
          → z.once ≡ mid.once
          → (z.once ≡ true)
            ⊎ ((z.once ≡ bw.once) × (h.entries z.batch ≡ h.entries bw.batch ++ e ∷ []))
      growing mid z (inl (t, _, _)) es o = inl (o ∙ t)
      growing mid z (inr (t, _, b)) es o = inr (o ∙ t, es ∙ ap (λ y. h.entries y ++ e ∷ []) b)

  -- The value is found under `k` once the batch is flushed, and either the version is locked, or the
  -- batch has it.
  abbrev pub Kept : Bytes → Bytes → Bw → Type 0
  Kept k x bw =
      (view h rt bw k ≡ found x)
      × ((bw.once ≡ true) ⊎ ((old : Get) → written (h.entries bw.batch) k old ≡ found x))

  pub Kept-Effect :
      (k x : Bytes) (e : Entry) (bw bw' : Bw)
      → bytes_eq pending_key k ≡ false
      → bytes_eq e.key k ≡ false
      → Effect e bw bw'
      → Kept k x bw
      → Kept k x bw'
  Kept-Effect k x e bw bw' p n (seen, o) (found_x, s) = (seen k p ∙ rw n found_x, later o s)
    where
      later :
          (bw'.once ≡ true)
            ⊎ ((bw'.once ≡ bw.once) × (h.entries bw'.batch ≡ h.entries bw.batch ++ e ∷ []))
          → (bw.once ≡ true) ⊎ ((old : Get) → written (h.entries bw.batch) k old ≡ found x)
          → (bw'.once ≡ true) ⊎ ((old : Get) → written (h.entries bw'.batch) k old ≡ found x)
      later (inl t) r = inl t
      later (inr (t, es)) (inl r) = inl (t ∙ r)
      later (inr (t, es)) (inr f) =
          inr (λ old. rw es (written-append (h.entries bw.batch) e k old ∙ rw n (f old)))

  pub Kept-new :
      (e : Entry) (bw bw' : Bw)
      → bytes_eq pending_key e.key ≡ false
      → Effect e bw bw'
      → Kept e.key e.value bw'
  Kept-new e bw bw' p (seen, o) = (seen e.key p ∙ rw (bytes_eq_refl e.key) refl, later o)
    where
      later :
          (bw'.once ≡ true)
            ⊎ ((bw'.once ≡ bw.once) × (h.entries bw'.batch ≡ h.entries bw.batch ++ e ∷ []))
          → (bw'.once ≡ true)
            ⊎ ((old : Get) → written (h.entries bw'.batch) e.key old ≡ found e.value)
      later (inl t) = inl t
      later (inr (t, es)) = inr (λ old.
          rw es (written-append (h.entries bw.batch) e e.key old ∙ rw (bytes_eq_refl e.key) refl))
