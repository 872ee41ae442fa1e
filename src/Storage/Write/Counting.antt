-- ===== src/Storage/Write/Counting.antt =====
-- `Validate` of storage/batch_writer.go over a sequence of entries: what the size of a batch says of the
-- entries in it.
use webcb.Base.{
  ℕ, ◌+◌, ◌≤◌, ◌≡◌, ◌⊎◌, inl, inr, refl, ◌∙◌, ap, sym, true, false, List, [], ◌∷◌, ◌++◌, arith, ok,
  bytes_eq, All,
}
use webcb.Base.Exec.{Exec, pure, ◌>>◌}
use webcb.Storage.Badger.{Entry, Badger, lasting, Healthy}
use webcb.Storage.Keys.{pending_key}
use webcb.Storage.Batch.{BatchWriter}
use webcb.Storage.Batch.Laws.{RoundTrips}
use webcb.Storage.Batch.Pending.{entry_room, Open}
use webcb.Storage.Write.{Env, put_entry}
use webcb.Storage.Write.Laws.{Grows, put_entry-Put}

-- the room that entries take, by the estimate
abbrev pub room_of : List Entry → ℕ
room_of [] = 0
room_of (e ∷ es) = entry_room e.key e.value + room_of es

room_of-snoc :
    (es : List Entry) (e : Entry) → room_of (es ++ e ∷ []) ≡ room_of es + entry_room e.key e.value
room_of-snoc [] e = omega arith
room_of-snoc (x ∷ es) e = omega (arith, room_of-snoc es e)

-- entry after entry, as the loop of `WriteBatch` stores them, until one is refused
abbrev pub put_entries :
    {Db Batch Txn : Type 0}
    → Badger Db Batch Txn
    → Env
    → List Entry
    → Exec (BatchWriter Db Batch) (Unit {0})
put_entries badger env [] = pure tt
put_entries badger env (e ∷ es) = put_entry badger env e >> put_entries badger env es

module _ {Db Batch Txn : Type 0} {badger : Badger Db Batch Txn} (h : Healthy badger) (env : Env)
    (rt : RoundTrips env.versions_codec) where
  abbrev Bw : Type 0
  Bw = BatchWriter Db Batch

  -- The size is within the limit, and is the room of all entries of the batch, or of all but the
  -- first one.
  pub record Accounted (bw : Bw) : Type 0 where
    pub in_limit : bw.batch_size ≤ bw.b.value_log_file_size
    pub counted :
        (bw.batch_size ≡ room_of (h.entries bw.batch))
        ⊎ ((e : Entry) × (es : List Entry) × (h.entries bw.batch ≡ e ∷ es)
            × (bw.batch_size ≡ room_of es))

  -- an entry that does not expire at once, and is not the list of locks
  abbrev pub Storable : Entry → Type 0
  Storable e = (lasting e ≡ true) × (bytes_eq e.key pending_key ≡ false)

  Accounted-Grows :
      (e : Entry) (bw bw' : Bw)
      → Accounted bw
      → bw'.b.value_log_file_size ≡ bw.b.value_log_file_size
      → Grows h env rt e bw bw'
      → Accounted bw'
  Accounted-Grows e bw bw' a l (inl (_, es, n)) = record {
    in_limit = omega (arith, n);
    counted = inr (e, [], es, n);
  }
  Accounted-Grows e bw bw' a l (inr (r, es, n)) = record {
    in_limit = omega (arith, n, l, r);
    counted = counting a.counted;
  }
    where
      counting :
          (bw.batch_size ≡ room_of (h.entries bw.batch))
            ⊎ ((x : Entry) × (xs : List Entry) × (h.entries bw.batch ≡ x ∷ xs)
                × (bw.batch_size ≡ room_of xs))
          → (bw'.batch_size ≡ room_of (h.entries bw'.batch))
            ⊎ ((x : Entry) × (xs : List Entry) × (h.entries bw'.batch ≡ x ∷ xs)
                × (bw'.batch_size ≡ room_of xs))
      counting (inl c) = inl (
          n
          ∙ ap (λ m. m + entry_room e.key e.value) c
          ∙ sym (room_of-snoc (h.entries bw.batch) e)
          ∙ sym (ap room_of es))
      counting (inr (x, xs, q, c)) = inr (
        x,
        xs ++ e ∷ [],
        es ∙ ap (λ (y : List Entry). y ++ e ∷ []) q,
        n ∙ ap (λ m. m + entry_room e.key e.value) c ∙ sym (room_of-snoc xs e),
      )

  -- Entries that are stored one after the other, none of which expires at once or is the list of
  -- locks, are all accepted, by a database that takes what it is given. If the size of the batch was
  -- within the size of a value log file, and the room of the entries in it, or of all but the first,
  -- so it is after them, and that limit is the same.
  pub put_entries-Accounted :
      (es : List Entry) (bw : Bw)
      → Open h rt bw
      → Accounted bw
      → All Storable es
      → (bw' : Bw) × (put_entries badger env es bw ≡ (ok tt, bw'))
        × Accounted bw'
        × (bw'.b.value_log_file_size ≡ bw.b.value_log_file_size)
        × Open h rt bw'
  put_entries-Accounted [] bw o a s = (bw, refl, a, refl, o)
  put_entries-Accounted (e ∷ es) bw o a s =
      let p = put_entry-Put h env rt e bw o s.0.0 s.0.1 in
      let (bw', q, a', l, o') =
        put_entries-Accounted es p.after p.is_open
          (Accounted-Grows e bw p.after a p.same_limit p.counts) s.1 in
      (bw', rw p.result q, a', l ∙ p.same_limit, o')
