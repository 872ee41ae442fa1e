-- ===== src/Storage/Write/Laws.antt =====
-- What `WriteBatch` of storage/badger.go leaves in the database.
use webcb.Base.{
  ℕ, zero, suc, ◌+◌, ◌⊎◌, inl, inr, ◌++◌, ◌≤◌, ◌<◌, ◌≡◌, refl, ◌∙◌, ap, true, false, List, [], ◌∷◌,
  arith, none, some, Result, ok, Error, eof, Bytes, length, take, drop, concat, bytes_eq, ltb,
  if◌then◌else◌, take-append-drop, append-nil,
}
use webcb.Stream.{ReadOut}
use webcb.Storage.Badger.{found, Entry, Badger, lasting, Healthy}
use webcb.Storage.Keys.{pending_key, chunk_key, chunk_key-ne}
use webcb.Storage.Batch.{BadgerDb, BatchWriter}
use webcb.Storage.Batch.Laws.{RoundTrips, view}
use webcb.Storage.Batch.Pending.{
  entry_room, Counts, Open, Open-Keeps, validate-Counts, set_entry-view,
}
use webcb.Storage.Write.{StreamReader, Env, new_key, put_entry, put_chunk}

-- The reader fills `k` buffers of `n` bytes from the bytes `all`, and then has fewer than `n` bytes
-- left and returns `x`. At the end of the stream those bytes are returned too, and the checksum is
-- `sum`.
abbrev pub Yields : {R : Type 0} → StreamReader R → ℕ → ℕ → R → Bytes → Error → Bytes → Type 0
Yields {R} stream n zero r all x sum =
    (buf : Bytes)
    → length buf ≡ n
    → (o : ReadOut R) × (stream.read r buf ≡ some o)
      × (o.error ≡ some x)
      × (x ≡ eof → (o.n ≡ length all) × (take o.n o.buf ≡ all))
      × (stream.checksum o.reader ≡ sum)
      × (length all < n)
Yields {R} stream n (suc k) r all x sum =
    (buf : Bytes)
    → length buf ≡ n
    → (o : ReadOut R) × (stream.read r buf ≡ some o)
      × (o.error ≡ none)
      × (o.n ≡ n)
      × (o.buf ≡ take n all)
      × (n ≤ length all)
      × Yields stream n k o.reader (drop n all) x sum

-- The chunks: `k` of `n` bytes, and the remaining bytes if there are any.
abbrev pub pieces : ℕ → ℕ → Bytes → List Bytes
pieces n zero all = if ltb 0 (length all) then all ∷ [] else []
pieces n (suc k) all = take n all ∷ pieces n k (drop n all)

pub concat-pieces : (n k : ℕ) (all : Bytes) → concat (pieces n k all) ≡ all
concat-pieces n zero [] = refl
concat-pieces n zero (x ∷ all) = ground (arith, append-nil (x ∷ all))
concat-pieces n (suc k) all = rw (concat-pieces n k (drop n all), take-append-drop n all)

-- Chunk after chunk, under the keys of the version in the order of their ULIDs.
abbrev pub chunk_entries : (ℕ → Bytes) → ℕ → ℕ → List Bytes → List Entry
chunk_entries ulid v i [] = []
chunk_entries ulid v i (c ∷ cs) =
    record { key = chunk_key v (ulid i); value = c; ttl = none } ∷ chunk_entries ulid v (suc i) cs

abbrev pub chunk_entry : {Db Batch : Type 0} → Env → BatchWriter Db Batch → Bytes → Entry
chunk_entry env bw c = record {
  key = chunk_key bw.version (env.ulid bw.b.ulids);
  value = c;
  ttl = none;
}

abbrev pub counted : {Db Batch : Type 0} → BatchWriter Db Batch → BatchWriter Db Batch
counted bw = record bw { b = record bw.b { ulids = suc bw.b.ulids } }

module _ {Db Batch Txn : Type 0} {badger : Badger Db Batch Txn} (h : Healthy badger) (env : Env)
    (rt : RoundTrips env.versions_codec) where
  abbrev Bw : Type 0
  Bw = BatchWriter Db Batch

  -- The batch and its size after one entry more: the entry alone and uncounted in a new batch if it
  -- had no room, or else the entry added and counted.
  abbrev pub Grows : Entry → Bw → Bw → Type 0
  Grows e bw bw' =
      ((bw.b.value_log_file_size < bw.batch_size + entry_room e.key e.value)
        × (h.entries bw'.batch ≡ e ∷ [])
        × (bw'.batch_size ≡ 0))
      ⊎ ((bw.batch_size + entry_room e.key e.value ≤ bw.b.value_log_file_size)
          × (h.entries bw'.batch ≡ h.entries bw.batch ++ e ∷ [])
          × (bw'.batch_size ≡ bw.batch_size + entry_room e.key e.value))

  growing :
      (e : Entry) (bw mid bw' : Bw)
      → Counts h rt e.key e.value bw mid
      → h.entries bw'.batch ≡ h.entries mid.batch ++ e ∷ []
      → bw'.batch_size ≡ mid.batch_size
      → Grows e bw bw'
  growing e bw mid bw' (inl (o, b, n)) es z = inl (
    o,
    es ∙ ap (λ t. h.entries t ++ e ∷ []) b ∙ ap (λ (l : List Entry). l ++ e ∷ []) h.entries_new,
    z ∙ n,
  )
  growing e bw mid bw' (inr (o, b, n)) es z = inr (o, es ∙ ap (λ t. h.entries t ++ e ∷ []) b, z ∙ n)

  -- what one entry more does
  pub record Put (e : Entry) (bw : Bw) (out : Result (Unit {0}) × Bw) : Type 0 where
    pub after : Bw
    pub result : out ≡ (ok tt, after)
    pub sees :
        (k : Bytes)
        → bytes_eq pending_key k ≡ false
        → view h rt after k ≡ (if bytes_eq e.key k then found e.value else view h rt bw k)
    pub is_open : Open h rt after
    pub same_version : after.version ≡ bw.version
    pub same_ulids : after.b.ulids ≡ bw.b.ulids
    pub same_limit : after.b.value_log_file_size ≡ bw.b.value_log_file_size
    pub counts : Grows e bw after

  pub put_entry-Put :
      (e : Entry) (bw : Bw)
      → Open h rt bw
      → lasting e ≡ true
      → bytes_eq e.key pending_key ≡ false
      → Put e bw (put_entry badger env e bw)
  unfolding put_entry
  put_entry-Put e bw o l n =
      let v = validate-Counts h rt e.key e.value bw o in
      let s = set_entry-view h rt e v.0 (Open-Keeps h rt v.2 o) l n in
      record {
        after = s.0;
        result = rw v.1 s.1;
        sees = λ k ne.
            s.2 k ∙ ap (λ g. if bytes_eq e.key k then found e.value else g) (v.2.same_view k ne);
        is_open = s.3;
        same_version = s.5 ∙ v.2.same_version;
        same_ulids = ap (λ (b : BadgerDb Db). b.ulids) s.4 ∙ v.2.same_ulids;
        same_limit = ap (λ (b : BadgerDb Db). b.value_log_file_size) s.4 ∙ v.2.same_limit;
        counts = growing e bw v.0 s.0 v.3 s.6 s.7;
      }

  pub put_chunk-Put :
      (c : Bytes) (bw : Bw)
      → Open h rt bw
      → Put (chunk_entry env bw c) (counted bw) (put_chunk badger env c bw)
  unfolding put_chunk new_key
  put_chunk-Put c bw o =
      put_entry-Put (chunk_entry env bw c) (counted bw)
        (record { sound = o.sound; held = o.held; lock = o.lock }) refl
        (chunk_key-ne bw.version (env.ulid bw.b.ulids) pending_key (omega arith))
