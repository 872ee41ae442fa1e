-- ===== src/Storage/Write/Loop.antt =====
-- The loop of `WriteBatch` of storage/badger.go.
use webcb.Base.{
  ℕ, zero, suc, ◌+◌, ◌≤◌, ◌<◌, ◌≡◌, refl, ◌∙◌, ap, subst, true, false, List, [], ◌∷◌, arith, Option,
  none, some, Result, ok, eof, Bytes, length, take, drop, bytes_eq, ltb, if◌then◌else◌, Bool-cases,
  inl, inr, length-take, length-drop, take_all,
}
use webcb.Stream.{ReadOut}
use webcb.Storage.Badger.{Get, found, Badger, written, Healthy}
use webcb.Storage.Keys.{pending_key, chunk_key}
use webcb.Storage.Batch.{BatchWriter}
use webcb.Storage.Batch.Laws.{RoundTrips, view}
use webcb.Storage.Batch.Pending.{Open}
use webcb.Storage.Write.{StreamReader, Env, put_chunk, and_then, after_read, copy_loop}
use webcb.Storage.Write.Laws.{
  Yields, pieces, chunk_entries, Put, chunk_entry, counted, put_chunk-Put,
}

module _ {Db Batch Txn : Type 0} {badger : Badger Db Batch Txn} (h : Healthy badger) (env : Env)
    (rt : RoundTrips env.versions_codec) where
  abbrev Bw : Type 0
  Bw = BatchWriter Db Batch

  module _ {R : Type 0} (stream : StreamReader R) where
    -- What the loop leaves when it stored `cs`.
    pub record Looped (cs : List Bytes) (len : ℕ) (sum : Bytes) (bw : Bw)
        (out : Option (Result (ℕ × R) × Bw)) : Type 0 where
      pub after : Bw
      pub reader : R
      pub result : out ≡ some (ok (len, reader), after)
      pub checksum : stream.checksum reader ≡ sum
      pub sees :
          (k : Bytes)
          → bytes_eq pending_key k ≡ false
          → view h rt after k
            ≡ written (chunk_entries env.ulid bw.version bw.b.ulids cs) k (view h rt bw k)
      pub is_open : Open h rt after
      pub same_version : after.version ≡ bw.version

    pub Looped-at :
        (cs : List Bytes) {m n : ℕ} (sum : Bytes) (bw : Bw) (out : Option (Result (ℕ × R) × Bw))
        → m ≡ n
        → Looped cs m sum bw out
        → Looped cs n sum bw out
    Looped-at cs sum bw out e l = subst (λ n. Looped cs n sum bw out) e l

    Looped-cons :
        (c : Bytes) (cs : List Bytes) (len : ℕ) (sum : Bytes) (bw : Bw) (r : Result (Unit {0}) × Bw)
        (k : Bw → Option (Result (ℕ × R) × Bw))
        (p : Put h env rt (chunk_entry env bw c) (counted bw) r)
        → Looped cs len sum p.after (k p.after)
        → Looped (c ∷ cs) len sum bw (and_then badger env stream r k)
    unfolding and_then
    Looped-cons c cs len sum bw r k p l = record {
      after = l.after;
      reader = l.reader;
      result = rw p.result l.result;
      checksum = l.checksum;
      sees = λ j ne.
          l.sees j ne
          ∙ ap (λ g. written (chunk_entries env.ulid p.after.version p.after.b.ulids cs) j g)
              (p.sees j ne)
          ∙ ap (λ v. written (chunk_entries env.ulid v p.after.b.ulids cs) j (new j)) p.same_version
          ∙ ap (λ i. written (chunk_entries env.ulid bw.version i cs) j (new j)) p.same_ulids;
      is_open = l.is_open;
      same_version = l.same_version ∙ p.same_version;
    }
      where
        new : Bytes → Get
        new j =
            if bytes_eq (chunk_key bw.version (env.ulid bw.b.ulids)) j
            then found c
            else view h rt bw j

    module _ (out : ReadOut R) (len : ℕ) (bw : Bw)
        (go : R → Bytes → ℕ → Bw → Option (Result (ℕ × R) × Bw)) where
      after_more :
          out.error ≡ none
          → after_read badger env stream (some out) len bw go
            ≡ and_then badger env stream
                (put_chunk badger env (take out.n out.buf) bw)
                (go out.reader out.buf (len + out.n))
      unfolding after_read
      after_more e = rw e

      after_last :
          out.error ≡ some eof
          → ltb 0 out.n ≡ true
          → after_read badger env stream (some out) len bw go
            ≡ and_then badger env stream
                (put_chunk badger env (take out.n out.buf) bw)
                (λ bw'. some (ok (len + out.n, out.reader), bw'))
      unfolding after_read
      after_last e l = rw (e, l)

      after_end :
          out.error ≡ some eof
          → ltb 0 out.n ≡ false
          → after_read badger env stream (some out) len bw go ≡ some (ok (len, out.reader), bw)
      unfolding after_read
      after_end e l = rw (e, l)

      -- the last read
      Looped-last :
          (all sum : Bytes)
          → out.error ≡ some eof
          → out.n ≡ length all
          → take out.n out.buf ≡ all
          → stream.checksum out.reader ≡ sum
          → Open h rt bw
          → Looped
              (pieces 1 zero all)
              (len + length all)
              sum
              bw
              (after_read badger env stream (some out) len bw go)
      Looped-last all sum e c t q o = elim (Bool-cases (ltb 0 (length all))) [
        | inl some_left ↦
            (rw (some_left, after_last e (rw c some_left), t)
              (Looped-cons all [] (len + length all) sum bw (put_chunk badger env all bw)
                (λ bw'. some (ok (len + out.n, out.reader), bw')) (put_chunk-Put h env rt all bw o)
                (record {
                  after = (put_chunk-Put h env rt all bw o).after;
                  reader = out.reader;
                  result =
                      ap
                        (λ (i : ℕ).
                          some (ok (len + i, out.reader), (put_chunk-Put h env rt all bw o).after))
                        c;
                  checksum = q;
                  sees = λ k ne. refl;
                  is_open = (put_chunk-Put h env rt all bw o).is_open;
                  same_version = refl;
                })))
        | inr none_left ↦
            (rw (none_left, after_end e (rw c none_left))
              (record {
                after = bw;
                reader = out.reader;
                result = ap (λ (i : ℕ). some (ok (i, out.reader), bw)) (ground arith);
                checksum = q;
                sees = λ k ne. refl;
                is_open = o;
                same_version = refl;
              }))
      ]

    pub copy_loop-Looped :
        (n k rounds : ℕ) (r : R) (buf all sum : Bytes) (len : ℕ) (bw : Bw)
        → length buf ≡ n
        → k < rounds
        → Yields stream n k r all eof sum
        → Open h rt bw
        → Looped
            (pieces n k all)
            (len + length all)
            sum
            bw
            (copy_loop badger env stream rounds r buf len bw)
    unfolding copy_loop
    copy_loop-Looped n k zero r buf all sum len bw e l y o = absurd (omega arith)
    copy_loop-Looped n zero (suc rounds) r buf all sum len bw e l y o =
        let (out, reads, error, at_end, checksum, few) = y buf e in
        rw reads (
          Looped-last out len bw (copy_loop badger env stream rounds) all sum error (at_end refl).0
            (at_end refl).1 checksum o)
    copy_loop-Looped n (suc k) (suc rounds) r buf all sum len bw e l y o =
        let (out, reads, error, count, bytes, enough, later) = y buf e in
        let p = put_chunk-Put h env rt (take n all) bw o in
        rw
          (
            reads,
            after_more out len bw (copy_loop badger env stream rounds) error,
            count,
            bytes,
            take_all n (take n all) (omega (arith, length-take n all)),
            total enough,
          )
          (Looped-cons (take n all) (pieces n k (drop n all)) (len + n + length (drop n all)) sum bw
            (put_chunk badger env (take n all) bw)
            (copy_loop badger env stream rounds out.reader (take n all) (len + n)) p
            (copy_loop-Looped n k rounds out.reader (take n all) (drop n all) sum (len + n) p.after
              (omega (arith, length-take n all)) (omega arith) later p.is_open))
      where
        total : n ≤ length all → len + length all ≡ len + n + length (drop n all)
        total enough = omega (arith, length-drop n all)
