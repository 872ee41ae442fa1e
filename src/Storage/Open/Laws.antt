-- ===== src/Storage/Open/Laws.antt =====
-- What the ticks of the collector that `NewBadgerDB` of storage/badger.go starts leave to read.
use webcb.Base.{
  ℕ, zero, suc, ◌≡◌, refl, sym, ◌∙◌, ap, false, List, Option, none, some, Result, ok, Error, Bytes,
  arith,
}
use webcb.Storage.Badger.{found, Badger, Healthy}
use webcb.Storage.Keys.{latest_key, pending_key, index_of}
use webcb.Storage.Batch.{Versions}
use webcb.Storage.Write.{Clipboard, Env}
use webcb.Storage.Read.{StreamWriter, read_batch}
use webcb.Storage.Gc.{Visit, get_locked_transaction, collectable, discard}
use webcb.Storage.Gc.Laws.{Deleting}
use webcb.Storage.Gc.Reading.{
  latest-not_collectable, pending-not_collectable, spared-read_batch, discard-spared,
}
use webcb.Storage.Open.{Compactor, again, compact, tick, Ticks, discard_key_max_number}

-- Rewriting a log file changes nothing that can be read.
abbrev pub Keeps : {Db Batch Txn : Type 0} → Badger Db Batch Txn → Compactor Db → Type 0
Keeps {Db} badger run = (d : Db) (k : Bytes) → badger.get (run d).1 k ≡ badger.get d k

db_of : {Db : Type 0} → Option Db → Db → Db
db_of none d = d
db_of (some x) d = x

module _ {Db Batch Txn : Type 0} {badger : Badger Db Batch Txn} (h : Healthy badger)
    (l : Deleting badger) (env : Env) (run : Compactor Db) (keeps : Keeps badger run) where
  compact_step :
      (rounds : ℕ) (d d' : Db) (k : Bytes) (r : Option Error × Db)
      → run d ≡ r
      → ((x : Db) → compact run rounds x ≡ some d' → badger.get d' k ≡ badger.get x k)
      → again (compact run rounds) r ≡ some d'
      → badger.get d' k ≡ badger.get d k
  unfolding again db_of
  compact_step rounds d d' k (none, x) q go f =
      go x f ∙ ap (λ (z : Option Error × Db). badger.get z.1 k) (sym q) ∙ keeps d k
  compact_step rounds d d' k (some y, x) q go f =
      ap (λ z. badger.get (db_of z d) k) (sym f)
      ∙ ap (λ (z : Option Error × Db). badger.get z.1 k) (sym q)
      ∙ keeps d k

  pub compact-keeps :
      (rounds : ℕ) (d d' : Db) (k : Bytes)
      → compact run rounds d ≡ some d'
      → badger.get d' k ≡ badger.get d k
  unfolding compact
  compact-keeps zero d d' k e = absurd (ground arith)
  compact-keeps (suc rounds) d d' k e =
      compact_step rounds d d' k (run d) refl (λ x f. compact-keeps rounds x d' k f) e

  pub tick_inverse :
      (rounds : ℕ) (vs : List Visit) (d : Db) (r : Result ℕ × Db)
      → tick badger env run rounds vs d ≡ some r
      → (d1 : Db) × (compact run rounds d ≡ some d1)
        × (discard badger env discard_key_max_number vs d1 ≡ r)
  unfolding tick
  tick_inverse rounds vs d r e = parts (compact run rounds d) refl e
    where
      out_of : Option (Result ℕ × Db) → Result ℕ × Db
      out_of none = r
      out_of (some x) = x

      parts :
          (o : Option Db)
          → compact run rounds d ≡ o
          → (elim o [
            | none ↦ none
            | some x ↦ some (discard badger env discard_key_max_number vs x)
          ])
            ≡ some r
          → (d1 : Db) × (compact run rounds d ≡ some d1)
            × (discard badger env discard_key_max_number vs d1 ≡ r)
      parts none q f = absurd (ground arith)
      parts (some x) q f = (x, q, ap out_of f)

  module _ (from : Db) (v : Bytes) (cb : Clipboard) (versions : Versions) where
    -- what must be kept is as it was
    abbrev Same : Db → Type 0
    Same d =
        (j : Bytes)
        → collectable (some (index_of cb.sequence)) versions j ≡ false
        → badger.get d j ≡ badger.get from j

    module _ (f : badger.get from latest_key ≡ found v)
        (u : env.clipboard_codec.unmarshal v ≡ ok cb)
        (q : get_locked_transaction env.versions_codec (badger.get from pending_key)
          ≡ ok versions) where
      Same-discard :
          (d : Db) (keys : ℕ) (vs : List Visit) → Same d → Same (discard badger env keys vs d).1
      Same-discard d keys vs s j safe =
          discard-spared h l env keys vs d v cb versions j
            (s latest_key (latest-not_collectable _ versions) ∙ f) u
            (rw (s pending_key (pending-not_collectable _ versions)) q) safe
          ∙ s j safe

      Same-ticks : (d : Db) → Ticks badger env run from d → Same d
      Same-ticks d Ticks.start = λ j safe. refl
      Same-ticks d (Ticks.after {d = e} t rounds vs r d' k) = λ j safe.
          let (d1, c, x) = tick_inverse rounds vs e (r, d') k in
          ap (λ (z : Result ℕ × Db). badger.get z.1 j) (sym x)
          ∙ Same-discard d1 discard_key_max_number vs
              (λ i okay. compact-keeps rounds e d1 i c ∙ Same-ticks e t i okay) j safe

  -- However many ticks of the collector come to an end, each after any number of rewritten log files
  -- and with any keys met by its `discard`, which may be timed out or fail: `ReadBatch` does after
  -- them what it did before, if there was a latest version, its record and the list of locked versions can be read,
  -- the database keeps its laws, and rewriting a log file changes nothing that can be read.
  pub ticks-read_batch :
      {W : Type 0} (sw : StreamWriter W) (from d : Db) (v : Bytes) (cb : Clipboard)
      (versions : Versions) (w : W)
      → badger.get from latest_key ≡ found v
      → env.clipboard_codec.unmarshal v ≡ ok cb
      → get_locked_transaction env.versions_codec (badger.get from pending_key) ≡ ok versions
      → Ticks badger env run from d
      → read_batch sw badger env.clipboard_codec d w
        ≡ read_batch sw badger env.clipboard_codec from w
  ticks-read_batch sw from d v cb versions w f u q t =
      spared-read_batch h l env sw from d v cb versions w f u
        (Same-ticks from v cb versions f u q d t)
