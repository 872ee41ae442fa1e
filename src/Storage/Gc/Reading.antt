-- ===== src/Storage/Gc/Reading.antt =====
-- A run of `discard` of storage/gc.go, as `ReadBatch` of storage/badger.go sees it.
use webcb.Base.{
  ℕ, ◌≡◌, sym, ◌∙◌, ap, true, false, List, Option, some, ok, Bytes, arith, bytes_eq_refl,
  has_prefix,
}
use webcb.Storage.Badger.{Get, found, Badger, Healthy, Scanned, Item}
use webcb.Storage.Keys.{latest_key, pending_key, index_of}
use webcb.Storage.Batch.{Versions}
use webcb.Storage.Scan.{Scanned-unique}
use webcb.Storage.Write.{Clipboard, Env}
use webcb.Storage.Read.{
  StreamWriter, read_batch, send_latest, send_decoded, send_clipboard, after_header,
}
use webcb.Storage.Gc.{Visit, get_index, get_locked_transaction, collectable, outside, discard}
use webcb.Storage.Gc.Laws.{Deleting, discard-Spares}

pub latest-not_collectable :
    (index : Option Bytes) (versions : Versions) → collectable index versions latest_key ≡ false
unfolding collectable
latest-not_collectable index versions = ground (arith, bytes_eq_refl latest_key)

pub pending-not_collectable :
    (index : Option Bytes) (versions : Versions) → collectable index versions pending_key ≡ false
unfolding collectable
pending-not_collectable index versions = ground (arith, bytes_eq_refl pending_key)

prefix-not_collectable :
    (index : Bytes) (versions : Versions) (k : Bytes)
    → has_prefix k index ≡ true
    → collectable (some index) versions k ≡ false
unfolding collectable outside
prefix-not_collectable index versions k h = rw h

-- databases that agree on the keys with a prefix
Scanned-same :
    {old new : Bytes → Get} {p : Bytes} (xs : List Item)
    → ((k : Bytes) → has_prefix k p ≡ true → new k ≡ old k)
    → Scanned old p xs
    → Scanned new p xs
Scanned-same xs same s = record {
  ascending = s.ascending;
  readable = s.readable;
  in_scan = λ k v h g. s.in_scan k v h (sym (same k h) ∙ g);
  in_db = λ k v m. ((s.in_db k v m).0, same k (s.in_db k v m).0 ∙ (s.in_db k v m).1);
}

module _ {Db Batch Txn : Type 0} {badger : Badger Db Batch Txn} (h : Healthy badger)
    (l : Deleting badger) (env : Env) where
  get_index-lem :
      (db : Db) (v : Bytes) (cb : Clipboard)
      → badger.get db latest_key ≡ found v
      → env.clipboard_codec.unmarshal v ≡ ok cb
      → get_index env.clipboard_codec (badger.get db latest_key) ≡ ok (some (index_of cb.sequence))
  unfolding get_index
  get_index-lem db v cb f u = rw (f, get_index, u)

  -- Of a database with a latest version, `discard` leaves what must be kept.
  pub discard-spared :
      (keys : ℕ) (vs : List Visit) (db : Db) (v : Bytes) (cb : Clipboard) (versions : Versions)
      (j : Bytes)
      → badger.get db latest_key ≡ found v
      → env.clipboard_codec.unmarshal v ≡ ok cb
      → get_locked_transaction env.versions_codec (badger.get db pending_key) ≡ ok versions
      → collectable (some (index_of cb.sequence)) versions j ≡ false
      → badger.get (discard badger env keys vs db).1 j ≡ badger.get db j
  discard-spared keys vs db v cb versions j f u q safe =
      (discard-Spares l env keys vs db (some (index_of cb.sequence)) versions j
        (get_index-lem db v cb f u) q safe).0

  module _ {W : Type 0} (sw : StreamWriter W) where
    read_batch-lem :
        (db : Db) (v : Bytes) (cb : Clipboard) (w : W)
        → badger.get db latest_key ≡ found v
        → env.clipboard_codec.unmarshal v ≡ ok cb
        → read_batch sw badger env.clipboard_codec db w ≡ send_clipboard sw (badger.scan db) cb w
    unfolding read_batch send_latest send_decoded
    read_batch-lem db v cb w f u = rw (f, u)

    same_clipboard :
        (scan scan' : Bytes → List Item) (cb : Clipboard) (w : W)
        → scan (index_of cb.sequence) ≡ scan' (index_of cb.sequence)
        → send_clipboard sw scan cb w ≡ send_clipboard sw scan' cb w
    unfolding send_clipboard
    same_clipboard scan scan' cb w e = ap (after_header sw _ cb.checksum) e

    -- A database that agrees with `db` on what must be kept is read like `db`.
    pub spared-read_batch :
        (db d : Db) (v : Bytes) (cb : Clipboard) (versions : Versions) (w : W)
        → badger.get db latest_key ≡ found v
        → env.clipboard_codec.unmarshal v ≡ ok cb
        → ((j : Bytes)
            → collectable (some (index_of cb.sequence)) versions j ≡ false
            → badger.get d j ≡ badger.get db j)
        → read_batch sw badger env.clipboard_codec d w
          ≡ read_batch sw badger env.clipboard_codec db w
    spared-read_batch db d v cb versions w f u spared =
        read_batch-lem d v cb w (spared latest_key (latest-not_collectable _ versions) ∙ f) u
        ∙ same_clipboard (badger.scan d) (badger.scan db) cb w same_scan
        ∙ sym (read_batch-lem db v cb w f u)
      where
        index : Bytes
        index = index_of cb.sequence

        same_scan : badger.scan d index ≡ badger.scan db index
        same_scan = Scanned-unique _ _ (h.scan_lem d index) (
            Scanned-same (badger.scan db index)
              (λ k p. spared k (prefix-not_collectable index versions k p)) (h.scan_lem db index))

    -- If a latest version is recorded, the record and the list of locked versions can be read, and
    -- the database keeps its laws, `ReadBatch` does exactly the same before and after a run of the
    -- collector: whatever keys the run meets, when it is timed out, and whether or not it fails.
    pub discard-read_batch :
        (keys : ℕ) (vs : List Visit) (db : Db) (v : Bytes) (cb : Clipboard) (versions : Versions)
        (w : W)
        → badger.get db latest_key ≡ found v
        → env.clipboard_codec.unmarshal v ≡ ok cb
        → get_locked_transaction env.versions_codec (badger.get db pending_key) ≡ ok versions
        → read_batch sw badger env.clipboard_codec (discard badger env keys vs db).1 w
          ≡ read_batch sw badger env.clipboard_codec db w
    discard-read_batch keys vs db v cb versions w f u q =
        spared-read_batch db (discard badger env keys vs db).1 v cb versions w f u
          (λ j safe. discard-spared keys vs db v cb versions j f u q safe)
