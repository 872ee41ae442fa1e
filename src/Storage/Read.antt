-- ===== src/Storage/Read.antt =====
-- `ReadBatch` of storage/badger.go: the chunks of the latest version go to a stream.
pub mod Laws
use webcb.Base.{
  ℕ, ◌+◌, Bool, List, [], ◌∷◌, Option, none, some, Result, ok, err, Error, key_not_found, Bytes,
  length, has_suffix, ltb, if◌then◌else◌,
}
use webcb.Storage.Badger.{Get, found, missing, broken, Badger, Codec, Item}
use webcb.Storage.Keys.{latest_key, chunk_suffix, index_of}
use webcb.Storage.Write.{Clipboard}

-- The interfaces `HeaderWriter` and `StreamWriter`, which the server implements over one stream;
-- `none` is a call that does not return.
pub record StreamWriter (W : Type 0) : Type 0 where
  pub header : W → Bool → Bool → Bytes → Bytes → Bytes → Option Error × W
  pub write : W → Bytes → Option ((ℕ × Option Error) × W)
  pub flush : W → Bytes → Option Error × W

module _ {W : Type 0} (sw : StreamWriter W) where
  -- the next item, unless `Write` failed
  unfoldable pub go_on :
      Option ((ℕ × Option Error) × W) → ℕ → (ℕ → W → Option (Result ℕ × W)) → Option (Result ℕ × W)
  go_on none sum k = none
  go_on (some ((n, some e), w)) sum k = some (err e, w)
  go_on (some ((n, none), w)) sum k = k (sum + n) w

  -- one item: the values of chunk keys are written
  unfoldable pub send_item : Item → ℕ → W → (ℕ → W → Option (Result ℕ × W)) → Option (Result ℕ × W)
  unfolding go_on
  send_item (k, err e) sum w next = some (err e, w)
  send_item (k, ok v) sum w next =
      if has_suffix k chunk_suffix then go_on (sw.write w v) sum next else next sum w

  -- The iteration, and the flush after it.
  unfoldable pub send_items : Bytes → List Item → ℕ → W → Option (Result ℕ × W)
  unfolding send_item
  send_items checksum [] sum w =
      let (e, w') = sw.flush w checksum in some (elim e [ none ↦ ok sum | some x ↦ err x ], w')
  send_items checksum (x ∷ xs) sum w = send_item x sum w (send_items checksum xs)

  -- what follows the header
  unfoldable pub after_header : Option Error × W → Bytes → List Item → Option (Result ℕ × W)
  unfolding send_items
  after_header (some x, w) checksum items = some (err x, w)
  after_header (none, w) checksum items = send_items checksum items 0 w

  unfoldable pub send_clipboard : (Bytes → List Item) → Clipboard → W → Option (Result ℕ × W)
  unfolding after_header
  send_clipboard scan cb w =
      after_header
        (sw.header w cb.compressed (ltb 0 (length cb.checksum)) cb.master_key_nonce cb.key_nonce
          cb.iv)
        cb.checksum (scan (index_of cb.sequence))

  module _ {Db Batch Txn : Type 0} (badger : Badger Db Batch Txn) (codec : Codec Clipboard) where
    unfoldable pub send_decoded : Db → Result Clipboard → W → Option (Result ℕ × W)
    unfolding send_clipboard
    send_decoded db (err e) w = some (err e, w)
    send_decoded db (ok cb) w = send_clipboard (badger.scan db) cb w

    unfoldable pub send_latest : Db → Get → W → Option (Result ℕ × W)
    unfolding send_decoded
    send_latest db missing w = some (err key_not_found, w)
    send_latest db (broken e) w = some (err e, w)
    send_latest db (found value) w = send_decoded db (codec.unmarshal value) w

    -- `ReadBatch`, with the count of the bytes that were read.
    unfoldable pub read_batch : Db → W → Option (Result ℕ × W)
    unfolding send_latest
    read_batch db w = send_latest db (badger.get db latest_key) w
