-- ===== src/Storage/Badger.antt =====
-- What storage uses of the database badger and of the libraries protobuf and ulid, none of which is
-- part of this repository: operations as parameters, with what their documentation says of them.
use webcb.Base.{
  ◌≡◌, Bool, true, List, [], ◌∷◌, ◌++◌, Option, none, some, Result, ok, Error, Bytes, bytes_eq,
  has_prefix, lt_bytes, if◌then◌else◌, All, ◌⊎◌,
}
use webcb.Base.Int.{ℤ, above}

-- `txn.Get` and the value of the item that it returns
pub data Get : Type 0 where
  found : Bytes → Get
  missing : Get
  broken : Error → Get

-- `badger.NewEntry`, with the duration of `WithTTL` if that is called
pub record Entry : Type 0 where
  pub key : Bytes
  pub value : Bytes
  pub ttl : Option ℤ

-- `txn.Delete` may ask for a commit first.
pub data Deletion : Type 0 where
  deleted too_big : Deletion
  refused : Error → Deletion

-- An item of an iteration: its key, and its value if it can be read.
abbrev pub Item : Type 0
Item = Bytes × Result Bytes

-- `Db` is the database at a moment, `Batch` a `badger.WriteBatch`, `Txn` a writing transaction.
pub record Badger (Db Batch Txn : Type 0) : Type 0 where
  pub get : Db → Bytes → Get
  -- `Seek(prefix)`, then `Next` while `ValidForPrefix(prefix)`: each key, and what `Value` gives
  pub scan : Db → Bytes → List Item
  -- `Update` with a function that sets one key
  pub put : Db → Bytes → Bytes → Option Error × Db
  pub new_batch : Batch
  pub set_entry : Batch → Entry → Option Error × Batch
  pub flush : Db → Batch → Option Error × Db
  pub new_txn : Db → Txn
  pub delete : Txn → Bytes → Deletion × Txn
  pub commit : Db → Txn → Option Error × Db

-- A message type with `protobuf.Marshal` and `protobuf.Unmarshal`.
pub record Codec (M : Type 0) : Type 0 where
  pub marshal : M → Result Bytes
  pub unmarshal : Bytes → Result M

-- What the last entry for the key `k` says, if one is there.
abbrev pub written : List Entry → Bytes → Get → Get
written [] k old = old
written (e ∷ es) k old = written es k (if bytes_eq e.key k then found e.value else old)

-- The entry does not expire at once: badger counts the expiry in whole seconds.
abbrev pub lasting : Entry → Bool
lasting e = elim e.ttl [ none ↦ true | some d ↦ above 999_999_999 d ]

abbrev pub In : Item → List Item → Type 0
In x [] = ⊥
In x (y ∷ ys) = (x ≡ y) ⊎ In x ys

-- in the byte-wise order of the keys
abbrev pub Ascending : List Item → Type 0
Ascending [] = Unit
Ascending (x ∷ xs) = All (λ y. lt_bytes x.0 y.0 ≡ true) xs × Ascending xs

-- The items are those with the prefix `p` that `get` finds, in ascending order of their keys.
pub record Scanned (get : Bytes → Get) (p : Bytes) (xs : List Item) : Type 0 where
  pub ascending : Ascending xs
  pub readable : All (λ x. (v : Bytes) × (x.1 ≡ ok v)) xs
  pub in_scan : (k v : Bytes) → has_prefix k p ≡ true → get k ≡ found v → In (k, ok v) xs
  pub in_db : (k v : Bytes) → In (k, ok v) xs → (has_prefix k p ≡ true) × (get k ≡ found v)

-- A database that takes what it is given. `entries` lists what a batch was given.
pub record Healthy {Db Batch Txn : Type 0} (b : Badger Db Batch Txn) : Type 0 where
  pub entries : Batch → List Entry
  pub entries_new : entries b.new_batch ≡ []
  pub set_entry_ok : (t : Batch) (e : Entry) → (b.set_entry t e).0 ≡ none
  pub entries_set : (t : Batch) (e : Entry) → entries (b.set_entry t e).1 ≡ entries t ++ e ∷ []
  pub flush_ok : (d : Db) (t : Batch) → (b.flush d t).0 ≡ none
  -- the entries are in force after the flush, the last for each key
  pub get_flush :
      (d : Db) (t : Batch) (k : Bytes)
      → All (λ e. lasting e ≡ true) (entries t)
      → b.get (b.flush d t).1 k ≡ written (entries t) k (b.get d k)
  pub put_ok : (d : Db) (k v : Bytes) → (b.put d k v).0 ≡ none
  pub get_put :
      (d : Db) (k v j : Bytes)
      → b.get (b.put d k v).1 j ≡ (if bytes_eq k j then found v else b.get d j)
  pub scan_lem : (d : Db) (p : Bytes) → Scanned (b.get d) p (b.scan d p)
