-- ===== src/Storage/Keys.antt =====
-- The keys of storage/badger.go: the reserved ones, and those of a version's chunks.
use webcb.Base.{
  ℕ, ◌≡◌, refl, sym, ◌∙◌, true, false, [], ◌∷◌, ◌++◌, append_assoc, Bytes, codes, decimal,
  before_slash, has_prefix, has_suffix, NoSlash, decimal-NoSlash, decimal_injective,
  before_slash-append, has_prefix-append, prefix_before_slash, ◌↔◌, bytes_eq, eq_of_bytes_eq,
  lt_bytes, length, lt_bytes-append_left, lt_bytes-append_right, has_suffix-append,
  prefix_has_slash, Bool-cases, inl, inr,
}

abbrev pub latest_key : Bytes
latest_key = codes "LATEST"

abbrev pub version_key : Bytes
version_key = codes "VERSION"

abbrev pub pending_key : Bytes
pending_key = codes "PENDING"

abbrev pub chunk_suffix : Bytes
chunk_suffix = codes "chunk"

-- `fmt.Sprintf("%d/", version)`
pub index_of : ℕ → Bytes
index_of version = decimal version ++ b'/' ∷ []

-- `fmt.Sprintf("%d/%s/%s", version, ulid, chunkSuffix)`
pub chunk_key : ℕ → Bytes → Bytes
chunk_key version ulid = decimal version ++ (b'/' ∷ (ulid ++ (b'/' ∷ chunk_suffix)))

-- A chunk's key has the index of a version as its prefix exactly when the chunk is of that version.
pub chunk_key-has_prefix :
    (v w : ℕ) (ulid : Bytes) → (has_prefix (chunk_key w ulid) (index_of v) ≡ true) ↔ (v ≡ w)
unfolding chunk_key index_of
chunk_key-has_prefix v w ulid = (to, from)
  where
    to : has_prefix (chunk_key w ulid) (index_of v) ≡ true → v ≡ w
    to h = decimal_injective v w (
        sym (prefix_before_slash (chunk_key w ulid) (decimal v) (decimal-NoSlash v) h)
        ∙ before_slash-append (decimal w) (ulid ++ (b'/' ∷ chunk_suffix)) (decimal-NoSlash w))

    from : v ≡ w → has_prefix (chunk_key w ulid) (index_of v) ≡ true
    from e =
        rw (e, ← append_assoc (decimal w) (b'/' ∷ []) (ulid ++ (b'/' ∷ chunk_suffix)))
          (has_prefix-append (decimal w ++ b'/' ∷ []) (ulid ++ (b'/' ∷ chunk_suffix)))

-- The version that the garbage collector reads off a chunk's key is the chunk's.
pub before_slash-chunk_key : (v : ℕ) (ulid : Bytes) → before_slash (chunk_key v ulid) ≡ decimal v
unfolding chunk_key
before_slash-chunk_key v ulid =
    before_slash-append (decimal v) (ulid ++ (b'/' ∷ chunk_suffix)) (decimal-NoSlash v)

with_slash : (xs ys : Bytes) → NoSlash (xs ++ b'/' ∷ ys) → ⊥
with_slash [] ys h = h.0 refl
with_slash (x ∷ xs) ys h = with_slash xs ys h.1

-- A chunk's key is not a reserved one, which has no slash.
pub chunk_key-ne : (v : ℕ) (ulid k : Bytes) → NoSlash k → bytes_eq (chunk_key v ulid) k ≡ false
unfolding chunk_key
chunk_key-ne v ulid k h = elim (Bool-cases (bytes_eq (chunk_key v ulid) k)) [
  | inl same ↦ absurd (
      with_slash (decimal v) (ulid ++ (b'/' ∷ chunk_suffix))
        (rw (eq_of_bytes_eq (chunk_key v ulid) k same) h))
  | inr ne ↦ ne
]

-- Nor has a reserved key the index of a version as its prefix.
pub no_index_prefix : (v : ℕ) (k : Bytes) → NoSlash k → has_prefix k (index_of v) ≡ true → ⊥
unfolding index_of
no_index_prefix v k h p = prefix_has_slash k (decimal v) h p

-- Chunks of one version are ordered as their ULIDs.
pub chunk_key-lt :
    (v : ℕ) (x y : Bytes)
    → length x ≡ length y
    → lt_bytes x y ≡ true
    → lt_bytes (chunk_key v x) (chunk_key v y) ≡ true
unfolding chunk_key
chunk_key-lt v x y e h = lt_bytes-append_left (decimal v) _ _ (
    lt_bytes-append_left (b'/' ∷ []) _ _
      (lt_bytes-append_right x y (b'/' ∷ chunk_suffix) (b'/' ∷ chunk_suffix) e h))

pub chunk_key-has_suffix :
    (v : ℕ) (ulid : Bytes) → has_suffix (chunk_key v ulid) chunk_suffix ≡ true
unfolding chunk_key
chunk_key-has_suffix v ulid =
    rw
      (
        ← append_assoc (decimal v) (b'/' ∷ []) (ulid ++ (b'/' ∷ chunk_suffix)),
        ← append_assoc ulid (b'/' ∷ []) chunk_suffix,
        ← append_assoc (decimal v ++ b'/' ∷ []) (ulid ++ b'/' ∷ []) chunk_suffix,
      )
      (has_suffix-append ((decimal v ++ b'/' ∷ []) ++ (ulid ++ b'/' ∷ [])) chunk_suffix)
