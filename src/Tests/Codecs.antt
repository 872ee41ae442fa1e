-- ===== src/Tests/Codecs.antt =====
-- Message encodings that round trip, and a source of ULIDs, for the runs.
use webcb.Base.{
  ℕ, zero, suc, ◌≤◌, ◌≡◌, refl, ◌∙◌, ap, ap₂, Bool, true, false, List, [], ◌∷◌, ◌++◌, arith, Result,
  ok, err, message, Bytes, length, take, drop, length-append, take-append, drop-append, lt_bytes,
  if◌then◌else◌, ltb,
}
use webcb.Storage.Badger.{Codec}
use webcb.Storage.Batch.{Versions}
use webcb.Storage.Batch.Laws.{RoundTrips}
use webcb.Storage.Write.{Clipboard, Env}
use webcb.Storage.Read.Laws.{Monotonic}

-- each part after its length
abbrev pack : List Bytes → Bytes
pack [] = []
pack (b ∷ bs) = length b ∷ (b ++ pack bs)

abbrev unpack : ℕ → Bytes → List Bytes
unpack zero xs = []
unpack (suc fuel) [] = []
unpack (suc fuel) (n ∷ xs) = take n xs ∷ unpack fuel (drop n xs)

unpack-pack : (fuel : ℕ) (bs : List Bytes) → length bs ≤ fuel → unpack fuel (pack bs) ≡ bs
unpack-pack zero [] h = refl
unpack-pack (suc fuel) [] h = refl
unpack-pack zero (b ∷ bs) h = absurd (omega arith)
unpack-pack (suc fuel) (b ∷ bs) h =
    ap₂ ◌∷◌ (take-append (length b) b (pack bs) refl ∙ refl) (
      ap (unpack fuel) (drop-append (length b) b (pack bs) refl)
      ∙ unpack-pack fuel bs (omega arith))

length-pack : (bs : List Bytes) → length bs ≤ length (pack bs)
length-pack [] = omega arith
length-pack (b ∷ bs) = omega (arith, length-pack bs, length-append b (pack bs))

abbrev unpacked : Bytes → List Bytes
unpacked xs = unpack (length xs) xs

unpacked-pack : (bs : List Bytes) → unpacked (pack bs) ≡ bs
unpacked-pack bs = unpack-pack (length (pack bs)) bs (length-pack bs)

abbrev flat : Versions → List Bytes
flat [] = []
flat ((k, v) ∷ m) = k ∷ v ∷ flat m

abbrev pairs_of : List Bytes → Result Versions
pairs_of [] = ok []
pairs_of (k ∷ []) = err (message "odd")
pairs_of (k ∷ v ∷ bs) =
    let rest = pairs_of bs in elim rest [ ok m ↦ ok ((k, v) ∷ m) | err e ↦ err e ]

pairs_of-flat : (m : Versions) → pairs_of (flat m) ≡ ok m
pairs_of-flat [] = refl
pairs_of-flat ((k, v) ∷ m) = rw (pairs_of-flat m)

abbrev pub versions_codec : Codec Versions
versions_codec = record {
  marshal = λ m. ok (pack (flat m));
  unmarshal = λ v. pairs_of (unpacked v);
}

pub versions-RoundTrips : RoundTrips versions_codec
versions-RoundTrips m =
    (pack (flat m), refl, ap pairs_of (unpacked-pack (flat m)) ∙ pairs_of-flat m)

abbrev number : Bytes → ℕ
number [] = 0
number (n ∷ xs) = n

abbrev flag : Bool → Bytes
flag b = if b then 1 ∷ [] else 0 ∷ []

abbrev parts : Clipboard → List Bytes
parts c =
    (c.sequence ∷ [])
    ∷ c.expire_at
    ∷ flag c.compressed
    ∷ c.master_key_nonce
    ∷ c.key_nonce
    ∷ c.iv
    ∷ c.checksum
    ∷ (c.size ∷ [])
    ∷ []

abbrev clipboard_from : List Bytes → Result Clipboard
clipboard_from (a ∷ b ∷ c ∷ d ∷ e ∷ f ∷ g ∷ i ∷ []) = ok (record {
  sequence = number a;
  expire_at = b;
  compressed = ltb 0 (number c);
  master_key_nonce = d;
  key_nonce = e;
  iv = f;
  checksum = g;
  size = number i;
})
clipboard_from _ = err (message "parts")

abbrev pub clipboard_codec : Codec Clipboard
clipboard_codec = record {
  marshal = λ c. ok (pack (parts c));
  unmarshal = λ v. clipboard_from (unpacked v);
}

same_flag : (b : Bool) → ltb 0 (number (flag b)) ≡ b
same_flag true = refl
same_flag false = refl

pub clipboard-RoundTrips : RoundTrips clipboard_codec
clipboard-RoundTrips c = (
  pack (parts c),
  refl,
  ap clipboard_from (unpacked-pack (parts c))
      ∙ ap (λ b. ok (record c { compressed = b })) (same_flag c.compressed),
)

-- One byte, which grows.
abbrev pub ulid : ℕ → Bytes
ulid n = n ∷ []

pub ulid-Monotonic : Monotonic ulid
unfolding lt_bytes
ulid-Monotonic = record { same_length = λ i j. refl; increasing = λ i j h. ground arith }

abbrev pub env : Env
env = record {
  ulid = ulid;
  expiry = λ t. [];
  versions_codec = versions_codec;
  clipboard_codec = clipboard_codec;
}
