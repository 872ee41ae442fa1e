-- ===== src/Client/Paste/Opened.antt =====
-- The layers that `Paste` of client/client.go makes over what `Copy` sent with the same secret.
use webcb.Base.{
  ℕ, ◌<◌, ◌≡◌, refl, ◌∙◌, ap, subst, [], Option, none, some, Result, ok, err, eof, Bytes, length,
  if◌then◌else◌,
}
use webcb.Base.Try.{◌>>=◌, bind_inverse}
use webcb.Stream.Reader.{Reader}
use webcb.Messages.{PastInfo}
use webcb.Crypto.{Crypto, nonce_size, derive_password, derive_master_key}
use webcb.Client.Streams.{PasteReceiver}
use webcb.Client.Layers.{Readers}
use webcb.Client.Copy.{Keys, new_keys}
use webcb.Client.Copy.Stacked.{encoded, given}
use webcb.Client.Paste.{Sink, decrypting, layered}
use webcb.Client.Paste.Gives.{Gives}

module _ {K Src : Type 0} (readers : Readers (Reader PasteReceiver) K Src) where
  -- With buffers of any size but 0, `src` gives the bytes `all` and then the end, with this checksum.
  abbrev pub Readable : Src → Bytes → Bytes → Type 0
  Readable src all sum =
      (n : ℕ)
      → 0 < n
      → (k : ℕ) × Gives readers.read (λ s. (readers.bottom s).r.checksum) n k src all eof sum

  -- What sio and zstd promise: they undo the sealing `seal` and the compression `pack`.
  pub record Opens (seal : K → Bytes → Bytes → Bytes) (pack : Bytes → Bytes) : Type 0 where
    pub decrypts :
        (k : K) (iv all sum : Bytes) (src : Src)
        → Readable src (seal k iv all) sum
        → Readable (readers.decrypter k iv src) all sum
    pub decompresses :
        (all sum : Bytes) (src : Src)
        → Readable src (pack all) sum
        → (src' : Src) × (readers.decompressor src ≡ ok src') × Readable src' all sum

-- the header of a paste is that of the copy
pub record Announces {K F : Type 0} (info : PastInfo) (x : Option (Keys K)) (y : Option F)
    : Type 0 where
  pub compressed : info.compressed ≡ given y
  pub keys :
      (k : Keys K)
      → x ≡ some k
      → (info.master_key_nonce ≡ k.master_key_nonce)
        × (info.key_nonce ≡ k.key_nonce)
        × (info.iv ≡ k.iv)
  pub no_keys : x ≡ none → info.master_key_nonce ≡ []

-- `rand.Read` fills the slice that it is given.
abbrev pub Draws : {K : Type 0} → Crypto K → Type 0
Draws crypto = (i n : ℕ) → length (crypto.draw i n) ≡ n

module _ {K Src O : Type 0} (crypto : Crypto K) (draws : Draws crypto)
    (readers : Readers (Reader PasteReceiver) K Src) (sink : Sink O) where
  -- What `Copy` made of the secret.
  pub record Derived (secret : Result Bytes) (k : Keys K) : Type 0 where
    pub pwd : Bytes
    pub master_key : Bytes
    pub key : Bytes
    pub read : secret ≡ ok pwd
    pub password : derive_password crypto pwd k.master_key_nonce ≡ ok master_key
    pub derived : derive_master_key crypto master_key k.key_nonce ≡ ok key
    pub stream : crypto.stream key ≡ ok k.cipher
    pub nonces : (length k.master_key_nonce ≡ nonce_size) × (length k.key_nonce ≡ nonce_size)

  keys_of : Result (Keys K) → Keys K → Keys K
  keys_of (ok k) d = k
  keys_of (err e) d = d

  new_keys-Derived :
      (secret : Result Bytes) (k : Keys K) → new_keys crypto secret ≡ ok k → Derived secret k
  unfolding new_keys keys_of
  new_keys-Derived secret k h =
      let (pwd, a, h1) = bind_inverse secret _ k h in
      let (master_key, b, h2) =
        bind_inverse (derive_password crypto pwd (crypto.draw 0 nonce_size)) _ k h1 in
      let (key, c, h3) =
        bind_inverse (derive_master_key crypto master_key (crypto.draw 1 nonce_size)) _ k h2 in
      let (cipher, d, h4) = bind_inverse (crypto.stream key) _ k h3 in
      subst (Derived secret) (ap (λ r. keys_of r k) h4) (record {
        pwd = pwd;
        master_key = master_key;
        key = key;
        read = a;
        password = b;
        derived = c;
        stream = d;
        nonces = (draws 0 nonce_size, draws 1 nonce_size);
      })

  module _ (info : PastInfo) where
    decrypting-made :
        (secret : Result Bytes) (k : Keys K) (src : Src)
        → Derived secret k
        → (info.master_key_nonce ≡ k.master_key_nonce)
          × (info.key_nonce ≡ k.key_nonce)
          × (info.iv ≡ k.iv)
        → decrypting crypto readers sink info secret src ≡ ok (readers.decrypter k.cipher k.iv src)
    unfolding decrypting
    decrypting-made secret k src d (a, b, c) = rw (d.read, a, d.password, b, d.derived, d.stream, c)

    abbrev unpacked : Src → Result Src
    unpacked plain = if info.compressed then readers.decompressor plain else ok plain

    layered-decrypting :
        (secret : Result Bytes) (src plain : Src)
        → length info.master_key_nonce ≡ nonce_size
        → length info.key_nonce ≡ nonce_size
        → decrypting crypto readers sink info secret src ≡ ok plain
        → layered crypto readers sink info secret src ≡ unpacked plain
    unfolding layered
    layered-decrypting secret src plain a b h =
        rw (a, b) (ap (λ (r : Result Src). r >>= unpacked) h)

    keys_layered :
        (secret : Result Bytes) (k : Keys K) (src : Src)
        → Derived secret k
        → (info.master_key_nonce ≡ k.master_key_nonce)
          × (info.key_nonce ≡ k.key_nonce)
          × (info.iv ≡ k.iv)
        → layered crypto readers sink info secret src
          ≡ unpacked (readers.decrypter k.cipher k.iv src)
    keys_layered secret k src d (a, b, c) =
        layered-decrypting secret src _ (ap (λ (p : Bytes). length p) a ∙ d.nonces.0)
          (ap (λ (p : Bytes). length p) b ∙ d.nonces.1) (decrypting-made secret k src d (a, b, c))

    module _ {seal : K → Bytes → Bytes → Bytes} {pack : Bytes → Bytes}
        (opens : Opens readers seal pack) where
      abbrev Unsealed : Result Bytes → Src → Bytes → Bytes → Type 0
      Unsealed secret src all sum =
          (src' : Src) × (layered crypto readers sink info secret src ≡ ok src')
          × Readable readers src' all sum

      layered-opens :
          {F : Type 0} (secret : Result Bytes) (x : Option (Keys K)) (y : Option F) (src : Src)
          (all sum : Bytes)
          → Announces info x y
          → ((k : Keys K) → x ≡ some k → Derived secret k)
          → Readable readers src (encoded seal pack x y all) sum
          → Unsealed secret src all sum
      unfolding layered
      layered-opens secret none none src all sum a d r = (src, rw (a.no_keys refl, a.compressed), r)
      layered-opens secret none (some f) src all sum a d r =
          let (src', e, r') = opens.decompresses all sum src r in
          (src', rw (a.no_keys refl, a.compressed, e), r')
      layered-opens secret (some k) none src all sum a d r = (
        readers.decrypter k.cipher k.iv src,
        keys_layered secret k src (d k refl) (a.keys k refl) ∙ rw a.compressed,
        opens.decrypts k.cipher k.iv all sum src r,
      )
      layered-opens secret (some k) (some f) src all sum a d r =
          let (src', e, r') =
            opens.decompresses all sum (readers.decrypter k.cipher k.iv src)
              (opens.decrypts k.cipher k.iv (pack all) sum src r) in
          (src', keys_layered secret k src (d k refl) (a.keys k refl) ∙ rw (a.compressed, e), r')

      -- With the secret of the copy, the layers give the bytes that were copied.
      pub keys-open :
          {F : Type 0} (secret : Result Bytes) (x : Option (Keys K)) (y : Option F) (src : Src)
          (all sum : Bytes)
          → Announces info x y
          → ((k : Keys K) → x ≡ some k → new_keys crypto secret ≡ ok k)
          → Readable readers src (encoded seal pack x y all) sum
          → Unsealed secret src all sum
      keys-open secret x y src all sum a h r =
          layered-opens secret x y src all sum a (λ k e. new_keys-Derived secret k (h k e)) r
