-- ===== src/Crypto.antt =====
-- internal/crypto/kdf.go, with what the program uses of its cryptographic libraries, which are not
-- part of this repository, as parameters.
use webcb.Base.{ℕ, Result, Bytes}

-- crypto.NonceSize
abbrev pub nonce_size : ℕ
nonce_size = 32

-- `K` is a `sio.Stream`. `draw` lists what `rand.Read` gives at its calls, for a number of bytes.
pub record Crypto (K : Type 0) : Type 0 where
  -- `scrypt.Key(password, salt, N, r, p, keyLen)`
  pub scrypt : Bytes → Bytes → ℕ → ℕ → ℕ → ℕ → Result Bytes
  -- `hkdf.New(sha256.New, secret, salt, nil)`, and `io.ReadFull` of so many bytes of it
  pub hkdf : Bytes → Bytes → ℕ → Result Bytes
  -- `sio.AES_256_GCM.Stream`, and the `NonceSize` of a stream
  pub stream : Bytes → Result K
  pub stream_nonce_size : K → ℕ
  pub draw : ℕ → ℕ → Bytes
  pub sha256 : Bytes → Bytes

module _ {K : Type 0} (crypto : Crypto K) where
  unfoldable pub derive_password : Bytes → Bytes → Result Bytes
  derive_password password nonce = crypto.scrypt password nonce 32_768 8 1 32

  unfoldable pub derive_master_key : Bytes → Bytes → Result Bytes
  derive_master_key master_key nonce = crypto.hkdf master_key nonce 32
