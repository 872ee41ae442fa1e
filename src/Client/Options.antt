-- ===== src/Client/Options.antt =====
-- client/copyopt/option.go and client/pasteopt/option.go.
pub mod Laws
use webcb.Base.{ℕ, Bool, true, false, List, [], ◌∷◌, if◌then◌else◌}
use webcb.Base.Int.{ℤ, positive}
use webcb.Server.Handlers.{default_ttl, default_transfer_rate}

-- `Config` of copyopt
pub record CopyConfig : Type 0 where
  pub chunk_size : ℤ
  pub checksum : Bool
  pub ttl : ℤ
  pub compression : Bool
  pub encryption : Bool

unfoldable pub default_copy_config : CopyConfig
default_copy_config = record {
  chunk_size = default_transfer_rate;
  checksum = false;
  ttl = default_ttl;
  compression = false;
  encryption = false;
}

-- The functions of copyopt that make an `Option`.
pub data CopyOption : Type 0 where
  with_transfer_rate : ℤ → CopyOption
  with_checksum : Bool → CopyOption
  with_ttl : ℤ → CopyOption
  with_compression : Bool → CopyOption
  with_encryption : Bool → CopyOption

unfoldable pub apply_copy : CopyOption → CopyConfig → CopyConfig
apply_copy (with_transfer_rate n) c = if positive n then record c { chunk_size = n } else c
apply_copy (with_checksum enable) c = record c { checksum = enable }
apply_copy (with_ttl d) c = if positive d then record c { ttl = d } else c
apply_copy (with_compression enable) c = record c { compression = enable }
apply_copy (with_encryption enable) c = record c { encryption = enable }

-- the options of a `Copy`, in turn
unfoldable pub copy_config : List CopyOption → CopyConfig → CopyConfig
unfolding apply_copy
copy_config [] c = c
copy_config (o ∷ os) c = copy_config os (apply_copy o c)

-- `Config` of pasteopt
pub record PasteConfig : Type 0 where
  pub chunk_size : ℤ

unfoldable pub default_paste_config : PasteConfig
default_paste_config = record { chunk_size = default_transfer_rate }

pub data PasteOption : Type 0 where
  with_transfer_rate : ℤ → PasteOption

unfoldable pub apply_paste : PasteOption → PasteConfig → PasteConfig
apply_paste (with_transfer_rate n) c = if positive n then record c { chunk_size = n } else c

-- the options of a `Paste`, in turn
unfoldable pub paste_config : List PasteOption → PasteConfig → PasteConfig
unfolding apply_paste
paste_config [] c = c
paste_config (o ∷ os) c = paste_config os (apply_paste o c)
