-- ===== src/Client/Options/Laws.antt =====
-- No options make a buffer without a byte, or a time to live that is over.
use webcb.Base.{◌≡◌, refl, true, List, [], ◌∷◌, Bool-cases, inl, inr}
use webcb.Base.Int.{positive}
use webcb.Client.Options.{
  CopyConfig, CopyOption, default_copy_config, apply_copy, copy_config, PasteConfig, PasteOption,
  default_paste_config, apply_paste, paste_config,
}

abbrev pub Usable : CopyConfig → Type 0
Usable c = (positive c.chunk_size ≡ true) × (positive c.ttl ≡ true)

apply_copy-Usable : (o : CopyOption) (c : CopyConfig) → Usable c → Usable (apply_copy o c)
unfolding apply_copy
apply_copy-Usable (CopyOption.with_transfer_rate n) c (h, g) = elim (Bool-cases (positive n)) [
  | inl e ↦ rw e (e, g)
  | inr e ↦ rw e (h, g)
]
apply_copy-Usable (CopyOption.with_checksum b) c h = h
apply_copy-Usable (CopyOption.with_ttl d) c (h, g) = elim (Bool-cases (positive d)) [
  | inl e ↦ rw e (h, e)
  | inr e ↦ rw e (h, g)
]
apply_copy-Usable (CopyOption.with_compression b) c h = h
apply_copy-Usable (CopyOption.with_encryption b) c h = h

copy_config-Usable : (os : List CopyOption) (c : CopyConfig) → Usable c → Usable (copy_config os c)
unfolding copy_config
copy_config-Usable [] c h = h
copy_config-Usable (o ∷ os) c h = copy_config-Usable os (apply_copy o c) (apply_copy-Usable o c h)

apply_paste-positive :
    (o : PasteOption) (c : PasteConfig)
    → positive c.chunk_size ≡ true
    → positive (apply_paste o c).chunk_size ≡ true
unfolding apply_paste
apply_paste-positive (PasteOption.with_transfer_rate n) c h = elim (Bool-cases (positive n)) [
  | inl e ↦ rw e e
  | inr e ↦ rw e h
]

paste_config-positive :
    (os : List PasteOption) (c : PasteConfig)
    → positive c.chunk_size ≡ true
    → positive (paste_config os c).chunk_size ≡ true
unfolding paste_config
paste_config-positive [] c h = h
paste_config-positive (o ∷ os) c h =
    paste_config-positive os (apply_paste o c) (apply_paste-positive o c h)

-- Whatever the options of a `Copy` and of a `Paste`, negative and zero values among them, both chunk
-- sizes and the time to live come out positive.
pub options-Usable :
    (cs : List CopyOption) (ps : List PasteOption)
    → Usable (copy_config cs default_copy_config)
      × (positive (paste_config ps default_paste_config).chunk_size ≡ true)
unfolding default_copy_config default_paste_config
options-Usable cs ps = (
  copy_config-Usable cs default_copy_config (refl, refl),
  paste_config-positive ps default_paste_config refl,
)
