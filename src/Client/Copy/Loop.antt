-- ===== src/Client/Copy/Loop.antt =====
-- The loop of `Copy` of client/client.go over a source that gives its bytes piece by piece.
use webcb.Base.{
  ℕ, zero, suc, ◌+◌, ◌<◌, ◌≡◌, refl, ◌∙◌, ap, ap₂, subst, Bool, true, false, List, [], ◌∷◌, ◌++◌,
  append_assoc, append-nil, arith, Option, none, some, Result, ok, Error, eof, unexpected_eof,
  Bytes, length, length-append, concat, ◌⊎◌, inl, inr, Bool-cases, if◌then◌else◌,
}
use webcb.Stream.Writer.{Writer}
use webcb.Storage.Write.{is_eof}
use webcb.Messages.{CopyStream, Outgoing}
use webcb.Crypto.{Crypto}
use webcb.Client.Options.{CopyConfig}
use webcb.Client.Streams.{CopySender}
use webcb.Client.Counter.{WriteCounter}
use webcb.Client.Layers.{Writers}
use webcb.Client.Copy.{
  Source, is_unexpected_eof, Copied, closed, close_if, wrote, hash_on, after_input, copy_data,
}
use webcb.Client.Copy.Layered.{write_all, write_all-first, close_all, close_all-first}

-- Reads of `n` bytes give the pieces in turn, without an error or with the one that says that fewer
-- bytes were read, and then the end.
abbrev pub Supplies : {I : Type 0} → Source I → ℕ → I → List Bytes → Type 0
Supplies {I} source n i [] = (i' : I) × (source.read_at_least i n ≡ (([], some eof), i'))
Supplies {I} source n i (p ∷ ps) =
    (e : Option Error) × (i' : I) × (source.read_at_least i n ≡ ((p, e), i'))
    × ((e ≡ none) ⊎ (e ≡ some unexpected_eof))
    × Supplies source n i' ps

-- the layers that the options ask for
abbrev pub layer_count : CopyConfig → ℕ
layer_count config = (if config.compression then 1 else 0) + (if config.encryption then 1 else 0)

module _ {S I K Dst : Type 0} (client : Outgoing S CopyStream)
    (close_and_recv : S → Option Error × S) (source : Source I) (crypto : Crypto K)
    (writers : Writers (WriteCounter (Writer (CopySender S))) K Dst) (config : CopyConfig) where
  abbrev Done : Type 0
  Done = Copied client close_and_recv source crypto writers

  abbrev Loop : Type 0
  Loop = Option (Result Done)

  close_one :
      (d d' : Dst) (k : Dst → Loop)
      → writers.close d ≡ some (none, d')
      → closed client close_and_recv source crypto writers (writers.close d) k ≡ k d'
  unfolding closed
  close_one d d' k h = rw h

  renumbered :
      (l m : ℕ) (d d' : Dst)
      → l ≡ m
      → close_all writers.close l d ≡ some (none, d')
      → close_all writers.close m d ≡ some (none, d')
  renumbered l m d d' e h = subst (λ k. close_all writers.close k d ≡ some (none, d')) e h

  close_if-made :
      (b : Bool) (l : ℕ) (d d' : Dst) (k : Dst → Loop) (r : Loop)
      → close_all writers.close ((if b then 1 else 0) + l) d ≡ some (none, d')
      → ((d1 : Dst) → close_all writers.close l d1 ≡ some (none, d') → k d1 ≡ r)
      → close_if client close_and_recv source crypto writers b d k ≡ r
  unfolding close_if
  close_if-made true l d d' k r h f =
      let (d1, e, g) =
        close_all-first writers.close l d d' (renumbered (1 + l) (suc l) d d' (omega arith) h) in
      close_one d d1 k e ∙ f d1 g
  close_if-made false l d d' k r h f = f d (renumbered (0 + l) l d d' (omega arith) h)

  after_eof :
      (i : I) (d d' : Dst) (read : ℕ) (hashed : Bytes) (go : I → Dst → ℕ → Bytes → Loop)
      → close_all writers.close (layer_count config) d ≡ some (none, d')
      → after_input client close_and_recv source crypto writers config
          (([], some eof), i)
          d
          read
          hashed
          go
        ≡ some (ok (record { dst = d'; bytes_read = read + 0; hashed = hashed }))
  unfolding after_input is_eof
  after_eof i d d' read hashed go h =
      close_if-made config.compression (if config.encryption then 1 else 0) d d' _ _ h λ d1 g.
        close_if-made config.encryption 0 d1 d' _ _
          (renumbered _ ((if config.encryption then 1 else 0) + 0) d1 d' (omega arith) g)
          λ d2 f.
            ap (λ (x : Dst). some (ok (record { dst = x; bytes_read = read + 0; hashed = hashed })))
              (last d2 d' f)
    where
      dst_of : Dst → Option (Option Error × Dst) → Dst
      dst_of x none = x
      dst_of x (some (e, y)) = y

      last : (d2 d' : Dst) → close_all writers.close 0 d2 ≡ some (none, d') → d2 ≡ d'
      last d2 d' f = ap (dst_of d2) f

  after_piece :
      (p : Bytes) (e : Option Error) (i : I) (d d1 : Dst) (m read : ℕ) (hashed : Bytes)
      (go : I → Dst → ℕ → Bytes → Loop)
      → (e ≡ none) ⊎ (e ≡ some unexpected_eof)
      → writers.write d p ≡ some ((m, none), d1)
      → after_input client close_and_recv source crypto writers config ((p, e), i) d read hashed go
        ≡ go i d1
            (read + length p)
            (hash_on client close_and_recv source crypto writers config hashed p)
  unfolding after_input wrote is_eof is_unexpected_eof
  after_piece p e i d d1 m read hashed go (inl h) w = rw (h, after_input, w)
  after_piece p e i d d1 m read hashed go (inr h) w = rw (h, after_input, w)

  abbrev hash : Bytes → Bytes → Bytes
  hash hashed p = if config.checksum then hashed ++ p else hashed

  hash-append : (hashed p q : Bytes) → hash (hash hashed p) q ≡ hash hashed (p ++ q)
  hash-append hashed p q = elim (Bool-cases config.checksum) [
    | inl e ↦ rw (e, append_assoc)
    | inr e ↦ rw e
  ]

  hash-nil : (hashed : Bytes) → hashed ≡ hash hashed []
  hash-nil hashed = elim (Bool-cases config.checksum) [ inl e ↦ rw (e, append-nil) | inr e ↦ rw e ]

  hash_lem :
      (hashed p : Bytes)
      → hash_on client close_and_recv source crypto writers config hashed p ≡ hash hashed p
  unfolding hash_on
  hash_lem hashed p = refl

  -- The pieces are written and hashed in turn, and the layers are closed.
  pub copy_data-lem :
      (rounds n : ℕ) (i : I) (ps : List Bytes) (d d1 d2 : Dst) (read : ℕ) (hashed : Bytes)
      → length ps < rounds
      → Supplies source n i ps
      → write_all writers.write d ps ≡ some (none, d1)
      → close_all writers.close (layer_count config) d1 ≡ some (none, d2)
      → copy_data client close_and_recv source crypto writers config rounds n i d read hashed
        ≡ some (
            ok (record {
              dst = d2;
              bytes_read = read + length (concat ps);
              hashed = hash hashed (concat ps);
            }))
  unfolding copy_data
  copy_data-lem zero n i ps d d1 d2 read hashed l s w c = absurd (omega arith)
  copy_data-lem (suc rounds) n i [] d d1 d2 read hashed l (i', e) w c =
      rw (e, ← hash-nil hashed)
        (after_eof i' d d2 read hashed
          (copy_data client close_and_recv source crypto writers config rounds n)
          (rw (same d d1 w) c))
    where
      dst_of : Dst → Option (Option Error × Dst) → Dst
      dst_of x none = x
      dst_of x (some (e, y)) = y

      same :
          (d d1 : Dst)
          → ◌≡◌ {A = Option (Option Error × Dst)} (some (none, d)) (some (none, d1))
          → d ≡ d1
      same d d1 h = ap (dst_of d) h
  copy_data-lem (suc rounds) n i (p ∷ ps) d d1 d2 read hashed l (e, i', f, g, s) w c =
      let (m, dp, x, y) = write_all-first writers.write d d1 p ps w in
      rw f (
        after_piece p e i' d dp m read hashed _ g x
        ∙ ap
            (copy_data client close_and_recv source crypto writers config rounds n i' dp
              (read + length p))
            (hash_lem hashed p)
        ∙ copy_data-lem rounds n i' ps dp d1 d2 (read + length p) (hash hashed p) (omega arith) s y
            c
        ∙ ap₂ (λ r h. some (ok (record { dst = d2; bytes_read = r; hashed = h })))
            (omega (arith, length-append p (concat ps))) (hash-append hashed p (concat ps)))
