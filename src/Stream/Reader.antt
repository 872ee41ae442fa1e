-- ===== src/Stream/Reader.antt =====
-- internal/grpc/reader.go: chunks of any lengths in, full buffers out.
pub mod Copying
pub mod Laws
use webcb.Base.{
  ℕ, zero, suc, ◌+◌, ◌-◌, Bool, true, false, List, [], Option, none, some, Result, ok, err, Error,
  eof, length, drop, copy_at, copied, ltb, ◌==◌, if◌then◌else◌,
}
use webcb.Stream.{Receiver, ReadOut}

pub record Reader (S : Type 0) : Type 0 where
  pub r : S
  pub t : List ℕ
  pub t_len : ℕ
  pub t_index : ℕ
  pub p_index : ℕ

unfoldable pub new_reader : {S : Type 0} → S → Reader S
new_reader recv = record { r = recv; t = []; t_len = 0; t_index = 0; p_index = 0 }

-- a reader and the buffer that it fills
pub record Filling (S : Type 0) : Type 0 where
  pub reader : Reader S
  pub buf : List ℕ
  pub is_full : Bool

module _ {S : Type 0} where
  -- The block under `if r.tLen > 0`: `is_full` where it returns `len(p), nil`.
  pub copy_out : Reader S → List ℕ → Filling S
  copy_out r p =
      let n = copied r.p_index p r.t_index r.t in
      let r' : Reader S = record r { t_index = r.t_index + n; t_len = r.t_len - n } in
      let p' = copy_at r.p_index (drop r.t_index r.t) p in
      if ltb 0 r.t_len
      then (if n + r.p_index == length p
          then record { reader = r'; buf = p'; is_full = true }
          else record { reader = record r' { p_index = n + r.p_index }; buf = p'; is_full = false })
      else record { reader = r; buf = p; is_full = false }

  loaded : Reader S → S → List ℕ → Reader S
  loaded r s stdin = record r { r = s; t = stdin; t_index = 0; t_len = length stdin }

  -- how a loop ends on an error of `Next`
  ended : Reader S → S → List ℕ → Error → ReadOut (Reader S)
  ended r s p eof = record { n = r.p_index; error = some eof; buf = p; reader = record r { r = s } }
  ended r s p x = record { n = 0; error = some x; buf = p; reader = record r { r = s } }

  -- What follows `Next`: the next round on a chunk, the end of the loop on an error.
  after_next :
      Result (List ℕ) × S
      → Filling S
      → (Reader S → List ℕ → Option (ReadOut (Reader S)))
      → Option (ReadOut (Reader S))
  after_next (ok stdin, s) f go = go (loaded f.reader s stdin) f.buf
  after_next (err x, s) f go = some (ended f.reader s f.buf x)

module _ {S : Type 0} (recv : Receiver S) where
  -- The loop of `Read`, with at most so many rounds; `none` when they do not suffice.
  read_loop : ℕ → Reader S → List ℕ → Option (ReadOut (Reader S))
  read_loop zero r p = none
  read_loop (suc rounds) r p =
      let f = copy_out r p in
      let more = after_next (recv.next f.reader.r) f (read_loop rounds) in
      if f.is_full
      then some (record { n = length p; error = none; buf = f.buf; reader = f.reader })
      else more

  pub read : ℕ → Reader S → List ℕ → Option (ReadOut (Reader S))
  unfolding read_loop copy_out loaded ended after_next
  read rounds r p = read_loop rounds (record r { p_index = 0 }) p
