-- ===== src/Stream/Writer.antt =====
-- internal/grpc/writer.go: bytes of any lengths in, chunks of the buffer's length out. The sender
-- gets the buffer by value, since a gRPC stream serialises a message before `Send` returns.
pub mod Frames
pub mod Laws
pub mod Sequence
use webcb.Base.{
  ℕ, zero, suc, ◌+◌, ◌-◌, List, Option, none, some, Error, length, take, drop, copy_at, copied, ltb,
  ◌==◌, if◌then◌else◌,
}
use webcb.Stream.{Sender}

pub record Writer (S : Type 0) : Type 0 where
  pub s : S
  pub t : List ℕ
  pub t_index : ℕ
  pub p_index : ℕ
  pub t_len : ℕ
  pub p_len : ℕ

unfoldable pub new_writer : {S : Type 0} → S → List ℕ → Writer S
new_writer sender buf = record {
  s = sender;
  t = buf;
  t_index = 0;
  p_index = 0;
  t_len = length buf;
  p_len = 0;
}

-- The bytes that wait in the buffer.
abbrev pub pending : {S : Type 0} → Writer S → List ℕ
pending w = take w.t_index w.t

module _ {S : Type 0} where
  -- `copy(w.t[w.tIndex:], p[w.pIndex:])` and the four counters
  moved : Writer S → List ℕ → Writer S
  moved w p =
      let n = copied w.t_index w.t w.p_index p in
      record w {
        t = copy_at w.t_index (drop w.p_index p) w.t;
        t_index = w.t_index + n;
        p_index = w.p_index + n;
        t_len = w.t_len - n;
        p_len = w.p_len - n;
      }

module _ {S : Type 0} (sender : Sender S) where
  -- a full buffer goes out and is empty again; after an error it is left as it is
  emit : Writer S → Option Error × Writer S
  emit w =
      let (e, s') = sender.send_chunk w.s w.t in
      if w.t_len == 0
      then (elim e [
        | some x ↦ (some x, record w { s = s' })
        | none ↦ (none, record w { s = s'; t_index = 0; t_len = length w.t })
      ])
      else (none, w)

  -- The loop of `Write`, with at most so many rounds; `none` when they do not suffice.
  write_loop : ℕ → Writer S → List ℕ → Option ((ℕ × Option Error) × Writer S)
  write_loop zero w p = none
  write_loop (suc rounds) w p =
      let (e, w') = emit (moved w p) in
      let next : Option ((ℕ × Option Error) × Writer S) = elim e [
        | some x ↦ some ((0, some x), w')
        | none ↦ write_loop rounds w' p
      ] in
      if ltb 0 w.p_len then next else some ((w.p_index, none), w)

  -- `Write`: each round but the last moves a byte, so there are at most `len(p) + 1`.
  pub write : Writer S → List ℕ → Option ((ℕ × Option Error) × Writer S)
  unfolding write_loop emit moved
  write w p = write_loop (suc (length p)) (record w { p_index = 0; p_len = length p }) p

  unfoldable pub flush : Writer S → List ℕ → Option Error × Writer S
  flush w checksum =
      let (e, s') =
        (if ltb 0 w.t_len then sender.send_chunk w.s (take w.t_index w.t) else (none, w.s)) in
      elim e [
        | some x ↦ (some x, record w { s = s' })
        | none ↦ (let (e', s'') = sender.send_checksum s' checksum in (e', record w { s = s'' }))
      ]
