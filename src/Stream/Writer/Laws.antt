-- ===== src/Stream/Writer/Laws.antt =====
-- `Write` and `Flush` of internal/grpc/writer.go against the byte-at-a-time description in Frames.
use webcb.Base.{
  ℕ, zero, suc, ◌+◌, ◌<◌, ◌≡◌, refl, sym, ◌∙◌, subst, ap, List, ◌++◌, arith, Option, none, some,
  Error, length, take, drop, copied, length-take, length-drop, length-copy_at, take-copy_at,
  take-append-drop, take_all, drop_all, drop-drop, ◌≢◌, call-cases, inl, inr,
}
use native.Mathlib.Decide.{ℕ_discrete}
use webcb.Stream.{Sender}
use webcb.Stream.Sending.{send_all, send_all-nil, send_all-accepted, send_all-refused}
use webcb.Stream.Writer.{Writer, pending, moved, emit, write_loop, write}
use webcb.Stream.Writer.Frames.{feed, feed-append_short, feed-append_full, feed-nil}

-- A writer between two calls: the counters agree with its buffer, which has room.
pub record Ready {S : Type 0} (n : ℕ) (w : Writer S) : Type 0 where
  pub size : length w.t ≡ n
  pub room : w.t_index + w.t_len ≡ n
  pub open_chunk : 0 < w.t_len

-- what `Write` returns, given the first refusal
abbrev pub report : Option Error → ℕ → ℕ × Option Error
report none len = (len, none)
report (some x) len = (0, some x)

module _ {S : Type 0} (sender : Sender S) where
  -- The result of `Write`, when sending ends in `sent` and the bytes `rest` remain.
  pub record Wrote (n : ℕ) (sent : Option Error × S) (rest : List ℕ) (len : ℕ)
      (out : Option ((ℕ × Option Error) × Writer S)) : Type 0 where
    pub writer : Writer S
    pub returned : out ≡ some (report sent.0 len, writer)
    pub sender_after : writer.s ≡ sent.1
    pub ready : sent.0 ≡ none → Ready n writer × (pending writer ≡ rest)

  loop_end :
      (rounds : ℕ) (w : Writer S) (p : List ℕ)
      → w.p_len ≡ 0
      → write_loop sender (suc rounds) w p ≡ some ((w.p_index, none), w)
  unfolding write_loop
  loop_end rounds w p h = ground arith

  loop_short :
      (rounds : ℕ) (w : Writer S) (p : List ℕ)
      → 0 < w.p_len
      → 0 < (moved w p).t_len
      → write_loop sender (suc rounds) w p ≡ write_loop sender rounds (moved w p) p
  unfolding write_loop emit
  loop_short rounds w p h g = ground arith

  abbrev emptied : Writer S → S → Writer S
  emptied w s' = record w { s = s'; t_index = 0; t_len = length w.t }

  loop_sent :
      (rounds : ℕ) (w : Writer S) (p : List ℕ) (s' : S)
      → 0 < w.p_len
      → (moved w p).t_len ≡ 0
      → sender.send_chunk w.s (moved w p).t ≡ (none, s')
      → write_loop sender (suc rounds) w p ≡ write_loop sender rounds (emptied (moved w p) s') p
  unfolding write_loop emit moved
  loop_sent rounds w p s' h g e = ground arith

  loop_refused :
      (rounds : ℕ) (w : Writer S) (p : List ℕ) (x : Error) (s' : S)
      → 0 < w.p_len
      → (moved w p).t_len ≡ 0
      → sender.send_chunk w.s (moved w p).t ≡ (some x, s')
      → write_loop sender (suc rounds) w p ≡ some ((0, some x), record (moved w p) { s = s' })
  unfolding write_loop emit moved
  loop_refused rounds w p x s' h g e = ground arith

module _ {S : Type 0} where
  -- how many bytes a round moves
  abbrev step : Writer S → List ℕ → ℕ
  step w p = copied w.t_index w.t w.p_index p

  abbrev now : Writer S → List ℕ → List ℕ
  now w p = take (step w p) (drop w.p_index p)

  record Moved (n : ℕ) (w : Writer S) (p : List ℕ) : Type 0 where
    same : (moved w p).s ≡ w.s
    size : length (moved w p).t ≡ n
    room : (moved w p).t_index + (moved w p).t_len ≡ n
    stepped : (moved w p).t_index ≡ w.t_index + step w p
    index : (moved w p).p_index + (moved w p).p_len ≡ length p
    fewer : 0 < w.p_len → (moved w p).p_len < w.p_len
    joined : pending (moved w p) ≡ pending w ++ now w p
    counted : length (now w p) ≡ step w p
    later : drop w.p_index p ≡ now w p ++ drop (moved w p).p_index p
    taken : length (pending w) ≡ w.t_index

  moved_lem :
      (n : ℕ) (w : Writer S) (p : List ℕ) → Ready n w → w.p_index + w.p_len ≡ length p → Moved n w p
  unfolding moved
  moved_lem n w p r e = record {
    same = refl;
    stepped = refl;
    size = length-copy_at w.t_index (drop w.p_index p) w.t ∙ r.size;
    room = omega (arith, r.size, r.room);
    index = omega (arith, r.size, r.room);
    fewer = λ h. omega (arith, r.size, r.room, r.open_chunk);
    joined =
        take-copy_at w.t_index (step w p) _ (drop w.p_index p) w.t refl
          (omega (arith, length-drop w.p_index p)) (omega (arith, r.size, r.room));
    counted = omega (arith, length-take (step w p) (drop w.p_index p), length-drop w.p_index p);
    later =
        sym (take-append-drop (step w p) (drop w.p_index p))
        ∙ ap (λ l. now w p ++ l) (drop-drop w.p_index (step w p) _ p refl);
    taken = omega (arith, length-take w.t_index w.t, r.size, r.room);
  }

module _ {S : Type 0} (sender : Sender S) (rounds n : ℕ) (w : Writer S) (p : List ℕ) (r : Ready n w)
    (e : w.p_index + w.p_len ≡ length p) where
  abbrev GoalFrom : S → Writer S → ℕ → Type 0
  GoalFrom s v k =
      let cut = feed n (pending v) (drop v.p_index p) in
      Wrote sender n (send_all sender s cut.full) cut.rest (length p) (write_loop sender k v p)

  abbrev Goal : Writer S → ℕ → Type 0
  Goal v k = GoalFrom v.s v k

  Goal-end : w.p_len ≡ 0 → Goal w (suc rounds)
  Goal-end h =
      rw (loop_end sender rounds w p h, drop_all w.p_index p (omega arith), feed-nil, send_all-nil)
        (record {
          writer = w;
          returned = ap (λ (k : ℕ). some ((k, none), w)) (omega arith);
          sender_after = refl;
          ready = λ _. (r, refl);
        })

  open_to :
      w.p_len ≢ 0
      → Moved n w p
      → 0 < (moved w p).t_len
      → Goal (moved w p) rounds
      → Goal w (suc rounds)
  open_to h m g ih =
      rw
        (
          loop_short sender rounds w p (omega arith) g,
          m.later,
          feed-append_short n (pending w) (now w p) (drop (moved w p).p_index p)
              (omega (arith, m.taken, m.counted, m.room, m.stepped)),
          ← m.joined,
        )
        (subst (λ s. GoalFrom s (moved w p) rounds) m.same ih)

  full_to :
      w.p_len ≢ 0
      → (m : Moved n w p) → (moved w p).t_len ≡ 0
      → ((s' : S) → Goal (emptied sender (moved w p) s') rounds)
      → Goal w (suc rounds)
  full_to h m g ih = elim (call-cases (sender.send_chunk w.s (moved w p).t)) [
    | inl (s', sent) ↦
        (rw
          (
            loop_sent sender rounds w p s' (omega arith) g sent,
            m.later,
            feed-append_full n (pending w) (now w p) (drop (moved w p).p_index p) fills some_now,
            ← m.joined,
            whole,
            send_all-accepted sender w.s s' (moved w p).t _ sent,
          )
          (ih s'))
    | inr (x, s', sent) ↦
        (rw
          (
            loop_refused sender rounds w p x s' (omega arith) g sent,
            m.later,
            feed-append_full n (pending w) (now w p) (drop (moved w p).p_index p) fills some_now,
            ← m.joined,
            whole,
            send_all-refused sender w.s s' (moved w p).t _ x sent,
          )
          (record { writer = _; returned = refl; sender_after = refl; ready = λ q. cc }))
  ]
    where
      whole : take (moved w p).t_index (moved w p).t ≡ (moved w p).t
      whole = take_all (moved w p).t_index (moved w p).t (omega (arith, m.size, m.room))

      fills : length (pending w) + length (now w p) ≡ n
      fills = omega (arith, m.taken, m.counted, m.room, m.stepped)

      some_now : 0 < length (now w p)
      some_now = omega (arith, m.counted, r.room, r.size, r.open_chunk)

module _ {S : Type 0} (sender : Sender S) where
  write_loop-Wrote :
      (rounds n : ℕ) (w : Writer S) (p : List ℕ) (r : Ready n w)
      (e : w.p_index + w.p_len ≡ length p)
      → w.p_len < rounds
      → Goal sender rounds n w p r e w rounds
  write_loop-Wrote zero n w p r e h = absurd (omega arith)
  write_loop-Wrote (suc rounds) n w p r e h = elim (ℕ_discrete w.p_len 0) [
    | yes z ↦ Goal-end sender rounds n w p r e z
    | no nz ↦ elim (ℕ_discrete (moved w p).t_len 0) [
      | yes full ↦ full_to sender rounds n w p r e nz m full λ s'.
          write_loop-Wrote rounds n (emptied sender (moved w p) s') p
            (record {
              size = m.size;
              room = omega (arith, m.size);
              open_chunk = omega (arith, m.size, r.room, r.open_chunk);
            })
            m.index (omega (arith, m.fewer))
      | no open_still ↦ open_to sender rounds n w p r e nz m (omega arith) (
          write_loop-Wrote rounds n (moved w p) p
            (record { size = m.size; room = m.room; open_chunk = omega arith }) m.index
            (omega (arith, m.fewer)))
    ]
  ]
    where
      m : Moved n w p
      m = moved_lem n w p r e

  -- `Write` of any bytes at a writer that is ready returns within its rounds. The chunks that it
  -- sends are those of the byte-at-a-time description, in order. If the sender takes them all, the
  -- whole of `p` is reported as written, the writer is ready again, and the unsent bytes wait in
  -- its buffer. Otherwise the first refusal is returned with the count 0.
  pub write-Wrote :
      (n : ℕ) (w : Writer S) (p : List ℕ)
      → Ready n w
      → let cut = feed n (pending w) p in
        Wrote sender n (send_all sender w.s cut.full) cut.rest (length p) (write sender w p)
  unfolding write
  write-Wrote n w p r =
      write_loop-Wrote (suc (length p)) n (record w { p_index = 0; p_len = length p }) p
        (record { size = r.size; room = r.room; open_chunk = r.open_chunk }) (omega arith)
        (omega arith)
