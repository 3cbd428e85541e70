-- ===== src/Spool/Ack/History.antt =====
-- Any sequence of calls of an `AckState`, in the order in which the mutex lets them in, with any
-- failures of the writes; and a restart after it.
use gasworks.Prelude.{
  ℕ, ◌≤◌, ◌≡◌, inl, inr, true, false, Bool, ◌&&◌, leb, List, [], ◌∷◌, Option, none, some, ok, arith,
  if◌then◌else◌, subst, All, Option-cases, Result-cases, ◌≢◌, err,
}
use gasworks.Word.{IsInt64}
use gasworks.Spool.Checks.{Checks}
use gasworks.Spool.Sidecar.{SidecarError, read_ack, encode_ack}
use gasworks.Spool.AtomicWrite.{Env, Slot, read_target, atomic_write_file}
use gasworks.Spool.Ack.{
  AckState, SequenceRange, load_ack_state, note_durable, set_in_flight, advance, acknowledge,
}
use gasworks.Spool.Ack.Invariant.{
  IsSound, IsOwed, Owed, note_durable-IsSound, set_in_flight-IsSound, acknowledge-IsSound,
  acknowledge_cases, load_ack_state-inv,
}

pub data AckCall : Type 0 where
  note : ℕ → AckCall
  offer : SequenceRange → AckCall
  ack : Env → ℕ → AckCall

-- The arguments are int64.
abbrev pub IsTyped : AckCall → Type 0
IsTyped (note seq) = IsInt64 seq
IsTyped (offer r) = IsInt64 r.first_sequence × IsInt64 r.last_sequence
IsTyped (ack e through) = IsInt64 through

module _ (c : Checks) where
  unfoldable pub call : AckState → AckCall → AckState
  call a (note seq) = note_durable a seq
  call a (offer r) = (set_in_flight a r).0
  call a (ack e through) = (acknowledge c e a through).0

  unfoldable pub run : AckState → List AckCall → AckState
  run a [] = a
  run a (x ∷ xs) = run (call a x) xs

  call-IsSound : (a : AckState) (x : AckCall) → IsTyped x → IsSound c a → IsSound c (call a x)
  unfolding call
  call-IsSound a (note seq) t h = note_durable-IsSound c a seq t h
  call-IsSound a (offer r) t h = set_in_flight-IsSound c a r t.0 t.1 h
  call-IsSound a (ack e through) t h = acknowledge-IsSound c e a through t h

  -- Whatever calls are made on a sound state, and whatever their writes do, the watermark stays
  -- at or below the ceiling, an outstanding range begins right behind the watermark and ends at
  -- or below the ceiling within the length bound, and the sidecar on disk decodes to a watermark
  -- that is at or past the one in memory and at or below the ceiling.
  pub run-IsSound :
      (a : AckState) (xs : List AckCall) → All IsTyped xs → IsSound c a → IsSound c (run a xs)
  unfolding run
  run-IsSound a [] t h = h
  run-IsSound a (x ∷ xs) t h = run-IsSound (call a x) xs t.1 (call-IsSound a x t.0 h)

  -- Neither mark of `a` is past that of `b`.
  pub record Below (a b : AckState) : Type 0 where
    pub acknowledged : a.acknowledged_through ≤ b.acknowledged_through
    pub durable : a.highest_durable ≤ b.highest_durable

  advance-Below :
      (e : Env) (a : AckState) (r : SequenceRange) (through : ℕ)
      → a.acknowledged_through ≤ through
      → Below a (advance c e a r through).0
  unfolding advance
  advance-Below e a r through h =
      elim (Option-cases (atomic_write_file e (encode_ack c through) a.slot).1) [
        | inl done ↦ rw (done, advance) (omega arith)
        | inr (x, failed) ↦ rw (failed, advance) (omega arith)
      ]

  acknowledge-Below :
      (e : Env) (a : AckState) (through : ℕ)
      → IsInt64 through
      → IsSound c a
      → Below a (acknowledge c e a through).0
  acknowledge-Below e a through t h = elim (acknowledge_cases c e a through) [
    | inl same ↦ rw same (omega arith)
    | inr (r, out, up, ne, within, next) ↦
        rw next (advance-Below e a r through (ground (arith, h.ceiling, h.int64)))
  ]

  call-Below : (a : AckState) (x : AckCall) → IsTyped x → IsSound c a → Below a (call a x)
  unfolding call note_durable set_in_flight
  call-Below a (note seq) t h = ground arith
  call-Below a (offer r) t h = ground arith
  call-Below a (ack e through) t h = acknowledge-Below e a through t h

  -- Over any calls on a sound state the watermark and the ceiling never go back.
  pub run-Below :
      (a : AckState) (xs : List AckCall) → All IsTyped xs → IsSound c a → Below a (run a xs)
  unfolding run
  run-Below a [] t h = omega arith
  run-Below a (x ∷ xs) t h =
      let one = call-Below a x t.0 h in
      let more = run-Below (call a x) xs t.1 (call-IsSound a x t.0 h) in
      omega (arith, one.acknowledged, one.durable, more.acknowledged, more.durable)

  load_ack_state-err :
      (s : Slot) (highest max : ℕ) (x : SidecarError) (v : ℕ)
      → load_ack_state c s highest max ≡ err x
      → read_ack c (read_target s.target) ≢ ok v
  unfolding load_ack_state
  load_ack_state-err s highest max x v h there = ground arith

  load_ack_state-read :
      (s : Slot) (highest max v : ℕ)
      → read_ack c (read_target s.target) ≡ ok v
      → (b : AckState) × (load_ack_state c s highest max ≡ ok b)
        × (b.acknowledged_through ≡ v)
        × (b.in_flight ≡ none)
  load_ack_state-read s highest max v h = elim (Result-cases (load_ack_state c s highest max)) [
    | inl (b, loaded) ↦
        let (there, slot, idle, top, bound) = load_ack_state-inv c s highest max b loaded in
        (b, loaded, cc, idle)
    | inr (x, failed) ↦ absurd (load_ack_state-err s highest max x v failed h)
  ]

  -- After any calls on a sound state, whatever their writes do, a restart loads the sidecar
  -- without error, and finds a watermark that is at or past every one that was reported, at or
  -- below the ceiling, with no range outstanding.
  pub load_after_run :
      (a : AckState) (xs : List AckCall) (highest max : ℕ)
      → All IsTyped xs
      → IsSound c a
      → (b : AckState) × (load_ack_state c (run a xs).slot highest max ≡ ok b)
        × (a.acknowledged_through ≤ b.acknowledged_through)
        × ((run a xs).acknowledged_through ≤ b.acknowledged_through)
        × (b.acknowledged_through ≤ (run a xs).highest_durable)
        × (b.in_flight ≡ none)
  load_after_run a xs highest max t h =
      let good = run-IsSound a xs t h in
      let (b, loaded, mark, idle) =
        load_ack_state-read (run a xs).slot highest max good.on_disk good.read in
      (
        b,
        loaded,
        omega (arith, run-Below a xs t h, good.covers, mark),
        omega (arith, good.covers, mark),
        omega (arith, good.sent, mark),
        idle,
      )

-- The last sequence that an acknowledgement may name.
abbrev pub limit : AckState → ℕ
limit a = elim a.in_flight [ none ↦ a.acknowledged_through | some r ↦ r.last_sequence ]

-- An acknowledgement is accepted exactly from the watermark to that.
abbrev pub accepts : AckState → ℕ → Bool
accepts a through = leb a.acknowledged_through through && leb through (limit a)

abbrev pub is_none {ℓ} : {A : Type ℓ} → Option A → Bool
is_none none = true
is_none (some x) = false

module _ (c : Checks) (e : Env)
    (works : (b : List ℕ) (s : Slot) → (atomic_write_file e b s).1 ≡ none) where
  advance_done :
      (a : AckState) (r : SequenceRange) (through : ℕ)
      → ((advance c e a r through).1 ≡ none)
        × ((advance c e a r through).0.acknowledged_through ≡ through)
        × ((advance c e a r through).0.highest_durable ≡ a.highest_durable)
  unfolding advance
  advance_done a r through =
      let done = works (encode_ack c through) a.slot in
      (rw (done, advance), rw (done, advance), rw (done, advance))

  -- Where the sidecar can be written, `Acknowledge` succeeds on a sound state exactly from the
  -- watermark to the end of the outstanding range (only at the watermark, if nothing is out). If
  -- it succeeds, the named sequence is the new watermark; if not, the watermark stays. The
  -- ceiling stays in either case.
  pub acknowledge_exact :
      (a : AckState) (through : ℕ)
      → IsInt64 through
      → IsSound c a
      → (is_none (acknowledge c e a through).1 ≡ accepts a through)
        × ((acknowledge c e a through).0.acknowledged_through
            ≡ (if accepts a through then through else a.acknowledged_through))
        × ((acknowledge c e a through).0.highest_durable ≡ a.highest_durable)
  unfolding acknowledge
  acknowledge_exact a through t h = elim (Option-cases a.in_flight) [
    | inl out ↦ ground arith
    | inr (r, out) ↦
        let ho : IsOwed a r = subst (Owed a) out h.owed in
        ground (arith, advance_done a r through, ho.begins, ho.durable)
  ]
