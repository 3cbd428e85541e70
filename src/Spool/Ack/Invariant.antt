-- ===== src/Spool/Ack/Invariant.antt =====
-- What holds of an `AckState` between two calls, whatever the writes of its sidecar do.
use gasworks.Prelude.{
  ℕ, ◌+◌, ◌≤◌, ◌<◌, ◌≡◌, ◌⊎◌, false, if-intro, if◌then◌else◌, ◌==◌, subst, inl, inr, List, Option,
  none, some, ok, arith,
}
use gasworks.Word.{IsInt64, IsNat63, max_int64, slt}
use gasworks.Spool.Bytes.{IsBytes}
use gasworks.Spool.Checks.{Checks}
use gasworks.Spool.Sidecar.{read_ack, encode_ack}
use gasworks.Spool.Sidecar.RoundTrip.{read_ack-encode_ack, encode_ack-decode_ack}
use gasworks.Spool.AtomicWrite.{Env, Slot, read_target, target_cases}
use gasworks.Spool.Ack.{
  AckState, SequenceRange, max_in_flight_or_default, load_ack_state, note_durable, set_in_flight,
  advance, acknowledge,
}

-- The one range that may be out: it begins right behind the watermark, lies below the ceiling and
-- is no longer than the bound.
pub record IsOwed (a : AckState) (r : SequenceRange) : Type 0 where
  pub begins : r.first_sequence ≡ a.acknowledged_through + 1
  pub ordered : r.first_sequence ≤ r.last_sequence
  pub durable : r.last_sequence ≤ a.highest_durable
  pub bounded : r.last_sequence + 1 ≤ r.first_sequence + a.max_in_flight

abbrev pub Owed : AckState → Option SequenceRange → Type 0
Owed a none = Unit
Owed a (some r) = IsOwed a r

-- A file holds bytes.
abbrev pub IsFile : Option (List ℕ) → Type 0
IsFile none = Unit
IsFile (some b) = IsBytes b

pub record IsSound (c : Checks) (a : AckState) : Type 0 where
  pub ceiling : a.acknowledged_through ≤ a.highest_durable
  pub int64 : a.highest_durable ≤ max_int64
  pub bound : a.max_in_flight ≤ max_int64
  pub owed : Owed a a.in_flight
  -- the watermark on disk, which is at or past that in memory
  pub on_disk : ℕ
  pub read : read_ack c (read_target a.slot.target) ≡ ok on_disk
  pub covers : a.acknowledged_through ≤ on_disk
  pub sent : on_disk ≤ a.highest_durable

module _ (c : Checks) where
  pub note_durable-IsSound :
      (a : AckState) (seq : ℕ) → IsInt64 seq → IsSound c a → IsSound c (note_durable a seq)
  unfolding note_durable
  note_durable-IsSound a seq hs h = ground arith

  pub set_in_flight-IsSound :
      (a : AckState) (r : SequenceRange)
      → IsInt64 r.first_sequence
      → IsInt64 r.last_sequence
      → IsSound c a
      → IsSound c (set_in_flight a r).0
  unfolding set_in_flight
  set_in_flight-IsSound a r hf hl h = ground arith

  -- Past the guards: the write either moves the watermark, on disk and in memory, or fails and
  -- leaves memory alone.
  advance-IsSound :
      (e : Env) (a : AckState) (r : SequenceRange) (through : ℕ)
      → IsSound c a
      → a.in_flight ≡ some r
      → IsOwed a r
      → a.acknowledged_through < through
      → through ≤ r.last_sequence
      → IsSound c (advance c e a r through).0
  unfolding advance
  advance-IsSound e a r through h hr ho lo hi =
      elim (target_cases e (encode_ack c through) a.slot) [
        | inl (done, now) ↦
            rw (done, advance)
              (record {
                ceiling = omega (arith, ho.durable);
                int64 = h.int64;
                bound = h.bound;
                owed =
                    if-intro (Owed _) (through == r.last_sequence) (λ _. tt)
                      (λ part. record {
                        begins = omega (arith, ho.durable, h.int64);
                        ordered = ground (arith, ho.durable, h.int64);
                        durable = ho.durable;
                        bounded = ground (arith, ho.begins, ho.bounded, ho.durable, h.int64);
                      });
                on_disk = through;
                read = rw now (read_ack-encode_ack c through (omega (arith, ho.durable, h.int64)));
                covers = omega arith;
                sent = omega (arith, ho.durable);
              })
        | inr (x, failed, inl old) ↦
            rw (failed, advance)
              (record {
                ceiling = h.ceiling;
                int64 = h.int64;
                bound = h.bound;
                owed = rw hr (record {
                  begins = ho.begins;
                  ordered = ho.ordered;
                  durable = ho.durable;
                  bounded = ho.bounded;
                });
                on_disk = h.on_disk;
                read = rw old h.read;
                covers = h.covers;
                sent = h.sent;
              })
        | inr (x, failed, inr now) ↦
            rw (failed, advance)
              (record {
                ceiling = h.ceiling;
                int64 = h.int64;
                bound = h.bound;
                owed = rw hr (record {
                  begins = ho.begins;
                  ordered = ho.ordered;
                  durable = ho.durable;
                  bounded = ho.bounded;
                });
                on_disk = through;
                read = rw now (read_ack-encode_ack c through (omega (arith, ho.durable, h.int64)));
                covers = omega arith;
                sent = omega (arith, ho.durable);
              })
      ]

  -- A call returns at a guard, or goes on to the write.
  pub acknowledge_cases :
      (e : Env) (a : AckState) (through : ℕ)
      → ((acknowledge c e a through).0 ≡ a)
        ⊎ ((r : SequenceRange) × (a.in_flight ≡ some r)
            × (slt through a.acknowledged_through ≡ false)
            × ((through == a.acknowledged_through) ≡ false)
            × (slt r.last_sequence through ≡ false)
            × (acknowledge c e a through ≡ advance c e a r through))
  unfolding acknowledge
  acknowledge_cases e a through = ground arith

  pub acknowledge-IsSound :
      (e : Env) (a : AckState) (through : ℕ)
      → IsInt64 through
      → IsSound c a
      → IsSound c (acknowledge c e a through).0
  acknowledge-IsSound e a through ht h = elim (acknowledge_cases e a through) [
    | inl same ↦ rw same h
    | inr (r, out, up, ne, within, next) ↦
        let ho : IsOwed a r = subst (Owed a) out h.owed in
        rw next (
          advance-IsSound e a r through h out ho (ground (arith, ho.durable, h.int64, h.ceiling))
            (ground (arith, ho.durable, h.int64)))
  ]

  pub read_ack-IsNat63 :
      (t : Option (List ℕ)) (v : ℕ) → IsFile t → read_ack c (read_target t) ≡ ok v → IsNat63 v
  unfolding read_ack
  read_ack-IsNat63 none v hf h = ground arith
  read_ack-IsNat63 (some b) v hf h = (encode_ack-decode_ack c b v hf h).1

  pub load_ack_state-inv :
      (s : Slot) (highest max : ℕ) (a : AckState)
      → load_ack_state c s highest max ≡ ok a
      → (read_ack c (read_target s.target) ≡ ok a.acknowledged_through)
        × (a.slot ≡ s)
        × (a.in_flight ≡ none)
        × (a.highest_durable
            ≡ (if slt highest a.acknowledged_through then a.acknowledged_through else highest))
        × (a.max_in_flight ≡ max_in_flight_or_default max)
  unfolding load_ack_state max_in_flight_or_default
  load_ack_state-inv s highest max a h = ground arith

  max_in_flight-IsNat63 : (m : ℕ) → IsInt64 m → IsNat63 (max_in_flight_or_default m)
  unfolding max_in_flight_or_default
  max_in_flight-IsNat63 m h = ground arith

  pub load_ack_state-IsSound :
      (s : Slot) (highest max : ℕ) (a : AckState)
      → IsFile s.target
      → IsNat63 highest
      → IsInt64 max
      → load_ack_state c s highest max ≡ ok a
      → IsSound c a
  load_ack_state-IsSound s highest max a hf hh hm h =
      let (read, slot, out, top, bound) = load_ack_state-inv s highest max a h in
      let small : IsNat63 a.acknowledged_through = read_ack-IsNat63 s.target _ hf read in
      record {
        ceiling = ground (arith, top);
        int64 = ground (arith, top);
        bound = rw bound (max_in_flight-IsNat63 max hm);
        owed = rw out tt;
        on_disk = a.acknowledged_through;
        read = rw slot read;
        covers = omega arith;
        sent = ground (arith, top);
      }
