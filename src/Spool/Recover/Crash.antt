-- ===== src/Spool/Recover/Crash.antt =====
-- What `Recover` makes of a spool that crashed in the middle of an append.
use gasworks.Prelude.{
  ℕ, ◌+◌, ◌<◌, ◌≡◌, ◌≢◌, ◌⊎◌, inl, inr, refl, sym, ap, ◌∙◌, Bool, Bool-cases, false, ap₂, Result,
  List, [], ◌∷◌, ◌++◌, Option, some, ok, length, append-nil, arith, take, length-take,
}
use Prim.Native.Nat.{max}
use gasworks.Word.{IsInt64, max_int64, slt}
use gasworks.Spool.Checks.{Checks}
use gasworks.Spool.Frame.{Frame, encode_frame}
use gasworks.Spool.Frame.TornTail.{decode_frame-take}
use gasworks.Spool.Sidecar.{Identity, read_identity, read_ack}
use gasworks.Spool.Recover.{
  WalFile, TornTail, RecoverError, Disk, TruncateCall, Progress, Recovery, recover,
  recover_segments, next_sequence, differs, fresh,
}
use gasworks.Spool.Recover.Walk.{IsTorn}
use gasworks.Spool.Recover.Chain.{LogSegment, IsChain, Known}
use gasworks.Spool.Recover.Log.{files_of, tails_of, highest_in, segments_lem}

-- Below the end of the sequence space, the next sequence is one past the larger of the two.
pub next_sequence-max :
    (h a : ℕ) → h < max_int64 → a < max_int64 → next_sequence h a ≡ (max h a + 1, false)
unfolding next_sequence
next_sequence-max h a hh ha = elim (Bool-cases (slt h a)) [
  | inl up ↦ rw (up, next_sequence) (ground arith)
  | inr down ↦ rw (down, next_sequence) (ground arith)
]

-- A frame that was cut short anywhere behind its first byte is a torn tail.
pub take-IsTorn :
    (c : Checks) (f : Frame) (b : List ℕ) (k : ℕ)
    → IsInt64 f.sequence
    → encode_frame c f ≡ ok b
    → 0 < k
    → k < length b
    → IsTorn c (take k b)
take-IsTorn c f b k hs h lo hi = record {
  some_bytes = omega (arith, length-take k b);
  cut = decode_frame-take c f b k hs h hi;
}

module _ (c : Checks) (fails : TruncateCall → Bool)
    (works : (x : TruncateCall) → fails x ≡ false) where
  -- The disk of a spool of source `i` that has acknowledged through `a`: a log with the segments
  -- `x ∷ xs`, and `tail` behind the last frame.
  pub record IsSpool (d : Disk) (i : Identity) (a s : ℕ) (x : LogSegment) (xs : List LogSegment)
      (tail : List ℕ) : Type 0 where
    pub identity : read_identity c d.identity ≡ ok (some i)
    pub named : i.source_id ≢ []
    pub acknowledged : read_ack c d.ack ≡ ok a
    pub wal : d.wal ≡ files_of c (x ∷ xs) tail
    pub chain : IsChain c i s (x ∷ xs)
    pub torn : (tail ≡ []) ⊎ IsTorn c tail

  abbrev pub recovered : Disk → LogSegment → List LogSegment → List ℕ → Disk
  recovered d x xs tail = record d {
    wal = files_of c (x ∷ xs) [];
    torn_tails = d.torn_tails ++ tails_of c (x ∷ xs) tail;
  }

  recover_parts :
      (binding : Option Identity) (d : Disk) (identity : Option Identity) (a : ℕ)
      (files : List WalFile) (tails : List TornTail) (p : Progress)
      → read_identity c d.identity ≡ ok identity
      → differs binding identity ≡ false
      → read_ack c d.ack ≡ ok a
      → recover_segments c fails identity binding d.wal
          (record { rec = fresh identity a; expected = 0 })
        ≡ (files, tails, ok p)
      → recover c fails binding d ≡ (
        record d { wal = files; torn_tails = d.torn_tails ++ tails },
        ok (record p.rec {
          next_sequence =
              (next_sequence p.rec.highest_durable_sequence p.rec.acknowledged_through).0;
          exhausted = (next_sequence p.rec.highest_durable_sequence p.rec.acknowledged_through).1;
        }),
      )
  unfolding recover
  recover_parts binding d identity a files tails p hi hd ha hs = rw (
    hi,
    hd,
    ha,
    ap (λ (r : List WalFile × List TornTail × Result RecoverError Progress). r.0) hs,
    ap (λ (r : List WalFile × List TornTail × Result RecoverError Progress). r.1) hs,
    ap (λ (r : List WalFile × List TornTail × Result RecoverError Progress). r.2) hs,
    recover,
  )

  -- Where the calls of the truncation work, the configured binding agrees with the identity and
  -- both marks are below the end of the sequence space, recovery of a spool that crashed while a
  -- frame was written succeeds and loses nothing durable: every whole frame stays in its file,
  -- the bytes behind the last one are cut off and set aside, the highest durable sequence is that
  -- of the last whole frame, and the next sequence is one past the larger of it and the
  -- acknowledged one.
  pub recover_log :
      (binding : Option Identity) (d : Disk) (i : Identity) (a s : ℕ) (x : LogSegment)
      (xs : List LogSegment) (tail : List ℕ)
      → IsSpool d i a s x xs tail
      → differs binding (some i) ≡ false
      → a < max_int64
      → highest_in 0 s (x ∷ xs) < max_int64
      → (r : Recovery) × (recover c fails binding d ≡ (recovered d x xs tail, ok r))
        × (r.highest_durable_sequence ≡ highest_in 0 s (x ∷ xs))
        × (r.acknowledged_through ≡ a)
        × (r.next_sequence ≡ max (highest_in 0 s (x ∷ xs)) a + 1)
        × (r.exhausted ≡ false)
        × (r.source_id ≡ i.source_id)
        × (r.format_version ≡ i.format_version)
  unfolding fresh
  recover_log binding d i a s x xs tail g hb ha hh =
      let p0 : Progress = record { rec = fresh (some i) a; expected = 0 } in
      let known : Known c fails works i s p0 = record {
        source = refl;
        version = refl;
        nonempty = g.named;
        expected = inl refl;
      } in
      let (p, walked, adv) =
        segments_lem c fails works (some i) binding i x xs tail s p0 g.chain g.torn known in
      let next : next_sequence p.rec.highest_durable_sequence p.rec.acknowledged_through
          ≡ (max (highest_in 0 s (x ∷ xs)) a + 1, false) =
        ap₂ next_sequence adv.highest adv.ack ∙ next_sequence-max _ a hh ha in
      (
        _,
        recover_parts binding d (some i) a _ _ p g.identity hb g.acknowledged
            (ap (λ w. recover_segments c fails (some i) binding w p0) g.wal ∙ walked),
        adv.highest,
        adv.ack,
        ap (λ (q : ℕ × Bool). q.0) next,
        ap (λ (q : ℕ × Bool). q.1) next,
        adv.source,
        adv.version,
      )

  no_tails : (x : LogSegment) (xs : List LogSegment) → tails_of c (x ∷ xs) [] ≡ []
  no_tails x [] = refl
  no_tails x (y ∷ xs) = no_tails y xs

  -- Under the same conditions, recovering what was recovered changes nothing on the disk and
  -- gives the same next sequence and the same highest durable sequence: a crash after recovery
  -- needs no other treatment than one before it.
  pub recover_again :
      (binding : Option Identity) (d : Disk) (i : Identity) (a s : ℕ) (x : LogSegment)
      (xs : List LogSegment) (tail : List ℕ)
      → IsSpool d i a s x xs tail
      → differs binding (some i) ≡ false
      → a < max_int64
      → highest_in 0 s (x ∷ xs) < max_int64
      → (r : Recovery) × (q : Recovery) × (recover c fails binding d
          ≡ (recovered d x xs tail, ok r))
        × (recover c fails binding (recovered d x xs tail) ≡ (recovered d x xs tail, ok q))
        × (q.next_sequence ≡ r.next_sequence)
        × (q.highest_durable_sequence ≡ r.highest_durable_sequence)
  recover_again binding d i a s x xs tail g hb ha hh =
      let (r, first, high, ack, next, ex, src, ver) =
        recover_log binding d i a s x xs tail g hb ha hh in
      let d' = recovered d x xs tail in
      let g' : IsSpool d' i a s x xs [] = record {
        identity = g.identity;
        named = g.named;
        acknowledged = g.acknowledged;
        wal = refl;
        chain = g.chain;
        torn = inl refl;
      } in
      let (q, second, high', ack', next', ex', src', ver') =
        recover_log binding d' i a s x xs [] g' hb ha hh in
      (
        r,
        q,
        first,
        second
            ∙ ap (λ (t : List TornTail). (record d' { torn_tails = t }, ok q))
                (ap (λ t. d'.torn_tails ++ t) (no_tails x xs) ∙ append-nil d'.torn_tails),
        next' ∙ sym next,
        high' ∙ sym high,
      )
