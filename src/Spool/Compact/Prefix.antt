-- ===== src/Spool/Compact/Prefix.antt =====
-- What `Compact` leaves: a suffix of the log with the last segment in it.
use gasworks.Prelude.{
  ℕ, ◌+◌, ◌-◌, ◌≤◌, ◌≡◌, refl, sym, ap, ◌∙◌, ◌⊎◌, inl, inr, Bool, Bool-cases, false, List, [], ◌∷◌,
  ◌++◌, append_assoc, append-nil, some, length, arith, All, ltb,
}
use gasworks.Word.{IsNat63, slt, sub64, add64}
use gasworks.Spool.Compact.{
  Named, SegFile, Compaction, sync_failed, compact_loop, compact, named, size_of, first_sequences,
}

abbrev pub IsSegFile : SegFile → Type 0
IsSegFile x = (1 ≤ x.first) × IsNat63 x.first

-- The segments of `gone` end at or below `ack`: the one behind each of them begins at or below
-- `ack + 1`; `z` stands behind the last.
abbrev pub Acknowledged : ℕ → List SegFile → SegFile → Type 0
Acknowledged ack [] z = Unit
Acknowledged ack (x ∷ []) z = z.first ≤ ack + 1
Acknowledged ack (x ∷ y ∷ gone) z = (y.first ≤ ack + 1) × Acknowledged ack (y ∷ gone) z

-- What was removed from `x ∷ xs` is a prefix of acknowledged segments, and the removed ones are
-- reported, but for the one whose removal could not be made durable.
pub record IsCompacted (ack : ℕ) (removed : List SegFile) (xs : List SegFile) (dir : List Named)
    (r : Compaction) : Type 0 where
  pub gone : List SegFile
  pub next : SegFile
  pub behind : List SegFile
  pub split : xs ≡ gone ++ next ∷ behind
  pub left : dir ≡ named (next ∷ behind)
  pub acknowledged : Acknowledged ack gone next
  pub reported : (r.failed ≡ some sync_failed) ⊎ (r.removed_segments ≡ removed ++ gone)

abbrev head_first : List SegFile → ℕ
head_first [] = 0
head_first (x ∷ xs) = x.first

module _ (remove_fails sync_fails : SegFile → Bool) where
  cons-Acknowledged :
      (ack : ℕ) (x y : SegFile) (ys gone behind : List SegFile) (z : SegFile)
      → y.first ≤ ack + 1
      → (y ∷ ys) ≡ gone ++ z ∷ behind
      → Acknowledged ack gone z
      → Acknowledged ack (x ∷ gone) z
  cons-Acknowledged ack x y ys [] behind z h e a = omega (arith, ap head_first e)
  cons-Acknowledged ack x y ys (w ∷ gone) behind z h e a = (omega (arith, ap head_first e), a)

  ends_below :
      (ack first : ℕ)
      → IsNat63 ack
      → 1 ≤ first
      → IsNat63 first
      → slt ack (sub64 first 1) ≡ false
      → first ≤ ack + 1
  ends_below ack first ha h1 h2 h = ground arith

  loop-IsCompacted :
      (ack : ℕ) (removed : List SegFile) (bytes remaining : ℕ) (x : SegFile) (xs : List SegFile)
      → IsNat63 ack
      → All IsSegFile (x ∷ xs)
      → IsCompacted ack removed
          (x ∷ xs)
          (named (compact_loop remove_fails sync_fails ack removed bytes remaining (x ∷ xs)).wal)
          (compact_loop remove_fails sync_fails ack removed bytes remaining (x ∷ xs))
  unfolding compact_loop
  loop-IsCompacted ack removed bytes remaining x [] ha h = record {
    gone = [];
    next = x;
    behind = [];
    split = refl;
    left = refl;
    acknowledged = tt;
    reported = inr (sym (append-nil removed));
  }
  loop-IsCompacted ack removed bytes remaining x (y ∷ ys) ha h =
      elim (Bool-cases (slt ack (sub64 y.first 1))) [
        | inl owed ↦
            rw (owed, compact_loop)
              (record {
                gone = [];
                next = x;
                behind = y ∷ ys;
                split = refl;
                left = refl;
                acknowledged = tt;
                reported = inr (sym (append-nil removed));
              })
        | inr done ↦ elim (Bool-cases (remove_fails x)) [
          | inl bad ↦
              rw (done, bad, compact_loop)
                (record {
                  gone = [];
                  next = x;
                  behind = y ∷ ys;
                  split = refl;
                  left = refl;
                  acknowledged = tt;
                  reported = inr (sym (append-nil removed));
                })
          | inr gone ↦ elim (Bool-cases (sync_fails x)) [
            | inl bad ↦
                rw (done, gone, bad, compact_loop)
                  (record {
                    gone = x ∷ [];
                    next = y;
                    behind = ys;
                    split = refl;
                    left = refl;
                    acknowledged = ends_below ack y.first ha h.1.0.0 h.1.0.1 done;
                    reported = inl refl;
                  })
            | inr good ↦
                let r =
                  loop-IsCompacted ack (removed ++ x ∷ []) (add64 bytes (size_of x.size))
                    (remaining - 1) y ys ha h.1 in
                rw (done, gone, good, compact_loop)
                  (record {
                    gone = x ∷ r.gone;
                    next = r.next;
                    behind = r.behind;
                    split = ap (λ l. x ∷ l) r.split;
                    left = r.left;
                    acknowledged =
                        cons-Acknowledged ack x y ys r.gone r.behind r.next
                          (ends_below ack y.first ha h.1.0.0 h.1.0.1 done) r.split r.acknowledged;
                    reported = elim r.reported [
                      | inl f ↦ inl f
                      | inr q ↦ inr (q ∙ append_assoc removed (x ∷ []) r.gone)
                    ];
                  })
          ]
        ]
      ]

  -- For segments whose names parse to positive first sequences, and whatever removals and fsyncs
  -- fail, what `Compact` leaves in the directory is a suffix of the log with its last segment in
  -- it; the segment behind each one that is gone begins at most one past the acknowledged
  -- sequence, so that what is gone was acknowledged; and the ones that are gone are those
  -- reported, unless an fsync failed.
  pub compact-IsCompacted :
      (ack : ℕ) (x : SegFile) (xs : List SegFile)
      → IsNat63 ack
      → All IsSegFile (x ∷ xs)
      → first_sequences (named (x ∷ xs)) ≡ some (x ∷ xs)
      → IsCompacted ack []
          (x ∷ xs)
          (compact remove_fails sync_fails ack (named (x ∷ xs))).1
          (compact remove_fails sync_fails ack (named (x ∷ xs))).0
  unfolding compact
  compact-IsCompacted ack x [] ha h e = record {
    gone = [];
    next = x;
    behind = [];
    split = refl;
    left = refl;
    acknowledged = tt;
    reported = inr refl;
  }
  compact-IsCompacted ack x (y ∷ ys) ha h e =
      let many : ltb (length (named (x ∷ y ∷ ys))) 2 ≡ false = ground arith in
      rw (many, e, compact)
        (loop-IsCompacted ack [] 0 (length (named (x ∷ y ∷ ys))) x (y ∷ ys) ha h)
