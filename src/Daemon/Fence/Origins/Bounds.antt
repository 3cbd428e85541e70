-- ===== src/Daemon/Fence/Origins/Bounds.antt =====
-- The index keeps to positive sequences below a bound.
use gasworks.Prelude.{ℕ, ◌<◌, ◌≤◌, List, [], ◌∷◌, arith, All-append, if-intro}
use gasworks.Word.{max_int64, slt}
use gasworks.Daemon.Fence.Ranges.{from_first}
use gasworks.Daemon.Fence.Origins.{
  OriginRun, ConsentOrigin, ends_before, touches, extend_last, insert_run, add_run, prune_origins,
  IsBounded,
}

pub IsBounded-raise :
    (top top' : ℕ) (runs : List OriginRun) → top ≤ top' → IsBounded top runs → IsBounded top' runs
IsBounded-raise top top' [] h b = tt
IsBounded-raise top top' (r ∷ rs) h b =
    ((b.0.0, omega (arith, b.0.1), omega (arith, b.0.2)), IsBounded-raise top top' rs h b.1)

module _ (top : ℕ) (small : top < max_int64) where
  extend_last-IsBounded :
      (runs : List OriginRun) (last : ℕ)
      → last ≤ top
      → IsBounded top runs
      → IsBounded top (extend_last runs last)
  unfolding extend_last
  extend_last-IsBounded [] last h b = tt
  extend_last-IsBounded (r ∷ []) last h b = ((b.0.0, b.0.1, h), tt)
  extend_last-IsBounded (r ∷ s ∷ rs) last h b = (b.0, extend_last-IsBounded (s ∷ rs) last h b.1)

  insert_run-IsBounded :
      (runs : List OriginRun) (n : OriginRun)
      → IsBounded top (n ∷ [])
      → IsBounded top runs
      → IsBounded top (insert_run runs n)
  unfolding insert_run
  insert_run-IsBounded [] n h b = h
  insert_run-IsBounded (r ∷ rs) n h b =
      ground (arith, h.0, b.0, b.1, insert_run-IsBounded rs n h b.1)

  pub add_run-IsBounded :
      (runs : List OriginRun) (first last : ℕ) (o : ConsentOrigin)
      → 0 < first
      → first ≤ max_int64
      → last ≤ top
      → IsBounded top runs
      → IsBounded top (add_run runs first last o)
  unfolding add_run
  add_run-IsBounded runs first last o hf hx hl b =
      if-intro (IsBounded top) (slt last first) (λ _. b)
        λ h.
          let one : IsBounded top (record { first = first; last = last; origin = o } ∷ []) =
            ((hf, ground arith, hl), tt) in
          if-intro (IsBounded top) (ends_before runs first)
            (λ _.
              if-intro (IsBounded top) (touches runs first o)
                (λ _. extend_last-IsBounded runs last hl b) (λ _. All-append _ runs _ b one))
            (λ _. insert_run-IsBounded runs _ one b)

  pub prune_origins-IsBounded :
      (runs : List OriginRun) (through : ℕ)
      → through ≤ top
      → IsBounded top runs
      → IsBounded top (prune_origins runs through)
  unfolding prune_origins from_first
  prune_origins-IsBounded [] through h b = tt
  prune_origins-IsBounded (r ∷ rs) through h b =
      ground (arith, b.0, b.1, prune_origins-IsBounded rs through h b.1)
