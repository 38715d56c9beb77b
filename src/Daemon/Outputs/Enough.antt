-- ===== src/Daemon/Outputs/Enough.antt =====
-- The loop of `spendableOutputs` ends with the pages of the index.
use qday_walletd.Common.{
  ℕ, zero, suc, ◌+◌, ◌*◌, ◌≤◌, ◌<◌, ◌≡◌, ap, refl, List, ◌++◌, arith, length, ltb, keep,
  ltb_false→le, Bool-cases, inl, inr,
}
use qday_walletd.Types.{
  Platform, Transaction, SiacoinElement, ChainIndex, ConsensusState, ok, same_index, Result-cases,
}
use qday_walletd.Daemon.Machine.{World, Daemon, machine, tick, pure, ◌>>=◌}
use qday_walletd.Daemon.Outputs.{page_size, is_spendable, outputs_from}

-- The index holds no more than so many full pages.
abbrev pub IsBounded : World → Type 0
IsBounded w =
    (t offset : ℕ) (page : List SiacoinElement) (basis : ChainIndex)
    → w.page_bound * page_size ≤ offset
    → w.unspent t offset page_size ≡ ok (page, basis)
    → length page < page_size

module _ (p : Platform) (w : World) (cs : ConsensusState) (bounded : IsBounded w) where
  -- Where no page behind the first `page_bound` is full, fuel for one page more than lies before them
  -- gives the same run of the loop, result and state, as any more fuel: the fuel does not run out.
  pub outputs_from-enough :
      (pool : List Transaction) (more fuel offset : ℕ) (s : Daemon)
      → fuel ≤ more
      → w.page_bound * page_size ≤ offset + fuel * page_size
      → outputs_from p w cs pool (suc more) offset s ≡ outputs_from p w cs pool (suc fuel) offset s
  unfolding outputs_from machine
  outputs_from-enough pool more zero offset s m h =
      elim (Result-cases (w.unspent s.clock offset page_size)) [
        | inr (x, bad) ↦ rw bad refl
        | inl (answer, good) ↦ elim (Bool-cases (same_index answer.1 cs.index)) [
          | inr stale ↦ rw (good, stale) refl
          | inl current ↦ elim (Bool-cases (ltb (length answer.0) page_size)) [
            | inl short ↦ rw (good, current, short) refl
            | inr full ↦ absurd (
                omega (
                  arith,
                  bounded s.clock offset answer.0 answer.1 (omega arith) good,
                  ltb_false→le _ _ full,
                ))
          ]
        ]
      ]
  outputs_from-enough pool zero (suc fuel) offset s m h = absurd (omega arith)
  outputs_from-enough pool (suc more) (suc fuel) offset s m h =
      elim (Result-cases (w.unspent s.clock offset page_size)) [
        | inr (x, bad) ↦ rw bad refl
        | inl (answer, good) ↦ elim (Bool-cases (same_index answer.1 cs.index)) [
          | inr stale ↦ rw (good, stale) refl
          | inl current ↦ elim (Bool-cases (ltb (length answer.0) page_size)) [
            | inl short ↦ rw (good, current, short) refl
            | inr full ↦
                let rest =
                  outputs_from-enough pool more fuel (offset + page_size) (tick s) (omega arith)
                    (omega arith) in
                rw (good, current, full)
                  (ap
                    (λ r.
                      ◌>>=◌ (λ (_ : Daemon). r)
                        (λ found. pure (keep (is_spendable p cs pool) answer.0 ++ found)) (tick s))
                    rest)
          ]
        ]
      ]
