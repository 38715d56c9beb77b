-- ===== src/Daemon/Rebroadcast/Buried.antt =====
-- A transaction whose recorded block is still on the best chain is left alone.
use qday_walletd.Common.{ℕ, ◌≡◌, refl, true, ==_refl, some, List, [], ◌∷◌}
use qday_walletd.Types.{Platform, ChainIndex, Result, ok, err, same_index}
use qday_walletd.Meta.Tables.{Db}
use qday_walletd.Daemon.Machine.{
  World, Daemon, Event, statement, commit, unless_fault, tick, machine,
}
use qday_walletd.Daemon.Invariant.{
  Preserves, IsTimeless, Preserves-bind, Preserves-pure, Preserves-ask_result, Preserves-attempt,
  Preserves-if,
}
use qday_walletd.Daemon.Rebroadcast.{Entry, follow_unconfirmed, follow_events, follow}

same_index_refl : (i : ChainIndex) → same_index i i ≡ true
same_index_refl i = rw (==_refl i.height, ==_refl i.id) refl

module _ (w : World) (s : Daemon) where
  abbrev Silent : Daemon → Type 0
  Silent t = t.trace ≡ s.trace

  silent : IsTimeless Silent
  silent = record { at_tick = λ t h. h }

  statement-Preserves : (f : Db → Result Db) → Preserves Silent (statement w f)
  unfolding machine
  statement-Preserves f = record {
    run = λ t h. after (tick t) (unless_fault (w.db_fault t.clock) (f t.db)) h;
  }
    where
      after : (t : Daemon) (r : Result Db) → Silent t → Silent (commit r t).1
      after t (ok db) h = h
      after t (err e) h = h

module _ (p : Platform) (w : World) (tip : ChainIndex) (e : Entry) (c : ChainIndex)
    (s : Daemon) where
  follow_unconfirmed-Preserves :
      ((t : ℕ) → w.best_index t c.height ≡ some c)
      → Preserves (Silent w s) (follow_unconfirmed p w tip e (some c))
  unfolding follow_unconfirmed machine
  follow_unconfirmed-Preserves best = record { run = λ t h. rw (best t.clock, same_index_refl c) h }

  follow_events-Preserves :
      e.confirmed ≡ some c
      → ((t : ℕ) → w.best_index t c.height ≡ some c)
      → (r : Result (List Event)) → Preserves (Silent w s) (follow_events p w tip e r)
  unfolding follow_events
  follow_events-Preserves known best (err x) = Preserves-pure _
  follow_events-Preserves known best (ok []) = rw known (follow_unconfirmed-Preserves best)
  follow_events-Preserves known best (ok (event ∷ events)) = Preserves-if _ _ _ (Preserves-pure _) (
      Preserves-bind _ _ (Preserves-attempt _ (statement-Preserves w s _))
        (λ ignored. Preserves-pure _))

-- While the block in which a withdrawal or a swap action is recorded as confirmed stays on the best
-- chain, the loop neither submits nor announces it, also where the wallet index does not show it.
pub follow-trace :
    (p : Platform) (w : World) (tip : ChainIndex) (e : Entry) (c : ChainIndex) (s : Daemon)
    → e.confirmed ≡ some c
    → ((t : ℕ) → w.best_index t c.height ≡ some c)
    → (follow p w tip e s).1.trace ≡ s.trace
unfolding follow
follow-trace p w tip e c s known best =
    let i = silent w s in
    let quiet =
      Preserves-bind {I = λ t. t.trace ≡ s.trace} _ _
        (Preserves-attempt _ (Preserves-ask_result i _))
        (follow_events-Preserves p w tip e c s known best) in
    quiet.run s refl
