-- ===== src/Daemon/Journaled.antt =====
-- internal/daemon: what it means that a submission to the pool is on disk, and the steps that keep it so.
use qday_walletd.Common.{
  ◌≡◌, refl, ◌⊎◌, inl, inr, List, [], ◌∷◌, Bytes, All, Elem, Elem-append_right,
}
use qday_walletd.Types.{Platform, Transaction, ChainIndex, ok}
use qday_walletd.Meta.Tables.{Db}
use qday_walletd.Meta.Withdrawals.{Withdrawal, withdrawal_row, add_withdrawal}
use qday_walletd.Meta.Withdrawals.RoundTrip.{add_withdrawal-inv}
use qday_walletd.Meta.Actions.{SwapAction, swap_action_row, add_swap_action}
use qday_walletd.Meta.Actions.RoundTrip.{add_swap_action-inv}
use qday_walletd.Daemon.Machine.{
  World, Daemon, Effect, watch, submit, announce, wake, add_pool, emit,
}
use qday_walletd.Daemon.Steps.{Yields-gets, Yields-emit}
use qday_walletd.Daemon.Invariant.{
  Settles, IsTimeless, IsAboutSubmissions, Settles-bind, Settles-then, Settles-preserves,
  Preserves-gets, preserves_rules,
}

module _ (OnDisk : Db → ChainIndex → List Transaction → Type 0) where
  -- What was submitted was on disk, in the given sense, when it was submitted.
  abbrev pub IsJournaled : Effect → Type 0
  IsJournaled (submit db basis txns) = OnDisk db basis txns
  IsJournaled (watch partition address description) = Unit
  IsJournaled (announce basis txns) = Unit
  IsJournaled wake = Unit

  abbrev pub AllSubmitted : Daemon → Type 0
  AllSubmitted s = All IsJournaled s.trace

  pub timeless_of : IsTimeless AllSubmitted
  timeless_of = record { at_tick = λ s h. h }

  pub about_of : IsAboutSubmissions AllSubmitted
  about_of = record {
    with_db = λ s db h. h;
    with_watch = λ s q a d h. (tt, h);
    with_announce = λ s i txns h. (tt, h);
  }

  pub submitted_settles :
      (w : World) (basis : ChainIndex) (txns : List Transaction) (s : Daemon)
      → AllSubmitted s
      → OnDisk s.db basis txns
      → Settles (add_pool w basis txns) s AllSubmitted
  unfolding add_pool emit
  submitted_settles w basis txns s h on_disk =
      let i = timeless_of in
      Settles-bind (Settles-preserves (Preserves-gets _) h) (
        Yields-gets _ (
          Settles-then (record { final = (on_disk, h) })
            (Yields-emit _ (Settles-preserves (search (preserves_rules, i)) (on_disk, h)))))

module _ (p : Platform) where
  -- The tables hold the row of a withdrawal with just this transaction and basis.
  pub record HasWithdrawal (db : Db) (basis : ChainIndex) (txns : List Transaction) : Type 0 where
    pub record_of : Withdrawal
    pub raw : Bytes
    pub alone : txns ≡ record_of.transaction ∷ []
    pub at : basis ≡ record_of.basis
    pub encoded : p.encode_transaction record_of.transaction ≡ ok raw
    pub row : Elem (withdrawal_row p raw record_of) db.withdrawals

  -- The tables hold the row of a swap action with just this transaction and basis.
  pub record HasAction (db : Db) (basis : ChainIndex) (txns : List Transaction) : Type 0 where
    pub record_of : SwapAction
    pub raw : Bytes
    pub alone : txns ≡ record_of.transaction ∷ []
    pub at : basis ≡ record_of.basis
    pub encoded : p.encode_transaction record_of.transaction ≡ ok raw
    pub row : Elem (swap_action_row p raw record_of) db.swap_actions

  abbrev pub IsOnDisk : Db → ChainIndex → List Transaction → Type 0
  IsOnDisk db basis txns = HasWithdrawal db basis txns ⊎ HasAction db basis txns

  abbrev pub AllJournaled : Daemon → Type 0
  AllJournaled = AllSubmitted IsOnDisk

  pub timeless : IsTimeless AllJournaled
  timeless = timeless_of IsOnDisk

  pub about : IsAboutSubmissions AllJournaled
  about = about_of IsOnDisk

  pub inserted_withdrawal :
      (r : Withdrawal) (db db' : Db)
      → add_withdrawal p r db ≡ ok db'
      → HasWithdrawal db' r.basis (r.transaction ∷ [])
  inserted_withdrawal r db db' e =
      let (raw, encoded, fresh, grown) = add_withdrawal-inv p r db db' e in
      record {
        record_of = r;
        raw = raw;
        alone = refl;
        at = refl;
        encoded = encoded;
        row = rw grown (Elem-append_right _ db.withdrawals _ (inl refl));
      }

  pub inserted_action :
      (a : SwapAction) (db db' : Db)
      → add_swap_action p a db ≡ ok db'
      → IsOnDisk db' a.basis (a.transaction ∷ [])
  inserted_action a db db' e =
      let (raw, encoded, fresh, grown) = add_swap_action-inv p a db db' e in
      inr (record {
        record_of = a;
        raw = raw;
        alone = refl;
        at = refl;
        encoded = encoded;
        row = rw grown (Elem-append_right _ db.swap_actions _ (inl refl));
      })

module _ (p : Platform) (w : World) where
  pub add_pool_settles :
      (basis : ChainIndex) (txns : List Transaction) (s : Daemon)
      → AllJournaled p s
      → IsOnDisk p s.db basis txns
      → Settles (add_pool w basis txns) s (AllJournaled p)
  add_pool_settles basis txns s h on_disk = submitted_settles (IsOnDisk p) w basis txns s h on_disk
