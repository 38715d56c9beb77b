-- ===== src/Daemon/Defend/Journaled.antt =====
-- What the automatic DEFEND submits is on disk before it is submitted.
use qday_walletd.Common.{inl, List, [], ◌∷◌}
use qday_walletd.Types.{Platform, SiacoinElement, ConsensusState, Currency, ok}
use qday_walletd.Meta.Withdrawals.{Withdrawal, add_withdrawal}
use qday_walletd.Daemon.Machine.{World, Daemon, attempt, statement, ◌>>=◌}
use qday_walletd.Daemon.Ends.{Yields-attempt_statement}
use qday_walletd.Daemon.Journaled.{
  AllJournaled, IsOnDisk, timeless, about, inserted_withdrawal, add_pool_settles,
}
use qday_walletd.Daemon.Invariant.{
  Preserves, Settles, IsTimeless, IsAboutSubmissions, Settles-bind, Settles-go, Settles-after,
  Settles-after_then, Preserves-require, Preserves-gets, Preserves-ask_result, Settles-attempt,
  Settles-preserves, Preserves-pure, Preserves-ask, Preserves-statement, preserves_rules,
}
use qday_walletd.Daemon.Chain.Kept.{network_synced-Preserves}
use qday_walletd.Daemon.Outputs.Preserved.{spendable_outputs-Preserves}
use qday_walletd.Daemon.Wallet.Preserved.{master_seed-Preserves, new_address-Preserves}
use qday_walletd.Daemon.Transfer.{Coin}
use qday_walletd.Daemon.Transfer.Preserved.{
  known_owner-Preserves, perform_defend_work-Preserves, sign_inputs-Preserves,
}
use qday_walletd.Daemon.Withdraw.Journaled.{broadcast_added-Preserves}
use qday_walletd.Daemon.Defend.{select, build_defend, submit_defend, auto_defend}

module _ (p : Platform) (w : World) (cs : ConsensusState) {I : Daemon → Type 0}
    (i : IsTimeless I) where
  select-Preserves :
      (outputs : List SiacoinElement) (coins : List Coin) (total : Currency)
      → Preserves I (select p w cs outputs coins total)
  unfolding select
  select-Preserves [] coins total = Preserves-pure _
  select-Preserves (o ∷ outputs) coins total =
      search (preserves_rules, i, known_owner-Preserves, select-Preserves outputs) depth 20

  build_defend-Preserves : IsAboutSubmissions I → Preserves I (build_defend p w cs)
  unfolding build_defend
  build_defend-Preserves j =
      search
        (
          preserves_rules, i, j, master_seed-Preserves, spendable_outputs-Preserves,
          select-Preserves, new_address-Preserves, perform_defend_work-Preserves,
          sign_inputs-Preserves,
        )
        depth 24

module _ (p : Platform) (w : World) where
  submit_settles :
      (r : Withdrawal) (s : Daemon)
      → AllJournaled p s
      → IsOnDisk p s.db r.basis (r.transaction ∷ [])
      → Settles (submit_defend p w r (ok tt)) s (AllJournaled p)
  unfolding submit_defend
  submit_settles r s h on_disk =
      let i = timeless p in
      let j = about p in
      Settles-go (Settles-attempt (add_pool_settles p w r.basis (r.transaction ∷ []) s h on_disk))
        (λ added.
          search (preserves_rules, broadcast_added-Preserves p w (IsOnDisk p), i, j) depth 20)

  store_settles :
      (r : Withdrawal) (s : Daemon)
      → AllJournaled p s
      → Settles
          (attempt (statement w (add_withdrawal p r)) >>= submit_defend p w r)
          s
          (AllJournaled p)
  unfolding submit_defend
  store_settles r s h =
      let i = timeless p in
      Settles-bind (Settles-attempt (Settles-preserves (Preserves-statement i (about p) w _) h)) (
        Yields-attempt_statement w (add_withdrawal p r)
          (λ db inserted. submit_settles r _ h (inl (inserted_withdrawal p r _ db inserted)))
          (λ e. Settles-preserves (search (preserves_rules, i)) h))

  -- Whatever the automatic DEFEND submits to the pool was in the journal on disk when it was submitted,
  -- however the call ends.
  pub auto_defend-AllJournaled :
      (s : Daemon) → AllJournaled p s → AllJournaled p (auto_defend p w s).1
  unfolding auto_defend
  auto_defend-AllJournaled s h =
      let i = timeless p in
      let j = about p in
      (Settles-after (Preserves-gets _) h λ opened t0 h0.
        Settles-after_then (Preserves-require _ _) h0 λ t1 h1.
          Settles-after (network_synced-Preserves w i) h1 λ synced t2 h2.
            Settles-after_then (Preserves-require _ _) h2 λ t3 h3.
              Settles-after (Preserves-ask i _) h3 λ held t4 h4.
                Settles-after_then (Preserves-require _ _) h4 λ t5 h5.
                  Settles-after (Preserves-ask i _) h5 λ cs t6 h6.
                    Settles-after_then (Preserves-require _ _) h6 λ t7 h7.
                      Settles-after (Preserves-ask_result i _) h7 λ scan t8 h8.
                        Settles-after_then (Preserves-require _ _) h8 λ t9 h9.
                          Settles-after (build_defend-Preserves p w cs i j) h9 λ built ta ha.
                            Settles-after (Preserves-ask i _) ha
                              λ now tb hb. store_settles _ tb hb).final
