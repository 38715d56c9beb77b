-- ===== src/Daemon/Deposits/Lookups.antt =====
-- internal/daemon/service.go, `depositEvents`: the lookups for one event, against the meaning of the event.
use qday_walletd.Common.{ℕ, suc, ◌≡◌, refl, Bool, List, [], ◌∷◌}
use qday_walletd.Types.{
  Platform, Transaction, SiacoinInput, SiacoinOutput, ConsensusState, Result, ok,
}
use qday_walletd.Meta.Tables.{Db}
use qday_walletd.Daemon.Machine.{
  World, Daemon, Event, EventData, transaction_data, payout_data, other_data,
}
use qday_walletd.Daemon.Steps.{
  Yields, Yields-bind, Yields-map, Yields-pure, Yields-query, Yields-if,
}
use qday_walletd.Daemon.Wallet.{is_some}
use qday_walletd.Daemon.Deposits.{is_internal, output_deposits, content_deposits, event_deposits}
use qday_walletd.Daemon.Deposits.Meaning.{spends_ours, paid_to_ours, content_meaning}

module _ (p : Platform) (w : World) (db : Db) where
  -- A result that the meaning gives, over an unchanged journal.
  abbrev Means : {A : Type 0} → Result A → A → Daemon → Type 0
  Means meaning a t = (meaning ≡ ok a) × (t.db ≡ db)

  Yields-is_internal :
      (inputs : List SiacoinInput) (s : Daemon)
      → s.db ≡ db
      → Yields (is_internal p w inputs) s (Means (spends_ours p db inputs))
  unfolding is_internal spends_ours
  Yields-is_internal [] s same = Yields-pure _ (refl, same)
  Yields-is_internal (input ∷ inputs) s same = Yields-bind (
      Yields-query _ _ λ owner looked.
        Yields-if (is_some owner)
          (λ ours. Yields-pure _ (rw ((rw same at looked), ours) refl, same))
          (λ strange.
            Yields-map (Yields-is_internal inputs _ same)
              λ b t h. (rw ((rw same at looked), strange) h.0, h.1)))

  Yields-output_deposits :
      (cs : ConsensusState) (event : Event) (txn : Transaction) (internal : Bool) (i : ℕ)
      (outputs : List SiacoinOutput) (s : Daemon)
      → s.db ≡ db
      → Yields
          (output_deposits p w cs event txn internal i outputs)
          s
          (Means (paid_to_ours p db cs event txn internal i outputs))
  unfolding output_deposits paid_to_ours
  Yields-output_deposits cs event txn internal i [] s same = Yields-pure _ (refl, same)
  Yields-output_deposits cs event txn internal i (output ∷ outputs) s same = Yields-bind (
      Yields-query _ _ λ owner looked. Yields-bind (
        Yields-map (Yields-output_deposits cs event txn internal (suc i) outputs _ same)
          λ rest t h. Yields-pure _ (rw ((rw same at looked), h.0) refl, h.1)))

  Yields-content_deposits :
      (cs : ConsensusState) (event : Event) (content : EventData) (s : Daemon)
      → s.db ≡ db
      → Yields
          (content_deposits p w cs event content)
          s
          (Means (content_meaning p db cs event content))
  unfolding content_deposits content_meaning
  Yields-content_deposits cs event (transaction_data txn) s same = Yields-bind (
      Yields-map (Yields-is_internal txn.inputs s same) λ internal t h.
        Yields-map (Yields-output_deposits cs event txn internal 0 txn.outputs t h.1)
          λ found u k. (rw h.0 k.0, k.1))
  Yields-content_deposits cs event (payout_data element) s same =
      Yields-bind
        (Yields-query _ _ λ owner looked. Yields-pure _ (rw (rw same at looked) refl, same))
  Yields-content_deposits cs event other_data s same = Yields-pure _ (refl, same)

  pub Yields-event_deposits :
      (cs : ConsensusState) (event : Event) (s : Daemon)
      → s.db ≡ db
      → Yields
          (event_deposits p w cs event)
          s
          (λ found t. (content_meaning p db cs event event.content ≡ ok found) × (t.db ≡ db))
  unfolding event_deposits
  Yields-event_deposits cs event s same = Yields-content_deposits cs event event.content s same
