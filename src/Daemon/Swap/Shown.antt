-- ===== src/Daemon/Swap/Shown.antt =====
-- What the client is shown of an action of a swap, whatever its status.
use qday_walletd.Common.{◌≡◌, refl, ◌==◌, str_eq, any, true, List, [], ◌∷◌, Bool-cases, inl, inr}
use qday_walletd.Types.{Platform, Transaction}
use qday_walletd.Meta.Actions.{SwapAction}
use qday_walletd.Daemon.Machine.{World, Daemon, Event}
use qday_walletd.Daemon.Steps.{
  Yields, Yields-bind, Yields-then, Yields-map, Yields-any, Yields-pure, Yields-ask,
  Yields-ask_result, Yields-statement, Yields-emit,
}
use qday_walletd.Daemon.Swap.Action.{
  SwapActionView, pooled_action_view, action_event_view, swap_action_view, submit_swap_action,
}
use qday_walletd.Daemon.Swap.Fund.{record_action}

-- A view shows the action's kind, output, transaction, destination and amounts.
abbrev pub ShowsAction : Platform → SwapAction → SwapActionView → Type 0
ShowsAction p a v =
    (v.action_id ≡ a.action_id)
    × (v.kind ≡ a.kind)
    × (v.output_id ≡ a.output_id)
    × (v.transaction_id ≡ p.id_string (p.transaction_id a.transaction))
    × (v.destination ≡ p.address_string a.destination)
    × (v.amount.atomic ≡ p.exact_string a.amount)
    × (v.fee.atomic ≡ p.exact_string a.fee)

module _ (p : Platform) (w : World) (a : SwapAction) where
  pooled_action_view-ShowsAction :
      (v : SwapActionView) (pool : List Transaction)
      → ShowsAction p a v
      → ShowsAction p a (pooled_action_view p a pool v)
  pooled_action_view-ShowsAction v pool h =
      elim (Bool-cases (any (λ t. p.transaction_id t == p.transaction_id a.transaction) pool)) [
        | inl pooled ↦ rw pooled h
        | inr gone ↦ elim (Bool-cases (str_eq a.last_error "")) [
          | inl fine ↦ rw (gone, fine) h
          | inr failed ↦ rw (gone, failed) h
        ]
      ]

  Yields-action_event_view :
      (v : SwapActionView) (events : List Event) (s : Daemon)
      → ShowsAction p a v
      → Yields (action_event_view p w a v events) s (λ u _. ShowsAction p a u)
  unfolding action_event_view
  Yields-action_event_view v [] s h =
      Yields-bind (Yields-ask _ (Yields-pure _ (pooled_action_view-ShowsAction v _ h)))
  Yields-action_event_view v (e ∷ events) s h = Yields-pure _ h

  pub Yields-swap_action_view :
      (s : Daemon) → Yields (swap_action_view p w a) s (λ v _. ShowsAction p a v)
  unfolding swap_action_view
  Yields-swap_action_view s = Yields-bind (
      Yields-ask _ (
        Yields-bind (
          Yields-ask_result _ λ events listed.
            Yields-action_event_view _ events _ (refl, refl, refl, refl, refl, refl, refl))))

module _ (p : Platform) (w : World) (a : SwapAction) where
  -- Only the error of the action changes in a submission.
  Yields-submit_swap_action :
      (s : Daemon)
      → Yields
          (submit_swap_action p w a)
          s
          (λ b _. (v : SwapActionView) → ShowsAction p b v → ShowsAction p a v)
  unfolding submit_swap_action
  Yields-submit_swap_action s = Yields-bind (
      Yields-map (Yields-any _) λ added t u. Yields-bind (
        Yields-map (Yields-any _) λ failed t u. Yields-bind (
          Yields-map (Yields-any _)
            λ ignored t u. Yields-then (Yields-emit _ (Yields-pure _ (λ v h. h))))))

  pub Yields-record_action :
      (s : Daemon) → Yields (record_action p w a) s (λ v _. ShowsAction p a v.0 × (v.1 ≡ true))
  unfolding record_action
  Yields-record_action s = Yields-then (
      Yields-statement _ _ λ db inserted. Yields-bind (
        Yields-map (Yields-submit_swap_action _) λ b t same.
          Yields-bind
            (Yields-map (Yields-swap_action_view p w b t) λ v t h. Yields-pure _ (same v h, refl))))
