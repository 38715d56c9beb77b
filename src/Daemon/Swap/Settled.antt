-- ===== src/Daemon/Swap/Settled.antt =====
-- internal/daemon/swap.go, `aggregateSwapStatus`: when the status of a swap as a whole is settled.
use qday_walletd.Common.{
  String, ◌≡◌, ◌≢◌, ◌∙◌, ◌↔◌, ◌⊎◌, inl, inr, refl, Bool, true, false, ◌||◌, List, [], ◌∷◌, arith,
  str_eq, eq_iff, any, Bool-cases, if◌then◌else◌,
}
use qday_walletd.Daemon.Swap.Action.{SwapActionView}
use qday_walletd.Daemon.Swap.Observe.{SwapOutputView}
use qday_walletd.Daemon.Swap.View.{
  is_settled, is_unconfirmed_fund, next_status, output_status, aggregate_swap_status,
}

-- The two statuses of an output whose spend is in a block.
abbrev pub IsFinal : String → Type 0
IsFinal status = (status ≡ "claimed") ⊎ (status ≡ "refunded")

record IsOpen (status : String) : Type 0 where
  unclaimed : status ≢ "claimed"
  unrefunded : status ≢ "refunded"

-- The status of the first output, in the order of the list, that is claimed or refunded.
pub data FirstFinal (final : String) : List SwapOutputView → Type 0 where
  this :
      (o : SwapOutputView) (os : List SwapOutputView) → o.status ≡ final → FirstFinal final (o ∷ os)
  after :
      (o : SwapOutputView) (os : List SwapOutputView)
      → o.status ≢ "claimed"
      → o.status ≢ "refunded"
      → FirstFinal final os
      → FirstFinal final (o ∷ os)

is_settled-IsFinal : (status : String) → is_settled status ≡ true → IsFinal status
is_settled-IsFinal status h = elim (Bool-cases (str_eq status "claimed")) [
  | inl claimed ↦ inl ((eq_iff status "claimed").0 claimed)
  | inr other ↦ inr ((eq_iff status "refunded").0 (ground arith))
]

is_settled-IsOpen : (status : String) → is_settled status ≡ false → IsOpen status
is_settled-IsOpen status h = record {
  unclaimed = λ e. let same = (eq_iff status "claimed").1 e in absurd (ground arith);
  unrefunded = λ e. let same = (eq_iff status "refunded").1 e in absurd (ground arith);
}

if-IsOpen : (b : Bool) (u v : String) → IsOpen u → IsOpen v → IsOpen (if b then u else v)
if-IsOpen true u v hu hv = hu
if-IsOpen false u v hu hv = hv

next_status-IsOpen :
    (status seen : String) → IsOpen status → IsOpen seen → IsOpen (next_status status seen)
next_status-IsOpen status seen h k =
    let funded = is_settled-IsOpen "funded" refl in
    let funding = is_settled-IsOpen "funding" refl in
    if-IsOpen (str_eq seen "claiming" || str_eq seen "refunding") _ _ k (
      if-IsOpen (str_eq seen "funded") _ _
        (if-IsOpen (str_eq status "waiting" || str_eq status "funding") _ _ funded h)
        (if-IsOpen (str_eq seen "funding") _ _ (if-IsOpen (str_eq status "waiting") _ _ funding h)
          h))

not_final : {final status : String} → IsFinal final → IsOpen status → status ≢ final
not_final (inl claimed) h e = h.unclaimed (e ∙ claimed)
not_final (inr refunded) h e = h.unrefunded (e ∙ refunded)

nowhere : {final : String} → FirstFinal final [] → ⊥
nowhere found = elim found [ ]

first_of :
    {final : String} {o : SwapOutputView} {os : List SwapOutputView}
    → IsFinal o.status
    → FirstFinal final (o ∷ os)
    → o.status ≡ final
first_of h (this o os e) = e
first_of (inl claimed) (after o os c r later) = absurd (c claimed)
first_of (inr refunded) (after o os c r later) = absurd (r refunded)

behind :
    {final : String} {o : SwapOutputView} {os : List SwapOutputView}
    → IsFinal final
    → IsOpen o.status
    → FirstFinal final (o ∷ os)
    → FirstFinal final os
behind f h (this o os e) = absurd (not_final f h e)
behind f h (after o os c r later) = later

output_status-FirstFinal :
    (final status : String) (outputs : List SwapOutputView)
    → IsFinal final
    → IsOpen status
    → (output_status status outputs ≡ final) ↔ FirstFinal final outputs
unfolding output_status
output_status-FirstFinal final status [] f h =
    (λ e. absurd (not_final f h e), λ where_found. absurd (nowhere where_found))
output_status-FirstFinal final status (o ∷ outputs) f h = elim (Bool-cases (is_settled o.status)) [
  | inl done ↦
      rw done (λ e. this o outputs e, λ found. first_of (is_settled-IsFinal o.status done) found)
  | inr open_still ↦
      let still = is_settled-IsOpen o.status open_still in
      let onward =
        output_status-FirstFinal final (next_status status o.status) outputs f
          (next_status-IsOpen status o.status h still) in
      rw open_still (
        λ e. after o outputs still.unclaimed still.unrefunded (onward.0 e),
        λ found. onward.1 (behind f still found),
      )
]

-- A swap is shown as claimed, or as refunded, if and only if that is the status of the first of its
-- outputs, in their order, that is claimed or refunded.
pub aggregate_swap_status-FirstFinal :
    (final : String) (outputs : List SwapOutputView) (actions : List SwapActionView)
    → IsFinal final
    → (aggregate_swap_status outputs actions ≡ final) ↔ FirstFinal final outputs
unfolding aggregate_swap_status
aggregate_swap_status-FirstFinal final outputs actions f =
    output_status-FirstFinal final _ outputs f (
      if-IsOpen (any is_unconfirmed_fund actions) _ _ (is_settled-IsOpen "funding" refl)
        (is_settled-IsOpen "waiting" refl))
