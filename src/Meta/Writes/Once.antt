-- ===== src/Meta/Writes/Once.antt =====
-- internal/meta/swap.go, `AddSwapAction`: an action is recorded once.
use qday_walletd.Common.{◌≡◌, ◌≢◌, false, any, arith}
use qday_walletd.Types.{Platform, ok}
use qday_walletd.Meta.Tables.{Db}
use qday_walletd.Meta.Actions.{SwapAction, is_action_of, add_swap_action}
use qday_walletd.Meta.Actions.RoundTrip.{add_swap_action-inv, add_swap_action-taken}
use qday_walletd.Meta.Writes.{Writes}
use qday_walletd.Meta.Writes.Kept.{Writes-HasActionOf}

-- After an accepted swap action, and after any statements of the store behind it, no action of the same
-- kind is accepted for the same output of the same swap.
pub add_swap_action-once :
    (p : Platform) (a b : SwapAction) (db db' later after : Db)
    → add_swap_action p a db ≡ ok db'
    → Writes p db' later
    → b.swap_id ≡ a.swap_id
    → b.kind ≡ a.kind
    → b.output_id ≡ a.output_id
    → add_swap_action p b later ≢ ok after
add_swap_action-once p a b db db' later after e between i k o again =
    let (raw, encoded, fresh, grown) = add_swap_action-inv p b later after again in
    let taken =
      Writes-HasActionOf p a.swap_id a.kind a.output_id between
        (add_swap_action-taken p a db db' e) in
    let free : any (is_action_of a.swap_id a.kind a.output_id) later.swap_actions ≡ false =
      rw (i, k, o) at fresh in
    absurd (ground arith)
