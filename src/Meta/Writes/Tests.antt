-- ===== src/Meta/Writes/Tests.antt =====
-- An action that is recorded, confirmed, and asked for again.
use qday_walletd.Common.{◌≢◌, refl, some}
use qday_walletd.Types.{ok, ChainIndex}
use qday_walletd.Sample.{platform}
use qday_walletd.Meta.Tables.{Db}
use qday_walletd.Meta.Actions.{add_swap_action, set_swap_action_confirmation}
use qday_walletd.Meta.Actions.Updates.{confirm_action_row}
use qday_walletd.Meta.Actions.Tests.{funding, before, after, add_funding}
use qday_walletd.Meta.Transactions.{update_rows}
use qday_walletd.Meta.Actions.{has_action_id}
use qday_walletd.Meta.Writes.{Writes, none_made, then_write, action_confirmed}
use qday_walletd.Meta.Writes.Once.{add_swap_action-once}

abbrev block : ChainIndex
block = record { height = 14; id = 6 }

abbrev later : Db
later = record after {
  swap_actions =
      update_rows (has_action_id "swap-1:fund") (confirm_action_row (some block))
        after.swap_actions;
}

in_between : Writes platform after later
unfolding set_swap_action_confirmation
in_between = then_write none_made (action_confirmed "swap-1:fund" (some block) refl)

add_swap_action-once_example :
    add_swap_action platform (record funding { action_id = "other" }) later ≢ ok later
add_swap_action-once_example =
    add_swap_action-once platform funding (record funding { action_id = "other" }) before after
      later later add_funding in_between refl refl refl
