-- ===== src/Daemon/Swap/Observe.antt =====
-- internal/daemon/swap.go: the outputs of a contract, as the events of its address tell of them.
use qday_walletd.Common.{
  ℕ, suc, String, Bool, true, false, not, ◌&&◌, ◌||◌, Option, none, some, List, [], ◌∷◌, find_first,
  ◌==◌, str_eq, if◌then◌else◌,
}
use qday_walletd.Types.{Platform, Transaction, SiacoinInput, SiacoinOutput}
use qday_walletd.Meta.Swaps.{Swap, swap_contract}
use qday_walletd.Daemon.Machine.{Event, EventData, transaction_data, payout_data, other_data}
use qday_walletd.Daemon.Withdraw.{Amount}
use qday_walletd.Daemon.Swap.Spends.{SpendKind, unknown, claim, refund, classify_swap_spend}

pub record SwapOutputView : Type 0 where
  pub id : String
  pub value : Amount
  pub spendable : Option Amount
  pub maturity_height : ℕ
  pub funding_transaction : String
  pub funding_height : Option ℕ
  pub confirmations : ℕ
  pub status : String
  pub spend_transaction : String
  pub spend_height : Option ℕ
  pub revealed_secret : String

-- `observedSwapOutput`
pub record Observed : Type 0 where
  pub view : SwapOutputView
  pub confirmed : Bool
  pub spent : Bool

-- The map of observed outputs, in the order in which they were put into it.
abbrev pub has_id : String → Observed → Bool
has_id id o = str_eq o.view.id id

abbrev pub lookup : String → List Observed → Option Observed
lookup id outputs = find_first (has_id id) outputs

abbrev pub put : Observed → List Observed → List Observed
put o [] = o ∷ []
put o (x ∷ xs) = if has_id o.view.id x then o ∷ xs else x ∷ put o xs

-- A view with all but these fields zero.
abbrev pub bare_view : String → String → SwapOutputView
bare_view id atomic = record {
  id = id;
  value = record { atomic = atomic; qday = "" };
  spendable = none;
  maturity_height = 0;
  funding_transaction = "";
  funding_height = none;
  confirmations = 0;
  status = "";
  spend_transaction = "";
  spend_height = none;
  revealed_secret = "";
}

abbrev pub funded_at : Bool → Event → SwapOutputView → SwapOutputView
funded_at true event v = record v { status = "funded"; funding_height = some event.index.height }
funded_at false event v = record v { status = "funding" }

-- A funding is recorded if the output is new, or was not confirmed and is now.
abbrev pub is_news : Bool → Option Observed → Bool
is_news confirmed none = true
is_news confirmed (some o) = confirmed && not o.confirmed

-- The status of a spend in the pool, and of one in a block.
abbrev pub pending_status : SpendKind → String
pending_status unknown = "spending"
pending_status claim = "claiming"
pending_status refund = "refunding"

abbrev pub final_status : SpendKind → String
final_status unknown = "spent"
final_status claim = "claimed"
final_status refund = "refunded"

abbrev pub spent_at : Bool → Event → SpendKind → SwapOutputView → SwapOutputView
spent_at true event kind v = record v {
  status = final_status kind;
  spend_height = some event.index.height;
}
spent_at false event kind v = record v { status = pending_status kind }

module _ (p : Platform) (s : Swap) (event : Event) (confirmed : Bool) (txn : Transaction) where
  abbrev pub funding : ℕ → SiacoinOutput → Observed
  funding i output = record {
    view =
        funded_at confirmed event
          (record (bare_view (p.id_string (p.output_id (p.transaction_id txn) i))
            (p.exact_string output.value)) {
              funding_transaction = p.id_string (p.transaction_id txn);
              maturity_height = event.maturity_height;
              confirmations = event.confirmations;
            });
    confirmed = confirmed;
    spent = false;
  }

  unfoldable pub observe_output : ℕ → SiacoinOutput → List Observed → List Observed
  observe_output i output m =
      if output.address == s.address && is_news confirmed (lookup (funding i output).view.id m)
      then put (funding i output) m
      else m

  unfoldable pub observe_outputs : ℕ → List SiacoinOutput → List Observed → List Observed
  unfolding observe_output
  observe_outputs i [] m = m
  observe_outputs i (output ∷ outputs) m =
      observe_outputs (suc i) outputs (observe_output i output m)

  -- The entry of a spent output; one that was not seen before is made up from the input.
  abbrev pub known_or_bare : SiacoinInput → Option Observed → Observed
  known_or_bare input (some o) = o
  known_or_bare input none = record {
    view = bare_view (p.id_string input.parent.id) (p.exact_string input.parent.output.value);
    confirmed = false;
    spent = false;
  }

  abbrev pub spending : SiacoinInput → Observed → Observed
  spending input o =
      let (kind, secret) = classify_swap_spend p (swap_contract s) input in
      record o {
        view = spent_at confirmed event kind (record o.view {
          spend_transaction = p.id_string (p.transaction_id txn);
          revealed_secret = secret;
        });
        spent = true;
      }

  -- A spend in the pool does not replace an earlier one.
  unfoldable pub observe_input : SiacoinInput → List Observed → List Observed
  unfolding classify_swap_spend
  observe_input input m =
      let o = known_or_bare input (lookup (p.id_string input.parent.id) m) in
      if not (input.parent.output.address == s.address) || o.spent && not confirmed
      then m
      else put (spending input o) m

  unfoldable pub observe_inputs : List SiacoinInput → List Observed → List Observed
  unfolding observe_input
  observe_inputs [] m = m
  observe_inputs (input ∷ inputs) m = observe_inputs inputs (observe_input input m)

module _ (p : Platform) (s : Swap) (confirmed : Bool) where
  unfoldable pub observe_content : Event → EventData → List Observed → List Observed
  unfolding observe_outputs observe_inputs
  observe_content event (transaction_data txn) m =
      observe_inputs p s event confirmed txn txn.inputs
        (observe_outputs p s event confirmed txn 0 txn.outputs m)
  observe_content event (payout_data element) m = m
  observe_content event other_data m = m

  -- `observeSwapTransaction`
  unfoldable pub observe_swap_transaction : Event → List Observed → List Observed
  unfolding observe_content
  observe_swap_transaction event m = observe_content event event.content m

  -- From the last event of the list to the first, and from the first to the last.
  unfoldable pub replay_back : List Event → List Observed → List Observed
  unfolding observe_swap_transaction
  replay_back [] m = m
  replay_back (event ∷ events) m = observe_swap_transaction event (replay_back events m)

  unfoldable pub replay : List Event → List Observed → List Observed
  unfolding observe_swap_transaction
  replay [] m = m
  replay (event ∷ events) m = replay events (observe_swap_transaction event m)
