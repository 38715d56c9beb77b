-- ===== src/Daemon/Swap/Spend.antt =====
-- internal/daemon/swap.go: the claim and the refund of an output of a contract.
use qday_walletd.Common.{
  ℕ, zero, suc, ◌+◌, String, str_append, Bool, true, false, not, ◌&&◌, Option, none, some, List, [],
  ◌∷◌, find_first, length, ltb, leb, ◌==◌, str_eq, decimal, trim_space, if◌then◌else◌,
}
use qday_walletd.Types.{
  Platform, QdayKeys, QdayPrivateKeys, AtomicSwap, SiacoinElement, SiacoinInput, Transaction,
  ChainIndex, ConsensusState, Currency, Error, Result, ok, err, failure, same_index, same_keys,
  unsigned, other, sub,
}
use qday_walletd.Derive.{swap_keys}
use qday_walletd.Meta.Swaps.{SwapKey, Swap, swap_contract, swap_key, swap}
use qday_walletd.Meta.Actions.{SwapAction, swap_action}
use qday_walletd.Daemon.Machine.{
  World, Action, pure, fail, lift, ask, ask_result, query, ◌>>=◌, ◌>>◌, require, check_none,
}
use qday_walletd.Daemon.Inputs.{default_fee}
use qday_walletd.Daemon.Chain.{network_synced}
use qday_walletd.Daemon.Outputs.{page_size, is_spent}
use qday_walletd.Daemon.Wallet.{master_seed, new_address}
use qday_walletd.Daemon.Swap.Keys.{parse_hash, hash_text}
use qday_walletd.Daemon.Swap.Spends.{last_preimage}
use qday_walletd.Daemon.Swap.Action.{SwapActionView, swap_action_view}
use qday_walletd.Daemon.Swap.Fund.{known_swap, activation_text, record_action}

-- The two kinds of a spend.
pub data SpendSide : Type 0 where
  claiming refunding : SpendSide

abbrev pub kind_text : SpendSide → String
kind_text claiming = "claim"
kind_text refunding = "refund"

pub record SpendSwapRequest : Type 0 where
  pub output_id : String
  pub fee_atomic : String
  pub secret : String

abbrev shown_preimage : Option ℕ → String
shown_preimage none = ""
shown_preimage (some preimage) = hash_text preimage

-- `storedClaimSecret`
abbrev pub stored_claim_secret : List SiacoinInput → String
stored_claim_secret (input ∷ []) = shown_preimage (last_preimage input.satisfied_policy.preimages)
stored_claim_secret _ = ""

-- The secret of a claim; a refund must not have one.
abbrev pub asked_secret : SpendSide → String → Result ℕ
asked_secret claiming secret = parse_hash "secret" secret
asked_secret refunding secret =
    if str_eq secret "" then ok 0 else err (failure "refund request must not contain a secret")

-- Whether the role is the one that may do it, and the error if not.
abbrev pub may_spend : SpendSide → String → Bool
may_spend claiming role = str_eq role "recipient"
may_spend refunding role = str_eq role "refund"

abbrev pub not_our_role : SpendSide → Error
not_our_role claiming = failure "this daemon is not the swap recipient"
not_our_role refunding = failure "this daemon is not the swap refund owner"

abbrev pub is_unlocked : SpendSide → ℕ → ℕ → Bool
is_unlocked claiming height refund_height = true
is_unlocked refunding height refund_height = leb refund_height height

-- The action at hand is the one that was asked for.
abbrev pub is_same_spend : SpendSide → SwapAction → Currency → String → Bool
is_same_spend claiming a fee secret =
    a.fee == fee && str_eq (stored_claim_secret a.transaction.inputs) secret
is_same_spend refunding a fee secret = a.fee == fee

-- The zero value of keys stands for a session that is missing.
abbrev pub public_or_zero : Option SwapKey → QdayKeys
public_or_zero none = record { classical = 0; reserve = 0 }
public_or_zero (some k) = k.public

abbrev pub spend_transaction : Platform → SiacoinElement → Currency → ℕ → Currency → Transaction
spend_transaction p parent value destination fee = record {
  inputs = record { parent = parent; satisfied_policy = unsigned (other 0) } ∷ [];
  outputs = record { value = value; address = destination } ∷ [];
  miner_fee = fee;
  arbitrary_data = p.transfer_envelope 0;
}

abbrev pub spend_action :
    String
    → SpendSide
    → String
    → ℕ
    → Currency
    → Currency
    → Transaction
    → ChainIndex
    → ℕ
    → SwapAction
spend_action swap_id side output_id destination value fee txn basis now = record {
  action_id =
      str_append swap_id (str_append ":" (str_append (kind_text side) (str_append ":" output_id)));
  swap_id = swap_id;
  kind = kind_text side;
  output_id = output_id;
  transaction = txn;
  basis = basis;
  confirmed = none;
  destination = destination;
  amount = value;
  fee = fee;
  created_at = now;
  last_error = "";
}

-- An output of the page, or what is done without one.
abbrev pub found_or : Action SiacoinElement → Option SiacoinElement → Action SiacoinElement
found_or onward (some output) = pure output
found_or onward none = onward

module _ (w : World) (s : Swap) (id : ℕ) (cs : ConsensusState) where
  -- The loop over the pages of outputs; `fuel` bounds the pages that are read.
  unfoldable pub output_from : ℕ → ℕ → Action SiacoinElement
  output_from zero offset = fail (failure "out of fuel")
  output_from (suc fuel) offset = do
    answer ← ask_result (λ t. w.address_outputs t s.address offset page_size)
    require (same_index answer.1 cs.index) (failure "wallet index is synchronizing")
    let missing = fail (failure "atomic-swap output is not confirmed and unspent")
    let more = output_from fuel (offset + page_size)
    found_or (if ltb (length answer.0) page_size then missing else more)
        (find_first (λ (e : SiacoinElement). e.id == id) answer.0)

  -- `findSwapOutput`
  unfoldable pub find_swap_output : Action SiacoinElement
  unfolding output_from
  find_swap_output = do
    pool ← ask w.pool
    require (not (is_spent pool id))
        (failure "atomic-swap output is already spent by a mempool transaction")
    output_from (suc w.page_bound) 0

module _ (p : Platform) (w : World) where
  -- `SignAtomicSwapClaim` and `SignAtomicSwapRefund`
  abbrev pub sign_spend :
      SpendSide
      → ConsensusState
      → Transaction
      → AtomicSwap
      → QdayPrivateKeys
      → ℕ
      → Action Transaction
  sign_spend claiming cs txn contract keys secret =
      ask_result (λ t. w.sign_claim t cs txn contract keys secret)
  sign_spend refunding cs txn contract keys secret =
      ask_result (λ t. w.sign_refund t cs txn contract keys)

  -- From the choice of the output to the signed transaction, its destination and its value.
  unfoldable pub build_spend :
      ConsensusState
      → SpendSide
      → ℕ
      → Currency
      → ℕ
      → Swap
      → QdayPrivateKeys
      → Action (Transaction × (ℕ × Currency))
  build_spend cs side id fee secret s keys = do
    parent ← find_swap_output w s id cs
    require (leb parent.maturity_height (cs.index.height + 1))
        (failure "atomic-swap output is not mature")
    let value = p.qday_value cs parent (cs.index.height + 1)
    require (ltb fee value) (failure "atomic-swap output does not cover the fee")
    destination ← new_address p w "" "change"
    paid ← lift (sub value fee)
    txn ←
        sign_spend side cs (spend_transaction p parent paid destination.address fee)
          (swap_contract s) keys secret
    tip ← ask w.tip
    require (same_index tip cs.index) (failure "chain changed while signing; retry")
    check_none (p.validate cs txn)
    pure (txn, (destination.address, paid))

  -- The part of `spendSwap` behind the lookup of the action; the flag says "created".
  unfoldable pub spend :
      String
      → SpendSide
      → SpendSwapRequest
      → ℕ
      → Currency
      → ℕ
      → Swap
      → Option SwapAction
      → Action (SwapActionView × Bool)
  spend swap_id side request id fee secret s (some existing) = do
    require (is_same_spend side existing fee request.secret)
        (failure "this output action is already bound to different parameters")
    view ← swap_action_view p w existing
    pure (view, false)
  spend swap_id side request id fee secret s none = do
    master ← master_seed
    keys ← lift (swap_keys p master swap_id)
    session ← query w (swap_key p swap_id)
    require (same_keys keys.public (public_or_zero session))
        (failure "derived swap key does not match the persistent session")
    synced ← network_synced w
    require synced (failure "QDAY node has no synchronized peer")
    cs ← ask w.tip_state
    scan ← ask_result w.wallet_tip
    require (same_index scan cs.index) (failure "wallet index is synchronizing")
    require (p.v1_active cs (cs.index.height + 1)) (failure (activation_text cs.v1_height))
    require (is_unlocked side cs.index.height s.refund_height)
        (failure (str_append "refund is locked until height " (decimal s.refund_height)))
    built ← build_spend cs side id fee secret s keys
    now ← ask w.now
    record_action p w
        (spend_action swap_id side (p.id_string id) built.1.0 built.1.1 fee built.0 cs.index now)

  abbrev pub read_id : Result ℕ → Action ℕ
  read_id (ok id) = pure id
  read_id (err e) = fail (failure "outputID must be a 32-byte hexadecimal siacoin output ID")

  -- `spendSwap`
  unfoldable pub spend_swap : String → SpendSide → SpendSwapRequest → Action (SwapActionView × Bool)
  unfolding trim_space decimal
  spend_swap swap_id side request = do
    id ← read_id (p.parse_output_id (trim_space request.output_id))
    fee ← lift (default_fee p request.fee_atomic)
    secret ← lift (asked_secret side request.secret)
    found ← query w (swap p swap_id)
    s ← known_swap found
    require (may_spend side s.role) (not_our_role side)
    existing ← query w (swap_action p swap_id (kind_text side) (p.id_string id))
    spend swap_id side request id fee secret s existing

  -- `ClaimSwap`
  abbrev pub claim_swap : String → SpendSwapRequest → Action (SwapActionView × Bool)
  claim_swap swap_id request = spend_swap swap_id claiming request

  -- `RefundSwap`
  abbrev pub refund_swap : String → SpendSwapRequest → Action (SwapActionView × Bool)
  refund_swap swap_id request = spend_swap swap_id refunding request
