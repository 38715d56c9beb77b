-- ===== src/Types/Imports.antt =====
-- The records of the imported packages, and the functions that the daemon calls in them. None of
-- that code is in the repository (the submodule `qday` is empty): the functions are parameters.
use Prim.Native.Nat.{ℕ}
use Prim.Native.String.{String}
use mathlib.Core.Bool.{Bool, ◌&&◌}
use mathlib.Core.Option.{Option}
use mathlib.Core.List.{List, []}
use qday_walletd.Common.{Bytes, ◌==◌}
use qday_walletd.Types.Errors.{Error, Result}
use qday_walletd.Types.Amounts.{Currency}

-- `types.ChainIndex`
pub record ChainIndex : Type 0 where
  pub height : ℕ
  pub id : ℕ

-- `types.QdayKeys`: the public descriptor.
pub record QdayKeys : Type 0 where
  pub classical : ℕ
  pub reserve : ℕ

-- `types.QdayPrivateKeys`: its public part, and what signs.
pub record QdayPrivateKeys : Type 0 where
  pub public : QdayKeys
  pub secret : Bytes

-- `types.SpendPolicy`, with the kinds that `classifySwapSpend` tells apart.
mutual
  pub data Policy : Type 0 where
    threshold : ℕ → Policies → Policy
    opaque : ℕ → Policy
    hash_lock : ℕ → Policy
    above : ℕ → Policy
    other : ℕ → Policy

  pub data Policies : Type 0 where
    nil : Policies
    cons : Policy → Policies → Policies

-- `types.SatisfiedPolicy`
pub record SatisfiedPolicy : Type 0 where
  pub policy : Policy
  pub preimages : List ℕ
  pub signatures : List Bytes

-- `types.SiacoinOutput`
pub record SiacoinOutput : Type 0 where
  pub value : Currency
  pub address : ℕ

-- `types.SiacoinElement`, which `wallet.UnspentSiacoinElement` embeds.
pub record SiacoinElement : Type 0 where
  pub id : ℕ
  pub output : SiacoinOutput
  pub maturity_height : ℕ

-- `types.V2SiacoinInput`
pub record SiacoinInput : Type 0 where
  pub parent : SiacoinElement
  pub satisfied_policy : SatisfiedPolicy

-- `types.V2Transaction`
pub record Transaction : Type 0 where
  pub inputs : List SiacoinInput
  pub outputs : List SiacoinOutput
  pub miner_fee : Currency
  pub arbitrary_data : Bytes

-- `types.QdayAtomicSwap`
pub record AtomicSwap : Type 0 where
  pub recipient : QdayKeys
  pub refund : QdayKeys
  pub secret_hash : ℕ
  pub refund_height : ℕ

-- `consensus.State`, with the fields of its network that the daemon reads.
pub record ConsensusState : Type 0 where
  pub index : ChainIndex
  pub qday_height : ℕ
  pub shield_blocks : ℕ
  pub defend_bits : ℕ
  pub v1_height : ℕ

-- `==` on structs compares field by field.
abbrev pub same_index : ChainIndex → ChainIndex → Bool
same_index a b = a.height == b.height && a.id == b.id

abbrev pub same_keys : QdayKeys → QdayKeys → Bool
same_keys a b = a.classical == b.classical && a.reserve == b.reserve

-- `types.SatisfiedPolicy{Policy: p}`
abbrev pub unsigned : Policy → SatisfiedPolicy
unsigned p = record { policy = p; preimages = []; signatures = [] }

-- The functions of `types`, `consensus`, `qday` and `crypto/hmac`.
pub record Platform : Type 0 where
  pub parse_address : String → Result ℕ
  pub address_string : ℕ → String
  pub keys_bytes : QdayKeys → Bytes
  pub keys_validate : QdayKeys → Option Error
  pub keys_address : QdayKeys → ℕ
  pub keys_policy : QdayKeys → Policy
  pub policy_address : Policy → ℕ
  pub contract_address : AtomicSwap → Result ℕ
  pub contract_policy : AtomicSwap → Result Policy
  pub is_swap_spend_policy : Policy → Bool
  pub parse_currency : String → Result Currency
  pub exact_string : Currency → String
  pub format_amount : Currency → Currency → String
  pub hastings_per_siacoin : Currency
  pub encode_transaction : Transaction → Result Bytes
  pub decode_transaction : Bytes → Result Transaction
  pub transaction_id : Transaction → ℕ
  pub output_id : ℕ → ℕ → ℕ
  pub id_string : ℕ → String
  pub parse_output_id : String → Result ℕ
  pub index_string : ChainIndex → String
  pub sha256 : ℕ → ℕ
  pub hmac_sha512 : Bytes → Bytes → Bytes
  pub keys_from_seed : Bytes → Result QdayPrivateKeys
  pub sign : QdayPrivateKeys → ℕ → Result SatisfiedPolicy
  pub transfer_envelope : ℕ → Bytes
  pub envelope_nonce : Bytes → Result ℕ
  pub qday_value : ConsensusState → SiacoinElement → ℕ → Currency
  pub qday_units : ConsensusState → ℕ → Currency
  pub qday_active : ConsensusState → ℕ → Bool
  pub v1_active : ConsensusState → ℕ → Bool
  pub sig_hash : ConsensusState → Transaction → ℕ
  pub work_intent : ConsensusState → Transaction → ℕ
  pub work_valid : ℕ → ℕ → ℕ → Bool
  pub validate : ConsensusState → Transaction → Option Error
