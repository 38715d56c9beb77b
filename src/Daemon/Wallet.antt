-- ===== src/Daemon/Wallet.antt =====
-- internal/daemon/service.go: the lock state, and the allocation of addresses.
pub mod Allocation
pub mod Repeated
pub mod Preserved
pub mod Tests
use qday_walletd.Common.{
  ℕ, String, Bool, true, false, not, Option, none, some, List, map, Bytes, str_eq, if◌then◌else◌,
}
use qday_walletd.Types.{Platform, QdayKeys, Result, failure}
use qday_walletd.Derive.{keys}
use qday_walletd.Meta.Addresses.{
  Address, address_by_reference, addresses_page, address_count, next_index, add_address,
}
use qday_walletd.Meta.Tables.{Db}
use qday_walletd.Daemon.Machine.{
  Daemon, World, Action, custody, swaps, wake, pure, fail, lift, gets, ask, ask_result, query,
  ◌>>=◌, ◌>>◌, require, statement, emit, add_addresses,
}
use qday_walletd.Daemon.Inputs.{valid_reference}

pub record AddressView : Type 0 where
  pub index : ℕ
  pub address : String
  pub reference : String
  pub kind : String
  pub created_at : ℕ

abbrev pub is_some : {A : Type 0} → Option A → Bool
is_some none = false
is_some (some a) = true

-- `Unlocked`
unfoldable pub unlocked : Daemon → Bool
unlocked s = is_some s.master

abbrev pub set_master : Option Bytes → Action (Unit {0})
set_master master s = (Result.ok tt, record s { master = master })

-- `Lock`
unfoldable pub lock : Action (Unit {0})
lock = set_master none

-- `masterSeed`
abbrev seed_or_locked : Option Bytes → Action Bytes
seed_or_locked none = fail (failure "wallet is locked")
seed_or_locked (some master) = pure master

unfoldable pub master_seed : Action Bytes
master_seed = do master ← gets (λ s. s.master); seed_or_locked master

module _ (p : Platform) where
  abbrev pub view_address : Address → AddressView
  view_address a = record {
    index = a.index;
    address = p.address_string a.address;
    reference = a.reference;
    kind = a.kind;
    created_at = a.created_at;
  }

  abbrev pub address_record : ℕ → QdayKeys → String → String → ℕ → Address
  address_record index public reference kind now = record {
    index = index;
    address = p.keys_address public;
    public = public;
    reference = reference;
    kind = kind;
    created_at = now;
  }

module _ (p : Platform) (w : World) where
  -- `Unlock`
  unfoldable pub unlock : String → Action (Unit {0})
  unlock password = do
    seed ← ask_result (λ t. w.read_key t password)
    set_master (some seed)
    emit wake

  -- `Addresses`
  unfoldable pub addresses : ℕ → ℕ → Action (List AddressView × ℕ)
  addresses limit offset = do
    page ← query w (addresses_page p limit offset)
    count ← query w (λ db. Result.ok (address_count db))
    pure (map (view_address p) page, count)

  -- `registerAddress`
  unfoldable pub register_address : Address → Action (Unit {0})
  register_address a =
      add_addresses w custody (p.policy_address (p.keys_policy a.public)) a.reference

  -- `newAddress`
  unfoldable pub new_address : String → String → Action Address
  new_address reference kind = do
    master ← master_seed
    index ← query w (λ db. Result.ok (next_index db))
    pair ← lift (keys p master index)
    now ← ask w.now
    let a = address_record p index pair.public reference kind now
    statement w (add_address p a)
    register_address a
    pure a

  abbrev pub deposit_address : String → Option Address → Action AddressView
  deposit_address reference none = do a ← new_address reference "deposit"; pure (view_address p a)
  deposit_address reference (some existing) = do
    register_address existing
    pure (view_address p existing)

  -- `NewDepositAddress`
  unfoldable pub new_deposit_address : String → Action AddressView
  new_deposit_address reference = do
    require (valid_reference reference)
        (failure "reference must contain 1..128 printable ASCII characters")
    existing ← query w (address_by_reference p reference)
    deposit_address reference existing
