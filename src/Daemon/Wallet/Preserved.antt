-- ===== src/Daemon/Wallet/Preserved.antt =====
-- Allocating an address submits nothing.
use qday_walletd.Common.{String, Option, none, some, Bytes}
use qday_walletd.Types.{Platform}
use qday_walletd.Daemon.Machine.{World, Daemon}
use qday_walletd.Daemon.Invariant.{
  Preserves, IsTimeless, IsAboutSubmissions, Preserves-pure, Preserves-fail, preserves_rules,
}
use qday_walletd.Daemon.Wallet.{master_seed, seed_or_locked, register_address, new_address}

module _ {I : Daemon → Type 0} where
  seed_or_locked-Preserves : (m : Option Bytes) → Preserves I (seed_or_locked m)
  seed_or_locked-Preserves none = Preserves-fail _
  seed_or_locked-Preserves (some m) = Preserves-pure _

  pub master_seed-Preserves : Preserves I master_seed
  unfolding master_seed
  master_seed-Preserves = search (preserves_rules, seed_or_locked-Preserves)

module _ (p : Platform) (w : World) {I : Daemon → Type 0} (i : IsTimeless I) where
  pub new_address-Preserves :
      IsAboutSubmissions I
      → (reference kind : String) → Preserves I (new_address p w reference kind)
  unfolding new_address register_address
  new_address-Preserves j reference kind =
      search (preserves_rules, i, j, master_seed-Preserves) depth 20
