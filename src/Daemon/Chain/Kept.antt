-- ===== src/Daemon/Chain/Kept.antt =====
-- Talking to the network changes no table, and submits nothing to the pool.
use qday_walletd.Common.{Option, none, some, List}
use qday_walletd.Types.{ChainIndex, Transaction}
use qday_walletd.Meta.Tables.{Db}
use qday_walletd.Daemon.Machine.{World, Daemon, Peer}
use qday_walletd.Daemon.Preserves.{Keeps, Keeps-pure, keeps_rules}
use qday_walletd.Daemon.Invariant.{
  Preserves, IsTimeless, IsAboutSubmissions, Preserves-then, Preserves-pure, Preserves-emit,
  preserves_rules,
}
use qday_walletd.Daemon.Chain.{announce_by, broadcast, network_synced}

module _ (w : World) {Q : Db → Type 0} where
  announce_by-Keeps :
      (basis : ChainIndex) (txns : List Transaction) (o : Option (List Peer))
      → Keeps Q (announce_by w basis txns o)
  unfolding announce_by
  announce_by-Keeps basis txns none = Keeps-pure _
  announce_by-Keeps basis txns (some peers) = search keeps_rules

  pub broadcast-Keeps :
      (basis : ChainIndex) (txns : List Transaction) → Keeps Q (broadcast w basis txns)
  unfolding broadcast
  broadcast-Keeps basis txns = search (keeps_rules, announce_by-Keeps)

module _ (w : World) {I : Daemon → Type 0} (i : IsTimeless I) where
  pub network_synced-Preserves : Preserves I (network_synced w)
  unfolding network_synced
  network_synced-Preserves = search (preserves_rules, i)

  announce_by-Preserves :
      IsAboutSubmissions I
      → (basis : ChainIndex) (txns : List Transaction) (o : Option (List Peer))
      → Preserves I (announce_by w basis txns o)
  unfolding announce_by
  announce_by-Preserves j basis txns none = Preserves-pure _
  announce_by-Preserves j basis txns (some peers) =
      Preserves-then _ _ (Preserves-emit _ (λ s h. j.with_announce s basis txns h))
        (search (preserves_rules, i))

  pub broadcast-Preserves :
      IsAboutSubmissions I
      → (basis : ChainIndex) (txns : List Transaction) → Preserves I (broadcast w basis txns)
  unfolding broadcast
  broadcast-Preserves j basis txns = search (preserves_rules, i, announce_by-Preserves, j)
