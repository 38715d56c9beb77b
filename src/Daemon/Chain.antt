-- ===== src/Daemon/Chain.antt =====
-- internal/daemon/node.go and service.go: whether the node is in touch with the network.
pub mod Kept
use qday_walletd.Common.{Bool, true, false, ◌&&◌, Option, none, some, List, any, if◌then◌else◌}
use qday_walletd.Types.{ChainIndex, Transaction}
use qday_walletd.Daemon.Machine.{
  World, Action, Peer, announce, pure, ask, ◌>>=◌, ◌>>◌, emit, check_none,
}

-- A node without a syncer has no peers to ask.
abbrev some_synced : Option (List Peer) → Bool
some_synced none = false
some_synced (some peers) = any (λ peer. peer.alive && peer.synced) peers

module _ (w : World) where
  -- `NetworkSynced`
  unfoldable pub network_synced : Action Bool
  network_synced =
      if w.development then pure true else do peers ← ask w.peers; pure (some_synced peers)

  announce_by : ChainIndex → List Transaction → Option (List Peer) → Action (Unit {0})
  announce_by basis txns none = pure tt
  announce_by basis txns (some peers) = do
    emit (announce basis txns)
    check_none (← ask w.broadcast)

  -- `broadcast`
  unfoldable pub broadcast : ChainIndex → List Transaction → Action (Unit {0})
  unfolding announce_by
  broadcast basis txns = do syncer ← ask w.peers; announce_by basis txns syncer
