-- ===== src/Daemon/Swap/Revealed.antt =====
-- What the daemon concludes of the outputs of a contract from the events: sound stages, and secrets that
-- open the hash lock.
use qday_walletd.Common.{
  ℕ, String, ◌≡◌, ◌⊎◌, inl, inr, refl, Bool, true, false, ◌&&◌, Option, none, some, List, ◌==◌,
  ==_iff, Bool-cases,
}
use qday_walletd.Types.{
  Platform, Policy, threshold, opaque, hash_lock, above, other, AtomicSwap, SiacoinInput, Result,
  ok, err,
}
use qday_walletd.Meta.Swaps.{Swap}
use qday_walletd.Daemon.Swap.Keys.{hash_text}
use qday_walletd.Daemon.Swap.Spends.{
  SpendKind, unknown, claim, refund, count, last_shown, policy_at, last_preimage, opening,
  lock_kind, branch_kind, policy_kind, spend_of, classify_swap_spend,
}
use qday_walletd.Daemon.Swap.Observe.{Observed, pending_status, final_status}

module _ (p : Platform) (hash : ℕ) where
  -- The secret shown for a spend: only a claim shows one, and it opens the lock.
  abbrev pub Opens : SpendKind → String → Type 0
  Opens claim secret =
      (secret ≡ "") ⊎ ((preimage : ℕ) × (p.sha256 preimage ≡ hash) × (secret ≡ hash_text preimage))
  Opens refund secret = secret ≡ ""
  Opens unknown secret = secret ≡ ""

module _ (p : Platform) (c : AtomicSwap) where
  opening-Opens : (preimage : Option ℕ) → Opens p c.secret_hash claim (opening p c preimage)
  opening-Opens none = inl refl
  opening-Opens (some x) = elim (Bool-cases (p.sha256 x == c.secret_hash)) [
    | inl fits ↦ rw fits (inr (x, (==_iff (p.sha256 x) c.secret_hash).0 fits, refl))
    | inr fails ↦ rw fails (inl refl)
  ]

  lock_kind-Opens :
      (preimages : List ℕ) (q : Option Policy)
      → Opens p c.secret_hash (lock_kind p c preimages q).0 (lock_kind p c preimages q).1
  unfolding lock_kind
  lock_kind-Opens preimages (some (hash_lock lock)) = elim (Bool-cases (lock == c.secret_hash)) [
    | inl same ↦ rw same (opening-Opens (last_preimage preimages))
    | inr strange ↦ rw strange refl
  ]
  lock_kind-Opens preimages (some (above lock)) = elim (Bool-cases (lock == c.refund_height)) [
    | inl same ↦ rw same refl
    | inr strange ↦ rw strange refl
  ]
  lock_kind-Opens preimages none = refl
  lock_kind-Opens preimages (some (threshold n of)) = refl
  lock_kind-Opens preimages (some (opaque n)) = refl
  lock_kind-Opens preimages (some (other n)) = refl

  branch_kind-Opens :
      (preimages : List ℕ) (q : Option Policy)
      → Opens p c.secret_hash (branch_kind p c preimages q).0 (branch_kind p c preimages q).1
  unfolding branch_kind
  branch_kind-Opens preimages (some (threshold n of)) =
      elim (Bool-cases (n == 3 && count of == 3)) [
        | inl shaped ↦ rw shaped (lock_kind-Opens preimages (policy_at 2 of))
        | inr strange ↦ rw strange refl
      ]
  branch_kind-Opens preimages none = refl
  branch_kind-Opens preimages (some (hash_lock n)) = refl
  branch_kind-Opens preimages (some (above n)) = refl
  branch_kind-Opens preimages (some (opaque n)) = refl
  branch_kind-Opens preimages (some (other n)) = refl

  policy_kind-Opens :
      (preimages : List ℕ) (q : Policy)
      → Opens p c.secret_hash (policy_kind p c preimages q).0 (policy_kind p c preimages q).1
  unfolding policy_kind
  policy_kind-Opens preimages (threshold n of) = elim (Bool-cases (n == 1 && count of == 2)) [
    | inl shaped ↦ rw shaped (branch_kind-Opens preimages (last_shown none of))
    | inr strange ↦ rw strange refl
  ]
  policy_kind-Opens preimages (hash_lock n) = refl
  policy_kind-Opens preimages (above n) = refl
  policy_kind-Opens preimages (opaque n) = refl
  policy_kind-Opens preimages (other n) = refl

  pub classify_swap_spend-Opens :
      (input : SiacoinInput)
      → Opens p c.secret_hash (classify_swap_spend p c input).0 (classify_swap_spend p c input).1
  unfolding classify_swap_spend spend_of
  classify_swap_spend-Opens input = from (p.contract_policy c)
    where
      from :
          (r : Result Policy)
          → Opens p c.secret_hash (spend_of p c input r).0 (spend_of p c input r).1
      from (err e) = refl
      from (ok full) =
          elim (Bool-cases (
            p.policy_address input.satisfied_policy.policy == p.policy_address full
            && p.is_swap_spend_policy input.satisfied_policy.policy)) [
              | inl ours ↦
                  rw ours (
                    policy_kind-Opens input.satisfied_policy.preimages
                      input.satisfied_policy.policy)
              | inr strange ↦ rw strange refl
            ]

-- The status of an output that is not spent, and of one that is.
abbrev pub open_status : Bool → String
open_status true = "funded"
open_status false = "funding"

abbrev pub spent_status : SpendKind → Option ℕ → String
spent_status kind none = pending_status kind
spent_status kind (some height) = final_status kind

-- An output is open, funded just if that is confirmed, and shows no spend; or it is spent, by a
-- transaction of one kind, which is final just if it is in a block, and shows a secret only if that
-- opens the lock.
abbrev pub IsSound : Platform → Swap → Observed → Type 0
IsSound p s o =
    ((o.spent ≡ false)
      × (o.view.status ≡ open_status o.confirmed)
      × (o.view.spend_height ≡ none)
      × (o.view.revealed_secret ≡ ""))
    ⊎ ((o.spent ≡ true)
        × ((kind : SpendKind) × (o.view.status ≡ spent_status kind o.view.spend_height)
            × Opens p s.secret_hash kind o.view.revealed_secret))
