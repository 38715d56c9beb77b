-- ===== src/Daemon/Swap/Spends.antt =====
-- internal/daemon/swap.go: which branch of a contract a transaction took to spend an output.
use qday_walletd.Common.{
  ℕ, zero, suc, String, ◌&&◌, Option, none, some, List, [], ◌∷◌, ◌==◌, if◌then◌else◌,
}
use qday_walletd.Types.{
  Platform, Policy, Policies, threshold, opaque, hash_lock, above, other, nil, cons, AtomicSwap,
  SiacoinInput, Result, ok, err,
}
use qday_walletd.Daemon.Swap.Keys.{hash_text}

-- The kinds of `classifySwapSpend`.
pub data SpendKind : Type 0 where
  unknown claim refund : SpendKind

abbrev pub count : Policies → ℕ
count nil = 0
count (cons q qs) = suc (count qs)

-- The last policy that is not opaque, if there is one.
abbrev pub last_shown : Option Policy → Policies → Option Policy
last_shown branch nil = branch
last_shown branch (cons (opaque a) qs) = last_shown branch qs
last_shown branch (cons (threshold n of) qs) = last_shown (some (threshold n of)) qs
last_shown branch (cons (hash_lock h) qs) = last_shown (some (hash_lock h)) qs
last_shown branch (cons (above h) qs) = last_shown (some (above h)) qs
last_shown branch (cons (other n) qs) = last_shown (some (other n)) qs

-- The policy at a place that is known to exist.
abbrev pub policy_at : ℕ → Policies → Option Policy
policy_at n nil = none
policy_at zero (cons q qs) = some q
policy_at (suc n) (cons q qs) = policy_at n qs

abbrev pub last_preimage : List ℕ → Option ℕ
last_preimage [] = none
last_preimage (x ∷ []) = some x
last_preimage (x ∷ y ∷ ys) = last_preimage (y ∷ ys)

module _ (p : Platform) (contract : AtomicSwap) where
  -- The secret of a claim is shown only if it opens the hash lock.
  abbrev pub opening : Option ℕ → String
  opening none = ""
  opening (some preimage) =
      if p.sha256 preimage == contract.secret_hash then hash_text preimage else ""

  unfoldable pub lock_kind : List ℕ → Option Policy → SpendKind × String
  lock_kind preimages (some (hash_lock lock)) =
      if lock == contract.secret_hash
      then (claim, opening (last_preimage preimages))
      else (unknown, "")
  lock_kind preimages (some (above lock)) =
      if lock == contract.refund_height then (refund, "") else (unknown, "")
  lock_kind preimages _ = (unknown, "")

  unfoldable pub branch_kind : List ℕ → Option Policy → SpendKind × String
  unfolding lock_kind
  branch_kind preimages (some (threshold n of)) =
      if n == 3 && count of == 3 then lock_kind preimages (policy_at 2 of) else (unknown, "")
  branch_kind preimages _ = (unknown, "")

  unfoldable pub policy_kind : List ℕ → Policy → SpendKind × String
  unfolding branch_kind
  policy_kind preimages (threshold n of) =
      if n == 1 && count of == 2 then branch_kind preimages (last_shown none of) else (unknown, "")
  policy_kind preimages _ = (unknown, "")

  unfoldable pub spend_of : SiacoinInput → Result Policy → SpendKind × String
  unfolding policy_kind
  spend_of input (err e) = (unknown, "")
  spend_of input (ok full) =
      if p.policy_address input.satisfied_policy.policy == p.policy_address full
        && p.is_swap_spend_policy input.satisfied_policy.policy
      then policy_kind input.satisfied_policy.preimages input.satisfied_policy.policy
      else (unknown, "")

  -- `classifySwapSpend`
  unfoldable pub classify_swap_spend : SiacoinInput → SpendKind × String
  unfolding spend_of
  classify_swap_spend input = spend_of input (p.contract_policy contract)
