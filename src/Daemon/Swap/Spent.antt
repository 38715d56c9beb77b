-- ===== src/Daemon/Swap/Spent.antt =====
-- The claim and the refund of an output: by whom, when, and to what effect.
use qday_walletd.Common.{
  str_eq, eq_iff, Bool-cases, inl, inr, ℕ, zero, suc, ◌+◌, ◌≤◌, ◌<◌, String, ◌≡◌, refl, sym, Bool,
  true, false, not, Option, none, some, List, [], ◌∷◌, arith, length, ltb, leb→le, ltb→lt, ◌==◌,
  ==_iff, find_first, find_first_hit, trim_space,
}
use qday_walletd.Types.{
  Platform, QdayPrivateKeys, AtomicSwap, SiacoinElement, Transaction, ConsensusState, Currency,
  Result, ok, err, sub-eq_ok,
}
use qday_walletd.Meta.Swaps.{Swap, swap}
use qday_walletd.Meta.Actions.{SwapAction}
use qday_walletd.Daemon.Machine.{World, Daemon, Action}
use qday_walletd.Daemon.Steps.{
  Yields, Yields-bind, Yields-then, Yields-map, Yields-any, Yields-pure, Yields-fail, Yields-lift,
  Yields-ask, Yields-ask_result, Yields-query, Yields-require, Yields-check_none, Yields-if,
}
use qday_walletd.Daemon.Inputs.{default_fee}
use qday_walletd.Daemon.Outputs.{page_size, is_spent}
use qday_walletd.Daemon.Transfer.Parts.{parents, SameCoins}
use qday_walletd.Daemon.Swap.Keys.{parse_hash}
use qday_walletd.Daemon.Swap.Action.{SwapActionView}
use qday_walletd.Daemon.Swap.Spend.{
  SpendSide, claiming, refunding, kind_text, SpendSwapRequest, asked_secret, may_spend, is_unlocked,
  spend_action, found_or, output_from, find_swap_output, sign_spend, build_spend, read_id, spend,
  spend_swap,
}
use qday_walletd.Daemon.Swap.Shown.{ShowsAction, Yields-record_action}
use qday_walletd.Daemon.Swap.Funded.{Yields-known_swap}

-- `SignAtomicSwapClaim` and `SignAtomicSwapRefund` set the policy of the input, and nothing else of
-- what the transaction spends and pays.
pub record SignsOnly (w : World) : Type 0 where
  pub claim :
      (t : ℕ) (cs : ConsensusState) (txn r : Transaction) (c : AtomicSwap) (k : QdayPrivateKeys)
      (secret : ℕ)
      → w.sign_claim t cs txn c k secret ≡ ok r
      → SameCoins txn r
  pub refund :
      (t : ℕ) (cs : ConsensusState) (txn r : Transaction) (c : AtomicSwap) (k : QdayPrivateKeys)
      → w.sign_refund t cs txn c k ≡ ok r
      → SameCoins txn r

-- A transaction that spends `parent`, to `destination`, at the fee: it may do so, and loses nothing
-- else.
pub record IsSpend (p : Platform) (w : World) (cs : ConsensusState) (id : ℕ) (fee : Currency)
    (txn : Transaction) (destination : ℕ) (value : Currency) : Type 0 where
  pub parent : SiacoinElement
  pub asked : parent.id ≡ id
  pub looked_at : ℕ
  pub free : is_spent (w.pool looked_at) id ≡ false
  pub mature : parent.maturity_height ≤ cs.index.height + 1
  pub spends : parents txn.inputs ≡ parent ∷ []
  pub pays : txn.outputs ≡ record { value = value; address = destination } ∷ []
  pub pays_fee : txn.miner_fee ≡ fee
  pub balanced : p.qday_value cs parent (cs.index.height + 1) ≡ value + fee
  pub worth : 0 < value
  pub valid : p.validate cs txn ≡ none

module _ (w : World) (c : Swap) (id : ℕ) (cs : ConsensusState) where
  Yields-found_or :
      (onward : Action SiacoinElement) (page : List SiacoinElement) (s : Daemon)
      → Yields onward s (λ e _. e.id ≡ id)
      → Yields
          (found_or onward (find_first (λ (e : SiacoinElement). e.id == id) page))
          s
          (λ e _. e.id ≡ id)
  Yields-found_or onward page s h = from (find_first (λ (e : SiacoinElement). e.id == id) page) refl
    where
      from :
          (found : Option SiacoinElement)
          → find_first (λ (e : SiacoinElement). e.id == id) page ≡ found
          → Yields (found_or onward found) s (λ e _. e.id ≡ id)
      from none e = h
      from (some o) e =
          Yields-pure o
            ((==_iff o.id id).0 (find_first_hit (λ (x : SiacoinElement). x.id == id) page o e))

  Yields-output_from :
      (fuel offset : ℕ) (s : Daemon)
      → Yields (output_from w c id cs fuel offset) s (λ e _. e.id ≡ id)
  unfolding output_from
  Yields-output_from zero offset s = Yields-fail _
  Yields-output_from (suc fuel) offset s = Yields-bind (
      Yields-ask_result _ λ answer asked. Yields-then (
        Yields-require _ _ λ current. Yields-found_or _ answer.0 _ (
          Yields-if (ltb (length answer.0) page_size) (λ last. Yields-fail _)
            (λ more. Yields-output_from fuel (offset + page_size) _))))

  Yields-find_swap_output :
      (s : Daemon)
      → Yields
          (find_swap_output w c id cs)
          s
          (λ e _. (e.id ≡ id) × (not (is_spent (w.pool s.clock) id) ≡ true))
  unfolding find_swap_output
  Yields-find_swap_output s = Yields-bind (
      Yields-ask _ (
        Yields-then (
          Yields-require _ _ λ free.
            Yields-map (Yields-output_from (suc w.page_bound) 0 _) λ e t named. (named, free))))

module _ (p : Platform) (w : World) (honest : SignsOnly w) (cs : ConsensusState) where
  Yields-sign_spend :
      (side : SpendSide) (txn : Transaction) (contract : AtomicSwap) (keys : QdayPrivateKeys)
      (secret : ℕ) (s : Daemon)
      → Yields (sign_spend p w side cs txn contract keys secret) s (λ r _. SameCoins txn r)
  Yields-sign_spend claiming txn contract keys secret s =
      Yields-ask_result _ λ r signed. honest.claim _ cs txn r contract keys secret signed
  Yields-sign_spend refunding txn contract keys secret s =
      Yields-ask_result _ λ r signed. honest.refund _ cs txn r contract keys signed

  Yields-build_spend :
      (side : SpendSide) (id : ℕ) (fee : Currency) (secret : ℕ) (c : Swap) (keys : QdayPrivateKeys)
      (s : Daemon)
      → Yields
          (build_spend p w cs side id fee secret c keys)
          s
          (λ r _. IsSpend p w cs id fee r.0 r.1.0 r.1.1)
  unfolding build_spend
  Yields-build_spend side id fee secret c keys s = Yields-bind (
      Yields-map (Yields-find_swap_output w c id cs s) λ parent t found. Yields-then (
        Yields-require _ _ λ mature. Yields-then (
          Yields-require _ _ λ covers. Yields-bind (
            Yields-map (Yields-any _) λ destination t u. Yields-bind (
              Yields-lift _ λ paid rest. Yields-bind (
                Yields-map (Yields-sign_spend side _ _ keys secret _) λ txn t same. Yields-bind (
                  Yields-ask _ (
                    Yields-then (
                      Yields-require _ _ λ current. Yields-then (
                        Yields-check_none _ λ valid. Yields-pure _ (record {
                          parent = parent;
                          asked = found.0;
                          looked_at = s.clock;
                          free = ground (arith, found.1);
                          mature = leb→le _ _ mature;
                          spends = same.inputs;
                          pays = same.outputs;
                          pays_fee = same.fee;
                          balanced = sym (sub-eq_ok _ fee paid rest);
                          worth = omega (arith, sub-eq_ok _ fee paid rest, ltb→lt _ _ covers);
                          valid = valid;
                        })))))))))))

-- Who may claim, with what, and who may refund, and when.
abbrev pub MaySpend : SpendSide → Swap → ConsensusState → SpendSwapRequest → Type 0
MaySpend claiming c cs request =
    (c.role ≡ "recipient") × ((secret : ℕ) × (parse_hash "secret" request.secret ≡ ok secret))
MaySpend refunding c cs request =
    (c.role ≡ "refund") × (c.refund_height ≤ cs.index.height) × (request.secret ≡ "")

may :
    (side : SpendSide) (c : Swap) (cs : ConsensusState) (request : SpendSwapRequest) (secret : ℕ)
    → asked_secret side request.secret ≡ ok secret
    → may_spend side c.role ≡ true
    → is_unlocked side cs.index.height c.refund_height ≡ true
    → MaySpend side c cs request
may claiming c cs request secret shows ours open_now =
    ((eq_iff c.role "recipient").0 ours, (secret, shows))
may refunding c cs request secret shows ours open_now = (
  (eq_iff c.role "refund").0 ours,
  leb→le _ _ open_now,
  elim (Bool-cases (str_eq request.secret "")) [
    | inl absent ↦ (eq_iff request.secret "").0 absent
    | inr present ↦ absurd (ground arith)
  ],
)

-- A claim or a refund that was created: our role in the contract on disk is the one that may do it, a
-- claim shows a secret, a refund is made no earlier than the height of the contract, swaps are active,
-- and the transaction spends the output that the client named.
pub record IsSwapSpend (p : Platform) (w : World) (swap_id : String) (side : SpendSide)
    (request : SpendSwapRequest) (s : Daemon) (v : SwapActionView) : Type 0 where
  pub contract : Swap
  pub action : SwapAction
  pub cs : ConsensusState
  pub id : ℕ
  pub stored : swap p swap_id s.db ≡ ok (some contract)
  pub named : p.parse_output_id (trim_space request.output_id) ≡ ok id
  pub fee : default_fee p request.fee_atomic ≡ ok action.fee
  pub may : MaySpend side contract cs request
  pub active : p.v1_active cs (cs.index.height + 1) ≡ true
  pub of_kind : action.kind ≡ kind_text side
  pub spend : IsSpend p w cs id action.fee action.transaction action.destination action.amount
  pub shown : ShowsAction p action v

module _ (p : Platform) (w : World) (honest : SignsOnly w) (swap_id : String) (side : SpendSide)
    (request : SpendSwapRequest) where
  Yields-spend :
      (id : ℕ) (fee : Currency) (secret : ℕ) (c : Swap) (existing : Option SwapAction)
      (s t : Daemon)
      → p.parse_output_id (trim_space request.output_id) ≡ ok id
      → default_fee p request.fee_atomic ≡ ok fee
      → asked_secret side request.secret ≡ ok secret
      → swap p swap_id s.db ≡ ok (some c)
      → may_spend side c.role ≡ true
      → Yields
          (spend p w swap_id side request id fee secret c existing)
          t
          (λ v _. v.1 ≡ true → IsSwapSpend p w swap_id side request s v.0)
  unfolding spend
  Yields-spend id fee secret c (some a) s t named offered opened stored ours = Yields-then (
      Yields-require _ _ λ same.
        Yields-bind
          (Yields-map (Yields-any _) λ view t u. Yields-pure _ (λ created. absurd (ground arith))))
  Yields-spend id fee secret c none s t named offered opened stored ours = Yields-bind (
      Yields-map (Yields-any _) λ master t u. Yields-bind (
        Yields-lift _ λ keys derived. Yields-bind (
          Yields-query _ _ λ session looked. Yields-then (
            Yields-require _ _ λ ours_too. Yields-bind (
              Yields-map (Yields-any _) λ synced t3 u. Yields-then (
                Yields-require _ _ λ in_touch. Yields-bind (
                  Yields-ask _ (
                    Yields-bind (
                      Yields-ask_result _ λ scan scanned. Yields-then (
                        Yields-require _ _ λ current. Yields-then (
                          Yields-require _ _ λ active. Yields-then (
                            Yields-require _ _ λ unlocked. Yields-bind (
                              Yields-map
                                (Yields-build_spend p w honest _ side id fee secret c keys _)
                                λ built t4 spent. Yields-bind (
                                  Yields-ask _ (
                                    Yields-map (Yields-record_action p w _ _) λ v t shown created.
                                      record {
                                        contract = c;
                                        action =
                                            spend_action swap_id side (p.id_string id) built.1.0
                                              built.1.1 fee built.0 (w.tip_state t3.clock).index
                                              (w.now t4.clock);
                                        cs = w.tip_state t3.clock;
                                        id = id;
                                        stored = stored;
                                        named = named;
                                        fee = offered;
                                        may =
                                            may side c (w.tip_state t3.clock) request secret opened
                                              ours unlocked;
                                        active = active;
                                        of_kind = refl;
                                        spend = spent;
                                        shown = shown.0;
                                      })))))))))))))))

  -- Where the signing functions set policies only: a success of `ClaimSwap` or `RefundSwap` that
  -- reports a creation was asked for by the party of the contract on disk that may do it, a claim with
  -- a secret and a refund not before the height of the contract; the transaction spends just the output
  -- that was named, which was mature and free in the pool, to one output that is worth what it is worth
  -- less the fee, and more than nothing; consensus accepts it, and the client is shown it.
  pub spend_swap-IsSwapSpend :
      (s t : Daemon) (v : SwapActionView × Bool)
      → spend_swap p w swap_id side request s ≡ (ok v, t)
      → v.1 ≡ true
      → IsSwapSpend p w swap_id side request s v.0
  unfolding spend_swap
  spend_swap-IsSwapSpend s t v ran = run.at v t ran
    where
      read :
          {Q : ℕ → Daemon → Type 0} (r : Result ℕ)
          → ((id : ℕ) → r ≡ ok id → Q id s)
          → Yields (read_id p w r) s Q
      read (ok id) q = Yields-pure id (q id refl)
      read (err e) q = Yields-fail _

      run :
          Yields
            (spend_swap p w swap_id side request)
            s
            (λ v _. v.1 ≡ true → IsSwapSpend p w swap_id side request s v.0)
      run = Yields-bind (
          read _ λ id named. Yields-bind (
            Yields-lift _ λ fee offered. Yields-bind (
              Yields-lift _ λ secret opened. Yields-bind (
                Yields-query _ _ λ found looked. Yields-bind (
                  Yields-known_swap found looked λ c stored. Yields-then (
                    Yields-require _ _ λ ours. Yields-bind (
                      Yields-query _ _ λ existing had.
                        Yields-spend id fee secret c existing s _ named offered opened stored
                          ours)))))))
