-- ===== src/Daemon/Outputs/Fresh.antt =====
-- What `spendableOutputs` returns.
use qday_walletd.Common.{
  ℕ, zero, suc, ◌+◌, ◌≡◌, ◌≢◌, Bool, true, false, List, [], ◌∷◌, length, any, ltb, keep, Elem,
  Elem-keep_inv, All, All-append, All-of_Elem, ==_iff, arith,
}
use qday_walletd.Types.{
  Platform, Transaction, SiacoinElement, SiacoinInput, ChainIndex, ConsensusState, ok, same_index,
}
use qday_walletd.Daemon.Machine.{World, Daemon}
use qday_walletd.Daemon.Steps.{
  Yields, Yields-bind, Yields-then, Yields-map, Yields-pure, Yields-fail, Yields-ask,
  Yields-ask_result, Yields-require, Yields-if,
}
use qday_walletd.Daemon.Outputs.{page_size, is_spent, is_spendable, outputs_from, spendable_outputs}

any-All :
    {A : Type 0} (q : A → Bool) (P : A → Type 0) (xs : List A)
    → ((x : A) → q x ≡ false → P x)
    → any q xs ≡ false
    → All P xs
any-All q P [] h e = tt
any-All q P (x ∷ xs) h e = (h x (ground arith), any-All q P xs h (ground arith))

-- No input of these transactions spends the output with the identifier.
pub IsUnspent : List Transaction → ℕ → Type 0
IsUnspent txns id =
    All (λ (t : Transaction). All (λ (i : SiacoinInput). i.parent.id ≢ id) t.inputs) txns

is_spent-IsUnspent :
    (txns : List Transaction) (id : ℕ) → is_spent txns id ≡ false → IsUnspent txns id
unfolding IsUnspent
is_spent-IsUnspent txns id = any-All _ _ txns λ t.
    any-All _ _ t.inputs
      λ i apart same. let hit = (==_iff i.parent.id id).1 same in absurd (ground arith)

-- Not spent by a transaction of the pool, and worth something in the block after the next.
pub record IsFree (p : Platform) (cs : ConsensusState) (pool : List Transaction)
    (e : SiacoinElement) : Type 0 where
  pub unspent : IsUnspent pool e.id
  pub worth : p.qday_value cs e (cs.index.height + 2) ≢ 0

is_spendable-IsFree :
    (p : Platform) (cs : ConsensusState) (pool : List Transaction) (e : SiacoinElement)
    → is_spendable p cs pool e ≡ true
    → IsFree p cs pool e
is_spendable-IsFree p cs pool e h = record {
  unspent = is_spent-IsUnspent pool e.id (ground arith);
  worth = λ none_left. absurd (
      let zero_value = (==_iff (p.qday_value cs e (cs.index.height + 2)) 0).1 none_left in
      ground arith);
}

-- The wallet index listed the output as unspent, at the tip.
pub record IsListed (w : World) (cs : ConsensusState) (e : SiacoinElement) : Type 0 where
  pub time : ℕ
  pub offset : ℕ
  pub page : List SiacoinElement
  pub basis : ChainIndex
  pub answered : w.unspent time offset page_size ≡ ok (page, basis)
  pub current : same_index basis cs.index ≡ true
  pub there : Elem e page

module _ (p : Platform) (w : World) (cs : ConsensusState) where
  abbrev Fresh : List Transaction → SiacoinElement → Type 0
  Fresh pool e = IsFree p cs pool e × IsListed w cs e

  kept :
      (pool : List Transaction) (page : List SiacoinElement)
      → ((e : SiacoinElement) → Elem e page → IsListed w cs e)
      → All (Fresh pool) (keep (is_spendable p cs pool) page)
  kept pool page listed = All-of_Elem _ (λ e m.
      let inside = Elem-keep_inv (is_spendable p cs pool) e page m in
      (is_spendable-IsFree p cs pool e inside.1, listed e inside.0))

  Yields-outputs_from :
      (pool : List Transaction) (fuel offset : ℕ) (s : Daemon)
      → Yields (outputs_from p w cs pool fuel offset) s (λ r _. All (Fresh pool) r)
  unfolding outputs_from
  Yields-outputs_from pool zero offset s = Yields-fail _
  Yields-outputs_from pool (suc fuel) offset s = Yields-bind (
      Yields-ask_result _ λ answer page. Yields-then (
        Yields-require _ _ λ current.
          Yields-if (ltb (length answer.0) page_size)
            (λ last. Yields-pure _ (kept pool answer.0 (listed answer page current)))
            (λ full. Yields-bind (
              Yields-map (Yields-outputs_from pool fuel (offset + page_size) _) λ rest t good.
                Yields-pure _ (
                  All-append (Fresh pool) (keep (is_spendable p cs pool) answer.0) rest
                    (kept pool answer.0 (listed answer page current)) good)))))
    where
      listed :
          (answer : List SiacoinElement × ChainIndex)
          → w.unspent s.clock offset page_size ≡ ok answer
          → same_index answer.1 cs.index ≡ true
          → (e : SiacoinElement) → Elem e answer.0
          → IsListed w cs e
      listed answer page current e there = record {
        time = s.clock;
        offset = offset;
        page = answer.0;
        basis = answer.1;
        answered = page;
        current = current;
        there = there;
      }

  -- Every output that `spendableOutputs` returns was listed as unspent by the wallet index, with the tip
  -- as the basis of the list; no input of a transaction that was in the pool at the call spends it, and
  -- it is worth something in the block after the next.
  pub Yields-spendable_outputs :
      (s : Daemon)
      → Yields
          (spendable_outputs p w cs)
          s
          (λ r _. All (λ e. IsFree p cs (w.pool s.clock) e × IsListed w cs e) r)
  unfolding spendable_outputs
  Yields-spendable_outputs s = Yields-bind (
      Yields-ask _ (
        Yields-bind (
          Yields-map (Yields-outputs_from (w.pool s.clock) (suc w.page_bound) 0 _) λ outputs t good.
            Yields-bind
              (Yields-ask _ (Yields-then (Yields-require _ _ λ current. Yields-pure _ good))))))
