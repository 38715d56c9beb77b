-- ===== src/Daemon/Wallet/Allocation.antt =====
-- Address allocation: what `newAddress` stores, and that a reference keeps its address.
use qday_walletd.Common.{ℕ, String, ◌≡◌, refl, ◌∙◌, ap, Option, none, some, arith, Bytes}
use qday_walletd.Types.{Platform, QdayPrivateKeys, Result, ok}
use qday_walletd.Derive.{keys}
use qday_walletd.Meta.Tables.{Db}
use qday_walletd.Meta.Addresses.{Address, next_index, add_address}
use qday_walletd.Meta.Addresses.Indices.{IsGapless, add_address-IsGapless}
use qday_walletd.Daemon.Machine.{Daemon, World}
use qday_walletd.Daemon.Steps.{
  Yields, Yields-bind, Yields-then, Yields-pure, Yields-fail, Yields-lift, Yields-gets, Yields-ask,
  Yields-query, Yields-statement, Yields-add_addresses,
}
use qday_walletd.Daemon.Preserves.{
  Keeps, Keeps-bind, Keeps-gets, Keeps-query, Keeps-lift, Keeps-ask, Keeps-pure, Keeps-fail,
  keeps_rules,
}
use qday_walletd.Daemon.Ends.{Ends, Ends-keeps, Ends-bind, Ends-then, Ends-statement}
use qday_walletd.Daemon.Wallet.{
  master_seed, seed_or_locked, register_address, new_address, address_record,
}

pub Yields-master_seed :
    {Q : Bytes → Daemon → Type 0} {s : Daemon}
    → ((master : Bytes) → s.master ≡ some master → Q master s)
    → Yields master_seed s Q
unfolding master_seed
Yields-master_seed {Q} {s} q = Yields-bind (Yields-gets _ (from s.master q))
  where
    from :
        (m : Option Bytes)
        → ((master : Bytes) → m ≡ some master → Q master s)
        → Yields (seed_or_locked m) s Q
    from none q = Yields-fail _
    from (some master) q = Yields-pure master (q master refl)

pub Keeps-master_seed : {Q : Db → Type 0} → Keeps Q master_seed
unfolding master_seed
Keeps-master_seed {Q} = Keeps-bind _ _ (Keeps-gets _) (λ m. from m)
  where
    from : (m : Option Bytes) → Keeps Q (seed_or_locked m)
    from none = Keeps-fail _
    from (some master) = Keeps-pure master

-- What a successful `newAddress` did: the key pair of the next index is stored as the new row.
pub record IsAllocated (p : Platform) (reference kind : String) (s : Daemon) (a : Address)
    (after : Db) : Type 0 where
  pub master : Bytes
  pub pair : QdayPrivateKeys
  pub now : ℕ
  pub unlocked : s.master ≡ some master
  pub derived : keys p master (next_index s.db) ≡ ok pair
  pub built : a ≡ address_record p (next_index s.db) pair.public reference kind now
  pub inserted : add_address p a s.db ≡ ok after

module _ (p : Platform) (w : World) where
  allocated :
      {reference kind : String} (s : Daemon) (master : Bytes) (pair : QdayPrivateKeys)
      (now index : ℕ) (db : Db)
      → s.master ≡ some master
      → ◌≡◌ {A = Result ℕ} (ok (next_index s.db)) (ok index)
      → keys p master index ≡ ok pair
      → add_address p (address_record p index pair.public reference kind now) s.db ≡ ok db
      → IsAllocated p reference kind s (address_record p index pair.public reference kind now) db
  allocated {reference} {kind} s master pair now index db unlocked next derived inserted =
      let same : index ≡ next_index s.db = ground arith in
      record {
        master = master;
        pair = pair;
        now = now;
        unlocked = unlocked;
        derived = rw same at derived;
        built = ap (λ i. address_record p i pair.public reference kind now) same;
        inserted = inserted;
      }

  -- What a successful `newAddress` returns is stored under the next index, with the key pair of that
  -- index, and the wallet stays unlocked.
  pub Yields-new_address :
      (reference kind : String) (s : Daemon)
      → Yields
          (new_address p w reference kind)
          s
          (λ a s'. IsAllocated p reference kind s a s'.db × (s'.master ≡ s.master))
  unfolding new_address register_address
  Yields-new_address reference kind s = Yields-bind (
      Yields-master_seed λ master unlocked. Yields-bind (
        Yields-query _ _ λ index next. Yields-bind (
          Yields-lift _ λ pair derived. Yields-bind (
            Yields-ask _ (
              Yields-then (
                Yields-statement _ _ λ db inserted. Yields-then (
                  Yields-add_addresses _ _ _ _ (
                    Yields-pure _ (
                      allocated s master pair _ index db unlocked next derived inserted,
                      refl,
                    )))))))))

  IsGapless-row :
      (s : Daemon) (a : Address) (index : ℕ) (db : Db)
      → IsGapless s.db
      → ◌≡◌ {A = Result ℕ} (ok (next_index s.db)) (ok index)
      → a.index ≡ index
      → add_address p a s.db ≡ ok db
      → IsGapless db
  IsGapless-row s a index db h next same inserted =
      (add_address-IsGapless p a s.db db h
        (let e : index ≡ next_index s.db = ground arith in same ∙ e) inserted).0

  -- Whether it succeeds or fails at any call, `newAddress` leaves child indices without gaps.
  pub new_address-IsGapless :
      (reference kind : String) (s : Daemon)
      → IsGapless s.db
      → Ends (new_address p w reference kind) s IsGapless
  unfolding new_address register_address
  new_address-IsGapless reference kind s h = Ends-bind (Ends-keeps Keeps-master_seed h) (
      Yields-master_seed λ master unlocked. Ends-bind (Ends-keeps (Keeps-query _ _) h) (
        Yields-query _ _ λ index next. Ends-bind (Ends-keeps (Keeps-lift _) h) (
          Yields-lift _ λ pair derived. Ends-bind (Ends-keeps (Keeps-ask _) h) (
            Yields-ask _ (
              Ends-then
                (Ends-statement _ _ h
                  λ db inserted. IsGapless-row s _ index db h next refl inserted)
                (Yields-statement _ _ λ db inserted.
                  Ends-keeps (search keeps_rules)
                    (IsGapless-row s _ index db h next refl inserted)))))))
