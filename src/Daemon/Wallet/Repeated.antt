-- ===== src/Daemon/Wallet/Repeated.antt =====
-- A reference keeps its address: repeated calls of `NewDepositAddress`.
use qday_walletd.Common.{
  Bool-cases, Option-cases, inl, inr, String, ◌^◌, ◌<◌, ◌≡◌, ◌≢◌, refl, ap, true, Option, none,
  some, arith, Bytes, eq_iff,
}
use qday_walletd.Types.{Platform, QdayKeys, QdayPrivateKeys, Result, ok}
use qday_walletd.Derive.{keys}
use qday_walletd.Meta.Codec.{Codec, FitsKeys}
use qday_walletd.Meta.Tables.{Db}
use qday_walletd.Meta.Addresses.{Address, address_by_reference}
use qday_walletd.Meta.Addresses.RoundTrip.{IsManaged, stored, add_address-lookups}
use qday_walletd.Meta.Writes.{Writes}
use qday_walletd.Meta.Writes.Kept.{Writes-address_by_reference}
use qday_walletd.Daemon.Machine.{Daemon, World, machine, tick}
use qday_walletd.Daemon.Steps.{
  Yields, Yields-map, Yields-bind, Yields-then, Yields-pure, Yields-query, Yields-require,
  Yields-add_addresses,
}
use qday_walletd.Daemon.Preserves.{Keeps-require, Keeps-query, keeps_rules}
use qday_walletd.Daemon.Ends.{Ends, Ends-keeps, Ends-bind, Ends-then}
use qday_walletd.Daemon.Inputs.{valid_reference}
use qday_walletd.Daemon.Wallet.{
  AddressView, register_address, view_address, new_deposit_address, deposit_address,
}
use qday_walletd.Daemon.Wallet.Allocation.{IsAllocated, Yields-new_address}

-- Generated keys are valid 32-byte keys, and their address is 32 bytes.
pub record KeyLaws (p : Platform) : Type 0 where
  pub valid :
      (seed : Bytes) (pair : QdayPrivateKeys)
      → p.keys_from_seed seed ≡ ok pair
      → p.keys_validate pair.public ≡ none
  pub fits :
      (seed : Bytes) (pair : QdayPrivateKeys)
      → p.keys_from_seed seed ≡ ok pair
      → FitsKeys pair.public
  pub in_range : (k : QdayKeys) → FitsKeys k → p.keys_address k < 2 ^ 256

-- What identifies an account to the client; the creation time is not part of it.
pub record SameAccount (v v' : AddressView) : Type 0 where
  pub index : v.index ≡ v'.index
  pub address : v.address ≡ v'.address
  pub reference : v.reference ≡ v'.reference
  pub kind : v.kind ≡ v'.kind

valid_reference-ne_empty : (s : String) → valid_reference s ≡ true → s ≢ ""
unfolding valid_reference
valid_reference-ne_empty s e = ground (arith, eq_iff s "")

-- The journal holds, under a reference, the account that a view shows.
abbrev pub IsRecorded : Platform → String → AddressView → Db → Type 0
IsRecorded p reference v db =
    (a : Address) × (address_by_reference p reference db ≡ ok (some a))
    × SameAccount v (view_address p a)

module _ (p : Platform) (c : Codec p) (laws : KeyLaws p) where
  IsAllocated-IsManaged :
      (reference kind : String) (s : Daemon) (a : Address) (db : Db)
      → IsAllocated p reference kind s a db
      → IsManaged p a
  unfolding keys
  IsAllocated-IsManaged reference kind s a db h = rw h.built (record {
    fits = laws.fits _ h.pair h.derived;
    in_range = laws.in_range h.pair.public (laws.fits _ h.pair h.derived);
    valid = laws.valid _ h.pair h.derived;
    derived = refl;
  })

  IsAllocated-IsRecorded :
      (reference kind : String) (s : Daemon) (a : Address) (db : Db)
      → reference ≢ ""
      → IsAllocated p reference kind s a db
      → IsRecorded p reference (view_address p a) db
  IsAllocated-IsRecorded reference kind s a db named h =
      let labelled : a.reference ≡ reference = ap (λ (b : Address). b.reference) h.built in
      let found =
        (add_address-lookups p c a s.db db (IsAllocated-IsManaged reference kind s a db h)
            h.inserted).2
          (rw labelled named) in
      (
        stored a,
        rw (← labelled) found,
        record { index = refl; address = refl; reference = refl; kind = refl },
      )

  deposit_address-IsRecorded :
      (w : World) (reference : String) (existing : Option Address) (s : Daemon)
      → reference ≢ ""
      → address_by_reference p reference s.db ≡ ok existing
      → Yields (deposit_address p w reference existing) s (λ v s'. IsRecorded p reference v s'.db)
  deposit_address-IsRecorded w reference none s named found = Yields-bind (
      Yields-map (Yields-new_address p w reference "deposit" s)
        λ a s' h. Yields-pure _ (IsAllocated-IsRecorded reference "deposit" s a s'.db named h.0))
  deposit_address-IsRecorded w reference (some a) s named found =
      unfold register_address in
      Yields-then (
        Yields-add_addresses _ _ _ _ (
          Yields-pure _
            (a, found, record { index = refl; address = refl; reference = refl; kind = refl })))

  -- A successful `NewDepositAddress` leaves its account recorded under the reference.
  pub new_deposit_address-IsRecorded :
      (w : World) (reference : String) (s : Daemon)
      → Yields (new_deposit_address p w reference) s (λ v s'. IsRecorded p reference v s'.db)
  unfolding new_deposit_address
  new_deposit_address-IsRecorded w reference s = Yields-then (
      Yields-require _ _ λ valid. Yields-bind (
        Yields-query _ _ λ existing found.
          deposit_address-IsRecorded w reference existing _
            (valid_reference-ne_empty reference valid) found))

module _ (p : Platform) (w : World) (reference : String) (a : Address) (s : Daemon) where
  deposit_address-keeps :
      (existing : Option Address) (t : Daemon)
      → t.db ≡ s.db
      → existing ≡ some a
      → Ends (deposit_address p w reference existing) t (λ db. db ≡ s.db)
  deposit_address-keeps none t same e = absurd (ground arith)
  deposit_address-keeps (some b) t same e =
      unfold register_address in Ends-keeps (search keeps_rules) same

  deposit_address-view :
      (existing : Option Address) (t : Daemon)
      → existing ≡ some a
      → Yields (deposit_address p w reference existing) t (λ v _. v ≡ view_address p a)
  deposit_address-view none t e = absurd (ground arith)
  deposit_address-view (some b) t e =
      unfold register_address in
      Yields-then (
        Yields-add_addresses _ _ _ _
          (Yields-pure _ (let same : b ≡ a = ground arith in ap (view_address p) same)))

  new_deposit_address-keeps :
      address_by_reference p reference s.db ≡ ok (some a)
      → Ends (new_deposit_address p w reference) s (λ db. db ≡ s.db)
  unfolding new_deposit_address
  new_deposit_address-keeps found = Ends-then (Ends-keeps (Keeps-require _ _) refl) (
      Yields-require _ _ λ valid. Ends-bind (Ends-keeps (Keeps-query _ _) refl) (
        Yields-query _ _ λ existing again.
          deposit_address-keeps existing _ refl
            (let e : ok existing ≡ ok (some a) = cc (found, again) in ground arith)))

  new_deposit_address-view :
      address_by_reference p reference s.db ≡ ok (some a)
      → Yields (new_deposit_address p w reference) s (λ v _. v ≡ view_address p a)
  unfolding new_deposit_address
  new_deposit_address-view found = Yields-then (
      Yields-require _ _ λ valid. Yields-bind (
        Yields-query _ _ λ existing again.
          deposit_address-view existing _
            (let e : ok existing ≡ ok (some a) = cc (found, again) in ground arith)))

module _ (p : Platform) (w : World) (reference : String) (a : Address) (s : Daemon)
    (master : Option Bytes) where
  -- The part behind the lookup, locked or not.
  deposit_address-locked :
      (existing : Option Address) (t : Daemon)
      → existing ≡ some a
      → (deposit_address p w reference existing (record t { master = master })).0
        ≡ (deposit_address p w reference existing t).0
  unfolding register_address machine
  deposit_address-locked none t e = absurd (ground arith)
  deposit_address-locked (some b) t e = elim (Option-cases (w.add_addresses t.clock)) [
    | inl fine ↦ ground (arith, fine)
    | inr (x, bad) ↦ ground (arith, bad)
  ]

  new_deposit_address-locked :
      address_by_reference p reference s.db ≡ ok (some a)
      → (new_deposit_address p w reference (record s { master = master })).0
        ≡ (new_deposit_address p w reference s).0
  unfolding new_deposit_address machine
  new_deposit_address-locked found = elim (Bool-cases (valid_reference reference)) [
    | inr refused ↦ ground (arith, refused)
    | inl valid ↦ elim (Option-cases (w.db_fault s.clock)) [
      | inr (x, bad) ↦ ground (arith, valid, bad)
      | inl fine ↦ ground (arith, valid, fine, found, deposit_address-locked (some a) (tick s) refl)
    ]
  ]

-- For a reference that the journal knows, `NewDepositAddress` leaves the journal as it is, however it
-- ends; what it returns is the recorded account; and whether it succeeds, and with what, is the same
-- for any master seed and for a locked wallet.
pub new_deposit_address-known :
    (p : Platform) (w : World) (reference : String) (a : Address) (s : Daemon)
    → address_by_reference p reference s.db ≡ ok (some a)
    → ((new_deposit_address p w reference s).1.db ≡ s.db)
      × ((v : AddressView) (s' : Daemon)
          → new_deposit_address p w reference s ≡ (ok v, s')
          → v ≡ view_address p a)
      × ((master : Option Bytes)
          → (new_deposit_address p w reference (record s { master = master })).0
            ≡ (new_deposit_address p w reference s).0)
new_deposit_address-known p w reference a s found = (
  (new_deposit_address-keeps p w reference a s found).final,
  (new_deposit_address-view p w reference a s found).at,
  λ master. new_deposit_address-locked p w reference a s master found,
)

-- Two successful calls with one reference return the same account, and the second changes nothing in the
-- journal: whatever the node answers, whatever statements of the journal's store came between them, and
-- also if the daemon was restarted or locked.
pub new_deposit_address-repeated :
    (p : Platform) (c : Codec p) (laws : KeyLaws p) (w w' : World) (reference : String)
    (s s' t t' : Daemon) (v v' : AddressView)
    → new_deposit_address p w reference s ≡ (ok v, s')
    → Writes p s'.db t.db
    → new_deposit_address p w' reference t ≡ (ok v', t')
    → SameAccount v v' × (t'.db ≡ t.db)
new_deposit_address-repeated p c laws w w' reference s s' t t' v v' first between second =
    let (a, found, shown) = (new_deposit_address-IsRecorded p c laws w reference s).at v s' first in
    let still = Writes-address_by_reference p reference a between found in
    let known = new_deposit_address-known p w' reference a t still in
    (
      rw (known.1 v' t' second) shown,
      rw (← ap (λ (r : Result AddressView × Daemon). r.1.db) second) known.0,
    )
