-- ===== src/Recover/Restored.antt =====
-- main.go, `recoverAddresses`: what a recovery leaves in the journal.
use qday_walletd.Common.{
  ℕ, zero, suc, ◌+◌, ◌≤◌, ◌<◌, ◌≡◌, refl, String, ◌⊎◌, inl, inr, true, ==_iff, Option, none, some,
  arith, Bytes,
}
use qday_walletd.Types.{Platform, QdayKeys, QdayPrivateKeys, ok, same_keys}
use qday_walletd.Derive.{keys}
use qday_walletd.Meta.Codec.{Codec}
use qday_walletd.Meta.Tables.{Db}
use qday_walletd.Meta.Addresses.{Address, address_by_index}
use qday_walletd.Meta.Addresses.RoundTrip.{
  IsManaged, stored, add_address-lookups, add_address-keeps,
}
use qday_walletd.Daemon.Machine.{World, Daemon}
use qday_walletd.Daemon.Steps.{
  Yields, Yields-bind, Yields-then, Yields-map, Yields-pure, Yields-lift, Yields-ask,
  Yields-ask_result, Yields-query, Yields-require, Yields-statement,
}
use qday_walletd.Daemon.Wallet.{address_record}
use qday_walletd.Daemon.Wallet.Repeated.{KeyLaws}
use qday_walletd.Recover.{restore_one, restore, recover_addresses}

same_keys-inv : (j k : QdayKeys) → same_keys j k ≡ true → j ≡ k
same_keys-inv j k e =
    let classical = (==_iff j.classical k.classical).0 (ground arith) in
    let reserve = (==_iff j.reserve k.reserve).0 (ground arith) in
    λ i. record { classical = classical i; reserve = reserve i }

-- The journal has a child address with the public keys that the seed gives it.
pub record IsRestored (p : Platform) (seed : Bytes) (db : Db) (index : ℕ) : Type 0 where
  pub row : Address
  pub pair : QdayPrivateKeys
  pub derived : keys p seed index ≡ ok pair
  pub found : address_by_index p index db ≡ ok (some row)
  pub same : row.public ≡ pair.public

-- What was found by its index is still found.
pub Keeps : Platform → Db → Db → Type 0
Keeps p db db' =
    (i : ℕ) (b : Address)
    → address_by_index p i db ≡ ok (some b)
    → address_by_index p i db' ≡ ok (some b)

module _ (p : Platform) (c : Codec p) (laws : KeyLaws p) (w : World) (seed : Bytes) where
  address_record-IsManaged :
      (index now : ℕ) (pair : QdayPrivateKeys)
      → keys p seed index ≡ ok pair
      → IsManaged p (address_record p index pair.public "" "change" now)
  unfolding keys
  address_record-IsManaged index now pair derived = record {
    fits = laws.fits _ pair derived;
    in_range = laws.in_range pair.public (laws.fits _ pair derived);
    valid = laws.valid _ pair derived;
    derived = refl;
  }

  Yields-restore_one :
      (index : ℕ) (pair : QdayPrivateKeys) (existing : Option Address) (s : Daemon)
      → keys p seed index ≡ ok pair
      → address_by_index p index s.db ≡ ok existing
      → Yields
          (restore_one p w index pair.public existing)
          s
          (λ n t. IsRestored p seed t.db index × Keeps p s.db t.db)
  unfolding restore_one Keeps
  Yields-restore_one index pair (some row) s derived found = Yields-then (
      Yields-require _ _ λ same. Yields-pure _ (
        record {
          row = row;
          pair = pair;
          derived = derived;
          found = found;
          same = same_keys-inv row.public pair.public same;
        },
        λ i b h. h,
      ))
  Yields-restore_one index pair none s derived found = Yields-bind (
      Yields-ask _ (
        Yields-then (
          Yields-statement _ _ λ db inserted. Yields-pure _ (
            record {
              row = stored (address_record p index pair.public "" "change" (w.now s.clock));
              pair = pair;
              derived = derived;
              found =
                  (add_address-lookups p c _ s.db db
                    (address_record-IsManaged index (w.now s.clock) pair derived) inserted).0;
              same = refl;
            },
            λ i b h. (add_address-keeps p _ b s.db db inserted).0 i h,
          ))))

  IsRestored-Keeps :
      (index : ℕ) (db db' : Db)
      → Keeps p db db'
      → IsRestored p seed db index
      → IsRestored p seed db' index
  unfolding Keeps
  IsRestored-Keeps index db db' keep h = record {
    row = h.row;
    pair = h.pair;
    derived = h.derived;
    found = keep index h.row h.found;
    same = h.same;
  }

  Yields-restore :
      (left index added : ℕ) (s : Daemon)
      → Yields (restore p w seed left index added) s (λ n t.
        ((i : ℕ) → index ≤ i → i < index + left → IsRestored p seed t.db i) × Keeps p s.db t.db)
  unfolding restore Keeps
  Yields-restore zero index added s =
      Yields-pure _ (λ i from below. absurd (omega arith), λ i b h. h)
  Yields-restore (suc left) index added s = Yields-bind (
      Yields-lift _ λ pair derived. Yields-bind (
        Yields-query _ _ λ existing found. Yields-bind (
          Yields-map (Yields-restore_one index pair existing _ derived found) λ n t h.
            Yields-map (Yields-restore left (suc index) (added + n) t) λ r u k. (
              λ i from below. elim (split i from) [
                | inl same ↦ rw (← same) (IsRestored-Keeps index t.db u.db k.1 h.0)
                | inr later ↦ k.0 i later (omega (arith, below))
              ],
              λ i b e. k.1 i b (h.1 i b e),
            ))))
    where
      split : (i : ℕ) → index ≤ i → (index ≡ i) ⊎ (suc index ≤ i)
      split i from = omega (arith, from)

-- After a recovery of so many addresses that succeeded, the journal holds every child address below
-- that number, with the public keys that the master seed gives it, and every address that it found by
-- its index before, it finds as before.
pub recover_addresses-IsRestored :
    (p : Platform) (c : Codec p) (laws : KeyLaws p) (w : World) (password : String)
    (count added : ℕ) (s t : Daemon)
    → recover_addresses p w password count s ≡ (ok added, t)
    → ((seed : Bytes) × (w.read_key s.clock password ≡ ok seed)
        × ((i : ℕ) → i < count → IsRestored p seed t.db i))
      × Keeps p s.db t.db
unfolding recover_addresses Keeps
recover_addresses-IsRestored p c laws w password count added s t ran = run.at added t ran
  where
    run : Yields (recover_addresses p w password count) s (λ _ t.
        ((seed : Bytes) × (w.read_key s.clock password ≡ ok seed)
          × ((i : ℕ) → i < count → IsRestored p seed t.db i))
        × Keeps p s.db t.db)
    run = Yields-then (
        Yields-require _ _ λ some_count. Yields-bind (
          Yields-ask_result _ λ seed read.
            Yields-map (Yields-restore p c laws w seed count 0 0 _)
              λ n u k. ((seed, read, λ i below. k.0 i (omega arith) (omega (arith, below))), k.1)))
