-- ===== src/Meta/Addresses/RoundTrip.antt =====
-- What `AddAddress` stores is what the lookups return.
use qday_walletd.Common.{
  ℕ, String, ◌^◌, ◌<◌, ◌≡◌, ◌≢◌, Bool, Option-cases, inl, inr, true, false, Option, none, some, [],
  ◌∷◌, ◌++◌, arith, be_bytes, be_value, be_value-be_bytes, length-be_bytes, length, take, drop,
  length-append, any, find_first, find_first-snoc, find_first-append, any-false_of, str_eq, ◌==◌,
  if◌then◌else◌, eq_iff, eq_refl, ==_refl, take_prefix, drop_prefix, take_all,
}
use qday_walletd.Types.{Platform, QdayKeys, ok}
use qday_walletd.Meta.Tables.{AddressRow, Db, column_eq, unix, from_unix}
use qday_walletd.Meta.Codec.{Codec, FitsKeys}
use qday_walletd.Meta.Addresses.{
  Address, split_keys, coalesce, clashes, address_row, add_address, decode_row, decode_found,
  address_by_index, address_by_hash, address_by_reference,
}

-- An address record as `newAddress` builds it: its address is that of its valid keys.
pub record IsManaged (p : Platform) (a : Address) : Type 0 where
  pub fits : FitsKeys a.public
  pub in_range : a.address < 2 ^ 256
  pub valid : p.keys_validate a.public ≡ none
  pub derived : p.keys_address a.public ≡ a.address

-- The record with its time cut to whole seconds, as the table holds it.
abbrev pub stored : Address → Address
stored a = record a { created_at = from_unix (unix a.created_at) }

module _ (p : Platform) (c : Codec p) where
  pub split_keys-keys_bytes : (k : QdayKeys) → FitsKeys k → split_keys (p.keys_bytes k) ≡ k
  split_keys-keys_bytes k h =
      let front = be_bytes 32 k.classical in
      let back = be_bytes 32 k.reserve in
      let classical : be_value (take 32 (p.keys_bytes k)) ≡ k.classical =
        rw (c.keys_bytes_layout k, take_prefix 32 front back (length-be_bytes 32 k.classical))
          (be_value-be_bytes 32 k.classical h.classical) in
      let reserve : be_value (take 32 (drop 32 (p.keys_bytes k))) ≡ k.reserve =
        rw
          (
            c.keys_bytes_layout k,
            drop_prefix 32 front back (length-be_bytes 32 k.classical),
            take_all 32 back (omega (arith, length-be_bytes 32 k.reserve)),
          )
          (be_value-be_bytes 32 k.reserve h.reserve) in
      λ i. record { classical = classical i; reserve = reserve i }

  pub length-keys_bytes : (k : QdayKeys) → length (p.keys_bytes k) ≡ 64
  length-keys_bytes k = rw (c.keys_bytes_layout k) (
      omega (
        arith,
        length-append (be_bytes 32 k.classical) (be_bytes 32 k.reserve),
        length-be_bytes 32 k.classical,
        length-be_bytes 32 k.reserve,
      ))

  coalesce-reference : (s : String) → coalesce (if str_eq s "" then none else some s) ≡ s
  coalesce-reference s = ground (arith, eq_iff s "")

  decode_row-address_row :
      (a : Address) → IsManaged p a → decode_row p (address_row p a) ≡ ok (stored a)
  unfolding decode_row
  decode_row-address_row a h = rw (
    c.parse_address_string a.address h.in_range,
    length-keys_bytes a.public,
    split_keys-keys_bytes a.public h.fits,
    h.valid,
    h.derived,
    ==_refl a.address,
    coalesce-reference a.reference,
  )

-- An accepted INSERT met no clash and put its row at the end.
pub add_address-inv :
    (p : Platform) (a : Address) (db db' : Db)
    → add_address p a db ≡ ok db'
    → (any (λ r. clashes r (address_row p a)) db.addresses ≡ false)
      × (db' ≡ record db { addresses = db.addresses ++ address_row p a ∷ [] })
unfolding add_address
add_address-inv p a db db' e = ground arith

found_row :
    (p : Platform) (c : Codec p) (a : Address) (db db' : Db) (q : AddressRow → Bool)
    → IsManaged p a
    → add_address p a db ≡ ok db'
    → ((r : AddressRow) → q r ≡ true → clashes r (address_row p a) ≡ true)
    → q (address_row p a) ≡ true
    → find_first q db'.addresses ≡ some (address_row p a)
found_row p c a db db' q h e stronger hit =
    let inv = add_address-inv p a db db' e in
    rw inv.1 (
      find_first-snoc q db.addresses (address_row p a)
        (any-false_of (λ r. clashes r (address_row p a)) q db.addresses stronger inv.0) hit)

named_reference :
    (s : String) → s ≢ "" → ◌≡◌ {A = Option String} (if str_eq s "" then none else some s) (some s)
named_reference s h = ground (arith, eq_iff s "")

-- After an accepted `AddAddress` of a record with valid keys and the address of those keys, as
-- `newAddress` builds it, the record is found by its index, by its address and, unless it is empty, by
-- its reference, with its time cut to whole seconds. `AddAddress` itself checks neither.
pub add_address-lookups :
    (p : Platform) (c : Codec p) (a : Address) (db db' : Db)
    → IsManaged p a
    → add_address p a db ≡ ok db'
    → (address_by_index p a.index db' ≡ ok (some (stored a)))
      × (address_by_hash p a.address db' ≡ ok (some (stored a)))
      × (a.reference ≢ "" → address_by_reference p a.reference db' ≡ ok (some (stored a)))
unfolding address_by_index address_by_hash address_by_reference
add_address-lookups p c a db db' h e = (
  rw (
    found_row p c a db db' (λ r. r.child_index == a.index) h e (λ r t. ground arith)
        (==_refl a.index),
    decode_row-address_row p c a h,
  ),
  rw (
    found_row p c a db db' (λ r. str_eq r.address (p.address_string a.address)) h e
        (λ r t. ground arith) (eq_refl (p.address_string a.address)),
    decode_row-address_row p c a h,
  ),
  λ named. rw (
    found_row p c a db db' (λ r. column_eq r.reference a.reference) h e
        (λ r t. ground (arith, named_reference a.reference named))
        (rw (named_reference a.reference named) (eq_refl a.reference)),
    decode_row-address_row p c a h,
  ),
)

kept_row :
    (p : Platform) (a b : Address) (db db' : Db) (q : AddressRow → Bool)
    → add_address p a db ≡ ok db'
    → decode_found p (find_first q db.addresses) ≡ ok (some b)
    → decode_found p (find_first q db'.addresses) ≡ ok (some b)
kept_row p a b db db' q e found = elim (Option-cases (find_first q db.addresses)) [
  | inl gone ↦ absurd (unfold decode_found in ground (arith))
  | inr (r, hit) ↦
      rw
        (
          (add_address-inv p a db db' e).1,
          find_first-append q db.addresses (address_row p a ∷ []) r hit,
        )
        (rw hit at found)
]

-- An accepted `AddAddress` changes no earlier answer: a record that was found by its index, address or
-- reference still is.
pub add_address-keeps :
    (p : Platform) (a b : Address) (db db' : Db)
    → add_address p a db ≡ ok db'
    → ((i : ℕ) → address_by_index p i db ≡ ok (some b) → address_by_index p i db' ≡ ok (some b))
      × ((h : ℕ) → address_by_hash p h db ≡ ok (some b) → address_by_hash p h db' ≡ ok (some b))
      × ((s : String)
          → address_by_reference p s db ≡ ok (some b)
          → address_by_reference p s db' ≡ ok (some b))
unfolding address_by_index address_by_hash address_by_reference
add_address-keeps p a b db db' e = (
  λ i. kept_row p a b db db' (λ r. r.child_index == i) e,
  λ h. kept_row p a b db db' (λ r. str_eq r.address (p.address_string h)) e,
  λ s. kept_row p a b db db' (λ r. column_eq r.reference s) e,
)
