-- ===== src/Meta/Addresses.antt =====
-- internal/meta/store.go: the table of managed addresses.
pub mod RoundTrip
pub mod Indices
mod Pages
mod Tests
use qday_walletd.Common.{
  ℕ, zero, suc, String, Bool, true, false, ◌&&◌, ◌||◌, not, Option, none, some, List, [], ◌∷◌, ◌++◌,
  ◌+◌, max, Bytes, be_value, ltb, leb, ◌==◌, str_eq, any, find_first, if◌then◌else◌, take, drop,
  length,
}
use qday_walletd.Types.{
  Platform, QdayKeys, Result, ok, err, failure, ◌>>=◌, ◌>>◌, guard, check, map_result,
}
use qday_walletd.Meta.Tables.{
  AddressRow, Db, word_arg, column_eq, order_by, limit_offset, unix, from_unix,
}

pub record Address : Type 0 where
  pub index : ℕ
  pub address : ℕ
  pub public : QdayKeys
  pub reference : String
  pub kind : String
  pub created_at : ℕ

-- `copy(keys.Classical[:], public[:32]); copy(keys.Reserve[:], public[32:])`
abbrev pub split_keys : Bytes → QdayKeys
split_keys public = record {
  classical = be_value (take 32 public);
  reserve = be_value (take 32 (drop 32 public));
}

-- COALESCE(reference,'')
abbrev pub coalesce : Option String → String
coalesce none = ""
coalesce (some s) = s

unfoldable pub address_count : Db → ℕ
address_count db = length db.addresses

-- COALESCE(MAX(child_index)+1,0)
next_free : List AddressRow → ℕ
next_free [] = 0
next_free (r ∷ rows) = max (suc r.child_index) (next_free rows)

unfoldable pub next_index : Db → ℕ
unfolding next_free
next_index db = next_free db.addresses

-- A row that shares a value of a UNIQUE column; two NULL references are distinct.
abbrev pub clashes : AddressRow → AddressRow → Bool
clashes r s =
    r.child_index == s.child_index
    || str_eq r.address s.address
    || elim s.reference [ none ↦ false | some reference ↦ column_eq r.reference reference ]

-- INSERT INTO addresses: the CHECK, UNIQUE and PRIMARY KEY constraints of the table.
insert_address : AddressRow → Db → Result Db
insert_address row db = do
  guard (length row.public_keys == 64) (failure "CHECK constraint failed: length(public_keys) = 64")
  guard (str_eq row.kind "deposit" || str_eq row.kind "change")
      (failure "CHECK constraint failed: kind IN ('deposit','change')")
  guard (not (any (λ r. clashes r row) db.addresses))
      (failure "UNIQUE constraint failed: addresses")
  ok (record db { addresses = db.addresses ++ row ∷ [] })

-- ORDER BY child_index
abbrev pub by_index : AddressRow → AddressRow → Bool
by_index r s = leb r.child_index s.child_index

module _ (p : Platform) where
  -- What `AddAddress` binds to the columns; an empty reference is NULL.
  abbrev pub address_row : Address → AddressRow
  address_row a = record {
    child_index = a.index;
    address = p.address_string a.address;
    public_keys = p.keys_bytes a.public;
    reference = if str_eq a.reference "" then none else some a.reference;
    kind = a.kind;
    created_at = unix a.created_at;
  }

  unfoldable pub add_address : Address → Db → Result Db
  unfolding insert_address
  add_address a db = do word_arg a.index; insert_address (address_row a) db

  decode_address : ℕ → String → Bytes → String → String → ℕ → Result Address
  decode_address index address public reference kind created = do
    a ← p.parse_address address
    guard (length public == 64) (failure "invalid stored public-key descriptor")
    check (p.keys_validate (split_keys public))
    guard (p.keys_address (split_keys public) == a)
        (failure "stored address does not match public keys")
    ok (record {
      index = index;
      address = a;
      public = split_keys public;
      reference = reference;
      kind = kind;
      created_at = from_unix created;
    })

  -- The columns that every SELECT of an address reads.
  pub decode_row : AddressRow → Result Address
  unfolding decode_address
  decode_row r =
      decode_address r.child_index r.address r.public_keys (coalesce r.reference) r.kind
        r.created_at

  decode_found : Option AddressRow → Result (Option Address)
  unfolding decode_row
  decode_found none = ok none
  decode_found (some r) = do a ← decode_row r; ok (some a)

  unfoldable pub addresses_page : ℕ → ℕ → Db → Result (List Address)
  unfolding decode_row order_by
  addresses_page limit offset db = do
    guard (not (ltb limit 1 || ltb 10_000 limit)) (failure "invalid address pagination")
    map_result decode_row (limit_offset limit offset (order_by by_index db.addresses))

  -- The loop of `Addresses`; `fuel` bounds the pages that are read.
  addresses_from : ℕ → ℕ → Db → Result (List Address)
  addresses_from zero offset db = err (failure "out of fuel")
  addresses_from (suc fuel) offset db = do
    page ← addresses_page 10_000 offset db
    let more = addresses_from fuel (offset + 10_000) db >>= λ rest. ok (page ++ rest)
    if ltb (length page) 10_000 then ok page else more

  unfoldable pub all_addresses : Db → Result (List Address)
  unfolding addresses_from addresses_page
  all_addresses db = addresses_from (suc (length db.addresses)) 0 db

  unfoldable pub address_by_reference : String → Db → Result (Option Address)
  unfolding decode_found
  address_by_reference reference db =
      decode_found (find_first (λ r. column_eq r.reference reference) db.addresses)

  unfoldable pub address_by_index : ℕ → Db → Result (Option Address)
  unfolding decode_found
  address_by_index index db = decode_found (find_first (λ r. r.child_index == index) db.addresses)

  unfoldable pub address_by_hash : ℕ → Db → Result (Option Address)
  unfolding decode_found
  address_by_hash address db =
      decode_found (find_first (λ r. str_eq r.address (p.address_string address)) db.addresses)
