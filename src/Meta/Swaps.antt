-- ===== src/Meta/Swaps.antt =====
-- internal/meta/swap.go: the session keys of swaps and the registered contracts.
pub mod Contracts
mod Tests
use Prim.Native.String.{compare}
use qday_walletd.Common.{
  ℕ, String, Bool, true, false, not, ◌&&◌, ◌||◌, Option, none, some, List, [], ◌∷◌, ◌++◌, Bytes,
  be_bytes, be_value, leb, ltb, ◌==◌, str_eq, any, find_first, length, if◌then◌else◌,
}
use Prim.Native.Nat.{Ordering}
use qday_walletd.Types.{
  Platform, QdayKeys, AtomicSwap, Result, ok, err, failure, ◌>>=◌, ◌>>◌, guard, check, map_result,
}
use qday_walletd.Meta.Tables.{
  SwapKeyRow, SwapRow, Db, word_arg, order_by, limit_offset, unix, from_unix,
}
use qday_walletd.Meta.Addresses.{split_keys}

pub record SwapKey : Type 0 where
  pub swap_id : String
  pub public : QdayKeys
  pub created_at : ℕ

pub record Swap : Type 0 where
  pub swap_id : String
  pub role : String
  pub recipient : QdayKeys
  pub refund : QdayKeys
  pub secret_hash : ℕ
  pub refund_height : ℕ
  pub address : ℕ
  pub created_at : ℕ

-- The contract of a record.
abbrev pub swap_contract : Swap → AtomicSwap
swap_contract s = record {
  recipient = s.recipient;
  refund = s.refund;
  secret_hash = s.secret_hash;
  refund_height = s.refund_height;
}

abbrev pub has_key_id : String → SwapKeyRow → Bool
has_key_id swap_id r = str_eq r.swap_id swap_id

abbrev pub has_swap_id : String → SwapRow → Bool
has_swap_id swap_id r = str_eq r.swap_id swap_id

-- The CHECK and PRIMARY KEY constraints of swap_keys.
insert_swap_key : SwapKeyRow → Db → Result Db
insert_swap_key row db = do
  guard (length row.public_keys == 64) (failure "CHECK constraint failed: length(public_keys) = 64")
  guard (not (any (has_key_id row.swap_id) db.swap_keys))
      (failure "UNIQUE constraint failed: swap_keys.swap_id")
  ok (record db { swap_keys = db.swap_keys ++ row ∷ [] })

-- The CHECK, UNIQUE and PRIMARY KEY constraints of swaps, and its foreign key.
insert_swap : SwapRow → Db → Result Db
insert_swap row db = do
  guard (str_eq row.role "recipient" || str_eq row.role "refund")
      (failure "CHECK constraint failed: role IN ('recipient','refund')")
  guard (length row.recipient_keys == 64 && length row.refund_keys == 64)
      (failure "CHECK constraint failed: length(keys) = 64")
  guard (length row.secret_hash == 32) (failure "CHECK constraint failed: length(secret_hash) = 32")
  guard (ltb 0 row.refund_height) (failure "CHECK constraint failed: refund_height > 0")
  guard (not (any (has_swap_id row.swap_id) db.swaps))
      (failure "UNIQUE constraint failed: swaps.swap_id")
  guard (not (any (λ r. str_eq r.contract_address row.contract_address) db.swaps))
      (failure "UNIQUE constraint failed: swaps.contract_address")
  guard (any (has_key_id row.swap_id) db.swap_keys) (failure "FOREIGN KEY constraint failed")
  ok (record db { swaps = db.swaps ++ row ∷ [] })

-- ORDER BY created_at DESC,swap_id DESC
abbrev pub newest_swap_first : SwapRow → SwapRow → Bool
newest_swap_first r s =
    if r.created_at == s.created_at
    then elim (compare r.swap_id s.swap_id) [ Ordering.lt ↦ false | _ ↦ true ]
    else ltb s.created_at r.created_at

module _ (p : Platform) where
  -- `decodeQdayKeys`
  abbrev pub decode_qday_keys : Bytes → Result QdayKeys
  decode_qday_keys raw = do
    guard (length raw == 64) (failure "invalid stored QDAY public-key descriptor")
    check (p.keys_validate (split_keys raw))
    ok (split_keys raw)

  abbrev pub swap_key_row : SwapKey → SwapKeyRow
  swap_key_row k = record {
    swap_id = k.swap_id;
    public_keys = p.keys_bytes k.public;
    created_at = unix k.created_at;
  }

  unfoldable pub add_swap_key : SwapKey → Db → Result Db
  unfolding insert_swap_key
  add_swap_key k db = insert_swap_key (swap_key_row k) db

  scan_swap_key : Option SwapKeyRow → Result (Option SwapKey)
  scan_swap_key none = ok none
  scan_swap_key (some r) = do
    public ← decode_qday_keys r.public_keys
    ok (some (record { swap_id = r.swap_id; public = public; created_at = from_unix r.created_at }))

  unfoldable pub swap_key : String → Db → Result (Option SwapKey)
  unfolding scan_swap_key
  swap_key swap_id db = scan_swap_key (find_first (has_key_id swap_id) db.swap_keys)

  abbrev pub swap_row : Swap → SwapRow
  swap_row s = record {
    swap_id = s.swap_id;
    role = s.role;
    recipient_keys = p.keys_bytes s.recipient;
    refund_keys = p.keys_bytes s.refund;
    secret_hash = be_bytes 32 s.secret_hash;
    refund_height = s.refund_height;
    contract_address = p.address_string s.address;
    created_at = unix s.created_at;
  }

  unfoldable pub add_swap : Swap → Db → Result Db
  unfolding insert_swap
  add_swap s db = do word_arg s.refund_height; insert_swap (swap_row s) db

  scanned_swap : SwapRow → QdayKeys → QdayKeys → ℕ → Swap
  scanned_swap r recipient refund address = record {
    swap_id = r.swap_id;
    role = r.role;
    recipient = recipient;
    refund = refund;
    secret_hash = be_value r.secret_hash;
    refund_height = r.refund_height;
    address = address;
    created_at = from_unix r.created_at;
  }

  pub scan_swap : SwapRow → Result Swap
  unfolding scanned_swap
  scan_swap r = do
    recipient ← decode_qday_keys r.recipient_keys
    refund ← decode_qday_keys r.refund_keys
    guard (length r.secret_hash == 32) (failure "invalid stored atomic-swap secret hash")
    address ← p.parse_address r.contract_address
    derived ← p.contract_address (swap_contract (scanned_swap r recipient refund address))
    guard (derived == address) (failure "stored atomic-swap address does not match its contract")
    ok (scanned_swap r recipient refund address)

  scan_swap_found : Option SwapRow → Result (Option Swap)
  unfolding scan_swap
  scan_swap_found none = ok none
  scan_swap_found (some r) = do s ← scan_swap r; ok (some s)

  unfoldable pub swap : String → Db → Result (Option Swap)
  unfolding scan_swap_found
  swap swap_id db = scan_swap_found (find_first (has_swap_id swap_id) db.swaps)

  unfoldable pub swaps : ℕ → ℕ → Db → Result (List Swap)
  unfolding scan_swap order_by
  swaps limit offset db = do
    guard (not (ltb limit 1 || ltb 10_000 limit)) (failure "invalid swap pagination")
    map_result scan_swap (limit_offset limit offset (order_by newest_swap_first db.swaps))
