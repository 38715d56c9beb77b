-- ===== src/Meta/Swaps/Contracts.antt =====
-- A contract that was accepted is read back, and one that is read is the one of its address.
use qday_walletd.Common.{
  ℕ, String, ◌^◌, ◌<◌, ◌≡◌, refl, true, false, Option-cases, none, some, [], ◌∷◌, ◌++◌, arith, inl,
  inr, any, find_first, find_first-snoc, find_first_hit, ◌∙◌, eq_iff, eq_refl, length-be_bytes,
  be_value-be_bytes, ==_refl, ◌==◌,
}
use qday_walletd.Types.{Platform, QdayKeys, ok, Result-cases}
use qday_walletd.Meta.Tables.{Db, SwapRow, unix, from_unix}
use qday_walletd.Meta.Codec.{Codec, FitsKeys}
use qday_walletd.Meta.Addresses.RoundTrip.{split_keys-keys_bytes, length-keys_bytes}
use qday_walletd.Meta.Swaps.{
  Swap, swap_contract, has_swap_id, swap_row, add_swap, scan_swap, scanned_swap, scan_swap_found,
  swap, decode_qday_keys,
}

-- A record as `RegisterSwap` builds it: valid keys, and the address of its contract.
pub record IsContract (p : Platform) (s : Swap) : Type 0 where
  pub recipient_fits : FitsKeys s.recipient
  pub refund_fits : FitsKeys s.refund
  pub recipient_valid : p.keys_validate s.recipient ≡ none
  pub refund_valid : p.keys_validate s.refund ≡ none
  pub hash_fits : s.secret_hash < 2 ^ 256
  pub address_fits : s.address < 2 ^ 256
  pub derived : p.contract_address (swap_contract s) ≡ ok s.address

-- The record with its time cut to whole seconds.
abbrev pub stored : Swap → Swap
stored s = record s { created_at = from_unix (unix s.created_at) }

pub add_swap-inv :
    (p : Platform) (s : Swap) (db db' : Db)
    → add_swap p s db ≡ ok db'
    → (any (has_swap_id s.swap_id) db.swaps ≡ false)
      × (db' ≡ record db { swaps = db.swaps ++ swap_row p s ∷ [] })
unfolding add_swap
add_swap-inv p s db db' e = (ground arith, ground arith)

module _ (p : Platform) (c : Codec p) where
  decode_qday_keys-keys_bytes :
      (k : QdayKeys)
      → FitsKeys k
      → p.keys_validate k ≡ none
      → decode_qday_keys p (p.keys_bytes k) ≡ ok k
  decode_qday_keys-keys_bytes k fits valid =
      rw (length-keys_bytes p c k, split_keys-keys_bytes p c k fits, valid) refl

  scan_swap-swap_row : (s : Swap) → IsContract p s → scan_swap p (swap_row p s) ≡ ok (stored s)
  unfolding scan_swap scanned_swap
  scan_swap-swap_row s h = rw (
    decode_qday_keys-keys_bytes s.recipient h.recipient_fits h.recipient_valid,
    decode_qday_keys-keys_bytes s.refund h.refund_fits h.refund_valid,
    length-be_bytes 32 s.secret_hash,
    c.parse_address_string s.address h.address_fits,
    be_value-be_bytes 32 s.secret_hash h.hash_fits,
    h.derived,
    ==_refl s.address,
  )

-- A contract with valid keys and the address that its terms have, as `RegisterSwap` builds it, is, once
-- `AddSwap` accepts it, what `Swap` returns for its identifier, with its time in whole seconds.
-- `AddSwap` itself checks neither the keys nor the address.
pub add_swap-swap :
    (p : Platform) (c : Codec p) (s : Swap) (db db' : Db)
    → IsContract p s
    → add_swap p s db ≡ ok db'
    → swap p s.swap_id db' ≡ ok (some (stored s))
unfolding swap scan_swap_found
add_swap-swap p c s db db' h e =
    let (fresh, grown) = add_swap-inv p s db db' e in
    rw (
      grown,
      find_first-snoc (has_swap_id s.swap_id) db.swaps (swap_row p s) fresh (eq_refl s.swap_id),
      scan_swap-swap_row p c s h,
    )

module _ (p : Platform) (r : SwapRow) where
  address_checked :
      (recipient refund : QdayKeys) (address derived : ℕ) (s : Swap)
      → p.contract_address (swap_contract (scanned_swap p r recipient refund address)) ≡ ok derived
      → (derived == address) ≡ true
      → s ≡ scanned_swap p r recipient refund address
      → (p.contract_address (swap_contract s) ≡ ok s.address) × (s.swap_id ≡ r.swap_id)
  unfolding scanned_swap
  address_checked recipient refund address derived s d e same =
      let equal : derived ≡ address = ground arith in rw (same, d, equal) (refl, refl)

  scan_swap-inv :
      (s : Swap)
      → scan_swap p r ≡ ok s
      → (p.contract_address (swap_contract s) ≡ ok s.address) × (s.swap_id ≡ r.swap_id)
  unfolding scan_swap
  scan_swap-inv s e = elim (Result-cases (decode_qday_keys p r.recipient_keys)) [
    | inr (b, bad) ↦ absurd (ground arith)
    | inl (recipient, k) ↦ elim (Result-cases (decode_qday_keys p r.refund_keys)) [
      | inr (b, bad) ↦ absurd (ground arith)
      | inl (refund, l) ↦ elim (Result-cases (p.parse_address r.contract_address)) [
        | inr (b, bad) ↦ absurd (ground arith)
        | inl (address, m) ↦
            elim (Result-cases
              (p.contract_address (swap_contract (scanned_swap p r recipient refund address)))) [
                | inr (b, bad) ↦ absurd (ground arith)
                | inl (derived, d) ↦
                    address_checked recipient refund address derived s d (ground arith)
                      (ground arith)
              ]
      ]
    ]
  ]

-- Whatever row the table holds, a swap that `Swap` returns carries the identifier that was asked for and
-- the address of its own contract: a row whose address was changed is refused.
pub swap-contract_address :
    (p : Platform) (swap_id : String) (db : Db) (s : Swap)
    → swap p swap_id db ≡ ok (some s)
    → (p.contract_address (swap_contract s) ≡ ok s.address) × (s.swap_id ≡ swap_id)
unfolding swap scan_swap_found
swap-contract_address p swap_id db s e =
    elim (Option-cases (find_first (has_swap_id swap_id) db.swaps)) [
      | inl gone ↦ absurd (ground arith)
      | inr (r, hit) ↦
          let checked = scan_swap-inv p r s (ground arith) in
          let named = find_first_hit (has_swap_id swap_id) db.swaps r hit in
          (checked.0, checked.1 ∙ ground (arith, eq_iff r.swap_id swap_id))
    ]
