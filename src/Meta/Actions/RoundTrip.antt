-- ===== src/Meta/Actions/RoundTrip.antt =====
-- An accepted swap action is read back.
use qday_walletd.Common.{
  ◌^◌, ◌<◌, ◌≤◌, ◌≡◌, refl, true, false, none, some, [], ◌∷◌, ◌++◌, arith, Bytes, inl, inr, any,
  any-append, find_first-snoc, eq_refl, length, length-be_bytes, be_value-be_bytes,
}
use qday_walletd.Types.{Platform, currency_limit, ok, Result-cases}
use qday_walletd.Meta.Tables.{Db, unix, from_unix}
use qday_walletd.Meta.Codec.{Codec}
use qday_walletd.Meta.Transactions.{max_transaction, decode_transaction-encoded, scan_confirmation}
use qday_walletd.Meta.Actions.{
  SwapAction, is_action_of, swap_action_row, add_swap_action, scan_swap_action, scan_action_found,
  swap_action,
}

-- The fields lie in the ranges of their types, and the encoded transaction in the size that the
-- decoder admits.
pub record IsStorable (p : Platform) (raw : Bytes) (a : SwapAction) : Type 0 where
  pub encoded : p.encode_transaction a.transaction ≡ ok raw
  pub not_empty : 0 < length raw
  pub not_large : length raw ≤ max_transaction
  pub basis_fits : a.basis.id < 2 ^ 256
  pub destination_fits : a.destination < 2 ^ 256
  pub amount_fits : a.amount < currency_limit
  pub fee_fits : a.fee < currency_limit

-- A new record as the journal holds it: not confirmed, its time in whole seconds.
abbrev pub stored : SwapAction → SwapAction
stored a = record a { confirmed = none; created_at = from_unix (unix a.created_at) }

-- An accepted INSERT met no row of that swap, kind and output, and put its row at the end.
pub add_swap_action-inv :
    (p : Platform) (a : SwapAction) (db db' : Db)
    → add_swap_action p a db ≡ ok db'
    → (raw : Bytes) × (p.encode_transaction a.transaction ≡ ok raw)
      × (any (is_action_of a.swap_id a.kind a.output_id) db.swap_actions ≡ false)
      × (db' ≡ record db { swap_actions = db.swap_actions ++ swap_action_row p raw a ∷ [] })
unfolding add_swap_action
add_swap_action-inv p a db db' e = elim (Result-cases (p.encode_transaction a.transaction)) [
  | inl (raw, encoded) ↦ (raw, encoded, ground arith, ground arith)
  | inr (b, bad) ↦ absurd (ground arith)
]

own_row :
    (p : Platform) (raw : Bytes) (a : SwapAction)
    → is_action_of a.swap_id a.kind a.output_id (swap_action_row p raw a) ≡ true
own_row p raw a = rw (eq_refl a.swap_id, eq_refl a.kind, eq_refl a.output_id) refl

scan_swap_action-row :
    (p : Platform) (c : Codec p) (raw : Bytes) (a : SwapAction)
    → IsStorable p raw a
    → scan_swap_action p (swap_action_row p raw a) ≡ ok (stored a)
unfolding scan_swap_action scan_confirmation
scan_swap_action-row p c raw a h = rw (
  length-be_bytes 32 a.basis.id,
  decode_transaction-encoded p c a.transaction raw h.encoded h.not_empty h.not_large,
  c.parse_address_string a.destination h.destination_fits,
  c.parse_exact_string a.amount h.amount_fits,
  c.parse_exact_string a.fee h.fee_fits,
  be_value-be_bytes 32 a.basis.id h.basis_fits,
)

-- An action that `AddSwapAction` accepts, whose encoded transaction has from 1 byte to 4 MiB and whose
-- hashes and amounts lie in the ranges of their types, is what `SwapAction` returns for its swap, kind
-- and output: not confirmed and with its time in whole seconds. The size is checked only where the row
-- is read.
pub add_swap_action-swap_action :
    (p : Platform) (c : Codec p) (raw : Bytes) (a : SwapAction) (db db' : Db)
    → IsStorable p raw a
    → add_swap_action p a db ≡ ok db'
    → swap_action p a.swap_id a.kind a.output_id db' ≡ ok (some (stored a))
unfolding swap_action scan_action_found
add_swap_action-swap_action p c raw a db db' h e =
    let (raw', encoded, fresh, grown) = add_swap_action-inv p a db db' e in
    let same : raw' ≡ raw = cc (encoded, h.encoded) in
    rw (
      grown,
      find_first-snoc (is_action_of a.swap_id a.kind a.output_id) db.swap_actions
          (swap_action_row p raw' a) fresh (own_row p raw' a),
      same,
      scan_swap_action-row p c raw a h,
    )

-- The row of an accepted INSERT is there.
pub add_swap_action-taken :
    (p : Platform) (a : SwapAction) (db db' : Db)
    → add_swap_action p a db ≡ ok db'
    → any (is_action_of a.swap_id a.kind a.output_id) db'.swap_actions ≡ true
add_swap_action-taken p a db db' e =
    let (raw, encoded, fresh, grown) = add_swap_action-inv p a db db' e in
    rw
      (
        grown,
        any-append (is_action_of a.swap_id a.kind a.output_id) db.swap_actions
            (swap_action_row p raw a ∷ []),
        fresh,
        own_row p raw a,
      )
      refl
