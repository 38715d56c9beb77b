-- ===== src/Meta/Transactions.antt =====
-- internal/meta/store.go: the encoding of stored transactions, and the columns that the journal of
-- withdrawals and the journal of swap actions share.
use qday_walletd.Common.{
  ℕ, String, Bool, true, false, not, ◌&&◌, ◌||◌, Option, none, some, List, [], ◌∷◌, ◌≡◌, refl,
  arith, Bytes, be_bytes, be_value, leb, ltb, ◌==◌, length, if◌then◌else◌, ◌-◌, ◌+◌, ◌<◌, ◌≤◌, ◌^◌,
  find_first, str_eq, eq_iff, length-be_bytes, be_value-be_bytes,
}
use qday_walletd.Meta.Codec.{Codec}
use qday_walletd.Types.{
  Platform, Transaction, ChainIndex, Result, ok, err, failure, ◌>>=◌, ◌>>◌, guard,
}

-- `bytes.Equal`
abbrev pub bytes_eq : Bytes → Bytes → Bool
bytes_eq [] [] = true
bytes_eq [] (b ∷ bs) = false
bytes_eq (a ∷ xs) [] = false
bytes_eq (a ∷ xs) (b ∷ bs) = a == b && bytes_eq xs bs

pub bytes_eq_refl : (a : Bytes) → bytes_eq a a ≡ true
bytes_eq_refl [] = refl
bytes_eq_refl (x ∷ a) = ground (arith, bytes_eq_refl a)

abbrev pub max_transaction : ℕ
max_transaction = 4_194_304

module _ (p : Platform) where
  -- Reads a stored transaction, and refuses bytes that are not its canonical encoding.
  unfoldable pub decode_transaction : Bytes → Result Transaction
  decode_transaction raw = do
    guard (not (length raw == 0 || ltb max_transaction (length raw)))
        (failure "invalid stored transaction size")
    txn ← p.decode_transaction raw
    canonical ← p.encode_transaction txn
    guard (bytes_eq raw canonical) (failure "non-canonical stored transaction")
    ok txn

-- The columns confirmed_height and confirmed_block_id: both NULL, or a height and 32 bytes.
unfoldable pub scan_confirmation : String → Option ℕ → Option Bytes → Result (Option ChainIndex)
scan_confirmation message none none = ok none
scan_confirmation message (some height) (some id) = do
  guard (length id == 32) (failure message)
  ok (some (record { height = height; id = be_value id }))
scan_confirmation message _ _ = err (failure message)

abbrev pub confirmed_height : Option ChainIndex → Option ℕ
confirmed_height none = none
confirmed_height (some index) = some index.height

abbrev pub confirmed_id : Option ChainIndex → Option Bytes
confirmed_id none = none
confirmed_id (some index) = some (be_bytes 32 index.id)

-- WHERE confirmed_height IS NULL OR confirmed_height>=?
abbrev pub is_candidate : ℕ → Option ℕ → Bool
is_candidate cutoff none = true
is_candidate cutoff (some height) = leb cutoff height

-- The height below which a confirmation is no longer watched.
abbrev pub cutoff_height : ℕ → ℕ → ℕ
cutoff_height tip_height reorg_window =
    if ltb reorg_window tip_height then tip_height - reorg_window else 0

module _ {ℓ} {A : Type ℓ} where
  -- The row that a lookup finds after a change of that row.
  abbrev pub map_found : (A → A) → Option A → Option A
  map_found f none = none
  map_found f (some r) = some (f r)

  -- UPDATE … WHERE: the rows, and how many were changed.
  abbrev pub update_rows : (A → Bool) → (A → A) → List A → List A
  update_rows q f [] = []
  update_rows q f (r ∷ rows) = (if q r then f r else r) ∷ update_rows q f rows

  abbrev pub affected : (A → Bool) → List A → ℕ
  affected q [] = 0
  affected q (r ∷ rows) = (if q r then 1 else 0) + affected q rows

-- A row is still found by its key after an UPDATE that leaves the keys alone: changed if its key was
-- named, as it was otherwise.
pub find_first-update_rows :
    {A : Type 0} (key : A → String) (f : A → A) (j k : String) (rows : List A)
    → ((r : A) → key (f r) ≡ key r)
    → find_first (λ r. str_eq (key r) j) (update_rows (λ r. str_eq (key r) k) f rows) ≡ (
        if str_eq k j
        then map_found f (find_first (λ r. str_eq (key r) j) rows)
        else find_first (λ r. str_eq (key r) j) rows)
find_first-update_rows key f j k [] h = ground arith
find_first-update_rows key f j k (r ∷ rows) h = ground (
  arith,
  h r,
  eq_iff (key r) j,
  eq_iff (key r) k,
  eq_iff k j,
  eq_iff (key (f r)) j,
  find_first-update_rows key f j k rows h,
)

-- What a stored pair of confirmation columns reads back as.
pub scan_confirmation-stored :
    (message : String) (index : ChainIndex)
    → index.id < 2 ^ 256
    → scan_confirmation message (confirmed_height (some index)) (confirmed_id (some index))
      ≡ ok (some index)
unfolding scan_confirmation
scan_confirmation-stored message index h =
    rw (length-be_bytes 32 index.id, be_value-be_bytes 32 index.id h)

pub scan_confirmation-height :
    (message : String) (height : Option ℕ) (id : Option Bytes) (confirmed : Option ChainIndex)
    → scan_confirmation message height id ≡ ok confirmed
    → confirmed_height confirmed ≡ height
unfolding scan_confirmation
scan_confirmation-height message none none confirmed e = ground arith
scan_confirmation-height message none (some id) confirmed e = ground arith
scan_confirmation-height message (some height) none confirmed e = ground arith
scan_confirmation-height message (some height) (some id) confirmed e = ground arith

size_test :
    (raw : Bytes)
    → 0 < length raw
    → length raw ≤ max_transaction
    → not (length raw == 0 || ltb max_transaction (length raw)) ≡ true
size_test raw pos fits = ground arith

module _ (p : Platform) (c : Codec p) where
  -- A canonical encoding of a size that fits is read back.
  pub decode_transaction-encoded :
      (txn : Transaction) (raw : Bytes)
      → p.encode_transaction txn ≡ ok raw
      → 0 < length raw
      → length raw ≤ max_transaction
      → decode_transaction p raw ≡ ok txn
  unfolding decode_transaction
  decode_transaction-encoded txn raw e pos fits =
      rw (size_test raw pos fits, c.decode_encoded txn raw e, e, bytes_eq_refl raw)
