-- ===== src/Meta/Tables.antt =====
-- internal/meta/store.go: the schema, and the clauses of SQL that the queries share.
use qday_walletd.Common.{
  ℕ, String, Bool, false, Option, none, some, List, [], ◌∷◌, ◌*◌, ◌/◌, ◌^◌, ◌≡◌, ◌↔◌, ◌⊎◌, inl, inr,
  Elem, All, All-of_Elem, All-Elem, Bool-cases, refl, suc, arith, Bytes, ltb, str_eq, if◌then◌else◌,
  take, drop, length,
}
use qday_walletd.Types.{Result, ok, err, failure}

-- Times are nanoseconds since the Unix epoch; the tables hold whole seconds.
abbrev pub nanoseconds : ℕ
nanoseconds = 1_000_000_000

-- `t.Unix()`
abbrev pub unix : ℕ → ℕ
unix t = t / nanoseconds

-- `time.Unix(seconds, 0).UTC()`
abbrev pub from_unix : ℕ → ℕ
from_unix seconds = seconds * nanoseconds

pub record AddressRow : Type 0 where
  pub child_index : ℕ
  pub address : String
  pub public_keys : Bytes
  pub reference : Option String
  pub kind : String
  pub created_at : ℕ

pub record WithdrawalRow : Type 0 where
  pub request_id : String
  pub kind : String
  pub transaction_blob : Bytes
  pub basis_height : ℕ
  pub basis_id : Bytes
  pub destination : String
  pub amount_atomic : String
  pub fee_atomic : String
  pub created_at : ℕ
  pub last_error : String
  pub confirmed_height : Option ℕ
  pub confirmed_block_id : Option Bytes

pub record SwapKeyRow : Type 0 where
  pub swap_id : String
  pub public_keys : Bytes
  pub created_at : ℕ

pub record SwapRow : Type 0 where
  pub swap_id : String
  pub role : String
  pub recipient_keys : Bytes
  pub refund_keys : Bytes
  pub secret_hash : Bytes
  pub refund_height : ℕ
  pub contract_address : String
  pub created_at : ℕ

pub record SwapActionRow : Type 0 where
  pub action_id : String
  pub swap_id : String
  pub kind : String
  pub output_id : String
  pub transaction_blob : Bytes
  pub basis_height : ℕ
  pub basis_id : Bytes
  pub destination : String
  pub amount_atomic : String
  pub fee_atomic : String
  pub created_at : ℕ
  pub last_error : String
  pub confirmed_height : Option ℕ
  pub confirmed_block_id : Option Bytes

pub record Db : Type 0 where
  pub addresses : List AddressRow
  pub withdrawals : List WithdrawalRow
  pub swap_keys : List SwapKeyRow
  pub swaps : List SwapRow
  pub swap_actions : List SwapActionRow

-- What `Open` creates in an empty file.
abbrev pub empty : Db
empty = record { addresses = []; withdrawals = []; swap_keys = []; swaps = []; swap_actions = [] }

-- The driver refuses a uint64 with its high bit set.
abbrev pub word_arg : ℕ → Result (Unit {0})
word_arg n =
    if ltb n (2 ^ 63)
    then ok tt
    else err (failure "uint64 values with high bit set are not supported")

-- Equality of a nullable text column with a text: NULL equals nothing.
abbrev pub column_eq : Option String → String → Bool
column_eq none s = false
column_eq (some t) s = str_eq t s

module _ {ℓ} {A : Type ℓ} where
  insert_by : (A → A → Bool) → A → List A → List A
  insert_by before x [] = x ∷ []
  insert_by before x (y ∷ ys) = if before x y then x ∷ y ∷ ys else y ∷ insert_by before x ys

  -- ORDER BY: `before x y` says that `x` is put in front of `y` if it comes first in the table.
  unfoldable pub order_by : (A → A → Bool) → List A → List A
  unfolding insert_by
  order_by before [] = []
  order_by before (x ∷ xs) = insert_by before x (order_by before xs)

  -- LIMIT and OFFSET
  abbrev pub limit_offset : ℕ → ℕ → List A → List A
  limit_offset limit offset rows = take limit (drop offset rows)

  length-insert_by :
      (before : A → A → Bool) (x : A) (ys : List A)
      → length (insert_by before x ys) ≡ suc (length ys)
  unfolding insert_by
  length-insert_by before x [] = refl
  length-insert_by before x (y ∷ ys) = ground (arith, length-insert_by before x ys)

  pub length-order_by :
      (before : A → A → Bool) (xs : List A) → length (order_by before xs) ≡ length xs
  unfolding order_by
  length-order_by before [] = refl
  length-order_by before (x ∷ xs) =
      omega (arith, length-insert_by before x (order_by before xs), length-order_by before xs)

module _ {A : Type 0} where
  Elem-insert_by :
      (before : A → A → Bool) (a x : A) (ys : List A)
      → Elem a (insert_by before x ys) ↔ ((a ≡ x) ⊎ Elem a ys)
  unfolding insert_by
  Elem-insert_by before a x [] = (λ m. m, λ m. m)
  Elem-insert_by before a x (y ∷ ys) = elim (Bool-cases (before x y)) [
    | inl first ↦ rw first (λ m. m, λ m. m)
    | inr later ↦ rw later (swap_in (Elem-insert_by before a x ys))
  ]
    where
      swap_in :
          Elem a (insert_by before x ys) ↔ ((a ≡ x) ⊎ Elem a ys)
          → ((a ≡ y) ⊎ Elem a (insert_by before x ys)) ↔ ((a ≡ x) ⊎ ((a ≡ y) ⊎ Elem a ys))
      swap_in ih = (ground (arith, ih), ground (arith, ih))

  -- ORDER BY neither loses a row nor makes one up.
  pub Elem-order_by :
      (before : A → A → Bool) (a : A) (xs : List A) → Elem a (order_by before xs) ↔ Elem a xs
  unfolding order_by
  Elem-order_by before a [] = (λ m. m, λ m. m)
  Elem-order_by before a (x ∷ xs) =
      let ih = Elem-order_by before a xs in
      let step = Elem-insert_by before a x (order_by before xs) in
      (
        λ m. elim (step.0 m) [ inl e ↦ inl e | inr r ↦ inr (ih.0 r) ],
        λ m. step.1 (elim m [ inl e ↦ inl e | inr r ↦ inr (ih.1 r) ]),
      )

  pub All-order_by :
      (before : A → A → Bool) (P : A → Type 0) (xs : List A) → All P xs → All P (order_by before xs)
  All-order_by before P xs h =
      All-of_Elem _ (λ x m. All-Elem P xs x h ((Elem-order_by before x xs).0 m))
