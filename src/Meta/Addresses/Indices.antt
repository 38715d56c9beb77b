-- ===== src/Meta/Addresses/Indices.antt =====
-- Child indices are given out in order, without gaps.
use qday_walletd.Common.{ℕ, suc, ◌+◌, max, ◌≡◌, List, [], ◌∷◌, ◌++◌, arith, length, length-append}
use qday_walletd.Types.{Platform, ok}
use qday_walletd.Meta.Tables.{AddressRow, Db}
use qday_walletd.Meta.Addresses.{Address, next_free, next_index, address_row, add_address}
use qday_walletd.Meta.Addresses.RoundTrip.{add_address-inv}

-- The rows carry the indices k, k + 1, … in the order of insertion.
abbrev pub CountsFrom : ℕ → List AddressRow → Type 0
CountsFrom k [] = Unit
CountsFrom k (r ∷ rows) = (r.child_index ≡ k) × CountsFrom (suc k) rows

abbrev pub IsGapless : Db → Type 0
IsGapless db = CountsFrom 0 db.addresses

next_free-CountsFrom :
    (k : ℕ) (rows : List AddressRow) → CountsFrom k rows → max k (next_free rows) ≡ k + length rows
unfolding next_free
next_free-CountsFrom k [] h = omega arith
next_free-CountsFrom k (r ∷ rows) h = omega (arith, next_free-CountsFrom (suc k) rows h.1)

CountsFrom-snoc :
    (k : ℕ) (rows : List AddressRow) (r : AddressRow)
    → CountsFrom k rows
    → r.child_index ≡ k + length rows
    → CountsFrom k (rows ++ r ∷ [])
CountsFrom-snoc k [] r h e = (omega arith, tt)
CountsFrom-snoc k (x ∷ rows) r h e = (h.0, CountsFrom-snoc (suc k) rows r h.1 (omega arith))

-- In a table without gaps the next index is the number of rows.
pub next_index-IsGapless : (db : Db) → IsGapless db → next_index db ≡ length db.addresses
unfolding next_index
next_index-IsGapless db h = omega (arith, next_free-CountsFrom 0 db.addresses h)

-- An address stored under the next index leaves no gap.
pub add_address-IsGapless :
    (p : Platform) (a : Address) (db db' : Db)
    → IsGapless db
    → a.index ≡ next_index db
    → add_address p a db ≡ ok db'
    → IsGapless db' × (length db'.addresses ≡ suc (length db.addresses))
add_address-IsGapless p a db db' h e added =
    let grown = (add_address-inv p a db db' added).1 in
    rw grown (
      CountsFrom-snoc 0 db.addresses (address_row p a) h (omega (arith, next_index-IsGapless db h)),
      omega (arith, length-append db.addresses (address_row p a ∷ [])),
    )
