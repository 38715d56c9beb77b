-- ===== src/Meta/Addresses/Pages.antt =====
-- The loop of `Addresses` reads every page.
use qday_walletd.Common.{
  ℕ, zero, suc, ◌+◌, ◌-◌, ◌*◌, true, ◌<◌, ◌≡◌, sym, ap, ◌∙◌, List, ◌++◌, arith, ltb, ltb→lt,
  ltb_false→le, Bool-cases, inl, inr, length, take, drop, length-take, length-drop,
  take-append-drop, take_all, drop-drop,
}
use qday_walletd.Types.{
  Platform, Result, ok, ◌>>=◌, Result-cases, map_result, map_result-append, length-map_result,
}
use qday_walletd.Meta.Tables.{Db, AddressRow, order_by, length-order_by}
use qday_walletd.Meta.Addresses.{
  addresses_page, addresses_from, all_addresses, decode_row, by_index,
}

module _ {A B : Type 0} (f : A → Result B) where
  -- The rows behind `offset`, read as a page and the rows after it.
  split_page :
      (n : ℕ) (xs : List A)
      → map_result f xs
        ≡ (map_result f (take n xs) >>= λ us. map_result f (drop n xs) >>= λ vs. ok (us ++ vs))
  split_page n xs =
      ap (map_result f) (sym (take-append-drop n xs)) ∙ map_result-append f (take n xs) (drop n xs)

  last_page :
      (n : ℕ) (xs : List A) {page : List B}
      → map_result f (take n xs) ≡ ok page
      → ltb (length page) n ≡ true
      → map_result f xs ≡ ok page
  last_page n xs e short =
      ap (map_result f) (
        sym (
          take_all n xs
            (omega (arith, ltb→lt _ _ short, length-map_result f (take n xs) e, length-take n xs))))
      ∙ e

module _ (p : Platform) (db : Db) where
  abbrev rows_from : ℕ → List AddressRow
  rows_from offset = drop offset (order_by by_index db.addresses)

  length-rows_from : (offset : ℕ) → length (rows_from offset) ≡ length db.addresses - offset
  length-rows_from offset = omega (
    arith,
    length-drop offset (order_by by_index db.addresses),
    length-order_by by_index db.addresses,
  )

  addresses_from_lem :
      (fuel offset : ℕ)
      → length db.addresses - offset < fuel * 10_000
      → addresses_from p fuel offset db ≡ map_result (decode_row p) (rows_from offset)
  unfolding addresses_from addresses_page
  addresses_from_lem zero offset h = absurd (omega arith)
  addresses_from_lem (suc fuel) offset h =
      let rows = rows_from offset in
      elim (Result-cases (map_result (decode_row p) (take 10_000 rows))) [
        | inr (e, bad) ↦ rw (split_page (decode_row p) 10_000 rows, bad)
        | inl (page, good) ↦ elim (Bool-cases (ltb (length page) 10_000)) [
          | inl short ↦ rw (good, short) (sym (last_page (decode_row p) 10_000 rows good short))
          | inr full ↦ rw (
            good,
            full,
            addresses_from_lem fuel (offset + 10_000) (
                omega (
                  arith,
                  ltb_false→le _ _ full,
                  length-map_result (decode_row p) (take 10_000 rows) good,
                  length-take 10_000 rows,
                  length-rows_from offset,
                )),
            split_page (decode_row p) 10_000 rows,
            good,
            drop-drop,
          )
        ]
      ]

-- `Addresses` returns every row in the order of its index, decoded, or the first row's error: its
-- pages of 10,000 lose nothing, and the loop ends.
pub all_addresses_lem :
    (p : Platform) (db : Db)
    → all_addresses p db ≡ map_result (decode_row p) (order_by by_index db.addresses)
unfolding all_addresses
all_addresses_lem p db = addresses_from_lem p db (suc (length db.addresses)) 0 (omega arith)
