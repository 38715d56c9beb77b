-- ===== src/Api/Pages.antt =====
-- internal/api/api.go, `pagination`: the pages that a client can ask for.
use Prim.Native.Char.{Char, code}
use qday_walletd.Common.{
  ℕ, zero, suc, ◌+◌, ◌-◌, ◌*◌, ◌^◌, ◌/◌, ◌%◌, ◌≤◌, ◌<◌, ◌≡◌, refl, ◌∙◌, ap, String, str_eq, eq_iff,
  Bool, true, false, not, ◌&&◌, ◌||◌, Bool-cases, inl, inr, Option, none, some, List, ◌∷◌, codes,
  arith, ltb, leb, lt→ltb, ltb→lt, ltb_false→le, ◌==◌, ==_iff, decimal, hex_digit, check_below,
  check_below-true, decimal_from,
}
use qday_walletd.Types.{Result-cases, ok}
use qday_walletd.Api.Requests.{
  Request, digits_from, some_digits, as_integer, atoi, value_or, pagination,
}

-- A character that is written for a number below ten.
record IsDigit (c : Char) (d : ℕ) : Type 0 where
  pub low : (leb b'0' (code c) && leb (code c) b'9') ≡ true
  pub value : code c - b'0' ≡ d
  pub not_minus : str_eq (String.◌∷◌ c "") "-" ≡ false
  pub not_plus : str_eq (String.◌∷◌ c "") "+" ≡ false

abbrev is_digit : Char → ℕ → Bool
is_digit c d =
    leb b'0' (code c)
    && leb (code c) b'9'
    && code c - b'0' == d
    && not (str_eq (String.◌∷◌ c "") "-")
    && not (str_eq (String.◌∷◌ c "") "+")

hex_digit-IsDigit : (d : ℕ) → d < 10 → IsDigit (hex_digit d) d
unfolding check_below
hex_digit-IsDigit d h =
    let all_good : is_digit (hex_digit d) d ≡ true =
      check_below-true 10 (λ n. is_digit (hex_digit n) n) d refl h in
    record {
      low = ground arith;
      value = (==_iff (code (hex_digit d) - b'0') d).0 (ground arith);
      not_minus = ground arith;
      not_plus = ground arith;
    }

digits_from-digit :
    (c : Char) (d acc : ℕ) (cs : List ℕ)
    → IsDigit c d
    → digits_from acc (code c ∷ cs) ≡ digits_from (acc * 10 + d) cs
digits_from-digit c d acc cs h = rw (h.low, h.value)

-- The digits that are printed are read back, in front of other characters.
digits_from-decimal_from :
    (fuel n : ℕ) (s : String)
    → n < 10 ^ fuel
    → digits_from 0 (codes (decimal_from fuel n s)) ≡ digits_from n (codes s)
unfolding decimal_from
digits_from-decimal_from zero n s h = let none_left : n ≡ 0 = omega (arith, h) in rw none_left
digits_from-decimal_from (suc fuel) n s h =
    let last = hex_digit-IsDigit (n % 10) (omega arith) in
    elim (Bool-cases (ltb n 10)) [
      | inl small ↦
          let same : 0 * 10 + n % 10 ≡ n = omega (arith, ltb→lt n 10 small) in
          rw small (
            digits_from-digit (hex_digit (n % 10)) (n % 10) 0 (codes s) last
            ∙ ap (λ m. digits_from m (codes s)) same)
      | inr large ↦ rw large (
          digits_from-decimal_from fuel (n / 10) (String.◌∷◌ (hex_digit (n % 10)) s)
            (omega (arith, h))
          ∙ digits_from-digit (hex_digit (n % 10)) (n % 10) (n / 10) (codes s) last
          ∙ ap (λ m. digits_from m (codes s)) (omega arith))
    ]

-- What is printed starts with a digit.
decimal_from-head :
    (fuel n : ℕ) (s : String)
    → (c : Char) × (d : ℕ) × (t : String) × IsDigit c d
      × (decimal_from (suc fuel) n s ≡ String.◌∷◌ c t)
unfolding decimal_from
decimal_from-head zero n s = elim (Bool-cases (ltb n 10)) [
  | inl small ↦
      (hex_digit (n % 10), n % 10, s, hex_digit-IsDigit (n % 10) (omega arith), rw small refl)
  | inr large ↦
      (hex_digit (n % 10), n % 10, s, hex_digit-IsDigit (n % 10) (omega arith), rw large refl)
]
decimal_from-head (suc fuel) n s =
    let (c, d, t, digit, spelt) =
      decimal_from-head fuel (n / 10) (String.◌∷◌ (hex_digit (n % 10)) s) in
    elim (Bool-cases (ltb n 10)) [
      | inl small ↦
          (hex_digit (n % 10), n % 10, s, hex_digit-IsDigit (n % 10) (omega arith), rw small refl)
      | inr large ↦ (c, d, t, digit, rw large spelt)
    ]

pub atoi-decimal : (n : ℕ) → n < 2 ^ 63 → atoi (decimal n) ≡ ok (false, n)
unfolding atoi decimal
atoi-decimal n h =
    let (c, d, t, digit, spelt) = decimal_from-head 19 n "" in
    let read : digits_from 0 (codes (decimal_from 20 n "")) ≡ some n =
      digits_from-decimal_from 20 n "" (omega (arith, h)) in
    let there : digits_from 0 (code c ∷ codes t) ≡ some n = rw spelt at read in
    rw (spelt, digit.not_minus, digit.not_plus, there, lt→ltb n (2 ^ 63) h) refl

given : (c : Char) (t : String) → str_eq (String.◌∷◌ c t) "" ≡ false
given c t = elim (Bool-cases (str_eq (String.◌∷◌ c t) "")) [
  | inl same ↦ let never = ap codes ((eq_iff (String.◌∷◌ c t) "").0 same) in absurd (ground arith)
  | inr other ↦ other
]

decimal_given : (n : ℕ) → str_eq (decimal n) "" ≡ false
unfolding decimal
decimal_given n = let (c, d, t, digit, spelt) = decimal_from-head 19 n "" in rw spelt (given c t)

value_or-decimal : (standard n : ℕ) → n < 2 ^ 63 → value_or standard (decimal n) ≡ ok (false, n)
unfolding value_or
value_or-decimal standard n h = rw (decimal_given n) (atoi-decimal n h)

as_integer-inv :
    (minus : Bool) (o : Option ℕ) (m : Bool) (n : ℕ)
    → as_integer minus o ≡ ok (m, n)
    → m ≡ false
    → n < 2 ^ 63
as_integer-inv minus none m n e positive = absurd (ground arith)
as_integer-inv minus (some k) m n e positive = elim (Bool-cases (ltb k (2 ^ 63))) [
  | inl small ↦
      let fits = ltb→lt k (2 ^ 63) small in
      let same : k ≡ n = ground arith in omega (arith, fits, same)
  | inr large ↦ absurd (elim (Bool-cases (minus && k == 2 ^ 63)) [
    | inl least ↦
        let is_least : k ≡ 2 ^ 63 = (==_iff k (2 ^ 63)).0 (ground arith) in
        let below_zero : minus ≡ true = ground arith in
        let whole = rw (is_least, below_zero) at e in
        let signed : m ≡ true = ground arith in ground arith
    | inr other ↦ ground arith
  ])
]

atoi-inv : (s : String) (m : Bool) (n : ℕ) → atoi s ≡ ok (m, n) → m ≡ false → n < 2 ^ 63
unfolding atoi
atoi-inv String.[] m n e positive = absurd (ground arith)
atoi-inv (String.◌∷◌ c s) m n e positive = elim (Bool-cases (str_eq (String.◌∷◌ c "") "-")) [
  | inl minus ↦ as_integer-inv true (some_digits (codes s)) m n (rw minus at e) positive
  | inr bare ↦ elim (Bool-cases (str_eq (String.◌∷◌ c "") "+")) [
    | inl plus ↦ as_integer-inv false (some_digits (codes s)) m n (rw (bare, plus) at e) positive
    | inr digits ↦
        as_integer-inv false (some_digits (code c ∷ codes s)) m n (rw (bare, digits) at e) positive
  ]
]

value_or-inv :
    (standard n : ℕ) (value : String) (minus : Bool)
    → standard < 2 ^ 63
    → value_or standard value ≡ ok (minus, n)
    → minus ≡ false
    → n < 2 ^ 63
unfolding value_or atoi
value_or-inv standard n value minus h e positive = elim (Bool-cases (str_eq value "")) [
  | inl absent ↦ let same : standard ≡ n = ground arith in omega (arith, h, same)
  | inr given ↦ atoi-inv value minus n (rw given at e) positive
]

-- What a page may be.
pub record IsAllowed (limit offset : ℕ) : Type 0 where
  pub some_limit : 1 ≤ limit
  pub few : limit ≤ 200
  pub in_range : offset < 2 ^ 63

-- A page that is accepted has a limit from 1 to 200 and an offset below 2^63, and every such page can
-- be asked for, in decimal digits.
pub pagination-IsAllowed :
    (request : Request) (limit offset : ℕ)
    → (pagination request ≡ ok (limit, offset) → IsAllowed limit offset)
      × (IsAllowed limit offset
          → pagination (record request { limit = decimal limit; offset = decimal offset })
            ≡ ok (limit, offset))
unfolding pagination
pagination-IsAllowed request limit offset = (
  λ e. elim (Result-cases (value_or 50 request.limit)) [
    | inr (b, bad) ↦ absurd (ground arith)
    | inl ((below, l), asked) ↦ elim (Result-cases (value_or 0 request.offset)) [
      | inr (b, bad) ↦ absurd (ground arith)
      | inl ((under, o), from) ↦ elim (Bool-cases (below || ltb l 1 || ltb 200 l || under)) [
        | inl outside ↦ absurd (ground arith)
        | inr inside ↦
            let same_limit : l ≡ limit = ground arith in
            let same_offset : o ≡ offset = ground arith in
            let positive : under ≡ false = ground arith in
            let least = ltb_false→le l 1 (ground arith) in
            let most = ltb_false→le 200 l (ground arith) in
            let fits = value_or-inv 0 o request.offset under (omega arith) from positive in
            record {
              some_limit = omega (arith, least, same_limit);
              few = omega (arith, most, same_limit);
              in_range = omega (arith, fits, same_offset);
            }
      ]
    ]
  ],
  λ h.
      let large : ltb limit 1 ≡ false = ground (arith, h.some_limit) in
      let small : ltb 200 limit ≡ false = ground (arith, h.few) in
      rw
        (
          value_or-decimal 50 limit (let few = h.few in omega (arith, few)),
          value_or-decimal 0 offset h.in_range,
          large,
          small,
        )
        refl,
)
