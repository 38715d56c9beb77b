-- ===== src/Types/Errors.antt =====
-- Go's errors, and the results of functions that may fail.
use Prim.Native.String.{String}
use mathlib.Core.Path.{◌≡◌, refl}
use mathlib.Core.Logic.{◌⊎◌, inl, inr}
use mathlib.Core.Option.{Option, none, some}
use mathlib.Core.Bool.{Bool, true, false}
use mathlib.Core.List.{List, [], ◌∷◌, ◌++◌}
use qday_walletd.Common.{arith, length, Elem}

-- `no_peers` is an error for which `errors.Is(err, syncer.ErrNoPeers)` holds, with its text. A panic
-- runs the deferred calls and is recovered by the HTTP server, so it is an error here too.
pub data Error : Type 0 where
  failure : String → Error
  no_peers : String → Error
  panic : String → Error

-- `err.Error()`
abbrev pub error_text : Error → String
error_text (failure s) = s
error_text (no_peers s) = s
error_text (panic s) = s

pub data Result {ℓ} (A : Type ℓ) : Type ℓ where
  ok : A → Result A
  err : Error → Result A

-- A condition that the code tests before it goes on.
abbrev pub guard : Bool → Error → Result (Unit {0})
guard false failed = err failed
guard true failed = ok tt

-- A check that returns an error or nil.
abbrev pub check : Option Error → Result (Unit {0})
check none = ok tt
check (some e) = err e

infixl 5 ◌>>=◌ ◌>>◌
-- The first error is returned; the rest is not run.
abbrev pub ◌>>=◌ {ℓ κ} : {A : Type ℓ} {B : Type κ} → Result A → (A → Result B) → Result B
err failed >>= next = err failed
ok value >>= next = next value

abbrev pub ◌>>◌ {κ} : {B : Type κ} → Result (Unit {0}) → Result B → Result B
first >> second = first >>= λ done. second

-- Every element in order; the first error ends the loop.
abbrev pub map_result {ℓ κ} : {A : Type ℓ} {B : Type κ} → (A → Result B) → List A → Result (List B)
map_result f [] = ok []
map_result f (x ∷ xs) = f x >>= λ y. map_result f xs >>= λ ys. ok (y ∷ ys)

pub Result-cases {ℓ} :
    {A : Type ℓ} (r : Result A) → ((a : A) × (r ≡ ok a)) ⊎ ((e : Error) × (r ≡ err e))
Result-cases (ok a) = inl (a, refl)
Result-cases (err e) = inr (e, refl)

pub map_result-append {ℓ κ} :
    {A : Type ℓ} {B : Type κ} (f : A → Result B) (xs ys : List A)
    → map_result f (xs ++ ys) ≡ (map_result f xs >>= λ us. map_result f ys >>= λ vs. ok (us ++ vs))
map_result-append f [] ys = ground arith
map_result-append f (x ∷ xs) ys = ground (arith, map_result-append f xs ys)

pub length-map_result {ℓ κ} :
    {A : Type ℓ} {B : Type κ} (f : A → Result B) (xs : List A) {ys : List B}
    → map_result f xs ≡ ok ys
    → length ys ≡ length xs
length-map_result f [] {ys} e = ground arith
length-map_result f (x ∷ xs) {ys} e = elim (Result-cases (f x)) [
  | inl (y, fx) ↦ elim (Result-cases (map_result f xs)) [
    | inl (zs, rest) ↦ ground (arith, length-map_result f xs rest)
    | inr (b, rest) ↦ ground arith
  ]
  | inr (b, fx) ↦ ground arith
]

-- What the loop returns is what it read, element by element.
pub Elem-map_result :
    {A B : Type 0} (f : A → Result B) (xs : List A) {ys : List B} (x : A) (y : B)
    → map_result f xs ≡ ok ys
    → Elem x xs
    → f x ≡ ok y
    → Elem y ys
Elem-map_result f [] x y e m fx = absurd m
Elem-map_result f (z ∷ xs) {ys} x y e m fx = elim (Result-cases (f z)) [
  | inr (b, bad) ↦ absurd (ground arith)
  | inl (v, fz) ↦ elim (Result-cases (map_result f xs)) [
    | inr (b, bad) ↦ absurd (ground arith)
    | inl (vs, rest) ↦
        let whole : ys ≡ v ∷ vs = ground arith in
        rw whole (elim m [
          | inl here ↦ inl (cc (fx, fz, here))
          | inr later ↦ inr (Elem-map_result f xs x y rest later fx)
        ])
  ]
]

pub Elem-map_result_inv :
    {A B : Type 0} (f : A → Result B) (xs : List A) {ys : List B} (y : B)
    → map_result f xs ≡ ok ys
    → Elem y ys
    → (x : A) × Elem x xs × (f x ≡ ok y)
Elem-map_result_inv f [] {ys} y e m = let whole : ys ≡ [] = ground arith in absurd (rw whole at m)
Elem-map_result_inv {A} {B} f (z ∷ xs) {ys} y e m = elim (Result-cases (f z)) [
  | inr (b, bad) ↦ absurd (ground arith)
  | inl (v, fz) ↦ elim (Result-cases (map_result f xs)) [
    | inr (b, bad) ↦ absurd (ground arith)
    | inl (vs, rest) ↦
        let whole : ys ≡ v ∷ vs = ground arith in
        from_head v vs fz (Elem-map_result_inv f xs y rest) (rw whole at m)
  ]
]
  where
    from_head :
        (v : B) (vs : List B)
        → f z ≡ ok v
        → (Elem y vs → (x : A) × Elem x xs × (f x ≡ ok y))
        → (y ≡ v) ⊎ Elem y vs
        → (x : A) × ((x ≡ z) ⊎ Elem x xs) × (f x ≡ ok y)
    from_head v vs fz later (inl here) = (z, inl refl, rw here fz)
    from_head v vs fz later (inr there) = let (x, member, fx) = later there in (x, inr member, fx)
