-- ===== src/Common/Members.antt =====
-- Membership by recursion, with the place kept, through the functions on lists.
use mathlib.Core.Path.{◌≡◌, refl}
use mathlib.Core.Logic.{◌⊎◌, inl, inr}
use mathlib.Core.Bool.{Bool, true}
use mathlib.Core.Option.{some}
use mathlib.Core.List.{List, [], ◌∷◌, ◌++◌}
use native.Mathlib.Omega.{arith}
use qday_walletd.Common.Tests.{Bool-cases}
use qday_walletd.Common.Lists.{keep, find_first, All}

abbrev pub Elem : {A : Type 0} → A → List A → Type 0
Elem a [] = ⊥
Elem a (x ∷ xs) = (a ≡ x) ⊎ Elem a xs

module _ {A : Type 0} where
  pub Elem-append_left : (a : A) (xs ys : List A) → Elem a xs → Elem a (xs ++ ys)
  Elem-append_left a (x ∷ xs) ys (inl e) = inl e
  Elem-append_left a (x ∷ xs) ys (inr m) = inr (Elem-append_left a xs ys m)
  Elem-append_left a [] ys m = absurd m

  pub Elem-append_right : (a : A) (xs ys : List A) → Elem a ys → Elem a (xs ++ ys)
  Elem-append_right a [] ys m = m
  Elem-append_right a (x ∷ xs) ys m = inr (Elem-append_right a xs ys m)

  pub Elem-keep : (p : A → Bool) (a : A) (xs : List A) → Elem a xs → p a ≡ true → Elem a (keep p xs)
  Elem-keep p a [] m h = absurd m
  Elem-keep p a (x ∷ xs) (inl e) h = rw ((rw e at h)) (inl e)
  Elem-keep p a (x ∷ xs) (inr m) h = elim (Bool-cases (p x)) [
    | inl yes_x ↦ rw yes_x (inr (Elem-keep p a xs m h))
    | inr no_x ↦ rw no_x (Elem-keep p a xs m h)
  ]

  pub Elem-keep_inv :
      (p : A → Bool) (a : A) (xs : List A) → Elem a (keep p xs) → Elem a xs × (p a ≡ true)
  Elem-keep_inv p a [] m = absurd m
  Elem-keep_inv p a (x ∷ xs) m = elim (Bool-cases (p x)) [
    | inl hit ↦ kept_head x hit (Elem-keep_inv p a xs) (rw hit at m)
    | inr miss ↦ let rest = Elem-keep_inv p a xs (rw miss at m) in (inr rest.0, rest.1)
  ]
    where
      kept_head :
          (y : A)
          → p y ≡ true
          → (Elem a (keep p xs) → Elem a xs × (p a ≡ true))
          → (a ≡ y) ⊎ Elem a (keep p xs)
          → ((a ≡ y) ⊎ Elem a xs) × (p a ≡ true)
      kept_head y hit later (inl e) = (inl e, rw e hit)
      kept_head y hit later (inr rest) = (inr (later rest).0, (later rest).1)

  pub Elem-find_first : (p : A → Bool) (xs : List A) (a : A) → find_first p xs ≡ some a → Elem a xs
  Elem-find_first p [] a e = ground arith
  Elem-find_first p (x ∷ xs) a e = elim (Bool-cases (p x)) [
    | inl hit ↦ inl (ground arith)
    | inr miss ↦ inr (Elem-find_first p xs a (rw miss at e))
  ]

pub All-append :
    {A : Type 0} (P : A → Type 0) (xs ys : List A) → All P xs → All P ys → All P (xs ++ ys)
All-append P [] ys h k = k
All-append P (x ∷ xs) ys h k = (h.0, All-append P xs ys h.1 k)

pub All-of_Elem :
    {A : Type 0} {P : A → Type 0} (xs : List A) → ((x : A) → Elem x xs → P x) → All P xs
All-of_Elem [] h = tt
All-of_Elem (x ∷ xs) h = (h x (inl refl), All-of_Elem xs (λ y m. h y (inr m)))

pub All-Elem : {A : Type 0} (P : A → Type 0) (xs : List A) (x : A) → All P xs → Elem x xs → P x
All-Elem P [] x h m = absurd m
All-Elem P (y ∷ xs) x h (inl e) = rw e h.0
All-Elem P (y ∷ xs) x h (inr m) = All-Elem P xs x h.1 m

pub All-map :
    {A : Type 0} {P Q : A → Type 0} (xs : List A) → ((x : A) → P x → Q x) → All P xs → All Q xs
All-map [] f h = tt
All-map (x ∷ xs) f h = (f x h.0, All-map xs f h.1)
