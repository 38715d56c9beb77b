-- ===== src/Api/Guarded.antt =====
-- internal/api/api.go, `New` and `auth`: which requests reach the service.
use Prim.Native.Char.{Char}
use text.Mathlib.TextLemmas.{nil-append, cons-append}
use qday_walletd.Common.{
  ◌≡◌, refl, ◌∙◌, sym, ap, String, str_append, str_eq, eq_iff, Bool, true, false, Bool-cases, ◌⊎◌,
  inl, inr, some, Option-cases, arith,
}
use qday_walletd.Types.{Platform, ok}
use qday_walletd.Daemon.Machine.{World, Daemon, pure}
use qday_walletd.Api.Requests.{Request, Route, Decoder, cut, trim_prefix, is_authorized}
use qday_walletd.Api.Server.{write_error, handle, authorized, serve}

swap_head :
    {c d : Char}
    → String.◌∷◌ c "" ≡ String.◌∷◌ d ""
    → (t : String) → String.◌∷◌ d t ≡ String.◌∷◌ c t
swap_head {c} {d} e t = let same : c ≡ d = ground (arith, e) in rw same

cut-str_append : (s t rest : String) → cut s t ≡ some rest → t ≡ str_append s rest
cut-str_append String.[] t rest e =
    let same : t ≡ rest = ground arith in same ∙ sym (nil-append rest)
cut-str_append (String.◌∷◌ c s) String.[] rest e = absurd (ground arith)
cut-str_append (String.◌∷◌ c s) (String.◌∷◌ d t) rest e =
    elim (Bool-cases (str_eq (String.◌∷◌ c "") (String.◌∷◌ d ""))) [
      | inl same ↦
          let first : String.◌∷◌ c "" ≡ String.◌∷◌ d "" = (eq_iff _ _).0 same in
          let onward : t ≡ str_append s rest = cut-str_append s t rest (rw same at e) in
          swap_head first t ∙ ap (λ u. String.◌∷◌ c u) onward ∙ sym (cons-append c s rest)
      | inr other ↦ absurd (let never = rw other at e in ground arith)
    ]

cut-append : (s t : String) → cut s (str_append s t) ≡ some t
cut-append String.[] t = ap some (nil-append t)
cut-append (String.◌∷◌ c s) t =
    rw (cons-append c s t, (eq_iff (String.◌∷◌ c "") (String.◌∷◌ c "")).1 refl) (cut-append s t)

trim_prefix-inv :
    (s prefix rest : String)
    → trim_prefix s prefix ≡ rest
    → (s ≡ rest) ⊎ (s ≡ str_append prefix rest)
unfolding trim_prefix
trim_prefix-inv s prefix rest e = elim (Option-cases (cut prefix s)) [
  | inl absent ↦ inl (rw absent at e)
  | inr (found, cut_off) ↦
      let same : found ≡ rest = rw cut_off at e in
      inr (rw (← same) (cut-str_append prefix s found cut_off))
]

-- The patterns that `New` serves to anybody.
unfoldable pub is_public : Route → Bool
is_public Route.healthz = true
is_public Route.readyz = true
is_public route = false

-- What a client may send to be let in.
pub ShowsToken : String → Request → Type 0
ShowsToken token request =
    (request.authorization ≡ token) ⊎ (request.authorization ≡ str_append "Bearer " token)

pub is_authorized-ShowsToken :
    (token : String) (request : Request)
    → is_authorized token request ≡ true
    → ShowsToken token request
unfolding is_authorized ShowsToken
is_authorized-ShowsToken token request e =
    trim_prefix-inv request.authorization "Bearer " token ((eq_iff _ _).0 e)

shown_token :
    (token : String) (request : Request)
    → request.authorization ≡ str_append "Bearer " token
    → is_authorized token request ≡ true
unfolding is_authorized trim_prefix
shown_token token request h = rw (h, cut-append "Bearer " token) ((eq_iff token token).1 refl)

module _ (p : Platform) (w : World) (d : Decoder) (request : Request) (token : String) where
  pub serve-authorized :
      (route : Route)
      → is_public route ≡ false
      → serve p w d request token route
        ≡ authorized p w d request token (handle p w d request route)
  unfolding serve is_public
  serve-authorized Route.healthz e = absurd (ground arith)
  serve-authorized Route.readyz e = absurd (ground arith)
  serve-authorized _ e = refl

  -- A request for any pattern but the two that `New` leaves open either shows the token, bare or behind
  -- `Bearer `, or is answered with status 401 and leaves the journal, the master seed and the world
  -- outside as they are; one that shows the token behind `Bearer ` reaches its handler.
  pub serve-ShowsToken :
      (route : Route) (s : Daemon)
      → is_public route ≡ false
      → (ShowsToken token request
          ⊎ (serve p w d request token route s
              ≡ (ok (write_error 401 "authentication required"), s)))
        × (request.authorization ≡ str_append "Bearer " token
            → serve p w d request token route s ≡ handle p w d request route s)
  unfolding authorized pure
  serve-ShowsToken route s e = rw (serve-authorized route e) (
    elim (Bool-cases (is_authorized token request)) [
      | inl accepted ↦ inl (is_authorized-ShowsToken token request accepted)
      | inr refused ↦ inr (rw refused)
    ],
    λ shown. rw (shown_token token request shown),
  )
