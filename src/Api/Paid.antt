-- ===== src/Api/Paid.antt =====
-- internal/api/api.go, `createWithdrawal`: what a status of 201 means.
use qday_walletd.Common.{◌≡◌, refl, ◌∙◌, ap, String, str_eq, eq_iff, Bool, true, false, arith}
use qday_walletd.Types.{Platform, Result, ok, err}
use qday_walletd.Daemon.Machine.{World, Daemon, Action}
use qday_walletd.Daemon.Steps.{Yields, Yields-attempt, Yields-bind, Yields-pure, Yields-if}
use qday_walletd.Daemon.Withdraw.{WithdrawalRequest, WithdrawalView, create_withdrawal}
use qday_walletd.Daemon.Withdraw.Paid.{IsPaid, create_withdrawal-IsPaid}
use qday_walletd.Api.Requests.{Request, Route, Decoder, is_authorized}
use qday_walletd.Api.Server.{
  Response, write_error, whole_value, withdrawal_body, answer_created, reply, decode, handle,
  authorized, serve,
}
use qday_walletd.Api.Guarded.{ShowsToken, is_authorized-ShowsToken}

module _ {A : Type 0} where
  -- The answer to an attempt.
  pub Yields-reply :
      (m : Action A) (f : Result A → Response) {s : Daemon} {Q : Response → Daemon → Type 0}
      → ((r : Result A) (t : Daemon) → m s ≡ (r, t) → Q (f r) t)
      → Yields (reply m f) s Q
  unfolding reply
  Yields-reply m f q = Yields-bind (Yields-attempt m λ r t e. Yields-pure _ (q r t e))

-- A body that was decoded.
pub record IsDecoded {A : Type 0} (d : Decoder) (request : Request) (read : String → Result A)
    (a : A) : Type 0 where
  pub media_type : d.media_type request.content_type ≡ ok "application/json"
  pub value : read request.body ≡ ok a
  pub single : d.one_value request.body ≡ true

module _ {A : Type 0} (d : Decoder) (request : Request) (read : String → Result A) where
  read_whole :
      (media : Result String) (value : Result A) (single : Bool)
      → d.media_type request.content_type ≡ media
      → read request.body ≡ value
      → d.one_value request.body ≡ single
      → {next : A → Action Response} {s : Daemon} {Q : Response → Daemon → Type 0}
      → ((message : String) → Q (write_error 415 message) s)
      → ((message : String) → Q (write_error 400 message) s)
      → ((a : A) → IsDecoded d request read a → Yields (next a) s Q)
      → Yields (decode d request read next) s Q
  unfolding decode
  read_whole (err e) value single i j k q r n = rw i (Yields-pure _ (q _))
  read_whole (ok media) value single i j k q r n = rw i (
      Yields-if (str_eq media "application/json")
        (λ json. whole (i ∙ ap ok ((eq_iff _ _).0 json)) value single j k r n)
        (λ other. Yields-pure _ (q _)))
    where
      whole :
          d.media_type request.content_type ≡ ok "application/json"
          → (value : Result A) (single : Bool) → read request.body ≡ value
          → d.one_value request.body ≡ single
          → {next : A → Action Response} {s : Daemon} {Q : Response → Daemon → Type 0}
          → ((message : String) → Q (write_error 400 message) s)
          → ((a : A) → IsDecoded d request read a → Yields (next a) s Q)
          → Yields (whole_value (d.one_value request.body) (read request.body) next) s Q
      whole i (err e) single j k r n = rw j (Yields-pure _ (r _))
      whole i (ok a) false j k r n = rw (j, k) (Yields-pure _ (r _))
      whole i (ok a) true j k r n =
          rw (j, k) (n a (record { media_type = i; value = j; single = k }))

  -- A handler goes on from its decoded body; its other answers have the status 415 or 400.
  pub Yields-decode :
      {next : A → Action Response} {s : Daemon} {Q : Response → Daemon → Type 0}
      → ((message : String) → Q (write_error 415 message) s)
      → ((message : String) → Q (write_error 400 message) s)
      → ((a : A) → IsDecoded d request read a → Yields (next a) s Q)
      → Yields (decode d request read next) s Q
  Yields-decode = read_whole _ _ _ refl refl refl

-- A withdrawal that was created for a client: it showed the token, and its body asked for what was paid.
pub record IsCreated (p : Platform) (w : World) (d : Decoder) (request : Request) (token : String)
    (response : Response) : Type 0 where
  pub asked : WithdrawalRequest
  pub view : WithdrawalView
  pub allowed : ShowsToken token request
  pub decoded : IsDecoded d request d.read_withdrawal asked
  pub shown : response.body ≡ withdrawal_body view
  pub paid : IsPaid p w asked view

module _ (p : Platform) (w : World) (d : Decoder) (request : Request) (token : String) where
  created :
      (asked : WithdrawalRequest) (s t : Daemon)
      → ShowsToken token request
      → IsDecoded d request d.read_withdrawal asked
      → (r : Result (WithdrawalView × Bool)) → create_withdrawal p w asked s ≡ (r, t)
      → (answer_created withdrawal_body r).status ≡ 201
      → IsCreated p w d request token (answer_created withdrawal_body r)
  created asked s t allowed decoded (err e) ran code = absurd (ground arith)
  created asked s t allowed decoded (ok (v, false)) ran code = absurd (ground arith)
  created asked s t allowed decoded (ok (v, true)) ran code = record {
    asked = asked;
    view = v;
    allowed = allowed;
    decoded = decoded;
    shown = refl;
    paid = create_withdrawal-IsPaid p w asked s t (v, true) ran refl;
  }

  -- A request to create a withdrawal that is answered with status 201 showed the token and held one
  -- value of JSON that reads as a request for a withdrawal, and the withdrawal of the answer was made
  -- for it: a transfer of the amount, to the destination and with the fee that it spells, in the
  -- denomination that it expects.
  pub serve-IsCreated :
      (s t : Daemon) (response : Response)
      → serve p w d request token Route.create_withdrawal s ≡ (ok response, t)
      → response.status ≡ 201
      → IsCreated p w d request token response
  unfolding serve authorized handle is_authorized
  serve-IsCreated s t response ran = run.at response t ran
    where
      run :
          Yields
            (serve p w d request token Route.create_withdrawal)
            s
            (λ response _. response.status ≡ 201 → IsCreated p w d request token response)
      run =
          Yields-if (is_authorized token request)
            (λ accepted.
              Yields-decode d request d.read_withdrawal (λ m e. absurd (ground arith))
                (λ m e. absurd (ground arith))
                λ asked decoded.
                  Yields-reply (create_withdrawal p w asked) (answer_created withdrawal_body)
                    λ r u made.
                      created asked s u (is_authorized-ShowsToken token request accepted) decoded r
                        made)
            (λ refused. Yields-pure _ λ e. absurd (ground arith))
