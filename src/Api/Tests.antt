-- ===== src/Api/Tests.antt =====
-- A client that asks for a withdrawal, one that has no token, and a page.
use qday_walletd.Common.{◌≡◌, refl, str_append, ◌⊎◌, true, decimal}
use qday_walletd.Types.{ok, err, failure}
use qday_walletd.Sample.{platform}
use qday_walletd.Daemon.Machine.{machine}
use qday_walletd.Daemon.Withdraw.Tests.{funded_world, funded, shown, after, created}
use qday_walletd.Daemon.Withdraw.Tests as Asked
use qday_walletd.Api.Requests.{Request, Route, Decoder, is_authorized, trim_prefix, pagination}
use qday_walletd.Api.Server.{
  Response, write_error, withdrawal_body, handle, authorized, serve, decode, reply,
}
use qday_walletd.Api.Guarded.{ShowsToken, is_public, serve-ShowsToken}
use qday_walletd.Api.Pages.{IsAllowed, pagination-IsAllowed}
use qday_walletd.Api.Paid.{IsCreated, serve-IsCreated}

abbrev decoder : Decoder
decoder = record {
  media_type = λ s. ok s;
  one_value = λ s. true;
  read_password = λ s. ok s;
  read_empty = λ s. ok tt;
  read_reference = λ s. ok s;
  read_withdrawal = λ s. ok Asked.request;
  read_swap_id = λ s. ok s;
  read_register = λ s. err (failure "not a swap");
  read_fund = λ s. err (failure "not a payment");
  read_spend = λ s. err (failure "not a spend");
}

abbrev asking : Request
asking = record {
  authorization = "Bearer secret";
  content_type = "application/json";
  limit = "";
  offset = "";
  body = "{}";
}

abbrev stranger : Request
stranger = record asking { authorization = "Bearer guess" }

abbrev answered : Response
answered = record { status = 201; body = withdrawal_body shown }

answers :
    serve platform funded_world decoder asking "secret" Route.create_withdrawal funded
    ≡ (ok answered, after)
unfolding serve authorized handle decode reply machine is_authorized trim_prefix
answers = rw created

serve-IsCreated_example : IsCreated platform funded_world decoder asking "secret" answered
serve-IsCreated_example =
    serve-IsCreated platform funded_world decoder asking "secret" funded after answered answers refl

turned_away :
    serve platform funded_world decoder stranger "secret" Route.create_withdrawal funded
    ≡ (ok (write_error 401 "authentication required"), funded)
unfolding serve authorized machine is_authorized trim_prefix
turned_away = refl

serve-ShowsToken_example :
    (ShowsToken "secret" stranger
      ⊎ (serve platform funded_world decoder stranger "secret" Route.create_withdrawal funded
          ≡ (ok (write_error 401 "authentication required"), funded)))
    × (stranger.authorization ≡ str_append "Bearer " "secret"
        → serve platform funded_world decoder stranger "secret" Route.create_withdrawal funded
          ≡ handle platform funded_world decoder stranger Route.create_withdrawal funded)
unfolding is_public
serve-ShowsToken_example =
    serve-ShowsToken platform funded_world decoder stranger "secret" Route.create_withdrawal funded
      refl

pagination-IsAllowed_example :
    (pagination asking ≡ ok (50, 0) → IsAllowed 50 0)
    × (IsAllowed 50 0
        → pagination (record asking { limit = decimal 50; offset = decimal 0 }) ≡ ok (50, 0))
pagination-IsAllowed_example = pagination-IsAllowed asking 50 0

whole_limit :
    pagination (record asking { limit = "201" })
    ≡ err (failure "limit must be 1..200 and offset must be nonnegative")
unfolding pagination
whole_limit = refl
