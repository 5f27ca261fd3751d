-- ===== src/Auth.antt =====
-- src/utils/auth.rs: the bearer tokens of the server and of its clients.
pub mod Laws
use pico_proving_service.Prelude.{
  ℕ, Bool, true, false, List, [], ◌∷◌, ◌++◌, Option, none, some, Text, Result, success, failure,
  on_success, if◌then◌else◌,
}

pub data AuthMethod : Type 0 where
  no_auth bearer : AuthMethod

-- The fields that `impl_auth_config!` reads.
pub record AuthConfig : Type 0 where
  pub auth_method : AuthMethod
  pub bearer_token : Option Text

-- The three `Status::unauthenticated`, and the message of `validate_auth`.
pub data AuthError : Type 0 where
  not_provided not_configured invalid_format invalid_token : AuthError

-- The values of tonic's metadata, of which the key `authorization` is used. `parse` fails on a text
-- that is no header value; `same` is their equality.
pub record Metadata : Type 1 where
  pub Value : Type 0
  pub parse : Text → Option Value
  pub same : Value → Value → Bool

-- A request, as its value of `authorization`.
pub record AuthRequest (V : Type 0) : Type 0 where
  pub authorization : Option V

abbrev pub bearer_prefix : Text
bearer_prefix = b'B' ∷ b'e' ∷ b'a' ∷ b'r' ∷ b'e' ∷ b'r' ∷ b' ' ∷ []

-- `match auth_method`
abbrev pub by_method {ℓ} : {A : Type ℓ} → AuthMethod → A → A → A
by_method no_auth x y = x
by_method bearer x y = y

abbrev pub ok_or {ℓ} : {A : Type ℓ} → Option A → AuthError → Result AuthError A
ok_or none e = failure e
ok_or (some a) e = success a

abbrev pub validate_auth : AuthConfig → Result AuthError (Unit {0})
validate_auth cfg =
    by_method cfg.auth_method (success tt)
      (on_success (ok_or cfg.bearer_token not_provided) λ _. success tt)

module _ (md : Metadata) where
  open md use {Value, parse, same}

  -- The header value of the configured token.
  abbrev pub header_of : Option Text → Result AuthError Value
  header_of token =
      on_success (ok_or token not_configured) λ t. ok_or (parse (bearer_prefix ++ t)) invalid_format

  abbrev pub compare_token :
      AuthRequest Value → Option Value → Value → Result AuthError (AuthRequest Value)
  compare_token req none expected = failure invalid_token
  compare_token req (some t) expected =
      if same t expected then success req else failure invalid_token

  -- The closure that `server_auth_interceptor` returns, applied to a request.
  unfoldable pub server_auth_interceptor :
      AuthConfig → AuthRequest Value → Result AuthError (AuthRequest Value)
  server_auth_interceptor cfg req = by_method cfg.auth_method (success req) (
      on_success (header_of cfg.bearer_token)
        λ expected. compare_token req req.authorization expected)

  -- The closure that `client_auth_interceptor` returns.
  unfoldable pub client_auth_interceptor :
      AuthConfig → AuthRequest Value → Result AuthError (AuthRequest Value)
  client_auth_interceptor cfg req =
      by_method cfg.auth_method (success req)
        (on_success (header_of cfg.bearer_token) λ v. success (record { authorization = some v }))
