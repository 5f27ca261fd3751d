-- ===== src/Config/Laws.antt =====
-- A configuration that does not validate locks every client out.
use pico_proving_service.Prelude.{
  ◌≡◌, ◌↔◌, ◌++◌, refl, Option, none, some, Text, failure, on_success, ◌≢◌, if-cases_eq,
}
use pico_proving_service.Auth.{
  AuthMethod, no_auth, bearer, not_configured, not_provided, invalid_format, ok_or, Metadata,
  AuthRequest, bearer_prefix, compare_token, validate_auth, server_auth_interceptor,
}
use pico_proving_service.Config.{Clap, ServiceConfig, auth_config, validate}

module _ (md : Metadata) where
  open md use {Value, parse, same}

  -- With a token, the check does not fail for the lack of one.
  token-configured :
      (t : Text) (req : AuthRequest Value)
      → server_auth_interceptor md (record { auth_method = bearer; bearer_token = some t }) req
        ≢ failure not_configured
  unfolding server_auth_interceptor
  token-configured t req h = go (parse (bearer_prefix ++ t)) req.authorization h
    where
      compared : (o : Option Value) (v : Value) → compare_token md req o v ≢ failure not_configured
      compared none v h = absurd cc
      compared (some x) v h = if-cases_eq (same x v) _ _ h (λ _ e. absurd cc) (λ _ e. absurd cc)

      go :
          (p : Option Value) (o : Option Value)
          → on_success (ok_or p invalid_format) (λ expected. compare_token md req o expected)
            ≢ failure not_configured
      go none o h = absurd cc
      go (some v) o h = compared o v h

  locked :
      (m : AuthMethod) (t : Option Text) (req : AuthRequest Value)
      → (validate_auth (record { auth_method = m; bearer_token = t }) ≡ failure not_provided) ↔ (
          server_auth_interceptor md (record { auth_method = m; bearer_token = t }) req
          ≡ failure not_configured)
  unfolding server_auth_interceptor
  locked no_auth t req = (λ h. cc, λ h. cc)
  locked bearer none req = (λ h. refl, λ h. refl)
  locked bearer (some t) req = (λ h. absurd cc, λ h. absurd (token-configured t req h))

  -- The options fail to validate exactly if the server, which does not validate them, refuses a
  -- request because no token is configured, whatever the request is.
  pub validate-locked :
      (clap : Clap) (cfg : ServiceConfig clap) (req : AuthRequest Value)
      → (validate clap cfg ≡ failure not_provided)
        ↔ (server_auth_interceptor md (auth_config clap cfg) req ≡ failure not_configured)
  validate-locked clap cfg req = locked cfg.auth_method cfg.bearer_token req
