-- ===== src/Auth/Laws.antt =====
-- Who passes the server's check.
use pico_proving_service.Prelude.{
  true, ◌++◌, Option, none, some, Text, Result, success, failure, ◌≡◌, refl, sym, ap, ◌↔◌,
  if-cases_eq, on_success,
}
use pico_proving_service.Auth.{
  AuthMethod, no_auth, bearer, AuthConfig, AuthRequest, Metadata, AuthError, bearer_prefix,
  header_of, server_auth_interceptor, client_auth_interceptor, compare_token, by_method,
}

module _ (md : Metadata) where
  open md use {Value, parse, same}

  compare_token-passes :
      (req : AuthRequest Value) (o : Option Value) (v : Value)
      → (compare_token md req o v ≡ success req) ↔ ((t : Value) × (o ≡ some t) × (same t v ≡ true))
  compare_token-passes req none v = (λ e. cc, λ s. absurd (let h = s.1 in cc))
  compare_token-passes req (some t) v = (
    λ e. if-cases_eq (same t v) _ _ e (λ y _. (t, refl, y)) (λ _ n. absurd cc),
    λ s. let (t', e, y) = s in let y' : same t v ≡ true = cc in rw y' refl,
  )

  -- With a configured token that gives a header value, a request passes the server's check exactly
  -- if it has an authorization value that equals it.
  pub server-bearer :
      (token : Text) (v : Value) (req : AuthRequest Value)
      → parse (bearer_prefix ++ token) ≡ some v
      → (server_auth_interceptor md (record { auth_method = bearer; bearer_token = some token }) req
          ≡ success req)
        ↔ ((t : Value) × (req.authorization ≡ some t) × (same t v ≡ true))
  unfolding server_auth_interceptor
  server-bearer token v req h =
      let expected : header_of md (some token) ≡ success v = rw h refl in
      rw (server_auth_interceptor, expected) (compare_token-passes req req.authorization v)

  module _ (req req' : AuthRequest Value) where
    sent_passes :
        (m : AuthMethod) (o : Result AuthError Value)
        → ((v : Value) → same v v ≡ true)
        → by_method m (success req) (on_success o λ v. success (record { authorization = some v }))
          ≡ success req'
        → by_method m
            (success req')
            (on_success o λ expected. compare_token md req' req'.authorization expected)
          ≡ success req'
    sent_passes no_auth o same_self h = refl
    sent_passes bearer (failure e) same_self h = cc
    sent_passes bearer (success v) same_self h =
        let made : record { authorization = some v } ≡ req' = cc in
        (compare_token-passes req' req'.authorization v).1
          (v, sym (ap (λ (x : AuthRequest Value). x.authorization) made), same_self v)

  -- A request that a client's interceptor returns passes the check of a server with the same
  -- configuration, if every header value equals itself.
  pub client-server :
      (cfg : AuthConfig) (req req' : AuthRequest Value)
      → ((v : Value) → same v v ≡ true)
      → client_auth_interceptor md cfg req ≡ success req'
      → server_auth_interceptor md cfg req' ≡ success req'
  unfolding client_auth_interceptor server_auth_interceptor
  client-server cfg req req' same_self h =
      sent_passes req req' cfg.auth_method (header_of md cfg.bearer_token) same_self h
