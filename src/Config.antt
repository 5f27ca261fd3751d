-- ===== src/Config.antt =====
-- src/config.rs: the options of the server.
pub mod Laws
use pico_proving_service.Prelude.{
  ℕ, Bool, Option, none, some, Text, Result, success, failure, on_success, if◌then◌else◌, text,
}
use pico_proving_service.Auth.{AuthMethod, no_auth, bearer, AuthConfig, AuthError, validate_auth}
use pico_proving_service.Queue.{same_text}

-- An option: its long name, its variable of the environment, and its default.
pub record Opt : Type 0 where
  pub long : Text
  pub env : Text
  pub default_value : Option Text

-- What clap gives for an option: its `value` is the argument, else the variable, else the default; and how it reads
-- the types of the standard library.
pub record Clap : Type 1 where
  pub SocketAddr : Type 0
  pub value : Opt → Option Text
  -- whether an option is there for one that `requires` it
  pub is_present : Opt → Bool
  pub parse_addr : Text → Option SocketAddr
  pub parse_usize : Text → Option ℕ
  pub parse_u64 : Text → Option ℕ

pub data CliError : Type 0 where
  missing : Text → CliError
  invalid : Text → CliError

abbrev opt : Text → Text → Option Text → Opt
opt long env default_value = record { long = long; env = env; default_value = default_value }

abbrev pub db_url_opt : Opt
db_url_opt =
    opt (text "db-url") (text "DATABASE_URL") (some (text "sqlite://pico_proving_service.db"))

abbrev pub grpc_addr_opt : Opt
grpc_addr_opt = opt (text "grpc-addr") (text "GRPC_ADDR") (some (text "[::]:50052"))

abbrev pub auth_method_opt : Opt
auth_method_opt = opt (text "auth-method") (text "AUTH_METHOD") (some (text "none"))

abbrev pub bearer_token_opt : Opt
bearer_token_opt = opt (text "bearer-token") (text "BEARER_TOKEN") none

abbrev pub max_grpc_msg_size_opt : Opt
max_grpc_msg_size_opt =
    opt (text "max-grpc-msg-size") (text "MAX_GRPC_MSG_SIZE") (some (text "1073741824"))

abbrev pub prover_count_opt : Opt
prover_count_opt = opt (text "prover-count") (text "PROVER_COUNT") (some (text "1"))

abbrev pub max_emulation_cycles_opt : Opt
max_emulation_cycles_opt = opt (text "max-emulation-cycles") (text "MAX_EMULATION_CYCLES") none

-- The derived `ValueEnum`.
abbrev pub parse_auth_method : Text → Option AuthMethod
parse_auth_method s =
    if same_text s (text "none")
    then some no_auth
    else if same_text s (text "bearer")
    then some bearer
    else none

module _ (clap : Clap) where
  pub record ServiceConfig : Type 0 where
    pub db_url : Text
    pub grpc_addr : clap.SocketAddr
    pub auth_method : AuthMethod
    pub bearer_token : Option Text
    pub max_grpc_msg_size : ℕ
    pub prover_count : ℕ
    pub max_emulation_cycles : Option ℕ

  abbrev parsed {ℓ} : {A : Type ℓ} → Opt → Option A → Result CliError A
  parsed o none = failure (invalid o.long)
  parsed o (some a) = success a

  abbrev required {ℓ} : {A : Type ℓ} → (Text → Option A) → Opt → Option Text → Result CliError A
  required parse o none = failure (missing o.long)
  required parse o (some s) = parsed o (parse s)

  abbrev optional {ℓ} :
      {A : Type ℓ} → (Text → Option A) → Opt → Option Text → Result CliError (Option A)
  optional parse o none = success none
  optional parse o (some s) = on_success (parsed o (parse s)) λ a. success (some a)

  -- A value with `requires = ..`
  abbrev requiring : (needed : Opt) → Option Text → Result CliError (Option Text)
  requiring needed none = success none
  requiring needed (some s) =
      if clap.is_present needed then success (some s) else failure (missing needed.long)

  -- `ServiceConfig::parse()`
  unfoldable pub parse : Result CliError ServiceConfig
  parse = on_success (required some db_url_opt (clap.value db_url_opt)) λ db_url.
      on_success (required clap.parse_addr grpc_addr_opt (clap.value grpc_addr_opt)) λ grpc_addr.
        on_success (required parse_auth_method auth_method_opt (clap.value auth_method_opt))
          λ auth_method.
            on_success
              (required clap.parse_usize max_grpc_msg_size_opt (clap.value max_grpc_msg_size_opt))
              λ max_grpc_msg_size.
                on_success
                  (required clap.parse_usize prover_count_opt (clap.value prover_count_opt))
                  λ prover_count.
                    on_success
                      (optional clap.parse_u64 max_emulation_cycles_opt
                        (clap.value max_emulation_cycles_opt))
                      λ max_emulation_cycles.
                        on_success (requiring auth_method_opt (clap.value bearer_token_opt))
                          λ bearer_token. success (record {
                            db_url = db_url;
                            grpc_addr = grpc_addr;
                            auth_method = auth_method;
                            bearer_token = bearer_token;
                            max_grpc_msg_size = max_grpc_msg_size;
                            prover_count = prover_count;
                            max_emulation_cycles = max_emulation_cycles;
                          })

  -- `impl_auth_config!(ServiceConfig)`
  abbrev pub auth_config : ServiceConfig → AuthConfig
  auth_config cfg = record { auth_method = cfg.auth_method; bearer_token = cfg.bearer_token }

  abbrev pub validate : ServiceConfig → Result AuthError (Unit {0})
  validate cfg = validate_auth (auth_config cfg)
