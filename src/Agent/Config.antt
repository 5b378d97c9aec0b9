-- ===== src/Agent/Config.antt =====
-- crates/crossx-agent/src/config.rs: the settings, their defaults, and the overrides from the
-- environment. The TOML parser and `str::parse` are parameters.
use cross_xagent.Base.{ℕ, ◌*◌, Bool, false, Option, none, some, List, [], ◌∷◌, ◌++◌, Bytes}
use cross_xagent.Relay.Auth.{ascii}

pub record LogsConfig : Type 0 where
  pub enabled : Bool
  pub files : List Bytes
  pub journald : Bool

pub record RelayConfig : Type 0 where
  pub enabled : Bool
  pub addr : Bytes
  pub root_cert : Bytes
  pub key_file : Bytes
  pub enrollment_file : Bytes
  pub principal : Bytes
  pub target_id : Bytes
  pub telemetry_port : ℕ

pub record AgentConfig : Type 0 where
  pub collector_endpoint : Bytes
  pub node_id : Bytes
  pub auth_token : Bytes
  pub interval_secs : ℕ
  pub state_dir : Bytes
  pub wal_max_bytes : ℕ
  pub logs : LogsConfig
  pub relay : RelayConfig

abbrev pub default_relay : RelayConfig
default_relay = record {
  enabled = false;
  addr = [];
  root_cert = [];
  key_file = [];
  enrollment_file = [];
  principal = [];
  target_id = [];
  telemetry_port = 4317;
}

abbrev pub default_logs : LogsConfig
default_logs = record { enabled = false; files = ascii "/var/log/syslog" ∷ []; journald = false }

-- `default_state_dir`, from the data directory of the platform, if it has one.
unfoldable pub default_state_dir : Option Bytes → Bytes
default_state_dir none = ascii "./crossx-agent"
default_state_dir (some dir) = dir ++ ascii "/crossx-agent"

-- The state directory comes from the platform.
abbrev pub default_agent : Bytes → AgentConfig
default_agent default_state_dir = record {
  collector_endpoint = ascii "http://127.0.0.1:4317";
  node_id = ascii "node-dev";
  auth_token = [];
  interval_secs = 5;
  state_dir = default_state_dir;
  wal_max_bytes = 64 * 1024 * 1024;
  logs = default_logs;
  relay = default_relay;
}

-- A variable that does not parse is an error that names it.
pub data Loaded : Type 0 where
  loaded : AgentConfig → Loaded
  invalid : Bytes → Loaded
  unreadable : Loaded

infixl 5 ◌>>=◌
abbrev pub ◌>>=◌ : Loaded → (AgentConfig → Loaded) → Loaded
loaded cfg >>= next = next cfg
invalid name >>= next = invalid name
unreadable >>= next = unreadable

pub record Parser : Type 0 where
  pub parse_u64 : Bytes → Option ℕ
  pub parse_u16 : Bytes → Option ℕ
  pub parse_bool : Bytes → Option Bool

module _ (parser : Parser) (lookup : Bytes → Option Bytes) where
  abbrev pub text : Bytes → (Bytes → AgentConfig → AgentConfig) → AgentConfig → Loaded
  text name set cfg = elim (lookup name) [ none ↦ loaded cfg | some value ↦ loaded (set value cfg) ]

  abbrev pub parsed {ℓ} :
      {A : Type ℓ}
      → Bytes
      → (Bytes → Option A)
      → (A → AgentConfig → AgentConfig)
      → AgentConfig
      → Loaded
  parsed name parse set cfg = elim (lookup name) [
    | none ↦ loaded cfg
    | some value ↦ elim (parse value) [ none ↦ invalid name | some a ↦ loaded (set a cfg) ]
  ]

  unfoldable pub apply_env : AgentConfig → Loaded
  apply_env cfg = do
    cfg ←
        text (ascii "CROSSX_AGENT_COLLECTOR_ENDPOINT") (λ v c. record c { collector_endpoint = v })
          cfg
    cfg ← text (ascii "CROSSX_AGENT_NODE_ID") (λ v c. record c { node_id = v }) cfg
    cfg ← text (ascii "CROSSX_AGENT_AUTH_TOKEN") (λ v c. record c { auth_token = v }) cfg
    cfg ←
        parsed (ascii "CROSSX_AGENT_INTERVAL_SECS") parser.parse_u64
          (λ v c. record c { interval_secs = v }) cfg
    cfg ← text (ascii "CROSSX_AGENT_STATE_DIR") (λ v c. record c { state_dir = v }) cfg
    cfg ←
        parsed (ascii "CROSSX_AGENT_WAL_MAX_BYTES") parser.parse_u64
          (λ v c. record c { wal_max_bytes = v }) cfg
    cfg ←
        parsed (ascii "CROSSX_AGENT_RELAY_ENABLED") parser.parse_bool
          (λ v c. record c { relay = record c.relay { enabled = v } }) cfg
    cfg ←
        text (ascii "CROSSX_AGENT_RELAY_ADDR")
          (λ v c. record c { relay = record c.relay { addr = v } }) cfg
    cfg ←
        text (ascii "CROSSX_AGENT_RELAY_ROOT_CERT")
          (λ v c. record c { relay = record c.relay { root_cert = v } }) cfg
    cfg ←
        text (ascii "CROSSX_AGENT_RELAY_KEY_FILE")
          (λ v c. record c { relay = record c.relay { key_file = v } }) cfg
    cfg ←
        text (ascii "CROSSX_AGENT_RELAY_ENROLLMENT_FILE")
          (λ v c. record c { relay = record c.relay { enrollment_file = v } }) cfg
    cfg ←
        text (ascii "CROSSX_AGENT_RELAY_PRINCIPAL")
          (λ v c. record c { relay = record c.relay { principal = v } }) cfg
    cfg ←
        text (ascii "CROSSX_AGENT_RELAY_TARGET_ID")
          (λ v c. record c { relay = record c.relay { target_id = v } }) cfg
    cfg ←
        parsed (ascii "CROSSX_AGENT_RELAY_TELEMETRY_PORT") parser.parse_u16
          (λ v c. record c { relay = record c.relay { telemetry_port = v } }) cfg
    loaded cfg

-- `AgentConfig::load`: no path, or what reading and parsing the file at the path gave.
unfoldable pub load : Parser → (Bytes → Option Bytes) → Bytes → Option (Option AgentConfig) → Loaded
load parser lookup state_dir none = apply_env parser lookup (default_agent state_dir)
load parser lookup state_dir (some none) = unreadable
load parser lookup state_dir (some (some cfg)) = apply_env parser lookup cfg
