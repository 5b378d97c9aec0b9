-- ===== src/Agent/Overlay.antt =====
-- What the environment makes of a configuration, as one record: a variable wins over the field.
use cross_xagent.Base.{◌≡◌, refl, ◌⊎◌, inl, inr, Option, none, some, Option-cases, Bytes}
use mathlib.Core.Path.{subst}
use cross_xagent.Relay.Auth.{ascii}
use cross_xagent.Agent.Config.{
  AgentConfig, Loaded, loaded, invalid, ◌>>=◌, Parser, text, parsed, apply_env,
}

module _ (parser : Parser) (lookup : Bytes → Option Bytes) where
  -- The variable, or else the field.
  abbrev text_or : Bytes → Bytes → Bytes
  text_or name old = elim (lookup name) [ none ↦ old | some value ↦ value ]

  abbrev parsed_or {ℓ} : {A : Type ℓ} → Bytes → (Bytes → Option A) → A → A
  parsed_or name parse old = elim (lookup name) [
    | none ↦ old
    | some value ↦ elim (parse value) [ none ↦ old | some a ↦ a ]
  ]

  abbrev pub overlay : AgentConfig → AgentConfig
  overlay cfg = record {
    collector_endpoint = text_or (ascii "CROSSX_AGENT_COLLECTOR_ENDPOINT") cfg.collector_endpoint;
    node_id = text_or (ascii "CROSSX_AGENT_NODE_ID") cfg.node_id;
    auth_token = text_or (ascii "CROSSX_AGENT_AUTH_TOKEN") cfg.auth_token;
    interval_secs =
        parsed_or (ascii "CROSSX_AGENT_INTERVAL_SECS") parser.parse_u64 cfg.interval_secs;
    state_dir = text_or (ascii "CROSSX_AGENT_STATE_DIR") cfg.state_dir;
    wal_max_bytes =
        parsed_or (ascii "CROSSX_AGENT_WAL_MAX_BYTES") parser.parse_u64 cfg.wal_max_bytes;
    logs = cfg.logs;
    relay = record {
      enabled = parsed_or (ascii "CROSSX_AGENT_RELAY_ENABLED") parser.parse_bool cfg.relay.enabled;
      addr = text_or (ascii "CROSSX_AGENT_RELAY_ADDR") cfg.relay.addr;
      root_cert = text_or (ascii "CROSSX_AGENT_RELAY_ROOT_CERT") cfg.relay.root_cert;
      key_file = text_or (ascii "CROSSX_AGENT_RELAY_KEY_FILE") cfg.relay.key_file;
      enrollment_file =
          text_or (ascii "CROSSX_AGENT_RELAY_ENROLLMENT_FILE") cfg.relay.enrollment_file;
      principal = text_or (ascii "CROSSX_AGENT_RELAY_PRINCIPAL") cfg.relay.principal;
      target_id = text_or (ascii "CROSSX_AGENT_RELAY_TARGET_ID") cfg.relay.target_id;
      telemetry_port =
          parsed_or (ascii "CROSSX_AGENT_RELAY_TELEMETRY_PORT") parser.parse_u16
            cfg.relay.telemetry_port;
    };
  }

  -- A variable that is not set, or parses.
  abbrev pub Readable {ℓ} : {A : Type ℓ} → Bytes → (Bytes → Option A) → Type ℓ
  Readable {A = A} name parse =
      (lookup name ≡ none)
      ⊎ ((value : Bytes) × (a : A) × (lookup name ≡ some value) × (parse value ≡ some a))

  -- A variable that is set, and does not parse.
  abbrev pub Bad {ℓ} : {A : Type ℓ} → Bytes → (Bytes → Option A) → Type ℓ
  Bad name parse = (value : Bytes) × (lookup name ≡ some value) × (parse value ≡ none)

  -- A text variable, and what comes after it.
  then_text :
      (P : Loaded → Type 0) (name : Bytes) (set : Bytes → AgentConfig → AgentConfig)
      (get : AgentConfig → Bytes)
      → ((c : AgentConfig) → set (get c) c ≡ c)
      → (cfg : AgentConfig) (next : AgentConfig → Loaded)
      → P (next (set (text_or name (get cfg)) cfg))
      → P (text parser lookup name set cfg >>= next)
  then_text P name set get keeps cfg next h = elim (Option-cases (lookup name)) [
    | inl unset ↦ rw (text, unset) (subst (λ c. P (next c)) (keeps cfg) (rw (text_or, unset) at h))
    | inr (value, e) ↦ rw (text, e) (rw (text_or, e) at h)
  ]

  -- A variable that is parsed, and what comes after it.
  then_parsed {ℓ} :
      {A : Type ℓ} (P : Loaded → Type 0) (name : Bytes) (parse : Bytes → Option A)
      (set : A → AgentConfig → AgentConfig) (get : AgentConfig → A)
      → ((c : AgentConfig) → set (get c) c ≡ c)
      → (cfg : AgentConfig) (next : AgentConfig → Loaded)
      → (Readable name parse → P (next (set (parsed_or name parse (get cfg)) cfg)))
      → (Bad name parse → P (invalid name))
      → P (parsed parser lookup name parse set cfg >>= next)
  then_parsed P name parse set get keeps cfg next read bad = elim (Option-cases (lookup name)) [
    | inl unset ↦
        rw (parsed, unset)
          (let h = read (inl unset) in
            subst (λ c. P (next c)) (keeps cfg) (rw (parsed_or, unset) at h))
    | inr (value, e) ↦ elim (Option-cases (parse value)) [
      | inl fails ↦ rw (parsed, e, fails) (bad (value, e, fails))
      | inr (a, parses) ↦
          rw (parsed, e, parses)
            (let h = read (inr (value, a, e, parses)) in rw (parsed_or, e, parses) at h)
    ]
  ]

  -- What `apply_env` makes of a configuration.
  pub data Overlaid (cfg : AgentConfig) : Loaded → Type 0 where
    all_read :
        Readable (ascii "CROSSX_AGENT_INTERVAL_SECS") parser.parse_u64
        → Readable (ascii "CROSSX_AGENT_WAL_MAX_BYTES") parser.parse_u64
        → Readable (ascii "CROSSX_AGENT_RELAY_ENABLED") parser.parse_bool
        → Readable (ascii "CROSSX_AGENT_RELAY_TELEMETRY_PORT") parser.parse_u16
        → Overlaid cfg (loaded (overlay cfg))
    bad_interval :
        Bad (ascii "CROSSX_AGENT_INTERVAL_SECS") parser.parse_u64
        → Overlaid cfg (invalid (ascii "CROSSX_AGENT_INTERVAL_SECS"))
    bad_wal :
        Readable (ascii "CROSSX_AGENT_INTERVAL_SECS") parser.parse_u64
        → Bad (ascii "CROSSX_AGENT_WAL_MAX_BYTES") parser.parse_u64
        → Overlaid cfg (invalid (ascii "CROSSX_AGENT_WAL_MAX_BYTES"))
    bad_relayed :
        Readable (ascii "CROSSX_AGENT_INTERVAL_SECS") parser.parse_u64
        → Readable (ascii "CROSSX_AGENT_WAL_MAX_BYTES") parser.parse_u64
        → Bad (ascii "CROSSX_AGENT_RELAY_ENABLED") parser.parse_bool
        → Overlaid cfg (invalid (ascii "CROSSX_AGENT_RELAY_ENABLED"))
    bad_port :
        Readable (ascii "CROSSX_AGENT_INTERVAL_SECS") parser.parse_u64
        → Readable (ascii "CROSSX_AGENT_WAL_MAX_BYTES") parser.parse_u64
        → Readable (ascii "CROSSX_AGENT_RELAY_ENABLED") parser.parse_bool
        → Bad (ascii "CROSSX_AGENT_RELAY_TELEMETRY_PORT") parser.parse_u16
        → Overlaid cfg (invalid (ascii "CROSSX_AGENT_RELAY_TELEMETRY_PORT"))

  -- `apply_env` returns the configuration in which each of the fourteen variables that is set has
  -- taken the place of its field, where the four that are parsed all parse; otherwise it fails with
  -- the name of the first of those that does not.
  pub apply_env-Overlaid : (cfg : AgentConfig) → Overlaid cfg (apply_env parser lookup cfg)
  unfolding apply_env
  apply_env-Overlaid cfg =
      let P = Overlaid cfg in
      (then_text P (ascii "CROSSX_AGENT_COLLECTOR_ENDPOINT")
        (λ v c. record c { collector_endpoint = v }) (λ c. c.collector_endpoint) (λ c. refl) _ _
        (then_text P (ascii "CROSSX_AGENT_NODE_ID") (λ v c. record c { node_id = v })
          (λ c. c.node_id) (λ c. refl) _ _
          (then_text P (ascii "CROSSX_AGENT_AUTH_TOKEN") (λ v c. record c { auth_token = v })
            (λ c. c.auth_token) (λ c. refl) _ _
            (then_parsed P (ascii "CROSSX_AGENT_INTERVAL_SECS") parser.parse_u64
              (λ v c. record c { interval_secs = v }) (λ c. c.interval_secs) (λ c. refl) _ _
              (λ interval.
                (then_text P (ascii "CROSSX_AGENT_STATE_DIR") (λ v c. record c { state_dir = v })
                  (λ c. c.state_dir) (λ c. refl) _ _
                  (then_parsed P (ascii "CROSSX_AGENT_WAL_MAX_BYTES") parser.parse_u64
                    (λ v c. record c { wal_max_bytes = v }) (λ c. c.wal_max_bytes) (λ c. refl) _ _
                    (λ wal.
                      (then_parsed P (ascii "CROSSX_AGENT_RELAY_ENABLED") parser.parse_bool
                        (λ v c. record c { relay = record c.relay { enabled = v } })
                        (λ c. c.relay.enabled) (λ c. refl) _ _
                        (λ relayed.
                          (then_text P (ascii "CROSSX_AGENT_RELAY_ADDR")
                            (λ v c. record c { relay = record c.relay { addr = v } })
                            (λ c. c.relay.addr) (λ c. refl) _ _
                            (then_text P (ascii "CROSSX_AGENT_RELAY_ROOT_CERT")
                              (λ v c. record c { relay = record c.relay { root_cert = v } })
                              (λ c. c.relay.root_cert) (λ c. refl) _ _
                              (then_text P (ascii "CROSSX_AGENT_RELAY_KEY_FILE")
                                (λ v c. record c { relay = record c.relay { key_file = v } })
                                (λ c. c.relay.key_file) (λ c. refl) _ _
                                (then_text P (ascii "CROSSX_AGENT_RELAY_ENROLLMENT_FILE")
                                  (λ v c. record c {
                                    relay = record c.relay { enrollment_file = v };
                                  })
                                  (λ c. c.relay.enrollment_file) (λ c. refl) _ _
                                  (then_text P (ascii "CROSSX_AGENT_RELAY_PRINCIPAL")
                                    (λ v c. record c { relay = record c.relay { principal = v } })
                                    (λ c. c.relay.principal) (λ c. refl) _ _
                                    (then_text P (ascii "CROSSX_AGENT_RELAY_TARGET_ID")
                                      (λ v c. record c { relay = record c.relay { target_id = v } })
                                      (λ c. c.relay.target_id) (λ c. refl) _ _
                                      (then_parsed P (ascii "CROSSX_AGENT_RELAY_TELEMETRY_PORT")
                                        parser.parse_u16
                                        (λ v c. record c {
                                          relay = record c.relay { telemetry_port = v };
                                        })
                                        (λ c. c.relay.telemetry_port) (λ c. refl) _ _
                                        (λ port. (all_read interval wal relayed port))
                                        (λ bad. bad_port interval wal relayed bad)))))))))
                        (λ bad. bad_relayed interval wal bad)))
                    (λ bad. bad_wal interval bad))))
              (λ bad. bad_interval bad)))))
