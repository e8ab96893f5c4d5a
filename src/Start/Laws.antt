-- ===== src/Start/Laws.antt =====
-- When the start panics, and what it hands to the connections.
use ocserv_rs.Base.{
  ◌≡◌, ◌↔◌, ◌⊎◌, inl, inr, refl, ap, sym, subst, ◌∙◌, Result, ok, err, List, [], arith, Option,
  none, some, true, false, Bool-cases,
}
use ocserv_rs.Base.Text.{Text, Bytes}
use ocserv_rs.Config.{Config}
use ocserv_rs.Auth.User.{password_not_enabled}
use ocserv_rs.Auth.Session.{get_session_by_token}
use ocserv_rs.Auth.Provider.{
  AuthManager, SsoProvider, saml, oauth2, password, new, ask, authenticate, from_config,
}
use ocserv_rs.Auth.Provider.Laws.{Verdict, authenticate-Verdict}
use ocserv_rs.Vpn.IpPool
use ocserv_rs.Vpn.IpPool.{IpNetwork, IpPool, PoolError}
use ocserv_rs.Vpn.IpPool.Laws.{Represents, new-Represents}
use ocserv_rs.Http.Connection.{Shared}
use ocserv_rs.Start.{
  Run, done, failed, panicked, Host, load_tls_config, HttpServer, Service, services, new_state, run,
}

-- The files can be read, and the one for the key has no key in PKCS#8.
abbrev pub LacksKey : Host → Text → Text → Type 0
LacksKey h cert_path key_path =
    (cert_file : Bytes) × (certs : List Bytes) × (key_file : Bytes) × (h.read_file cert_path
      ≡ ok cert_file)
    × (h.certs cert_file ≡ ok certs)
    × (h.read_file key_path ≡ ok key_file)
    × (h.pkcs8_private_keys key_file ≡ ok [])

Result-cases {ℓ κ} :
    {E : Type ℓ} {A : Type κ} (r : Result E A) → ((e : E) × (r ≡ err e)) ⊎ ((a : A) × (r ≡ ok a))
Result-cases (err e) = inl (e, refl)
Result-cases (ok a) = inr (a, refl)

module _ (h : Host) (cert_path key_path : Text) where
  panics-LacksKey : load_tls_config h cert_path key_path ≡ panicked → LacksKey h cert_path key_path
  unfolding load_tls_config
  panics-LacksKey e = elim (Result-cases (h.read_file cert_path)) [
    | inl (x, a) ↦ absurd (ground arith)
    | inr (cert_file, a) ↦ elim (Result-cases (h.certs cert_file)) [
      | inl (x, b) ↦ absurd (ground arith)
      | inr (certs, b) ↦ elim (Result-cases (h.read_file key_path)) [
        | inl (x, c) ↦ absurd (ground arith)
        | inr (key_file, c) ↦ (cert_file, certs, key_file, a, b, c, ground arith)
      ]
    ]
  ]

  LacksKey-panics : LacksKey h cert_path key_path → load_tls_config h cert_path key_path ≡ panicked
  unfolding load_tls_config
  LacksKey-panics (cert_file, certs, key_file, a, b, c, d) = rw (a, b, c, d) refl

  -- Loading the TLS configuration panics, instead of failing, exactly if both files can be read and the
  -- one for the key has no key in PKCS#8, such as one with a key in another format.
  pub load_tls_config-panicked :
      (load_tls_config h cert_path key_path ≡ panicked) ↔ LacksKey h cert_path key_path
  load_tls_config-panicked = (panics-LacksKey, LacksKey-panics)

value_or {ℓ} : {A : Type ℓ} → A → Run A → A
value_or d (done a) = a
value_or d (failed e) = d
value_or d panicked = d

done-injective {ℓ} : {A : Type ℓ} {a b : A} → done a ≡ done b → a ≡ b
unfolding value_or
done-injective {a} e = ap (value_or a) e

module _ (net : IpNetwork) where
  -- How the manager answers a password: as the configured passwords say, if passwords are enabled.
  abbrev pub ChecksPasswords : Config → AuthManager → Type 0
  ChecksPasswords config manager =
      (name pass : Text)
      → ((config.auth.password.enabled ≡ true)
          × Verdict config.auth.password.users name pass
              (authenticate manager (password name pass)))
        ⊎ ((config.auth.password.enabled ≡ false)
            × (authenticate manager (password name pass) ≡ err password_not_enabled))

  -- The provider of SSO: SAML if it is enabled, else OAuth2 if that is, else none.
  abbrev pub IsSsoOf : Config → Option SsoProvider → Type 0
  IsSsoOf config o =
      ((config.auth.saml.enabled ≡ true) × (o ≡ some (saml config.auth.saml)))
      ⊎ ((config.auth.saml.enabled ≡ false)
          × (config.auth.oauth2.enabled ≡ true)
          × (o ≡ some (oauth2 config.auth.oauth2)))
      ⊎ ((config.auth.saml.enabled ≡ false) × (config.auth.oauth2.enabled ≡ false) × (o ≡ none))

  -- What the connections start from.
  abbrev pub IsFresh : Config → AuthManager × Shared net × List Service → Type 0
  IsFresh config (auth_manager, state, spawned) =
      ChecksPasswords config auth_manager
      × IsSsoOf config auth_manager.sso_provider
      × ((token : Text) → get_session_by_token token state.server.sessions ≡ none)
      × Represents net state.server.ip_pool []

  from_config-ChecksPasswords : (config : Config) → ChecksPasswords config (from_config config.auth)
  unfolding from_config authenticate ask new
  from_config-ChecksPasswords config name pass = elim (Bool-cases config.auth.password.enabled) [
    | inl on ↦ inl (on, rw on (authenticate-Verdict config.auth.password.users name pass))
    | inr off ↦ inr (off, rw off refl)
  ]

  from_config-IsSsoOf : (config : Config) → IsSsoOf config (from_config config.auth).sso_provider
  unfolding from_config
  from_config-IsSsoOf config = elim (Bool-cases config.auth.saml.enabled) [
    | inl on ↦ inl (on, rw on refl)
    | inr off ↦ elim (Bool-cases config.auth.oauth2.enabled) [
      | inl other ↦ inr (inl (off, other, rw (off, other) refl))
      | inr none_on ↦ inr (inr (off, none_on, rw (off, none_on) refl))
    ]
  ]

  abbrev fresh : Config → IpPool net → AuthManager × Shared net × List Service
  fresh config pool = (
    from_config config.auth,
    record {
      server = record { sessions = []; dtls_sessions = []; ip_pool = pool };
      hpke_contexts = [];
    },
    services config,
  )

  module _ (h : Host) (server : HttpServer) where
    unbound : (x : Text) → h.bind server.addr ≡ err x → run net h server ≡ failed x
    unfolding run
    unbound x a = rw a refl

    no_pool :
        (listener : Text) (x : PoolError)
        → h.bind server.addr ≡ ok listener
        → IpPool.new net server.config.network.ipv4_pool ≡ err x
        → run net h server ≡ panicked
    unfolding run new_state
    no_pool listener x a b = rw (a, b) refl

    starts :
        (listener : Text) (pool : IpPool net)
        → h.bind server.addr ≡ ok listener
        → IpPool.new net server.config.network.ipv4_pool ≡ ok pool
        → run net h server ≡ done (fresh server.config pool)
    unfolding run new_state
    starts listener pool a b = rw (a, b) refl

    fresh-IsFresh :
        (pool : IpPool net)
        → IpPool.new net server.config.network.ipv4_pool ≡ ok pool
        → IsFresh server.config (fresh server.config pool)
    unfolding get_session_by_token
    fresh-IsFresh pool b = (
      from_config-ChecksPasswords server.config,
      from_config-IsSsoOf server.config,
      λ token. refl,
      new-Represents net server.config.network.ipv4_pool pool b,
    )

  -- A server that has started answers a password as the configured ones say if passwords are enabled,
  -- and else refuses it; its provider of SSO is SAML if that is enabled, else OAuth2 if that is, else
  -- none; no token opens a session; and its pool stands for no address held.
  pub run-IsFresh :
      (h : Host) (server : HttpServer) (r : AuthManager × Shared net × List Service)
      → run net h server ≡ done r
      → IsFresh server.config r
  run-IsFresh h server r e = elim (Result-cases (h.bind server.addr)) [
    | inl (x, a) ↦ absurd (ground (arith, unbound h server x a, e))
    | inr (listener, a) ↦ elim (Result-cases (IpPool.new net server.config.network.ipv4_pool)) [
      | inl (x, b) ↦ absurd (ground (arith, no_pool h server listener x a b, e))
      | inr (pool, b) ↦
          subst (IsFresh server.config)
            (done-injective (sym (starts h server listener pool a b) ∙ e))
            (fresh-IsFresh h server pool b)
    ]
  ]
