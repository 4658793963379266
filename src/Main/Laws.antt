-- ===== src/Main/Laws.antt =====
-- src/main.rs: what holds whenever the proxy serves.
use dsh_proxy.Common.{
  ◌≡◌, ◌≢◌, ◌⊎◌, sym, subst, List, [], ◌∷◌, length, none, some, Option-cases, inl, inr, arith,
}
use dsh_proxy.Common.Bytes.{Bytes}
use dsh_proxy.Common.Text.{String}
use dsh_proxy.Noise.Keys.{Keypair, generate_keypair, public_key_of}
use dsh_proxy.Proxy.Admit.{Limits}
use dsh_proxy.Tls
use dsh_proxy.Tls.{
  Pki, TlsIdentity, ServerConfig, load_pem, server_config, load_pem-chain, self_signed-chain,
}
use dsh_proxy.Main.{
  Config, defaults, Parsed-cases, run, parse_loop, Host, serves, choose_identity, choose_key,
  set_up, start, main,
}
use dsh_proxy.Main.Line.{Has, Names, Traced, parse_loop-Traced}
use dsh_proxy.Main.Bounds.{Positive, Runs, parse_loop-Runs, standard}

module _ (host : Host) where
  -- The certificate comes from two files that the line names, or was generated on demand.
  abbrev Certified : List String → Config → TlsIdentity → Type 0
  Certified args c identity =
      ((cert : String) × (key : String) × Names "--tls-cert" cert args
        × Names "--tls-key" key args
        × (c.tls_cert ≡ some cert)
        × (c.tls_key ≡ some key)
        × (load_pem host.pki cert key ≡ some identity))
      ⊎ (Has "--tls-self-signed" args
          × (c.tls_cert ≡ none)
          × (c.tls_key ≡ none)
          × (Tls.self_signed host.pki ("localhost" ∷ []) ≡ some identity))

  -- The private key is what the line gives, or was generated.
  abbrev Keyed : List String → Config → Bytes → Type 0
  Keyed args c private =
      ((text : String) × Names "--key" text args
        × (c.key ≡ some text)
        × (host.decode text ≡ some private))
      ⊎ ((c.key ≡ none)
          × ((pair : Keypair) × (host.generated ≡ some pair) × (pair.private ≡ private)))

  choose_key-Keyed :
      (args : List String) (c : Config) (private : Bytes)
      → Traced args c
      → choose_key host c ≡ some (some private)
      → Keyed args c private
  unfolding choose_key generate_keypair
  choose_key-Keyed args c private t e = elim (Option-cases c.key) [
    | inl q ↦ elim (Option-cases host.generated) [
      | inl r ↦ absurd (ground arith)
      | inr (pair, r) ↦ inr (q, (pair, r, ground arith))
    ]
    | inr (text, q) ↦ elim (Option-cases (host.decode text)) [
      | inl r ↦ absurd (ground arith)
      | inr (b, r) ↦ inl (text, t.key text q, q, ground arith)
    ]
  ]

  choose_identity-Certified :
      (args : List String) (c : Config) (identity : TlsIdentity)
      → Traced args c
      → choose_identity host c ≡ some (some identity)
      → Certified args c identity
  unfolding choose_identity
  choose_identity-Certified args c identity t e = elim (Option-cases c.tls_cert) [
    | inl q ↦ elim (Option-cases c.tls_key) [
      | inl r ↦ inr (t.asked (ground arith), q, r, ground arith)
      | inr (key, r) ↦ absurd (ground arith)
    ]
    | inr (cert, q) ↦ elim (Option-cases c.tls_key) [
      | inl r ↦ absurd (ground arith)
      | inr (key, r) ↦ inl (cert, key, t.cert cert q, t.tls_key key r, q, r, ground arith)
    ]
  ]

  -- What the proxy serves with.
  pub record Served (args : List String) (listen : String) (limits : Limits)
      (private public : Bytes) (tls : ServerConfig) : Type 0 where
    pub config : Config
    pub identity : TlsIdentity
    pub parsed : parse_loop args none defaults ≡ run config
    pub bound : listen ≡ config.listen
    pub limited : limits ≡ config.limits
    pub positive : Positive limits
    pub keyed : Keyed args config private
    pub secret : length private ≡ 32
    pub known : public ≡ host.public_of private
    pub certified : Certified args config identity
    pub chained : length identity.cert_chain ≢ 0
    pub offered : server_config host.pki identity ≡ some tls

  chained :
      (args : List String) (c : Config) (identity : TlsIdentity)
      → Certified args c identity
      → length identity.cert_chain ≢ 0
  chained args c identity v = elim v [
    | inl (cert, key, m, n, q, r, l) ↦ load_pem-chain host.pki cert key identity l
    | inr (f, q, r, l) ↦ self_signed-chain host.pki ("localhost" ∷ []) identity l
  ]

  set_up-Served :
      (args : List String) (c : Config) (listen : String) (limits : Limits)
      (key private known public : Bytes) (tls : ServerConfig)
      → parse_loop args none defaults ≡ run c
      → choose_key host c ≡ some (some key)
      → public_key_of host.public_of key ≡ some known
      → set_up host c key known ≡ serves listen limits private public tls
      → Served args listen limits private public tls
  unfolding set_up public_key_of
  set_up-Served args c listen limits key private known public tls e g k h =
      elim (Option-cases (choose_identity host c)) [
        | inl q ↦ absurd (ground arith)
        | inr (none, q) ↦ absurd (ground arith)
        | inr (some identity, q) ↦ elim (Option-cases (server_config host.pki identity)) [
          | inl r ↦ absurd (ground arith)
          | inr (config, r) ↦
              let same : c.limits ≡ limits = ground arith in
              let own : key ≡ private = ground arith in
              record {
                config = c;
                identity = identity;
                parsed = e;
                bound = ground arith;
                limited = sym same;
                positive =
                    subst Positive same
                      (subst Runs e (parse_loop-Runs args none defaults standard));
                keyed =
                    subst (λ p. Keyed args c p) own
                      (choose_key-Keyed args c key (parse_loop-Traced args c e) g);
                secret = ground arith;
                known = ground arith;
                certified =
                    choose_identity-Certified args c identity (parse_loop-Traced args c e) q;
                chained =
                    chained args c identity
                      (choose_identity-Certified args c identity (parse_loop-Traced args c e) q);
                offered = ground arith;
              }
        ]
      ]

  -- Whenever the proxy serves, every limit is positive, its private key has 32 bytes and is what the line's
  -- "--key" decodes to or, with no key set, the generated one, the public key is that of the private key,
  -- and TLS runs with a
  -- certificate chain, not empty, that was loaded from two files, each named on the command line behind its
  -- flag, or that was generated, and then "--tls-self-signed" is a word of the command line and no file is
  -- set once the line has been read (a flag at the end of the line clears the file named before).
  pub main-Served :
      (args : List String) (listen : String) (limits : Limits) (private public : Bytes)
      (tls : ServerConfig)
      → main host args ≡ serves listen limits private public tls
      → Served args listen limits private public tls
  unfolding main start
  main-Served args listen limits private public tls h =
      elim (Parsed-cases (parse_loop args none defaults)) [
        | inr (inl e) ↦ absurd (ground arith)
        | inr (inr e) ↦ absurd (ground arith)
        | inl (c, e) ↦ elim (Option-cases (choose_key host c)) [
          | inl q ↦ absurd (ground arith)
          | inr (none, q) ↦ absurd (ground arith)
          | inr (some key, q) ↦ elim (Option-cases (public_key_of host.public_of key)) [
            | inl k ↦ absurd (ground arith)
            | inr (known, k) ↦
                set_up-Served args c listen limits key private known public tls e q k (ground arith)
          ]
        ]
      ]
