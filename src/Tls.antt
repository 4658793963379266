-- ===== src/Tls.antt =====
-- src/tls.rs: the proxy's certificate and key. The file system, the PEM parser, the generator and the
-- builder of a rustls configuration are parameters.
use dsh_proxy.Common.{
  ◌≡◌, ◌≢◌, Option-cases, inl, inr, arith, List, [], ◌∷◌, Option, none, some, length, ◌==◌,
  if◌then◌else◌,
}
use dsh_proxy.Common.Bytes.{Bytes}
use dsh_proxy.Common.Text.{String, codes}

-- The chain with the leaf first, and the private key, each in DER.
pub record TlsIdentity : Type 0 where
  pub cert_chain : List Bytes
  pub key : Bytes

-- rustls's server configuration: what it was built from, and the protocols that it offers.
pub record ServerConfig : Type 0 where
  pub identity : TlsIdentity
  pub alpn_protocols : List Bytes

pub record Pki : Type 0 where
  pub read : String → Option Bytes
  pub certs : Bytes → Option (List Bytes)
  pub private_key : Bytes → Option (Option Bytes)
  pub generate_simple_self_signed : List String → Option (Bytes × Bytes)
  pub with_single_cert : TlsIdentity → Option ServerConfig

infixl 5 ◌>>=◌
abbrev pub ◌>>=◌ : {A B : Type 0} → Option A → (A → Option B) → Option B
none >>= k = none
(some a) >>= k = k a

module _ (pki : Pki) where
  unfoldable pub self_signed : List String → Option TlsIdentity
  self_signed names = do
    (cert, key) ← pki.generate_simple_self_signed names
    some (record { cert_chain = cert ∷ []; key = key })

  -- `none` stands for any error.
  unfoldable pub load_pem : String → String → Option TlsIdentity
  load_pem cert_path key_path = do
    cert_bytes ← pki.read cert_path
    key_bytes ← pki.read key_path
    cert_chain ← pki.certs cert_bytes
    found ← if length cert_chain == 0 then none else pki.private_key key_bytes
    key ← found
    some (record { cert_chain = cert_chain; key = key })

  unfoldable pub server_config : TlsIdentity → Option ServerConfig
  server_config identity = do
    config ← pki.with_single_cert identity
    some (record config { alpn_protocols = codes "http/1.1" ∷ [] })

  -- A chain that was loaded or generated is not empty.
  pub load_pem-chain :
      (cert_path key_path : String) (identity : TlsIdentity)
      → load_pem cert_path key_path ≡ some identity
      → length identity.cert_chain ≢ 0
  unfolding load_pem
  load_pem-chain cert_path key_path identity e = elim (Option-cases (pki.read cert_path)) [
    | inl a ↦ absurd (ground arith)
    | inr (cert_bytes, a) ↦ elim (Option-cases (pki.read key_path)) [
      | inl b ↦ absurd (ground arith)
      | inr (key_bytes, b) ↦ elim (Option-cases (pki.certs cert_bytes)) [
        | inl c ↦ absurd (ground arith)
        | inr (chain, c) ↦ ground arith
      ]
    ]
  ]

  pub self_signed-chain :
      (names : List String) (identity : TlsIdentity)
      → self_signed names ≡ some identity
      → length identity.cert_chain ≢ 0
  unfolding self_signed
  self_signed-chain names identity e = ground arith
