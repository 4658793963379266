-- ===== src/Main.antt =====
-- src/main.rs: the command line, and how the proxy gets its key and its certificate before it serves.
pub mod Bounds
pub mod Laws
mod Line
mod Tests
use dsh_proxy.Common.{
  ◌≡◌, ◌⊎◌, inl, inr, refl, ℕ, ◌+◌, ◌-◌, ◌*◌, ◌^◌, List, [], ◌∷◌, Option, none, some, Bool, true,
  false, ltb, leb, ◌==◌, ◌&&◌, if◌then◌else◌,
}
use dsh_proxy.Common.Bytes.{Bytes}
use dsh_proxy.Common.Text.{String, codes, same_text}
use dsh_proxy.Noise.Keys.{Keypair, generate_keypair, public_key_of}
use dsh_proxy.Proxy.Admit.{Limits, default}
use dsh_proxy.Tls.{Pki, TlsIdentity, ServerConfig, self_signed, load_pem, server_config}
use dsh_proxy.Tls

pub record Config : Type 0 where
  pub listen : String
  pub key : Option String
  pub tls_cert : Option String
  pub tls_key : Option String
  pub self_signed : Bool
  pub limits : Limits

abbrev pub defaults : Config
defaults = record {
  listen = "0.0.0.0:443";
  key = none;
  tls_cert = none;
  tls_key = none;
  self_signed = false;
  limits = default;
}

-- The flags that wait for a value, by what they set.
pub data Flag : Type 0 where
  listen_flag key_flag cert_flag tls_key_flag : Flag
  bridges_flag clients_flag per_ip_flag streams_flag timeout_flag : Flag

pub data Word : Type 0 where
  takes : Flag → Word
  self_signed_word help_word unknown_word : Word

pub Word-cases :
    (w : Word)
    → ((f : Flag) × (w ≡ takes f)) ⊎ (w ≡ self_signed_word) ⊎ (w ≡ help_word) ⊎ (w ≡ unknown_word)
Word-cases (takes f) = inl (f, refl)
Word-cases self_signed_word = inr (inl refl)
Word-cases help_word = inr (inr (inl refl))
Word-cases unknown_word = inr (inr (inr refl))

unfoldable pub word : String → Word
word arg =
    if same_text arg "--listen"
    then takes listen_flag
    else if same_text arg "--key"
    then takes key_flag
    else if same_text arg "--tls-cert"
    then takes cert_flag
    else if same_text arg "--tls-key"
    then takes tls_key_flag
    else if same_text arg "--tls-self-signed"
    then self_signed_word
    else if same_text arg "--max-bridges"
    then takes bridges_flag
    else if same_text arg "--max-clients-per-ip"
    then takes clients_flag
    else if same_text arg "--max-bridges-per-ip"
    then takes per_ip_flag
    else if same_text arg "--max-streams-per-bridge"
    then takes streams_flag
    else if same_text arg "--handshake-timeout-ms"
    then takes timeout_flag
    else if same_text arg "--help"
    then help_word
    else if same_text arg "-h"
    then help_word
    else unknown_word

-- `str::parse::<usize>`: digits with at most one plus before them, and no overflow of 64 bits.
unfoldable pub parse_digits : List ℕ → ℕ → Option ℕ
parse_digits [] acc = some acc
parse_digits (c ∷ cs) acc =
    let next = acc * 10 + (c - b'0') in
    let rest = parse_digits cs next in
    if leb b'0' c && leb c b'9' && ltb next (2 ^ 64) then rest else none

unfoldable pub parse_unsigned : List ℕ → Option ℕ
parse_unsigned [] = none
parse_unsigned (c ∷ cs) = parse_digits (c ∷ cs) 0

unfoldable pub parse_usize : List ℕ → Option ℕ
parse_usize [] = none
parse_usize (c ∷ cs) = if c == b'+' then parse_unsigned cs else parse_unsigned (c ∷ cs)

-- The value of a flag that wants a positive integer.
unfoldable pub positive : String → Option ℕ
positive value = elim (parse_usize (codes value)) [
  | none ↦ none
  | some n ↦ if ltb 0 n then some n else none
]

abbrev pub set_limit : Option ℕ → (ℕ → Limits) → Config → Option Config
set_limit none f c = none
set_limit (some n) f c = some (record c { limits = f n })

-- A flag with its value; `none` where the process exits with a usage error.
unfoldable pub with_value : Flag → String → Config → Option Config
with_value listen_flag v c = some (record c { listen = v })
with_value key_flag v c = some (record c { key = some v })
with_value cert_flag v c = some (record c { tls_cert = some v })
with_value tls_key_flag v c = some (record c { tls_key = some v })
with_value bridges_flag v c = set_limit (positive v) (λ n. record c.limits { max_bridges = n }) c
with_value clients_flag v c =
    set_limit (positive v) (λ n. record c.limits { max_clients_per_ip = n }) c
with_value per_ip_flag v c =
    set_limit (positive v) (λ n. record c.limits { max_bridges_per_ip = n }) c
with_value streams_flag v c =
    set_limit (positive v) (λ n. record c.limits { max_streams_per_bridge = n }) c
with_value timeout_flag v c =
    set_limit (positive v) (λ n. record c.limits { handshake_timeout = n }) c

-- A flag at the end of the line: what it would set is cleared, and the address stays.
unfoldable pub without_value : Flag → Config → Option Config
without_value listen_flag c = some c
without_value key_flag c = some (record c { key = none })
without_value cert_flag c = some (record c { tls_cert = none })
without_value tls_key_flag c = some (record c { tls_key = none })
without_value other c = none

pub data Parsed : Type 0 where
  run : Config → Parsed
  help usage : Parsed

pub Parsed-cases : (p : Parsed) → ((c : Config) × (p ≡ run c)) ⊎ (p ≡ help) ⊎ (p ≡ usage)
Parsed-cases (run c) = inl (c, refl)
Parsed-cases help = inr (inl refl)
Parsed-cases usage = inr (inr refl)

abbrev pub finished : Option Config → Parsed
finished none = usage
finished (some c) = run c

-- The loop over the arguments, with the flag that waits for a value.
unfoldable pub parse_loop : List String → Option Flag → Config → Parsed
parse_loop [] none c = run c
parse_loop [] (some f) c = finished (without_value f c)
parse_loop (v ∷ rest) (some f) c = elim (with_value f v c) [
  | none ↦ usage
  | some c' ↦ parse_loop rest none c'
]
parse_loop (arg ∷ rest) none c = elim (word arg) [
  | takes f ↦ parse_loop rest (some f) c
  | self_signed_word ↦ parse_loop rest none (record c { self_signed = true })
  | help_word ↦ help
  | unknown_word ↦ usage
]

-- What the libraries give: base64 of the trimmed text, a generated key pair, the public key.
pub record Host : Type 0 where
  pub decode : String → Option Bytes
  pub generated : Option Keypair
  pub public_of : Bytes → Bytes
  pub pki : Pki

-- `Ok`, an exit with status 2, an error, or the proxy serving.
pub data Started : Type 0 where
  helped exits errors : Started
  serves : String → Limits → Bytes → Bytes → ServerConfig → Started

module _ (host : Host) where
  unfoldable pub choose_identity : Config → Option (Option TlsIdentity)
  choose_identity c = elim c.tls_cert [
    | some cert ↦ elim c.tls_key [ some key ↦ some (load_pem host.pki cert key) | none ↦ none ]
    | none ↦ elim c.tls_key [
      | some key ↦ none
      | none ↦ if c.self_signed then some (Tls.self_signed host.pki ("localhost" ∷ [])) else none
    ]
  ]

  -- The private key: `none` where the process exits, `some none` for an error.
  unfoldable pub choose_key : Config → Option (Option Bytes)
  choose_key c = elim c.key [
    | some text ↦ elim (host.decode text) [ none ↦ none | some private ↦ some (some private) ]
    | none ↦ elim (generate_keypair host.generated) [
      | none ↦ some none
      | some (private, public) ↦ some (some private)
    ]
  ]

  unfoldable pub set_up : Config → Bytes → Bytes → Started
  set_up c private public = elim (choose_identity c) [
    | none ↦ exits
    | some none ↦ errors
    | some (some identity) ↦ elim (server_config host.pki identity) [
      | none ↦ errors
      | some tls ↦ serves c.listen c.limits private public tls
    ]
  ]

  unfoldable pub start : Config → Started
  start c = elim (choose_key c) [
    | none ↦ exits
    | some none ↦ errors
    | some (some private) ↦ elim (public_key_of host.public_of private) [
      | none ↦ errors
      | some public ↦ set_up c private public
    ]
  ]

  unfoldable pub main : List String → Started
  main args = elim (parse_loop args none defaults) [
    | run c ↦ start c
    | help ↦ helped
    | usage ↦ exits
  ]
