-- ===== src/Main/Tests.antt =====
-- src/main.rs at concrete command lines.
use dsh_proxy.Common.{◌≡◌, refl, List, [], ◌∷◌, replicate, none, some}
use dsh_proxy.Common.Text.{String, same_text, codes}
use dsh_proxy.Noise.Keys.{generate_keypair, public_key_of}
use dsh_proxy.Proxy.Admit.{default}
use dsh_proxy.Tls.{ServerConfig, self_signed, server_config}
use dsh_proxy.Main.{
  Host, serves, main, parse_loop, word, with_value, without_value, positive, parse_usize,
  parse_unsigned, parse_digits, start, choose_key, choose_identity, set_up,
}
use dsh_proxy.Main.Laws.{Served, main-Served}

-- A host without files whose generator gives constants.
abbrev host : Host
host = record {
  decode = λ text. none;
  generated = some (record { private = replicate 32 1; public = replicate 32 2 });
  public_of = λ b. replicate 32 2;
  pki = record {
    read = λ path. none;
    certs = λ b. some [];
    private_key = λ b. some none;
    generate_simple_self_signed = λ names. some (3 ∷ [], 4 ∷ []);
    with_single_cert = λ identity. some (record { identity = identity; alpn_protocols = [] });
  };
}

abbrev line : List String
line = "--tls-self-signed" ∷ "--max-bridges" ∷ "+5" ∷ []

abbrev config : ServerConfig
config = record {
  identity = record { cert_chain = (3 ∷ []) ∷ []; key = 4 ∷ [] };
  alpn_protocols = codes "http/1.1" ∷ [];
}

too_large : parse_usize (codes "18446744073709551616") ≡ none
unfolding parse_usize parse_unsigned parse_digits
too_large = refl

-- A flag at the end of the line clears the file that the line named.
cleared :
    main host ("--tls-self-signed" ∷ "--tls-cert" ∷ "a.pem" ∷ "--tls-cert" ∷ [])
    ≡ serves "0.0.0.0:443" default (replicate 32 1) (replicate 32 2) config
unfolding main parse_loop word same_text with_value without_value start choose_key choose_identity
    set_up generate_keypair public_key_of self_signed server_config
cleared = refl

main-Served_example :
    Served host line "0.0.0.0:443"
      (record default { max_bridges = 5 })
      (replicate 32 1)
      (replicate 32 2)
      config
unfolding main parse_loop word same_text with_value positive parse_usize parse_unsigned parse_digits
    start choose_key choose_identity set_up generate_keypair public_key_of self_signed server_config
main-Served_example =
    main-Served host line "0.0.0.0:443" (record default { max_bridges = 5 }) (replicate 32 1)
      (replicate 32 2) config refl
