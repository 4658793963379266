-- ===== src/Main/Bounds.antt =====
-- src/main.rs: the limits that the command line gives.
use dsh_proxy.Common.{
  ℕ, ◌<◌, ◌≡◌, refl, subst, List, [], ◌∷◌, Option, none, some, Option-cases, inl, inr, true, arith,
}
use dsh_proxy.Common.Text.{String}
use dsh_proxy.Proxy.Admit.{Limits}
use dsh_proxy.Main.{
  Config, defaults, Flag, listen_flag, key_flag, cert_flag, tls_key_flag, bridges_flag,
  clients_flag, per_ip_flag, streams_flag, timeout_flag, word, Word-cases, positive, set_limit,
  with_value, without_value, Parsed, run, help, usage, finished, parse_loop,
}

pub record Positive (l : Limits) : Type 0 where
  pub bridges : 0 < l.max_bridges
  pub per_ip : 0 < l.max_bridges_per_ip
  pub streams : 0 < l.max_streams_per_bridge
  pub timeout : 0 < l.handshake_timeout
  pub clients : 0 < l.max_clients_per_ip

positive-some : (value : String) (n : ℕ) → positive value ≡ some n → 0 < n
unfolding positive
positive-some value n e = ground arith

-- What an optional configuration is, if there is one.
abbrev Sound : Option Config → Type 0
Sound none = Unit {0}
Sound (some c) = Positive c.limits

set_limit-Sound :
    (o : Option ℕ) (f : ℕ → Limits) (c : Config)
    → ((n : ℕ) → o ≡ some n → Positive (f n))
    → Sound (set_limit o f c)
set_limit-Sound none f c h = tt
set_limit-Sound (some n) f c h = h n refl

with_value-Sound :
    (f : Flag) (v : String) (c : Config) → Positive c.limits → Sound (with_value f v c)
unfolding with_value
with_value-Sound listen_flag v c p = p
with_value-Sound key_flag v c p = p
with_value-Sound cert_flag v c p = p
with_value-Sound tls_key_flag v c p = p
with_value-Sound bridges_flag v c p =
    set_limit-Sound (positive v) (λ n. record c.limits { max_bridges = n }) c
      (λ n e. record {
        bridges = positive-some v n e;
        per_ip = p.per_ip;
        streams = p.streams;
        timeout = p.timeout;
        clients = p.clients;
      })
with_value-Sound clients_flag v c p =
    set_limit-Sound (positive v) (λ n. record c.limits { max_clients_per_ip = n }) c
      (λ n e. record {
        bridges = p.bridges;
        per_ip = p.per_ip;
        streams = p.streams;
        timeout = p.timeout;
        clients = positive-some v n e;
      })
with_value-Sound per_ip_flag v c p =
    set_limit-Sound (positive v) (λ n. record c.limits { max_bridges_per_ip = n }) c
      (λ n e. record {
        bridges = p.bridges;
        per_ip = positive-some v n e;
        streams = p.streams;
        timeout = p.timeout;
        clients = p.clients;
      })
with_value-Sound streams_flag v c p =
    set_limit-Sound (positive v) (λ n. record c.limits { max_streams_per_bridge = n }) c
      (λ n e. record {
        bridges = p.bridges;
        per_ip = p.per_ip;
        streams = positive-some v n e;
        timeout = p.timeout;
        clients = p.clients;
      })
with_value-Sound timeout_flag v c p =
    set_limit-Sound (positive v) (λ n. record c.limits { handshake_timeout = n }) c
      (λ n e. record {
        bridges = p.bridges;
        per_ip = p.per_ip;
        streams = p.streams;
        timeout = positive-some v n e;
        clients = p.clients;
      })

without_value-Sound : (f : Flag) (c : Config) → Positive c.limits → Sound (without_value f c)
unfolding without_value
without_value-Sound listen_flag c p = p
without_value-Sound key_flag c p = p
without_value-Sound cert_flag c p = p
without_value-Sound tls_key_flag c p = p
without_value-Sound bridges_flag c p = tt
without_value-Sound clients_flag c p = tt
without_value-Sound per_ip_flag c p = tt
without_value-Sound streams_flag c p = tt
without_value-Sound timeout_flag c p = tt

-- What a parsed command line is, if it is to be run.
abbrev pub Runs : Parsed → Type 0
Runs (run c) = Positive c.limits
Runs help = Unit {0}
Runs usage = Unit {0}

finished-Runs : (o : Option Config) → Sound o → Runs (finished o)
finished-Runs none v = tt
finished-Runs (some c) v = v

pub parse_loop-Runs :
    (args : List String) (w : Option Flag) (c : Config)
    → Positive c.limits
    → Runs (parse_loop args w c)
unfolding parse_loop
parse_loop-Runs [] none c p = p
parse_loop-Runs [] (some f) c p = finished-Runs (without_value f c) (without_value-Sound f c p)
parse_loop-Runs (v ∷ rest) (some f) c p = elim (Option-cases (with_value f v c)) [
  | inl e ↦ rw (e, parse_loop) tt
  | inr (c', e) ↦
      rw (e, parse_loop)
        (parse_loop-Runs rest none c' (subst (λ o. Sound o) e (with_value-Sound f v c p)))
]
parse_loop-Runs (arg ∷ rest) none c p = elim (Word-cases (word arg)) [
  | inl (f, e) ↦ rw (e, parse_loop) (parse_loop-Runs rest (some f) c p)
  | inr (inl e) ↦ rw (e, parse_loop) (parse_loop-Runs rest none (record c { self_signed = true }) p)
  | inr (inr (inl e)) ↦ rw (e, parse_loop) tt
  | inr (inr (inr e)) ↦ rw (e, parse_loop) tt
]

pub standard : Positive defaults.limits
standard = record {
  bridges = omega arith;
  per_ip = omega arith;
  streams = omega arith;
  timeout = omega arith;
  clients = omega arith;
}
