-- ===== src/Main/Line.antt =====
-- src/main.rs: what the words of the command line are to the configuration that is read from them.
use dsh_proxy.Common.{
  ◌≡◌, refl, sym, ap, subst, ◌∙◌, List, [], ◌∷◌, ◌++◌, ℕ, append_assoc, Option, none, some,
  Option-cases, inl, inr, true, arith,
}
use dsh_proxy.Common.Text.{String, same_text-true}
use dsh_proxy.Proxy.Admit.{Limits}
use dsh_proxy.Main.{
  Config, defaults, Flag, listen_flag, key_flag, cert_flag, tls_key_flag, bridges_flag,
  clients_flag, per_ip_flag, streams_flag, timeout_flag, takes, self_signed_word, word, Word-cases,
  positive, set_limit, with_value, without_value, Parsed, run, help, usage, finished, parse_loop,
}

-- A word of the line.
abbrev pub Has : String → List String → Type 0
Has arg args = (before : List String) × (after : List String) × (args ≡ before ++ (arg ∷ after))

-- A word of the line, and the word behind it.
abbrev pub Names : String → String → List String → Type 0
Names flag value args =
    (before : List String) × (after : List String) × (args ≡ before ++ (flag ∷ (value ∷ after)))

-- What the configuration says stands on the line.
pub record Traced (args : List String) (c : Config) : Type 0 where
  pub key : (text : String) → c.key ≡ some text → Names "--key" text args
  pub cert : (path : String) → c.tls_cert ≡ some path → Names "--tls-cert" path args
  pub tls_key : (path : String) → c.tls_key ≡ some path → Names "--tls-key" path args
  pub asked : c.self_signed ≡ true → Has "--tls-self-signed" args

pub defaults-Traced : (args : List String) → Traced args defaults
defaults-Traced args = record {
  key = λ text e. ground arith;
  cert = λ path e. ground arith;
  tls_key = λ path e. ground arith;
  asked = λ e. ground arith;
}

-- The words that are left, behind the flag that waits.
abbrev At : List String → Option Flag → List String → Type 0
At args none rest = (before : List String) × (args ≡ before ++ rest)
At args (some f) rest =
    (before : List String) × (arg : String) × (word arg ≡ takes f) × (args ≡ before ++ (arg ∷ rest))

word-key : (arg : String) → word arg ≡ takes key_flag → arg ≡ "--key"
unfolding word
word-key arg e = (same_text-true arg "--key").0 (ground arith)

word-cert : (arg : String) → word arg ≡ takes cert_flag → arg ≡ "--tls-cert"
unfolding word
word-cert arg e = (same_text-true arg "--tls-cert").0 (ground arith)

word-tls_key : (arg : String) → word arg ≡ takes tls_key_flag → arg ≡ "--tls-key"
unfolding word
word-tls_key arg e = (same_text-true arg "--tls-key").0 (ground arith)

word-self_signed : (arg : String) → word arg ≡ self_signed_word → arg ≡ "--tls-self-signed"
unfolding word
word-self_signed arg e = (same_text-true arg "--tls-self-signed").0 (ground arith)

named :
    (args before rest : List String) (arg flag value : String)
    → args ≡ before ++ (arg ∷ (value ∷ rest))
    → arg ≡ flag
    → Names flag value args
named args before rest arg flag value e q =
    (before, rest, e ∙ ap (λ a. before ++ (a ∷ (value ∷ rest))) q)

-- What an optional configuration says stands on the line, if there is one.
abbrev Traces : List String → Option Config → Type 0
Traces args none = Unit {0}
Traces args (some c) = Traced args c

set_limit-Traces :
    (args : List String) (o : Option ℕ) (f : ℕ → Limits) (c : Config)
    → Traced args c
    → Traces args (set_limit o f c)
set_limit-Traces args none f c v = tt
set_limit-Traces args (some n) f c v = record {
  key = v.key;
  cert = v.cert;
  tls_key = v.tls_key;
  asked = v.asked;
}

with_value-Traces :
    (args rest : List String) (f : Flag) (v : String) (c : Config)
    → At args (some f) (v ∷ rest)
    → Traced args c
    → Traces args (with_value f v c)
unfolding with_value
with_value-Traces args rest listen_flag v c at t = record {
  key = t.key;
  cert = t.cert;
  tls_key = t.tls_key;
  asked = t.asked;
}
with_value-Traces args rest key_flag v c (before, arg, w, e) t = record {
  key = λ text q.
      named args before rest arg "--key" text
        (e ∙ ap (λ p. before ++ (arg ∷ (p ∷ rest))) (ground arith)) (word-key arg w);
  cert = t.cert;
  tls_key = t.tls_key;
  asked = t.asked;
}
with_value-Traces args rest cert_flag v c (before, arg, w, e) t = record {
  key = t.key;
  cert = λ path q.
      named args before rest arg "--tls-cert" path
        (e ∙ ap (λ p. before ++ (arg ∷ (p ∷ rest))) (ground arith)) (word-cert arg w);
  tls_key = t.tls_key;
  asked = t.asked;
}
with_value-Traces args rest tls_key_flag v c (before, arg, w, e) t = record {
  key = t.key;
  cert = t.cert;
  tls_key = λ path q.
      named args before rest arg "--tls-key" path
        (e ∙ ap (λ p. before ++ (arg ∷ (p ∷ rest))) (ground arith)) (word-tls_key arg w);
  asked = t.asked;
}
with_value-Traces args rest bridges_flag v c at t =
    set_limit-Traces args (positive v) (λ n. record c.limits { max_bridges = n }) c t
with_value-Traces args rest clients_flag v c at t =
    set_limit-Traces args (positive v) (λ n. record c.limits { max_clients_per_ip = n }) c t
with_value-Traces args rest per_ip_flag v c at t =
    set_limit-Traces args (positive v) (λ n. record c.limits { max_bridges_per_ip = n }) c t
with_value-Traces args rest streams_flag v c at t =
    set_limit-Traces args (positive v) (λ n. record c.limits { max_streams_per_bridge = n }) c t
with_value-Traces args rest timeout_flag v c at t =
    set_limit-Traces args (positive v) (λ n. record c.limits { handshake_timeout = n }) c t

without_value-Traces :
    (args : List String) (f : Flag) (c : Config) → Traced args c → Traces args (without_value f c)
unfolding without_value
without_value-Traces args listen_flag c t = t
without_value-Traces args key_flag c t = record {
  key = λ text q. absurd (ground arith);
  cert = t.cert;
  tls_key = t.tls_key;
  asked = t.asked;
}
without_value-Traces args cert_flag c t = record {
  key = t.key;
  cert = λ path q. absurd (ground arith);
  tls_key = t.tls_key;
  asked = t.asked;
}
without_value-Traces args tls_key_flag c t = record {
  key = t.key;
  cert = t.cert;
  tls_key = λ path q. absurd (ground arith);
  asked = t.asked;
}
without_value-Traces args bridges_flag c t = tt
without_value-Traces args clients_flag c t = tt
without_value-Traces args per_ip_flag c t = tt
without_value-Traces args streams_flag c t = tt
without_value-Traces args timeout_flag c t = tt

-- What a parsed command line says, if it is to be run.
abbrev pub Says : List String → Parsed → Type 0
Says args (run c) = Traced args c
Says args help = Unit {0}
Says args usage = Unit {0}

finished-Says : (args : List String) (o : Option Config) → Traces args o → Says args (finished o)
finished-Says args none t = tt
finished-Says args (some c) t = t

-- The word that is read is behind those that were read before it.
past :
    (args before rest : List String) (arg : String)
    → args ≡ before ++ (arg ∷ rest)
    → args ≡ (before ++ (arg ∷ [])) ++ rest
past args before rest arg e = e ∙ sym (append_assoc before (arg ∷ []) rest)

pub parse_loop-Says :
    (args rest : List String) (w : Option Flag) (c : Config)
    → At args w rest
    → Traced args c
    → Says args (parse_loop rest w c)
unfolding parse_loop
parse_loop-Says args [] none c at t = t
parse_loop-Says args [] (some f) c at t =
    finished-Says args (without_value f c) (without_value-Traces args f c t)
parse_loop-Says args (v ∷ rest) (some f) c (before, arg, w, e) t =
    elim (Option-cases (with_value f v c)) [
      | inl q ↦ rw (q, parse_loop) tt
      | inr (c', q) ↦
          rw (q, parse_loop)
            (parse_loop-Says args rest none c'
              (before ++ (arg ∷ (v ∷ [])), e ∙ sym (append_assoc before (arg ∷ (v ∷ [])) rest))
              (subst (λ o. Traces args o) q
                (with_value-Traces args rest f v c (before, arg, w, e) t)))
    ]
parse_loop-Says args (arg ∷ rest) none c (before, e) t = elim (Word-cases (word arg)) [
  | inl (f, q) ↦ rw (q, parse_loop) (parse_loop-Says args rest (some f) c (before, arg, q, e) t)
  | inr (inl q) ↦
      rw (q, parse_loop)
        (parse_loop-Says args rest none (record c { self_signed = true })
          (before ++ (arg ∷ []), past args before rest arg e)
          (record {
            key = t.key;
            cert = t.cert;
            tls_key = t.tls_key;
            asked =
                λ s. (before, rest, e ∙ ap (λ a. before ++ (a ∷ rest)) (word-self_signed arg q));
          }))
  | inr (inr (inl q)) ↦ rw (q, parse_loop) tt
  | inr (inr (inr q)) ↦ rw (q, parse_loop) tt
]

-- What a command line that is to be run is read as stands on it.
pub parse_loop-Traced :
    (args : List String) (c : Config) → parse_loop args none defaults ≡ run c → Traced args c
parse_loop-Traced args c e =
    subst (λ p. Says args p) e
      (parse_loop-Says args args none defaults ([], refl) (defaults-Traced args))
