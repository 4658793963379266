-- ===== src/Edge.antt =====
-- src/edge.rs: the route of a request, its answer, and what a tunnel does with its first bytes. Of a
-- request stands what the code reads: its path and two headers, each as the text that `to_str` gives.
pub mod Laws
mod Tests
use dsh_proxy.Common.{
  ℕ, ◌≡◌, List, [], ◌∷◌, ◌++◌, map, length, get_or, take, Option, none, some, Bool, true, false,
  ◌&&◌, ◌==◌, if◌then◌else◌,
}
use dsh_proxy.Common.Bytes.{Bytes}
use dsh_proxy.Common.Text.{String, codes, to_lower, same_text}
use dsh_proxy.Mux.Runtime.{Runtime}
use dsh_proxy.Mux.Session.{MuxSession}
use dsh_proxy.Proxy.Client.{Splice, serve_client}
use dsh_proxy.Ws.Accept.{accept_key}
use dsh_proxy.Wire.{version}

pub record Request : Type 0 where
  pub path : String
  pub upgrade : Option String
  pub websocket_key : Option String

-- The bodies: empty, `{ "ok": true }` and `{ "error": message }`.
pub data Body : Type 0 where
  empty healthy : Body
  error : String → Body

pub record Response : Type 0 where
  pub status : ℕ
  pub headers : List (String × Bytes)
  pub body : Body

abbrev pub json : ℕ → Body → Response
json status value = record {
  status = status;
  headers = ("content-type", codes "application/json") ∷ [];
  body = value;
}

abbrev pub fail : ℕ → String → Response
fail status message = json status (error message)

-- Equality of byte strings up to ASCII case.
unfoldable pub eq_ignore_ascii_case : Bytes → Bytes → Bool
eq_ignore_ascii_case [] [] = true
eq_ignore_ascii_case [] (y ∷ ys) = false
eq_ignore_ascii_case (x ∷ xs) [] = false
eq_ignore_ascii_case (x ∷ xs) (y ∷ ys) = to_lower x == to_lower y && eq_ignore_ascii_case xs ys

unfoldable pub is_upgrade : Request → Bool
is_upgrade req = elim req.upgrade [
  | none ↦ false
  | some value ↦ eq_ignore_ascii_case (codes value) (codes "websocket")
]

module _ (sha1 base64 : Bytes → Bytes) where
  abbrev pub switching : String → Response
  switching key = record {
    status = 101;
    headers =
        ("connection", codes "Upgrade")
        ∷ ("upgrade", codes "websocket")
        ∷ ("sec-websocket-accept", accept_key sha1 base64 (codes key))
        ∷ [];
    body = empty;
  }

  -- The answer, and whether a task was spawned for the tunnel.
  unfoldable pub tunnel : Request → Response × Bool
  tunnel req = elim req.websocket_key [
    | none ↦ (fail 400 "missing Sec-WebSocket-Key", false)
    | some key ↦ (switching key, true)
  ]

  unfoldable pub handle : Request → Response × Bool
  handle req =
      if same_text req.path "/tunnel" && is_upgrade req
      then tunnel req
      else if same_text req.path "/health"
      then (json 200 healthy, false)
      else (fail 404 "no such route", false)

-- The test of a tunnel's preamble.
abbrev pub is_client : Bytes → Bool
is_client head =
    get_or head 0 0 == b'D'
    && get_or head 1 0 == b'S'
    && get_or head 2 0 == b'H'
    && get_or head 3 0 == b'C'
    && get_or head 4 0 == version

module _ {rt : Runtime} where
  -- The task of a tunnel: the bytes of the preamble that were read in time, if the upgrade came about
  -- and they did, and what becomes of the client; `none` where the task just ends.
  unfoldable pub tunnel_task :
      (Bytes → Option (MuxSession rt)) → Option Bytes → Option (Option (MuxSession rt) × Splice)
  tunnel_task table none = none
  tunnel_task table (some head) = if is_client head then some (serve_client table head) else none
