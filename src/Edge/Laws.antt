-- ===== src/Edge/Laws.antt =====
-- src/edge.rs: which requests switch protocols, and which bytes open a stream.
use dsh_proxy.Common.{
  map, List, if◌then◌else◌, ◌≡◌, refl, ap, sym, ◌∙◌, ◌++◌, length, take, take-length, [], ◌∷◌,
  Option, some, arith,
}
use dsh_proxy.Common.Bytes.{Bytes}
use dsh_proxy.Common.Text.{String, codes, to_lower, same_text}
use dsh_proxy.Edge.{Request, Response, empty, tunnel_task}
use dsh_proxy.Frame.{control}
use dsh_proxy.Mux.Runtime.{Runtime, Lawful}
use dsh_proxy.Mux.Session.{MuxSession}
use dsh_proxy.Mux.Ops.Open.{Known}
use dsh_proxy.Mux.Send.{data_frame}
use dsh_proxy.Mux.Send.Live.{Alive}
use dsh_proxy.Proxy.Client.{runs, open_for, serve_client}
use dsh_proxy.Proxy.Client.Laws.{open_for-greets}
use dsh_proxy.Wire.{version, kind_open}

-- A header that names the protocol, in whatever case.
abbrev pub Websocket : Option String → Type 0
Websocket header =
    (value : String) × (header ≡ some value) × (map to_lower (codes value) ≡ codes "websocket")

-- A request that asks for the tunnel, with the key it brings.
pub record Asks (req : Request) (key : String) : Type 0 where
  pub path : req.path ≡ "/tunnel"
  pub upgrade : Websocket req.upgrade
  pub brings : req.websocket_key ≡ some key

-- The values of the headers of a name.
unfoldable pub values : String → List (String × Bytes) → List Bytes
values name [] = []
values name ((n, v) ∷ hs) = if same_text n name then v ∷ values name hs else values name hs

module _ (sha1 base64 : Bytes → Bytes) where
  -- The answer of RFC 6455 to a key.
  pub record Switched (key : String) (r : Response) : Type 0 where
    pub status : r.status ≡ 101
    pub connection : values "connection" r.headers ≡ codes "Upgrade" ∷ []
    pub upgrade : values "upgrade" r.headers ≡ codes "websocket" ∷ []
    pub accept :
        values "sec-websocket-accept" r.headers
        ≡ base64 (sha1 (codes key ++ codes "258EAFA5-E914-47DA-95CA-C5AB0DC85B11")) ∷ []
    pub body : r.body ≡ empty

-- The preamble of a client that addresses a key.
abbrev pub preamble : Bytes → Bytes
preamble key = b'D' ∷ b'S' ∷ b'H' ∷ b'C' ∷ version ∷ key

module _ {rt : Runtime} (law : Lawful rt) (alive : Alive rt) where
  -- A client whose preamble names the key of a bridge whose link is alive and has a permit left, and whose
  -- map holds only addresses handed out before, gets a stream of that link, and the bridge is sent an
  -- OPEN frame and one DATA frame with that preamble, and nothing else.
  pub tunnel_task-greets :
      (table : Bytes → Option (MuxSession rt)) (key : Bytes) (s : MuxSession rt) (b : rt.Sem)
      → length key ≡ 32
      → table key ≡ some s
      → Known s
      → rt.try_acquire 1 s.budget ≡ some b
      → let s' = (open_for s (preamble key)).0 in
        (tunnel_task table (some (preamble key))
          ≡ some (some s', runs (record { id = s.next_id; at = s.fresh })))
        × (rt.accepted s'.out
            ≡ rt.accepted s.out
              ++ (control s.next_id kind_open ∷ data_frame s.next_id (preamble key) ∷ []))
  unfolding tunnel_task serve_client
  tunnel_task-greets table key s b size found known got =
      let whole : take 32 key ≡ key = ap (λ n. take n key) (sym size) ∙ take-length key in
      let routed : table (take 32 key) ≡ some s = ap table whole ∙ found in
      let g =
        open_for-greets law alive s b b'D' (b'S' ∷ b'H' ∷ b'C' ∷ version ∷ key) known got
          (omega (arith, size)) in
      let served : serve_client table (preamble key)
          ≡ (some (open_for s (preamble key)).0, (open_for s (preamble key)).1) =
        rw (routed, serve_client) refl in
      (ap some (served ∙ ap (λ r. (some (open_for s (preamble key)).0, r)) g.0), g.1)
