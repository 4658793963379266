-- ===== src/Proxy/Duplex/Traffic.antt =====
-- src/mux.rs: what the frames of a link carry and grant for one stream, and calls that add nothing to it.
use dsh_proxy.Common.{
  ℕ, ◌+◌, ◌^◌, ◌<◌, ◌≡◌, ◌≢◌, refl, ap, ◌∙◌, List, [], ◌∷◌, ◌++◌, map, inl, inr, false, Bool-cases,
  ◌==◌, ◌&&◌, ==_self, if◌then◌else◌, All, arith,
}
use dsh_proxy.Common.Bytes.{Bytes, u32-put_u32}
use dsh_proxy.Frame.{Frame}
use dsh_proxy.Mux.Read.{granted}
use dsh_proxy.Mux.Send.{data_frame}
use dsh_proxy.Mux.Send.Carried.{carried, carried-append, carried-other}
use dsh_proxy.Mux.Emits.{Kind}
use dsh_proxy.Proxy.Splice.{credit_frame}
use dsh_proxy.Wire.{kind_window}

-- The credit that the frames return for a stream.
unfoldable pub credited : ℕ → List Frame → ℕ
credited id [] = 0
credited id (f ∷ fs) =
    if f.id == id && f.kind == kind_window
    then granted f.payload + credited id fs
    else credited id fs

pub credited-append :
    (id : ℕ) (fs gs : List Frame) → credited id (fs ++ gs) ≡ credited id fs + credited id gs
unfolding credited
credited-append id [] gs = omega arith
credited-append id (f ∷ fs) gs =
    let ih = credited-append id fs gs in
    elim (Bool-cases (f.id == id && f.kind == kind_window)) [
      | inl e ↦ rw e (omega (arith, ih))
      | inr e ↦ rw e ih
    ]

-- A frame that neither carries data of the stream nor returns credit for it.
abbrev pub Silent : ℕ → Frame → Type 0
Silent id f = (carried id (f ∷ []) ≡ []) × (credited id (f ∷ []) ≡ 0)

pub All-Silent :
    (id : ℕ) (fs : List Frame) → All (Silent id) fs → (carried id fs ≡ []) × (credited id fs ≡ 0)
unfolding carried credited
All-Silent id [] v = (refl, refl)
All-Silent id (f ∷ fs) (v, vs) =
    let (c, g) = All-Silent id fs vs in
    (
      carried-append id (f ∷ []) fs ∙ ap (λ l. l ++ carried id fs) v.0 ∙ c,
      omega (arith, credited-append id (f ∷ []) fs, v.1, g),
    )

pub uncredited : (id : ℕ) (f : Frame) → (f.kind == kind_window) ≡ false → credited id (f ∷ []) ≡ 0
unfolding credited
uncredited id f other = elim (Bool-cases (f.id == id)) [
  | inl e ↦ rw (e, other) refl
  | inr e ↦ rw e refl
]

pub credited-data :
    (id : ℕ) (j : ℕ) (chunks : List Bytes) → credited id (map (data_frame j) chunks) ≡ 0
unfolding credited
credited-data id j [] = refl
credited-data id j (c ∷ cs) = omega (
  arith,
  credited-append id (data_frame j c ∷ []) (map (data_frame j) cs),
  uncredited id (data_frame j c) refl,
  credited-data id j cs,
)

pub credited-grant : (id n : ℕ) → n < 2 ^ 32 → credited id (credit_frame id n ∷ []) ≡ n
unfolding credited
credited-grant id n h = rw (==_self id) (omega (arith, u32-put_u32 n h))

pub carried_apart : (id : ℕ) (f : Frame) → f.id ≢ id → carried id (f ∷ []) ≡ []
unfolding carried
carried_apart id f ne = ground arith

pub credited_apart : (id : ℕ) (f : Frame) → f.id ≢ id → credited id (f ∷ []) ≡ 0
unfolding credited
credited_apart id f ne = ground arith

pub carried_empty : (id : ℕ) (f : Frame) → f.payload ≡ [] → carried id (f ∷ []) ≡ []
unfolding carried
carried_empty id f e = ground arith

-- Calls that send no data on a stream and grant it no credit.
abbrev pub elsewhere : ℕ → Kind
elsewhere id = record {
  IsId = λ j. Unit {0};
  Grants = λ j. j ≢ id;
  Out = Silent id;
  May = λ j b. j ≢ id;
  Heard = λ m. Unit {0};
  next_id = λ n. tt;
  opening = λ j h. (carried-other id _ refl, uncredited id _ refl);
  closing = λ j h. (carried-other id _ refl, uncredited id _ refl);
  keepalive = (carried_empty id _ refl, uncredited id _ refl);
  granting = λ j n h. (carried-other id _ refl, credited_apart id _ h);
  sending = λ j n b h m. (carried_apart id _ h, uncredited id _ refl);
  rest = λ j n b h. h;
  hearing = λ m f h e. tt;
}
