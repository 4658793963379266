-- ===== src/Mux/Send/Carried.antt =====
-- src/mux.rs: the bytes of one stream among the frames of a link.
use dsh_proxy.Common.{
  ℕ, ◌≡◌, refl, sym, ap, ◌∙◌, List, [], ◌∷◌, ◌++◌, map, inl, inr, false, Bool-cases, ◌==◌, ◌&&◌,
  ==_self, if◌then◌else◌, append_assoc,
}
use dsh_proxy.Common.Bytes.{Bytes}
use dsh_proxy.Frame.{Frame}
use dsh_proxy.Mux.Runtime.{Runtime, Lawful}
use dsh_proxy.Mux.Session.{Half, MuxSession}
use dsh_proxy.Mux.Send.{Progress, data_frame}
use dsh_proxy.Mux.Send.Flow.{Flow}
use dsh_proxy.Wire.{kind_data}
use mathlib.Core.List.{flatten}

-- The bytes that the frames of one stream carry.
unfoldable pub carried : ℕ → List Frame → Bytes
carried id [] = []
carried id (f ∷ fs) =
    if f.id == id && f.kind == kind_data then f.payload ++ carried id fs else carried id fs

pub carried-append :
    (id : ℕ) (fs gs : List Frame) → carried id (fs ++ gs) ≡ carried id fs ++ carried id gs
unfolding carried
carried-append id [] gs = refl
carried-append id (f ∷ fs) gs = elim (Bool-cases (f.id == id && f.kind == kind_data)) [
  | inl e ↦
      rw e (ap (λ l. f.payload ++ l) (carried-append id fs gs) ∙ sym (append_assoc f.payload _ _))
  | inr e ↦ rw e (carried-append id fs gs)
]

pub carried-other : (id : ℕ) (f : Frame) → (f.kind == kind_data) ≡ false → carried id (f ∷ []) ≡ []
unfolding carried
carried-other id f other = elim (Bool-cases (f.id == id)) [
  | inl e ↦ rw (e, other) refl
  | inr e ↦ rw e refl
]

pub carried-data :
    (id : ℕ) (chunks : List Bytes) → carried id (map (data_frame id) chunks) ≡ flatten chunks
unfolding carried flatten
carried-data id [] = refl
carried-data id (c ∷ cs) = rw (==_self id) (ap (λ l. c ++ l) (carried-data id cs))

module _ {rt : Runtime} (law : Lawful rt) where
  -- What a send puts on the link, and behind it what it left and what was to follow.
  pub sent_part :
      (s s' : MuxSession rt) (tx : Half) (bytes : Bytes) (p : Progress) (more : Bytes)
      → (v : Flow law s tx bytes s' p)
      → carried tx.id (rt.accepted s'.out) ++ (v.rest ++ more)
        ≡ carried tx.id (rt.accepted s.out) ++ (bytes ++ more)
  sent_part s s' tx bytes p more v =
      ap (λ l. l ++ (v.rest ++ more))
        (ap (carried tx.id) v.emitted
          ∙ carried-append tx.id (rt.accepted s.out) _
          ∙ ap (λ l. carried tx.id (rt.accepted s.out) ++ l) (carried-data tx.id v.chunks))
      ∙ append_assoc (carried tx.id (rt.accepted s.out)) (flatten v.chunks) (v.rest ++ more)
      ∙ ap (λ l. carried tx.id (rt.accepted s.out) ++ l)
          (sym (append_assoc (flatten v.chunks) v.rest more) ∙ ap (λ l. l ++ more) v.joined)
