-- ===== src/Link/Reader.antt =====
-- src/mux.rs: what the read loop is told of the bytes of sealed frames that come in pieces.
use dsh_proxy.Common.{
  ℕ, ◌+◌, ◌^◌, ◌≤◌, ◌<◌, ◌≡◌, ◌⊎◌, inl, inr, refl, sym, ap, subst, ◌∙◌, List, [], ◌∷◌, ◌++◌, map,
  length, drop, none, some, ok, append_assoc, length-append, length-drop, append-split_le, ltb,
  Bool-cases, arith,
}
use dsh_proxy.Common.Bytes.{Bytes}
use dsh_proxy.Frame.{Frame, staged}
use dsh_proxy.Wire.{tag_len}
use dsh_proxy.Mux.Read.{Event, message}
use dsh_proxy.Noise.{Transport, NoiseDecoder, decode}
use dsh_proxy.Noise.RoundTrip.{packet, decode-packet}
use dsh_proxy.Noise.Decode.{decode_waits}
use dsh_proxy.Link.{Source, Driven}
use dsh_proxy.Link.Coded.{Seals, Coded}
use mathlib.Core.List.{flatten}

-- The decoder's transport opens what the other end sealed.
abbrev pub Opens : Transport → Transport → Type 0
Opens t u =
    (n : ℕ) (p c : Bytes)
    → t.write_message n p (length p + tag_len) ≡ some c
    → u.read_message n c (length p) ≡ some p

-- A front of the frames is what the reader is told, in order.
pub record Told (fs : List Frame) (more : Bytes) (es : List Event) : Type 0 where
  pub got : List Frame
  pub left : List Frame
  pub joined : got ++ left ≡ fs
  pub told : es ≡ map (λ f. message (staged f)) got
  pub whole : more ≡ [] → left ≡ []

decode_nothing : (d : NoiseDecoder) → decode d [] ≡ (d, [], ok none)
unfolding decode
decode_nothing d = refl

module _ (t u : Transport) (opens : Opens t u) where
  -- The decoder on the front of what was sealed: it waits for a packet that is not whole, and takes
  -- one that is.
  decode-Seals :
      (n : ℕ) (f : Frame) (c src more rest : Bytes)
      → Seals t n f c
      → n + 1 < 2 ^ 64
      → src ++ more ≡ packet c ++ rest
      → let d : NoiseDecoder = record { transport = u; nonce = n } in
        ((decode d src ≡ (d, src, ok none)) × (length src < length (packet c)))
        ⊎ ((src' : Bytes) × (decode d src
              ≡ (record { transport = u; nonce = n + 1 }, src', ok (some (staged f))))
            × (src' ++ more ≡ rest)
            × (length src' < length src))
  decode-Seals n f c src more rest v room e =
      elim (Bool-cases (ltb (length src) (length (packet c)))) [
        | inl short ↦
            let less : length src < length (packet c) = ground arith in
            let (whole, _) = append-split_le (packet c) rest src more (sym e) (omega arith) in
            inl (
              decode_waits d c src (drop (length src) (packet c)) (omega (arith, v.size))
                  (omega (arith, v.size, v.fits)) (sym whole)
                  (λ none_left.
                    omega (arith, less, ap length none_left, length-drop (length src) (packet c))),
              less,
            )
        | inr long ↦
            let more_than : length (packet c) ≤ length src = ground arith in
            let (front, behind) = append-split_le src more (packet c) rest e (omega arith) in
            inr (
              drop (length (packet c)) src,
              ap (decode d) front
                  ∙ decode-packet d c (drop (length (packet c)) src) (staged f)
                      (omega (arith, v.size)) (omega (arith, v.size, v.fits))
                      (ap (u.read_message n c) (omega (arith, v.size))
                        ∙ opens n (staged f) c v.sealed)
                  ∙ ap
                      (λ k. (
                        record { transport = u; nonce = k },
                        drop (length (packet c)) src,
                        ok (some (staged f)),
                      ))
                      (omega arith),
              behind,
              omega (arith, more_than, length-drop (length (packet c)) src),
            )
      ]
    where
      d : NoiseDecoder
      d = record { transport = u; nonce = n }

  module _ (next : Source) (driven : Driven next) where
    taking :
        (f : Frame) (fs : List Frame) (more : Bytes) (es : List Event)
        → Told fs more es
        → Told (f ∷ fs) more (message (staged f) ∷ es)
    taking f fs more es v = record {
      got = f ∷ v.got;
      left = v.left;
      joined = ap (λ l. f ∷ l) v.joined;
      told = ap (λ l. message (staged f) ∷ l) v.told;
      whole = v.whole;
    }

    -- However the bytes that one end sealed are cut into pieces, the other end's read loop is told a front
    -- of the frames, each once and in order, and all of them if all the bytes have come; the decoder
    -- never fails on them.
    pub pieces-Told :
        (n : ℕ) (fs : List Frame) (buffer : Bytes) (pieces : List Bytes) (more : Bytes)
        → n + length fs < 2 ^ 64
        → Coded t n fs (buffer ++ (flatten pieces ++ more))
        → Told fs more (next (record { transport = u; nonce = n }) buffer pieces)
    unfolding flatten
    pieces-Told n [] (x ∷ buffer) pieces more room v = absurd (ground arith)
    pieces-Told n [] [] [] more room v = record {
      got = [];
      left = [];
      joined = refl;
      told = driven.stays _ _ [] [] (decode_nothing _);
      whole = λ q. refl;
    }
    pieces-Told n [] [] (piece ∷ pieces) more room v =
        subst (Told [] more) (sym (driven.waits _ _ [] [] piece pieces (decode_nothing _))) (
          pieces-Told n [] piece pieces more room
            (sym (append_assoc piece (flatten pieces) more) ∙ v))
    pieces-Told n (f ∷ fs) buffer [] more room (c, rest, split, seal, v) =
        elim (decode-Seals n f c buffer more rest seal (omega arith) split) [
          | inl (w, short) ↦ record {
            got = [];
            left = f ∷ fs;
            joined = refl;
            told = driven.stays _ _ buffer buffer w;
            whole = λ q. absurd (
                omega (
                  arith,
                  short,
                  ap length split,
                  length-append buffer more,
                  ap length q,
                  length-append (packet c) rest,
                ));
          }
          | inr (src', w, behind, _) ↦
              subst (Told (f ∷ fs) more) (sym (driven.gives _ _ buffer src' (staged f) [] w)) (
                taking f fs more _ (
                  pieces-Told (n + 1) fs src' [] more (omega arith)
                    (subst (Coded t (n + 1) fs) (sym behind) v)))
        ]
    pieces-Told n (f ∷ fs) buffer (piece ∷ pieces) more room (c, rest, split, seal, v) =
        elim (decode-Seals n f c buffer (flatten (piece ∷ pieces) ++ more) rest seal (omega arith)
          split) [
            | inl (w, _) ↦
                subst (Told (f ∷ fs) more) (sym (driven.waits _ _ buffer buffer piece pieces w)) (
                  pieces-Told n (f ∷ fs) (buffer ++ piece) pieces more room (
                    c,
                    rest,
                    append_assoc buffer piece (flatten pieces ++ more)
                        ∙ ap (λ l. buffer ++ l) (sym (append_assoc piece (flatten pieces) more))
                        ∙ split,
                    seal,
                    v,
                  ))
            | inr (src', w, behind, _) ↦
                subst (Told (f ∷ fs) more)
                  (sym (driven.gives _ _ buffer src' (staged f) (piece ∷ pieces) w))
                  (taking f fs more _ (
                    pieces-Told (n + 1) fs src' (piece ∷ pieces) more (omega arith)
                      (subst (Coded t (n + 1) fs) (sym behind) v)))
          ]
