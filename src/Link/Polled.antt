-- ===== src/Link/Polled.antt =====
-- A `FramedRead` as a function, which meets what src/mux.rs relies on.
use dsh_proxy.Common.{
  ℕ, zero, suc, ◌+◌, ◌<◌, ◌≡◌, refl, ap, ◌∙◌, List, [], ◌∷◌, ◌++◌, length, length-append, Option,
  none, some, Result, ok, err, arith,
}
use dsh_proxy.Common.Bytes.{Bytes}
use dsh_proxy.Mux.Read.{Event, broken, message}
use dsh_proxy.Noise.{NoiseDecoder, decode, unseal}
use dsh_proxy.Noise.Decode.{decode-some_opened}
use dsh_proxy.Link.{Source, Driven}

-- A message takes a byte of the buffer at least, a piece is one step.
unfoldable pub weight : List Bytes → ℕ
weight [] = 0
weight (piece ∷ pieces) = suc (length piece + weight pieces)

unfoldable pub told :
    Source → List Bytes → NoiseDecoder × Bytes × Result (Option Bytes) → List Event
told next pieces (d, rest, ok (some p)) = message p ∷ next d rest pieces
told next [] (d, rest, ok none) = []
told next (piece ∷ pieces) (d, rest, ok none) = next d (rest ++ piece) pieces
told next pieces (d, rest, err e) = broken e ∷ []

unfoldable pub polled : ℕ → Source
polled zero d buffer pieces = []
polled (suc n) d buffer pieces = told (polled n) pieces (decode d buffer)

unfoldable pub read_all : Source
read_all d buffer pieces = polled (suc (length buffer + weight pieces)) d buffer pieces

decode-none_lem :
    (d d' : NoiseDecoder) (src src' : Bytes) → decode d src ≡ (d', src', ok none) → src' ≡ src
unfolding decode unseal
decode-none_lem d d' src src' h = ground arith

told_same :
    (next other : Source) (d : NoiseDecoder) (buffer : Bytes) (pieces : List Bytes)
    (out : NoiseDecoder × Bytes × Result (Option Bytes))
    → decode d buffer ≡ out
    → ((d' : NoiseDecoder) (rest : Bytes) (more : List Bytes)
        → length rest + weight more < length buffer + weight pieces
        → next d' rest more ≡ other d' rest more)
    → told next pieces out ≡ told other pieces out
unfolding told weight
told_same next other d buffer pieces (d', rest, ok (some p)) h same =
    let v = decode-some_opened d d' buffer rest p h in
    ap (λ l. message p ∷ l) (same d' rest pieces (omega (arith, v)))
told_same next other d buffer [] (d', rest, ok none) h same = refl
told_same next other d buffer (piece ∷ pieces) (d', rest, ok none) h same =
    same d' (rest ++ piece) pieces
      (omega (arith, length-append rest piece, ap length (decode-none_lem d d' buffer rest h)))
told_same next other d buffer pieces (d', rest, err e) h same = refl

-- Once there are enough rounds, there may be more.
polled_enough :
    (n m : ℕ) (d : NoiseDecoder) (buffer : Bytes) (pieces : List Bytes)
    → length buffer + weight pieces < n
    → length buffer + weight pieces < m
    → polled n d buffer pieces ≡ polled m d buffer pieces
unfolding polled
polled_enough zero m d buffer pieces h k = absurd (omega arith)
polled_enough (suc n) zero d buffer pieces h k = absurd (omega arith)
polled_enough (suc n) (suc m) d buffer pieces h k =
    told_same (polled n) (polled m) d buffer pieces (decode d buffer) refl (λ d' rest more less.
      polled_enough n m d' rest more (omega (arith, less, h)) (omega (arith, less, k)))

-- One more round than there are is as good.
settled :
    (d : NoiseDecoder) (buffer : Bytes) (pieces : List Bytes)
    (out : NoiseDecoder × Bytes × Result (Option Bytes))
    → decode d buffer ≡ out
    → read_all d buffer pieces ≡ told read_all pieces out
unfolding read_all polled
settled d buffer pieces out h =
    told_same (polled (length buffer + weight pieces)) read_all d buffer pieces (decode d buffer)
      refl
      (λ d' rest more less.
        polled_enough (length buffer + weight pieces) (suc (length rest + weight more)) d' rest more
          less (omega arith))
    ∙ ap (told read_all pieces) h

pub read_all-Driven : Driven read_all
unfolding told
read_all-Driven = record {
  gives = λ d d' buffer rest p pieces h. settled d buffer pieces _ h;
  waits = λ d d' buffer rest piece pieces h. settled d buffer (piece ∷ pieces) _ h;
  stays = λ d d' buffer rest h. settled d buffer [] _ h;
  fails = λ d d' buffer rest e pieces h. settled d buffer pieces _ h;
}
