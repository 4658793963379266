-- ===== src/Noise/Tests.antt =====
-- Concrete runs of src/noise.rs, and its theorems at concrete inputs. The transport of these runs
-- seals by appending a tag of sixteen zeros.
use dsh_proxy.Common.{
  ℕ, ◌+◌, ◌-◌, ◌≡◌, refl, [], ◌∷◌, ◌++◌, length, take, drop, replicate, none, some, arith, ltb,
  if◌then◌else◌, ok, err, unexpected_eof, length-append, take-append_self, ◌==◌,
}
use dsh_proxy.Common.Bytes.{Bytes}
use dsh_proxy.Frame.{Frame, staged, parse}
use dsh_proxy.Noise.{Transport, NoiseEncoder, NoiseDecoder, encode, seal, decode, unseal, feed_all}
use dsh_proxy.Noise.RoundTrip.{Paired, drain, feed-drain}
use dsh_proxy.Noise.Decode.{announced, decode-some_opened}
use dsh_proxy.Noise.Handshake.{
  Stream, Handshake, read_frame, write_frame, finish, await_msg3, reply, xx_respond,
}
use dsh_proxy.Noise.Handshake.Laws.{Proved, xx_respond-proves, Loopback, read_frame-write_frame}
use dsh_proxy.Wire.{tag_len}

abbrev pub tagged : Transport
tagged = record {
  write_message = λ n p room. if ltb room (length p + 16) then none else some (p ++ replicate 16 0);
  read_message = λ n c room. some (take (length c - 16) c);
}

tagged_opens :
    (n : ℕ) (p c : Bytes)
    → tagged.write_message n p (length p + tag_len) ≡ some c
    → tagged.read_message n c (length p) ≡ some p
tagged_opens n p c h = ground (
  arith,
  length-append p (replicate 16 0),
  take-append_self p (replicate 16 0) (length (p ++ replicate 16 0) - 16)
      (omega (arith, length-append p (replicate 16 0))),
)

pub tagged-Paired : Paired tagged tagged
tagged-Paired = record {
  seals = λ n p small fits.
      (p ++ replicate 16 0, ground arith, omega (arith, length-append p (replicate 16 0)));
  opens = tagged_opens;
}

abbrev hello : Frame
hello = record { id = 1; kind = 1; payload = 104 ∷ 105 ∷ [] }

abbrev pub encoder : NoiseEncoder
encoder = record { transport = tagged; nonce = 0; scratch = [] }

abbrev pub decoder : NoiseDecoder
decoder = record { transport = tagged; nonce = 0 }

-- The two halves of one link agree on the message and go on with the next nonce.
round : (decode decoder (encode encoder hello []).1).2 ≡ ok (some (staged hello))
unfolding decode unseal encode seal staged
round = refl

parsed : parse (staged hello) ≡ some hello
unfolding parse staged
parsed = refl

feed-drain_example :
    (e' : NoiseEncoder) × (d' : NoiseDecoder) × (wire : Bytes) × ((dst : Bytes)
      → feed_all encoder (hello ∷ hello ∷ []) dst ≡ (e', dst ++ wire, ok tt))
    × (drain 2 decoder wire ≡ (staged hello ∷ staged hello ∷ [], d', []))
    × (e'.nonce ≡ d'.nonce)
    × (e'.nonce ≡ 0 + 2)
feed-drain_example =
    feed-drain encoder decoder (hello ∷ hello ∷ []) tagged-Paired refl (omega arith) (omega arith)

abbrev wire_hi : Bytes
wire_hi = 0 ∷ 17 ∷ 5 ∷ replicate 16 0

opened : decode decoder wire_hi ≡ (record decoder { nonce = 1 }, [], ok (some (5 ∷ [])))
unfolding decode unseal
opened = refl

decode-some_opened_example : length wire_hi ≡ 2 + announced wire_hi + 0
decode-some_opened_example =
    (decode-some_opened decoder (record decoder { nonce = 1 }) wire_hi [] (5 ∷ []) opened).3

-- A socket that gives back what was written to it, over its bytes.
abbrev pipe : Stream Bytes
pipe = record {
  read_exact =
      λ n s. if ltb (length s) n then (err unexpected_eof, s) else (ok (take n s), drop n s);
  write_all = λ b s. (ok tt, s ++ b);
  flush = λ s. (ok tt, s);
}

pipe-Loopback : Loopback pipe (λ s. s)
pipe-Loopback = record {
  reads = λ n s h. (drop n s, ground arith, refl);
  writes = λ b s. (s ++ b, refl, refl);
  flushes = λ s. (s, refl, refl);
}

read_frame-write_frame_example :
    (s1 : Bytes) × (s2 : Bytes) × (write_frame pipe (1 ∷ 2 ∷ []) [] ≡ (ok tt, s1))
    × (read_frame pipe s1 ≡ (ok (1 ∷ 2 ∷ []), s2))
    × (s2 ≡ [])
read_frame-write_frame_example =
    read_frame-write_frame pipe (λ s. s) pipe-Loopback (1 ∷ 2 ∷ []) [] (omega arith) refl

abbrev plain_noise : Handshake ℕ
plain_noise = record {
  build_responder = λ k p. some 0;
  read_message = λ h m room. some (m, h + 1);
  write_message = λ h m room. some (9 ∷ [], h + 1);
  get_remote_static = λ h. if h == 3 then some (replicate 32 4) else none;
  into_transport = λ h. some tagged;
}

-- The peer's two frames stand first, and the responder's own goes behind them.
dialogue : Bytes
dialogue = 0 ∷ 1 ∷ 7 ∷ 0 ∷ 2 ∷ 8 ∷ 8 ∷ []

responded :
    xx_respond pipe plain_noise [] [] dialogue ≡ (ok (replicate 32 4, tagged), 0 ∷ 1 ∷ 9 ∷ [])
unfolding xx_respond reply await_msg3 finish read_frame write_frame dialogue
responded = refl

xx_respond-proves_example : Proved pipe plain_noise [] [] dialogue (replicate 32 4) tagged
xx_respond-proves_example =
    xx_respond-proves pipe plain_noise [] [] (replicate 32 4) tagged dialogue (0 ∷ 1 ∷ 9 ∷ [])
      responded
