-- ===== src/Noise/Handshake/Laws.antt =====
-- The handshake of src/noise.rs: what a success proves, what a peer can make it read, and that a
-- frame written is the frame read.
use dsh_proxy.Common.{
  ℕ, ◌≤◌, ◌≡◌, refl, [], ◌++◌, length, get_or, take, drop, Option, none, some, Result, ok, err,
  arith, take-length, drop-length, ◌%◌, ◌^◌,
}
use dsh_proxy.Common.Bytes.{Bytes, put_u16, u16_from_be_bytes, u16-put_u16}
use dsh_proxy.Noise.{Transport}
use dsh_proxy.Noise.Handshake.{
  Stream, Handshake, Io, ◌>>=◌, ◌>>◌, or_fail, read_frame, write_frame, finish, await_msg3, reply,
  xx_respond,
}
use dsh_proxy.Wire.{max_handshake_msg}

module _ {S : Type 0} where
  -- Where a chain succeeds from `s` to `s'`, so did its first step, and the rest from where that ended.
  first_step :
      {A B : Type 0} (m : Io S A) (f : A → Io S B) {b : B} {s s' : S}
      → (m >>= f) s ≡ (ok b, s')
      → (a : A) × (mid : S) × (m s ≡ (ok a, mid)) × (f a mid ≡ (ok b, s'))
  first_step {A} m f {b} {s} {s'} whole = by_result (m s).0 refl
    where
      by_result :
          (r : Result A)
          → (m s).0 ≡ r
          → (a : A) × (mid : S) × (m s ≡ (ok a, mid)) × (f a mid ≡ (ok b, s'))
      by_result (err x) e = cc
      by_result (ok a) e = (a, (m s).1, ground arith, ground arith)

  or_fail_step :
      {A B : Type 0} (o : Option A) (f : A → Io S B) {b : B} {s s' : S}
      → (or_fail o >>= f) s ≡ (ok b, s')
      → (a : A) × (o ≡ some a) × (f a s ≡ (ok b, s'))
  or_fail_step none f h = cc
  or_fail_step (some a) f h = (a, refl, h)

-- What stands behind a responder that succeeded.
pub record Proved {S H : Type 0} (net : Stream S) (noise : Handshake H)
    (private_key prologue : Bytes) (s : S) (key : Bytes) (t : Transport) : Type 0 where
  pub h : H
  pub h1 : H
  pub h2 : H
  pub h3 : H
  pub msg1 : Bytes
  pub msg2 : Bytes
  pub msg3 : Bytes
  pub out1 : Bytes
  pub out3 : Bytes
  pub s1 : S
  pub s2 : S
  pub s3 : S
  pub built : noise.build_responder private_key prologue ≡ some h
  pub got1 : read_frame net s ≡ (ok msg1, s1)
  pub first : noise.read_message h msg1 max_handshake_msg ≡ some (out1, h1)
  pub second : noise.write_message h1 [] max_handshake_msg ≡ some (msg2, h2)
  pub sent : write_frame net msg2 s1 ≡ (ok tt, s2)
  pub got3 : read_frame net s2 ≡ (ok msg3, s3)
  pub third : noise.read_message h2 msg3 max_handshake_msg ≡ some (out3, h3)
  pub proved : noise.get_remote_static h3 ≡ some key
  pub finished : noise.into_transport h3 ≡ some t
  pub size : length key ≡ 32
  pub second_size : length msg2 ≤ max_handshake_msg

module _ {S : Type 0} (net : Stream S) {H : Type 0} (noise : Handshake H) where
  finish-proves :
      (h3 : H) (key : Bytes) (t : Transport) (s s' : S)
      → finish net noise h3 s ≡ (ok (key, t), s')
      → (noise.get_remote_static h3 ≡ some key)
        × (noise.into_transport h3 ≡ some t)
        × (length key ≡ 32)
  unfolding finish
  finish-proves h3 key t s s' e = ground arith

  write_frame-ok :
      (body : Bytes) (s s' : S)
      → write_frame net body s ≡ (ok tt, s')
      → length body ≤ max_handshake_msg
  unfolding write_frame
  write_frame-ok body s s' e = ground arith

  -- The responder succeeds only with the static key that the handshake state proved after the frames
  -- read from the socket were accepted as its first and third message; that key has 32 bytes, and the
  -- message written between them is no larger than the handshake's limit.
  pub xx_respond-proves :
      (private_key prologue key : Bytes) (t : Transport) (s s' : S)
      → xx_respond net noise private_key prologue s ≡ (ok (key, t), s')
      → Proved net noise private_key prologue s key t
  unfolding xx_respond reply await_msg3
  xx_respond-proves private_key prologue key t s s' e0 =
      let (h, built, e1) =
        or_fail_step (noise.build_responder private_key prologue)
          (λ h. read_frame net >>= λ msg1.
            or_fail (noise.read_message h msg1 max_handshake_msg) >>= λ p. reply net noise p.1)
          {s = s} {s' = s'} e0 in
      let (msg1, s1, got1, e2) =
        first_step (read_frame net)
          (λ msg1.
            or_fail (noise.read_message h msg1 max_handshake_msg) >>= λ p. reply net noise p.1)
          {s = s} {s' = s'} e1 in
      let ((out1, h1), first, e3) =
        or_fail_step (noise.read_message h msg1 max_handshake_msg) (λ p. reply net noise p.1)
          {s = s1} {s' = s'} e2 in
      let ((msg2, h2), second, e4) =
        or_fail_step (noise.write_message h1 [] max_handshake_msg)
          (λ p. write_frame net p.0 >> await_msg3 net noise p.1) {s = s1} {s' = s'} e3 in
      let (_, s2, sent, e5) =
        first_step (write_frame net msg2) (λ _. await_msg3 net noise h2) {s = s1} {s' = s'} e4 in
      let (msg3, s3, got3, e6) =
        first_step (read_frame net)
          (λ msg3.
            or_fail (noise.read_message h2 msg3 max_handshake_msg) >>= λ p. finish net noise p.1)
          {s = s2} {s' = s'} e5 in
      let ((out3, h3), third, e7) =
        or_fail_step (noise.read_message h2 msg3 max_handshake_msg) (λ p. finish net noise p.1)
          {s = s3} {s' = s'} e6 in
      let (proved, finished, size) = finish-proves h3 key t s3 s' e7 in
      record {
        h = h;
        h1 = h1;
        h2 = h2;
        h3 = h3;
        msg1 = msg1;
        msg2 = msg2;
        msg3 = msg3;
        out1 = out1;
        out3 = out3;
        built = built;
        first = first;
        second = second;
        s1 = s1;
        s2 = s2;
        s3 = s3;
        got1 = got1;
        sent = sent;
        got3 = got3;
        third = third;
        proved = proved;
        finished = finished;
        size = size;
        second_size = write_frame-ok msg2 s1 s2 sent;
      }

module _ {S : Type 0} (net : Stream S) where
  -- Whatever the peer announces, no more than 1024 bytes at once are asked of the socket: two
  -- sockets that agree on such reads cannot be told apart.
  pub read_frame-bounded :
      (other : Stream S)
      → ((n : ℕ) (s : S) → n ≤ max_handshake_msg → net.read_exact n s ≡ other.read_exact n s)
      → (s : S) → read_frame net s ≡ read_frame other s
  unfolding read_frame
  read_frame-bounded other same s =
      let (len, s1) = other.read_exact 2 s in
      ground (arith, same 2 s (omega arith), read_body len s1)
    where
      body_size : Result Bytes → ℕ
      body_size (ok len) = u16_from_be_bytes (get_or len 0 0) (get_or len 1 0)
      body_size (err e) = 0

      read_body :
          (r : Result Bytes) (s1 : S)
          → body_size r ≤ max_handshake_msg
          → net.read_exact (body_size r) s1 ≡ other.read_exact (body_size r) s1
      read_body r s1 h = same (body_size r) s1 h

-- What is relied on of a socket that gives back what was written to it: `held` is what it holds.
pub record Loopback {S : Type 0} (net : Stream S) (held : S → Bytes) : Type 0 where
  pub reads :
      (n : ℕ) (s : S)
      → n ≤ length (held s)
      → (s' : S) × (net.read_exact n s ≡ (ok (take n (held s)), s')) × (held s' ≡ drop n (held s))
  pub writes :
      (b : Bytes) (s : S) → (s' : S) × (net.write_all b s ≡ (ok tt, s')) × (held s' ≡ held s ++ b)
  pub flushes : (s : S) → (s' : S) × (net.flush s ≡ (ok tt, s')) × (held s' ≡ held s)

module _ {S : Type 0} (net : Stream S) (held : S → Bytes) (loop : Loopback net held) where
  -- A handshake frame within the limit, written to an empty socket, is the frame read from it, and
  -- the socket is empty again.
  pub read_frame-write_frame :
      (body : Bytes) (s : S)
      → length body ≤ max_handshake_msg
      → held s ≡ []
      → (s1 : S) × (s2 : S) × (write_frame net body s ≡ (ok tt, s1))
        × (read_frame net s1 ≡ (ok body, s2))
        × (held s2 ≡ [])
  unfolding write_frame read_frame
  read_frame-write_frame body s fits empty =
      let small : length body % 2 ^ 16 ≡ length body = omega arith in
      let (a, wa, ha) = loop.writes (put_u16 (length body % 2 ^ 16) ++ body) s in
      let (b, wb, hb) = loop.flushes a in
      let hb' : held b ≡ put_u16 (length body) ++ body = rw (hb, ha, empty, small) refl in
      let (c, rc, hc) = loop.reads 2 b (rw hb' (omega arith)) in
      let hc' : held c ≡ body = rw (hc, hb') refl in
      let (d, rd, hd) = loop.reads (length body) c (rw hc' (omega arith)) in
      (
        b,
        d,
        ground (arith, wa, wb),
        ground (arith, rc, hb', u16-put_u16 (length body) (omega arith), rd, hc', take-length body),
        rw (hd, hc') (drop-length body),
      )
