-- ===== src/Transit/Replay.antt =====
-- What a record that is accepted must have been: `receive_record_inner` of src/transit.rs.
use mathlib.Core.List.{append_assoc}
use magic_wormhole_rs.Common.{
  ◌≡◌, ◌≢◌, refl, ◌++◌, some, Bytes, ok, err, panic, ◌⊎◌, ◌<◌, ◌≤◌, Action, after-eq-ok, length,
  take, drop, take-append-drop, ltb, ltb→lt, ◌==◌, ==_iff, bytes_eq, bytes_eq_iff, Bool-cases,
  Option-cases, inl, inr, ap, ◌∙◌, sym, arith, ensure, ok_or, ◌>>◌,
}
use magic_wormhole_rs.Core.Crypto.{Crypto}
use magic_wormhole_rs.Core.Key.{Key}
use magic_wormhole_rs.Transit.Socket.{
  Socket, read_exact, read_up_to, from_be_bytes, incomplete_message, read_exact-splits,
  read_up_to-splits,
}
use magic_wormhole_rs.Transit.Record.{
  Pipe, TransitError, io, wrong_nonce, crypto, open_packet, receive_record_inner, on_socket,
}
use magic_wormhole_rs.Util.Counter.{sodium_increment_be}

module _ (c : Crypto) (key : Key) where
  -- `open_packet` panics exactly on packets shorter than a nonce; it refuses a packet that does not
  -- carry the nonce that is due, and leaves the nonce; it decrypts any other packet under that nonce,
  -- and increments the nonce whether or not this succeeds.
  pub open_packet_cases :
      (packet : Bytes) (p : Pipe)
      → ((length packet < 24) × (open_packet c key packet p ≡ (panic, p)))
        ⊎ ((24 ≤ length packet)
            × ((take 24 packet ≢ p.nonce)
                  × (open_packet c key packet p ≡ (err (wrong_nonce (take 24 packet) p.nonce), p))
                ⊎ (take 24 packet ≡ p.nonce)
                  × (open_packet c key packet p
                      ≡ ok_or
                          (c.decrypt key (take 24 packet) (drop 24 packet))
                          crypto
                          (record p { nonce = sodium_increment_be p.nonce }))))
  unfolding open_packet
  open_packet_cases packet p = elim (Bool-cases (ltb (length packet) 24)) [
    | inl short ↦ inl (ltb→lt (length packet) 24 short, rw short refl)
    | inr long ↦ elim (Bool-cases (bytes_eq p.nonce (take 24 packet))) [
      | inl due ↦
          let same = (bytes_eq_iff p.nonce (take 24 packet)).0 due in
          inr (ground arith, inr (sym same, rw (long, due) refl))
      | inr other ↦ inr (
        ground arith,
        inl (
          λ e. let t = (bytes_eq_iff p.nonce (take 24 packet)).1 (sym e) in cc,
          rw (long, other) refl,
        ),
      )
    ]
  ]

  open_packet-ok :
      (packet x : Bytes) (p q : Pipe)
      → open_packet c key packet p ≡ (ok x, q)
      → (packet ≡ p.nonce ++ drop 24 packet)
        × (c.decrypt key p.nonce (drop 24 packet) ≡ some x)
        × (q ≡ record p { nonce = sodium_increment_be p.nonce })
  open_packet-ok packet x p q h = elim (open_packet_cases packet p) [
    | inl (short, e) ↦ let h' = sym e ∙ h in cc
    | inr (long, inl (other, e)) ↦ let h' = sym e ∙ h in cc
    | inr (long, inr (due, e)) ↦
        let g : ok_or (c.decrypt key (take 24 packet) (drop 24 packet)) crypto
              (record p { nonce = sodium_increment_be p.nonce })
            ≡ (ok x, q) =
          sym e ∙ h in
        elim (Option-cases (c.decrypt key (take 24 packet) (drop 24 packet))) [
          | inl n ↦ let h' = rw n at g in cc
          | inr (y, d) ↦
              let h' : (ok y, record p { nonce = sodium_increment_be p.nonce }) ≡ (ok x, q) =
                rw d at g in
              let same : y ≡ x = cc h' in
              (
                sym (take-append-drop 24 packet) ∙ ap (λ n. n ++ drop 24 packet) due,
                ap (λ n. c.decrypt key n (drop 24 packet)) (sym due) ∙ d ∙ ap some same,
                ap (λ r. r.1) (sym h'),
              )
        ]
  ]

  on_socket-ok :
      {A : Type 0} (f : Action Socket TransitError A) (p q : Pipe) (a : A)
      → on_socket f p ≡ (ok a, q)
      → (f p.socket ≡ (ok a, q.socket)) × (q.nonce ≡ p.nonce)
  unfolding on_socket
  on_socket-ok f p q a h = (λ i. ((h i).0, (h i).1.socket), sym (ap (λ r. r.1.nonce) h))

  -- From `p` to `q` one record was taken from the front of the stream, and this is what it was.
  pub record Accepted (p : Pipe) (x : Bytes) (q : Pipe) : Type 0 where
    pub head : Bytes
    pub ciphertext : Bytes
    pub stood : p.socket.input ≡ head ++ (p.nonce ++ (ciphertext ++ q.socket.input))
    pub size : (length head ≡ 4) × (from_be_bytes head ≡ length (p.nonce ++ ciphertext))
    pub opens : c.decrypt key p.nonce ciphertext ≡ some x
    pub counted : q.nonce ≡ sodium_increment_be p.nonce

  accepted :
      (p p1 p2 q : Pipe) (head packet x : Bytes)
      → on_socket (read_exact io 4) p ≡ (ok head, p1)
      → on_socket (read_up_to (from_be_bytes head)) p1 ≡ (ok packet, p2)
      → (ensure (length packet == from_be_bytes head) (io incomplete_message)
            >> open_packet c key packet)
          p2
        ≡ (ok x, q)
      → Accepted p x q
  accepted p p1 p2 q head packet x e1 e2 f =
      let (r1, n1) = on_socket-ok (read_exact io 4) p p1 head e1 in
      let (r2, n2) = on_socket-ok (read_up_to (from_be_bytes head)) p1 p2 packet e2 in
      let (i1, z1, o1) = read_exact-splits io 4 p.socket p1.socket head r1 in
      let i2 = read_up_to-splits (from_be_bytes head) p1.socket p2.socket packet r2 in
      let nonce : p2.nonce ≡ p.nonce = n2 ∙ n1 in
      elim (Bool-cases (length packet == from_be_bytes head)) [
        | inr short ↦ let f' = rw short at f in cc
        | inl whole ↦
            let (shape, decrypts, next) = open_packet-ok packet x p2 q (rw whole at f) in
            let due : packet ≡ p.nonce ++ drop 24 packet =
              shape ∙ ap (λ n. n ++ drop 24 packet) nonce in
            record {
              head = head;
              ciphertext = drop 24 packet;
              stood =
                  i1
                  ∙ ap (λ y. head ++ y)
                      (i2
                        ∙ ap (λ y. y ++ p2.socket.input) due
                        ∙ append_assoc p.nonce (drop 24 packet) p2.socket.input
                        ∙ ap (λ r. p.nonce ++ (drop 24 packet ++ r.socket.input)) (sym next));
              size =
                  (z1, sym ((==_iff (length packet) (from_be_bytes head)).0 whole) ∙ ap length due);
              opens = ap (λ n. c.decrypt key n (drop 24 packet)) (sym nonce) ∙ decrypts;
              counted = ap (λ r. r.nonce) next ∙ ap sodium_increment_be nonce;
            }
      ]

  -- A record that `receive_record_inner` accepts carried exactly the nonce that is due, in a packet of
  -- the length announced in front of it, and decrypts under that nonce to the plaintext returned; the
  -- nonce is incremented and the rest of the stream is left.
  pub receive_record_inner-Accepted :
      (p q : Pipe) (x : Bytes) → receive_record_inner c key p ≡ (ok x, q) → Accepted p x q
  unfolding receive_record_inner
  receive_record_inner-Accepted p q x h =
      let (head, p1, e1, f1) = after-eq-ok (on_socket (read_exact io 4) p) _ h in
      let (packet, p2, e2, f2) =
        after-eq-ok (on_socket (read_up_to (from_be_bytes head)) p1) _ f1 in
      accepted p p1 p2 q head packet x e1 e2 f2
