-- ===== src/Transit/Records.antt =====
-- The record stream of src/transit.rs, from one side to the other.
use mathlib.Core.List.{append_assoc, append-nil, append_cancel_left}
use magic_wormhole_rs.Common.{
  ℕ, ◌+◌, ◌%◌, ◌^◌, ◌<◌, ◌≡◌, refl, List, [], ◌∷◌, ◌++◌, some, false, Bytes, ok, after-eq-ok,
  length, length-append, take, drop, ltb, bytes_eq_iff, Bool-cases, Option-cases, inl, inr, ap, ◌∙◌,
  sym, arith, All, take-append_length, drop-append_length, le→ltb, ==_iff,
}
use magic_wormhole_rs.Core.Crypto.{Crypto, IsSound}
use magic_wormhole_rs.Core.Key.{Nonce}
use magic_wormhole_rs.Transit.Socket.{
  read_exact, read_up_to, write_all, to_be_bytes, from_be_bytes, from_be_bytes-to_be_bytes,
  read_exact_prefix, read_up_to_prefix,
}
use magic_wormhole_rs.Transit.Record.{
  Pipe, TransitError, io, open_packet, receive_record_inner, send_record_inner, send_all,
  receive_all,
}
use magic_wormhole_rs.Util.Counter.{sodium_increment_be, sodium_increment_be_lem}

-- The bytes of one record on the wire.
abbrev pub frame : Nonce → Bytes → Bytes
frame nonce ciphertext =
    to_be_bytes ((length ciphertext + length nonce) % 2 ^ 32) ++ (nonce ++ ciphertext)

abbrev pub put : Pipe → Bytes → Pipe
put p b = record p { socket = record (p.socket) { output = p.socket.output ++ b } }

abbrev pub got : Pipe → Bytes → Pipe
got p rest = record p { socket = record (p.socket) { input = rest } }

abbrev pub advanced : Pipe → Pipe
advanced p = record p { nonce = sodium_increment_be p.nonce }

module _ (c : Crypto) where
  pub send_record_frame :
      (key plaintext : Bytes) (p q : Pipe)
      → send_record_inner c key plaintext p ≡ (ok tt, q)
      → (ciphertext : Bytes) × (c.encrypt key p.nonce plaintext ≡ some ciphertext)
        × (q ≡ advanced (put p (frame p.nonce ciphertext)))
  unfolding send_record_inner write_all
  send_record_frame key plaintext p q h = elim (Option-cases (c.encrypt key p.nonce plaintext)) [
    | inl e ↦ let h' = rw (e, send_record_inner) at h in cc
    | inr (ct, e) ↦ elim (Bool-cases p.socket.writable) [
      | inl w ↦ (
        ct,
        e,
        ground (
          arith,
          append_assoc (p.socket.output ++ to_be_bytes ((length ct + length p.nonce) % 2 ^ 32))
              p.nonce ct,
          append_assoc p.socket.output (to_be_bytes ((length ct + length p.nonce) % 2 ^ 32))
              (p.nonce ++ ct),
        ),
      )
      | inr n ↦ let h' = rw (e, n, send_record_inner, write_all) at h in cc
    ]
  ]

  module _ (sound : IsSound c) where
    open_packet_body :
        (key plaintext ciphertext : Bytes) (p : Pipe)
        → length p.nonce ≡ 24
        → c.encrypt key p.nonce plaintext ≡ some ciphertext
        → open_packet c key (p.nonce ++ ciphertext) p ≡ (ok plaintext, advanced p)
    unfolding open_packet
    open_packet_body key plaintext ciphertext p n e =
        let cut : take 24 (p.nonce ++ ciphertext) ≡ p.nonce =
          rw n at (take-append_length p.nonce ciphertext) in
        let later : drop 24 (p.nonce ++ ciphertext) ≡ ciphertext =
          rw n at (drop-append_length p.nonce ciphertext) in
        let long : ltb (length (p.nonce ++ ciphertext)) 24 ≡ false =
          le→ltb _ _ (omega (arith, length-append p.nonce ciphertext)) in
        rw (
          long,
          cut,
          later,
          (bytes_eq_iff p.nonce p.nonce).1 refl,
          sound.decrypt-encrypt key p.nonce plaintext ciphertext e,
        )

    pub receive_record_frame :
        (key plaintext ciphertext rest : Bytes) (p : Pipe)
        → length p.nonce ≡ 24
        → length plaintext + 40 < 2 ^ 32
        → c.encrypt key p.nonce plaintext ≡ some ciphertext
        → p.socket.input ≡ frame p.nonce ciphertext ++ rest
        → receive_record_inner c key p ≡ (ok plaintext, advanced (got p rest))
    unfolding receive_record_inner
    receive_record_frame key plaintext ciphertext rest p n small e i =
        let size : ℕ = length ciphertext + length p.nonce in
        let body : Bytes = p.nonce ++ ciphertext in
        let fits : size % 2 ^ 32 ≡ size =
          omega (arith, sound.length-encrypt key p.nonce plaintext ciphertext e) in
        let head : read_exact io 4 p.socket
            ≡ (ok (to_be_bytes (size % 2 ^ 32)), record (p.socket) { input = body ++ rest }) =
          unfold to_be_bytes in
          read_exact_prefix io (to_be_bytes (size % 2 ^ 32)) (body ++ rest) p.socket
            (i ∙ append_assoc (to_be_bytes (size % 2 ^ 32)) body rest) in
        let count : from_be_bytes (to_be_bytes (size % 2 ^ 32)) ≡ length body =
          from_be_bytes-to_be_bytes (size % 2 ^ 32) (omega arith)
          ∙ fits
          ∙ omega (arith, length-append p.nonce ciphertext) in
        let read : read_up_to {E = TransitError} (length body)
              (record (p.socket) { input = body ++ rest })
            ≡ (ok body, record (p.socket) { input = rest }) =
          read_up_to_prefix body rest (record (p.socket) { input = body ++ rest }) refl in
        rw (head, count, read, (==_iff (length body) (length body)).1 refl)
          (open_packet_body key plaintext ciphertext (got p rest) n e)

  -- What a run of sends puts on the wire comes behind what was there.
  send_all-extends :
      (key : Bytes) (xs : List Bytes) (p q : Pipe)
      → send_all c key xs p ≡ (ok tt, q)
      → (w : Bytes) × (q.socket.output ≡ p.socket.output ++ w)
  unfolding send_all
  send_all-extends key [] p q h =
      ([], sym (ap (λ r. r.1.socket.output) h) ∙ sym (append-nil p.socket.output))
  send_all-extends key (x ∷ xs) p q h =
      let (a, m, e, f) = after-eq-ok (send_record_inner c key x p) (λ _. send_all c key xs) h in
      let (ct, s, same) = send_record_frame key x p m e in
      let (w, o) = send_all-extends key xs m q f in
      (
        frame p.nonce ct ++ w,
        o ∙ ap (λ r. r.socket.output ++ w) same ∙ append_assoc p.socket.output (frame p.nonce ct) w,
      )

  module _ (sound : IsSound c) (key : Bytes) where
    -- If a run of sends put exactly `w` on the wire, then a receiver with the same key and the same
    -- nonce, whose stream begins with `w`, reads back the same plaintexts in the same order, leaves
    -- the rest of the stream, and ends with the sender's nonce.
    pub receive_all-send_all :
        (xs : List Bytes) (p q r : Pipe) (w rest : Bytes)
        → length p.nonce ≡ 24
        → All (λ x. length x + 40 < 2 ^ 32) xs
        → send_all c key xs p ≡ (ok tt, q)
        → q.socket.output ≡ p.socket.output ++ w
        → r.nonce ≡ p.nonce
        → r.socket.input ≡ w ++ rest
        → receive_all c key (length xs) r
          ≡ (ok xs, record { socket = record (r.socket) { input = rest }; nonce = q.nonce })
    unfolding send_all receive_all
    receive_all-send_all [] p q r w rest n small h out same i =
        let kept : p ≡ q = ap (λ x. x.1) h in
        let nothing : w ≡ [] =
          append_cancel_left p.socket.output w []
            (sym out ∙ ap (λ x. x.socket.output) (sym kept) ∙ sym (append-nil p.socket.output)) in
        λ j. (
          ok [],
          record {
            socket = record (r.socket) { input = (i ∙ ap (λ b. b ++ rest) nothing) j };
            nonce = (same ∙ ap (λ x. x.nonce) kept) j;
          },
        )
    receive_all-send_all (x ∷ xs) p q r w rest n small h out same i =
        let (a, m, e, f) = after-eq-ok (send_record_inner c key x p) (λ _. send_all c key xs) h in
        let (ct, s, next) = send_record_frame key x p m e in
        let (v, o) = send_all-extends key xs m q f in
        let split : w ≡ frame p.nonce ct ++ v =
          append_cancel_left p.socket.output w (frame p.nonce ct ++ v) (
            sym out
            ∙ o
            ∙ ap (λ t. t.socket.output ++ v) next
            ∙ append_assoc p.socket.output (frame p.nonce ct) v) in
        let read : receive_record_inner c key r ≡ (ok x, advanced (got r (v ++ rest))) =
          receive_record_frame sound key x ct (v ++ rest) r (rw same n) small.0 (rw same s) (
            i
            ∙ ap (λ b. b ++ rest) split
            ∙ append_assoc (frame p.nonce ct) v rest
            ∙ ap (λ b. frame b ct ++ (v ++ rest)) (sym same)) in
        let more =
          receive_all-send_all xs m q (advanced (got r (v ++ rest))) v rest
            (rw next ((sodium_increment_be_lem p.nonce).1 ∙ n)) small.1 f o (rw (next, same))
            refl in
        rw (read, more, receive_all)
