-- ===== src/Core/Wormhole/RoundTrip.antt =====
-- What one wormhole sends, the other receives.
use mathlib.Core.List.{append_cancel_left}
use magic_wormhole_rs.Common.{
  ◌+◌, ◌^◌, ◌<◌, ◌≡◌, [], ◌∷◌, ◌++◌, some, Bytes, Outcome, ok, err, panic, pending, ◌==◌, length,
  ap, ◌∙◌, sym, Bool-cases, Option-cases, inl, inr,
}
use magic_wormhole_rs.Core.Names.{numeric, to_num, to_num-numeric}
use magic_wormhole_rs.Core.Messages.{EncryptedMessage, add}
use magic_wormhole_rs.Core.Crypto.{Crypto, IsSound}
use magic_wormhole_rs.Core.Key.{derive_phase_key, encrypt_data, decrypt}
use magic_wormhole_rs.Core.Key.Laws.{decrypt_data-encrypt_data}
use magic_wormhole_rs.Core.Rendezvous.Server.{
  RendezvousServer, send_message, send_peer_message, next_peer_message_some,
}
use magic_wormhole_rs.Core.Rendezvous.Wire.{RendezvousError}
use magic_wormhole_rs.Core.Rendezvous.Protocol.{send_message-Says}
use magic_wormhole_rs.Core.Wormhole.{
  Wormhole, WormholeError, on_server, from_server, next_phase, encrypt_for, send, receive, opened,
  read_numbered, read_message,
}

some-ok :
    {A : Type 0} {a b : A} {w v : Wormhole}
    → ◌≡◌ {A = Outcome WormholeError A × Wormhole} (ok a, w) (ok b, v)
    → a ≡ b
some-ok h = cc (ap (λ r. r.0) h)

from_server-ok :
    {A : Type 0} {a : A} (o : Outcome RendezvousError A) → from_server o ≡ ok a → o ≡ ok a
from_server-ok (ok b) h = cc h
from_server-ok (err e) h = cc
from_server-ok panic h = cc
from_server-ok pending h = cc

on_server_said :
    (p body : Bytes) (w v : Wormhole)
    → on_server (send_peer_message p body) w ≡ (ok tt, v)
    → (v.server.connection.sent ≡ w.server.connection.sent ++ (add p body ∷ []))
      × (v.phase ≡ w.phase)
unfolding on_server send_peer_message
on_server_said p body w v h =
    let r = send_message (add p body) w.server in
    let e = from_server-ok r.0 (ap (λ x. x.0) h) in
    let says = send_message-Says (add p body) w.server r.1 (λ i. (e i, r.1)) in
    (sym (ap (λ x. x.1.server.connection.sent) h) ∙ says.said, sym (ap (λ x. x.1.phase) h))

module _ (c : Crypto) where
  -- What a send that ended well did.
  pub record Sent (w v : Wormhole) (nonce plaintext : Bytes) : Type 0 where
    pub body : Bytes
    pub sealed :
        encrypt_data c nonce (derive_phase_key c w.server.side w.key (numeric w.phase)) plaintext
        ≡ some body
    pub said :
        v.server.connection.sent ≡ w.server.connection.sent ++ (add (numeric w.phase) body ∷ [])
    pub phase_next : v.phase ≡ w.phase + 1

  -- A `send` that succeeds has sealed the plaintext under the key of our side and of its phase's
  -- number, with the nonce drawn, has put exactly that one `add` message on the wire, and has taken
  -- the next number for the next phase.
  pub send-Sent :
      (w v : Wormhole) (nonce plaintext : Bytes)
      → send c nonce plaintext w ≡ (ok tt, v)
      → Sent w v nonce plaintext
  unfolding send next_phase encrypt_for
  send-Sent w v nonce plaintext h = elim (Bool-cases (w.phase + 1 == 2 ^ 64)) [
    | inl full ↦ let h' = rw (full, send) at h in cc
    | inr room ↦
        elim (Option-cases (
          encrypt_data c nonce (derive_phase_key c w.server.side w.key (numeric w.phase))
            plaintext)) [
              | inl e ↦ let h' = rw (room, e, send) at h in cc
              | inr (body, e) ↦
                  let h' : on_server (send_peer_message (numeric w.phase) body)
                        (record w { phase = w.phase + 1 })
                      ≡ (ok tt, v) =
                    rw (room, e, send) at h in
                  let (said, next) =
                    on_server_said (numeric w.phase) body (record w { phase = w.phase + 1 }) v h' in
                  record { body = body; sealed = e; said = said; phase_next = next }
            ]
  ]

  module _ (sound : IsSound c) where
    -- A relayed message is opened with the same key.
    opens :
        (w v b : Wormhole) (nonce plaintext : Bytes) (m : EncryptedMessage)
        → length nonce ≡ 24
        → Sent w v nonce plaintext
        → v.server.connection.sent ≡ w.server.connection.sent ++ (add m.phase m.body ∷ [])
        → m.side ≡ w.server.side
        → b.key ≡ w.key
        → (m.phase ≡ numeric w.phase) × (decrypt c m b.key ≡ ok (some plaintext))
    unfolding decrypt
    opens w v b nonce plaintext m n s relayed side key =
        let same : add m.phase m.body ∷ [] ≡ add (numeric w.phase) s.body ∷ [] =
          append_cancel_left w.server.connection.sent _ _ (sym relayed ∙ s.said) in
        let phase : m.phase ≡ numeric w.phase = cc same in
        let body : m.body ≡ s.body = cc same in
        (
          phase,
          rw (phase, body, side, key)
              (decrypt_data-encrypt_data c sound _ plaintext nonce s.body n s.sealed),
        )

    -- If a send from `w` ended well, and the server hands the message that it put on the wire to a
    -- wormhole with the same key, under the sender's side, then `receive` there returns the
    -- plaintext that was sent.
    pub receive-send :
        (w v b : Wormhole) (t : RendezvousServer) (nonce plaintext : Bytes) (m : EncryptedMessage)
        → length nonce ≡ 24
        → w.phase < 2 ^ 64
        → send c nonce plaintext w ≡ (ok tt, v)
        → v.server.connection.sent ≡ w.server.connection.sent ++ (add m.phase m.body ∷ [])
        → m.side ≡ w.server.side
        → b.key ≡ w.key
        → next_peer_message_some b.server ≡ (ok m, t)
        → receive c b ≡ (ok plaintext, record b { server = t })
    unfolding receive on_server read_message read_numbered opened
    receive-send w v b t nonce plaintext m n small h relayed side key next =
        let (phase, opened_m) =
          opens w v b nonce plaintext m n (send-Sent w v nonce plaintext h) relayed side key in
        let number : to_num m.phase ≡ some w.phase = rw phase ((to_num-numeric w.phase small).0) in
        rw (next, number, opened_m)
