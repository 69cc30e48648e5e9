-- ===== src/Transit/Agreement.antt =====
-- The two ends of the handshake of src/transit.rs.
use mathlib.Core.List.{append-nil}
use magic_wormhole_rs.Common.{
  ℕ, ◌≡◌, ◌↔◌, refl, [], ◌++◌, Bool, true, false, Bytes, ok, err, Action, after, after-eq-ok, ◌>>=◌,
  ◌>>◌, ensure, if◌then◌else◌, bytes_eq, bytes_eq_iff, length, length-append, arith, ap, ◌∙◌, sym,
  Bool-cases, inl, inr,
}
use magic_wormhole_rs.Common.Text.{codes}
use magic_wormhole_rs.Core.Crypto.{Crypto, IsSound}
use magic_wormhole_rs.Core.Key.{Key, derive_subkey_from_purpose, to_hex, derive_key}
use magic_wormhole_rs.Transit.Hints.{HostType, direct, relay_host}
use magic_wormhole_rs.Transit.Socket.{
  broken_pipe, Socket, read_exact, write_all, read_exact_prefix, read_exact-splits,
}
use magic_wormhole_rs.Transit.Record.{Transit}
use magic_wormhole_rs.Transit.Handshake.{
  TransitHandshakeError, handshake_failed, relay_handshake_failed, io, ok_msg, go_msg, sub_key,
  relay_request, leader_msg, follower_msg, relay_handshake, peer_handshake, established,
  handshake_exchange,
}

-- Whatever a side still has to hear.
abbrev pub expected : Crypto → Key → Bool → Bytes
expected c key true = follower_msg c key
expected c key false = leader_msg c key ++ go_msg

abbrev pub greeting : Crypto → Key → Bool → Bytes
greeting c key true = leader_msg c key
greeting c key false = follower_msg c key

abbrev pub relay_part : Crypto → Key → Bytes → HostType → Bytes
relay_part c key tside direct = []
relay_part c key tside relay_host = relay_request c key tside

abbrev pub relay_reply : HostType → Bytes
relay_reply direct = []
relay_reply relay_host = ok_msg

module _ (c : Crypto) (key : Key) where
  length-subkey-hex : IsSound c → (purpose : Bytes) → length (to_hex c (sub_key c key purpose)) ≡ 64
  unfolding sub_key to_hex derive_subkey_from_purpose derive_key
  length-subkey-hex sound purpose =
      omega (arith, sound.length-hex_encode (c.hkdf key purpose), sound.length-hkdf key purpose)

  length-leader_msg : IsSound c → length (leader_msg c key) ≡ 87
  unfolding leader_msg
  length-leader_msg sound = omega (
    arith,
    length-subkey-hex sound (codes "transit_sender"),
    length-append (to_hex c (sub_key c key (codes "transit_sender"))) (codes " ready\n\n"),
  )

  length-follower_msg : IsSound c → length (follower_msg c key) ≡ 89
  unfolding follower_msg
  length-follower_msg sound = omega (
    arith,
    length-subkey-hex sound (codes "transit_receiver"),
    length-append (to_hex c (sub_key c key (codes "transit_receiver"))) (codes " ready\n\n"),
  )

write_all-done :
    (b : Bytes) (s : Socket)
    → s.writable ≡ true
    → write_all io b s ≡ (ok tt, record s { output = s.output ++ b })
unfolding write_all
write_all-done b s w =
    ap (λ x. if x then (ok tt, record s { output = s.output ++ b }) else (err (io broken_pipe), s))
      w

write_all-failed :
    (b : Bytes) (s : Socket) → s.writable ≡ false → write_all io b s ≡ (err (io broken_pipe), s)
unfolding write_all
write_all-failed b s w =
    ap (λ x. if x then (ok tt, record s { output = s.output ++ b }) else (err (io broken_pipe), s))
      w

-- Writing one message and reading another of a known length, which a test compares.
module _ (m e : Bytes) (n : ℕ) (test : Bytes → Bool) (bad : TransitHandshakeError)
    (size : length e ≡ n) (exact : (rx : Bytes) → (test rx ≡ true) ↔ (rx ≡ e)) where
  swap : Action Socket TransitHandshakeError (Unit {0})
  swap = do write_all io m; rx ← read_exact io n; ensure (test rx) bad

  swap-completes :
      (rest : Bytes) (s : Socket)
      → s.writable ≡ true
      → s.input ≡ e ++ rest
      → swap s ≡ (ok tt, record s { input = rest; output = s.output ++ m })
  unfolding swap
  swap-completes rest s w i =
      let read : read_exact io n (record s { output = s.output ++ m })
          ≡ (ok e, record s { input = rest; output = s.output ++ m }) =
        rw⁻¹ size (read_exact_prefix io e rest (record s { output = s.output ++ m }) i) in
      rw (write_all-done m s w, read, (exact e).1 refl, swap) refl

  swap-splits :
      (s t : Socket) → swap s ≡ (ok tt, t) → (s.input ≡ e ++ t.input) × (t.output ≡ s.output ++ m)
  unfolding swap
  swap-splits s t h = elim (Bool-cases s.writable) [
    | inl w ↦
        let h' : after (read_exact io n (record s { output = s.output ++ m }))
              (λ rx. ensure (test rx) bad)
            ≡ (ok tt, t) =
          rw (write_all-done m s w, swap) at h in
        let (rx, u, r, f) =
          after-eq-ok (read_exact io n (record s { output = s.output ++ m }))
            (λ rx. ensure (test rx) bad) h' in
        let (i, z, o) = read_exact-splits io n (record s { output = s.output ++ m }) u rx r in
        elim (Bool-cases (test rx)) [
          | inl good ↦
              let same : u ≡ t = ap (λ x. x.1) (rw good at f) in
              (i ∙ (λ j. (exact rx).0 good j ++ (same j).input), ap (λ x. x.output) (sym same) ∙ o)
          | inr wrong ↦ let f' = rw wrong at f in cc
        ]
    | inr w ↦ let h' = rw (write_all-failed m s w, swap) at h in cc
  ]

module _ (c : Crypto) (sound : IsSound c) (key : Key) where
  length-expected :
      (is_leader : Bool) → length (expected c key is_leader) ≡ (if is_leader then 89 else 90)
  length-expected true = length-follower_msg c key sound
  length-expected false =
      omega (arith, length-leader_msg c key sound, length-append (leader_msg c key) go_msg)

  ok_msg_iff : (rx : Bytes) → (bytes_eq ok_msg rx ≡ true) ↔ (rx ≡ ok_msg)
  ok_msg_iff rx = (λ h. sym ((bytes_eq_iff ok_msg rx).0 h), λ e. (bytes_eq_iff ok_msg rx).1 (sym e))

  relay_handshake-completes :
      (tside rest : Bytes) (host_type : HostType) (s : Socket)
      → s.writable ≡ true
      → s.input ≡ relay_reply host_type ++ rest
      → relay_handshake c key host_type tside s
        ≡ (ok tt, record s { input = rest; output = s.output ++ relay_part c key tside host_type })
  unfolding relay_handshake swap
  relay_handshake-completes tside rest direct s w i =
      λ j. (ok tt, record s { input = i j; output = sym (append-nil s.output) j })
  relay_handshake-completes tside rest relay_host s w i =
      swap-completes (relay_request c key tside) ok_msg 3 (bytes_eq ok_msg) relay_handshake_failed
        refl ok_msg_iff rest s w i

  peer_handshake-completes :
      (is_leader : Bool) (rest : Bytes) (s : Socket)
      → s.writable ≡ true
      → s.input ≡ expected c key is_leader ++ rest
      → peer_handshake c key is_leader s
        ≡ (ok tt, record s { input = rest; output = s.output ++ greeting c key is_leader })
  unfolding peer_handshake swap
  peer_handshake-completes true rest s w i =
      swap-completes (leader_msg c key) (follower_msg c key) 89
        (λ rx. bytes_eq rx (follower_msg c key)) handshake_failed (length-expected true)
        (λ rx. bytes_eq_iff rx (follower_msg c key)) rest s w i
  peer_handshake-completes false rest s w i =
      swap-completes (follower_msg c key) (leader_msg c key ++ go_msg) 90
        (λ rx. bytes_eq rx (leader_msg c key ++ go_msg)) handshake_failed (length-expected false)
        (λ rx. bytes_eq_iff rx (leader_msg c key ++ go_msg)) rest s w i

  -- A side whose stream begins with what the relay (on a relay connection) and the peer answer, and
  -- whose writes succeed, finishes the handshake: it has read exactly these answers, has written its
  -- relay request and its greeting, and holds the record keys of its role.
  pub handshake_exchange-completes :
      (is_leader : Bool) (tside rest : Bytes) (host_type : HostType) (s : Socket)
      → s.writable ≡ true
      → s.input ≡ relay_reply host_type ++ (expected c key is_leader ++ rest)
      → let left : Socket = record s {
        input = rest;
        output = (s.output ++ relay_part c key tside host_type) ++ greeting c key is_leader;
      } in
        handshake_exchange c key is_leader tside host_type s
        ≡ (ok (established c key is_leader left), left)
  unfolding handshake_exchange
  handshake_exchange-completes is_leader tside rest host_type s w i =
      rw
        (
          relay_handshake-completes tside (expected c key is_leader ++ rest) host_type s w i,
          peer_handshake-completes is_leader rest
              (record s {
                input = expected c key is_leader ++ rest;
                output = s.output ++ relay_part c key tside host_type;
              })
              w refl,
        )
        refl

  relay_handshake-splits :
      (tside : Bytes) (host_type : HostType) (s t : Socket)
      → relay_handshake c key host_type tside s ≡ (ok tt, t)
      → s.input ≡ relay_reply host_type ++ t.input
  unfolding relay_handshake swap
  relay_handshake-splits tside direct s t h = ap (λ r. r.1.input) h
  relay_handshake-splits tside relay_host s t h =
      (swap-splits (relay_request c key tside) ok_msg 3 (bytes_eq ok_msg) relay_handshake_failed
        refl ok_msg_iff s t h).0

  peer_handshake-splits :
      (is_leader : Bool) (s t : Socket)
      → peer_handshake c key is_leader s ≡ (ok tt, t)
      → s.input ≡ expected c key is_leader ++ t.input
  unfolding peer_handshake swap
  peer_handshake-splits true s t h =
      (swap-splits (leader_msg c key) (follower_msg c key) 89
        (λ rx. bytes_eq rx (follower_msg c key)) handshake_failed (length-expected true)
        (λ rx. bytes_eq_iff rx (follower_msg c key)) s t h).0
  peer_handshake-splits false s t h =
      (swap-splits (follower_msg c key) (leader_msg c key ++ go_msg) 90
        (λ rx. bytes_eq rx (leader_msg c key ++ go_msg)) handshake_failed (length-expected false)
        (λ rx. bytes_eq_iff rx (leader_msg c key ++ go_msg)) s t h).0

  -- A handshake that succeeds has read what only the relay and a peer with the same key send: the
  -- stream began with these bytes, and the rest is the connection's.
  pub handshake_exchange-Heard :
      (is_leader : Bool) (tside : Bytes) (host_type : HostType) (s u : Socket) (t : Transit)
      → handshake_exchange c key is_leader tside host_type s ≡ (ok t, u)
      → (s.input ≡ relay_reply host_type ++ (expected c key is_leader ++ t.socket.input))
        × (t ≡ established c key is_leader u)
  unfolding handshake_exchange established
  handshake_exchange-Heard is_leader tside host_type s u t h =
      let (a, m, e, f) =
        after-eq-ok (relay_handshake c key host_type tside s)
          (λ _. (peer_handshake c key is_leader >> λ x. (ok (established c key is_leader x), x)))
          h in
      let (b, v, g, k) =
        after-eq-ok (peer_handshake c key is_leader m)
          (λ _ x. (ok (established c key is_leader x), x)) f in
      let end : v ≡ u = ap (λ x. x.1) k in
      let role : established c key is_leader v ≡ t = cc k in
      (
        relay_handshake-splits tside host_type s m e
            ∙ ap (λ x. relay_reply host_type ++ x) (peer_handshake-splits is_leader m v g)
            ∙ ap (λ x. relay_reply host_type ++ (expected c key is_leader ++ x.socket.input)) role,
        sym role ∙ ap (established c key is_leader) end,
      )
