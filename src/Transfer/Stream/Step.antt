-- ===== src/Transfer/Stream/Step.antt =====
-- One round of the receiving loop of src/transfer.rs on one record.
use magic_wormhole_rs.Common.{
  ℕ, zero, suc, ◌-◌, ◌≤◌, ◌≡◌, ◌⊎◌, refl, [], ◌∷◌, ◌++◌, some, true, false, Bytes, ok, err, length,
  length-append, ltb, le→ltb, if◌then◌else◌, inl, inr, arith, ap,
}
use magic_wormhole_rs.Core.Crypto.{Crypto, IsSound}
use magic_wormhole_rs.Util.Counter.{sodium_increment_be}
use magic_wormhole_rs.Transit.Socket.{broken_pipe, to_be_bytes}
use magic_wormhole_rs.Transit.Record.{receive_record}
use magic_wormhole_rs.Transit.Records.{frame, receive_record_frame}
use magic_wormhole_rs.Transfer.Messages.{io_error}
use magic_wormhole_rs.Transfer.Records.{
  Read, block, failed, Download, receive_block, write_content, receive_loop,
}

pub positive : (k : ℕ) → (k ≡ 0) ⊎ ((r : ℕ) × (k ≡ suc r))
positive zero = inl refl
positive (suc r) = inr (r, refl)

pub empty : (b : Bytes) → length b ≡ 0 → b ≡ []
empty [] h = refl
empty (x ∷ b) h = cc

-- Behind a frame there is fuel for what follows it.
pub spare :
    (nonce ct w : Bytes) (fuel : ℕ) (v : Bytes)
    → w ≡ frame nonce ct ++ v
    → length w ≤ fuel
    → (f : ℕ) × (fuel ≡ suc f) × (length v ≤ f)
unfolding to_be_bytes
spare nonce ct w fuel v e l =
    let size : length w ≡ length (frame nonce ct ++ v) = ap length e in
    let parts = length-append (nonce ++ ct) v in
    elim (positive fuel) [
      | inl z ↦ absurd (omega (arith, size, l, z))
      | inr (f, z) ↦ (f, z, omega (arith, size, l, parts, z))
    ]

-- A read gives at most 4096 bytes.
abbrev pub Fits : Read → Type 0
Fits (block b) = length b ≤ 4096
Fits (failed e) = Unit

-- A download whose receiver has taken in the record of `b` and has `rest` before it.
abbrev pub stored : Download → Bytes → Bytes → Download
stored d b rest = record d {
  transit = record (d.transit) {
    socket = record (d.transit.socket) { input = rest };
    rnonce = sodium_increment_be d.transit.rnonce;
  };
  content = d.content ++ b;
}

module _ (c : Crypto) (sound : IsSound c) where
  pub receive_block-frame :
      (b ct rest : Bytes) (d : Download)
      → length d.transit.rnonce ≡ 24
      → length b ≤ 4096
      → c.encrypt d.transit.rkey d.transit.rnonce b ≡ some ct
      → d.transit.socket.input ≡ frame d.transit.rnonce ct ++ rest
      → receive_block c d ≡ (
        ok b,
        record d {
          transit = record (d.transit) {
            socket = record (d.transit.socket) { input = rest };
            rnonce = sodium_increment_be d.transit.rnonce;
          };
        },
      )
  unfolding receive_block receive_record
  receive_block-frame b ct rest d n small e i =
      rw
        (receive_record_frame c sound d.transit.rkey b ct rest
          (record { socket = d.transit.socket; nonce = d.transit.rnonce }) n (omega (arith, small))
          e i)
        refl

  pub write_content-done :
      (b : Bytes) (d : Download)
      → d.writable ≡ true
      → write_content c b d ≡ (ok tt, record d { content = d.content ++ b })
  unfolding write_content
  write_content-done b d w =
      ap
        (λ x.
          if x
          then (ok tt, record d { content = d.content ++ b })
          else (err (io_error broken_pipe), d))
        w

  pub receive_loop-step :
      (fuel r : ℕ) (hashed b ct rest : Bytes) (d : Download)
      → length d.transit.rnonce ≡ 24
      → length b ≤ 4096
      → length b ≤ suc r
      → c.encrypt d.transit.rkey d.transit.rnonce b ≡ some ct
      → d.transit.socket.input ≡ frame d.transit.rnonce ct ++ rest
      → d.writable ≡ true
      → receive_loop c (suc fuel) (suc r) hashed d
        ≡ receive_loop c fuel (suc r - length b) (hashed ++ b) (stored d b rest)
  unfolding receive_loop
  receive_loop-step fuel r hashed b ct rest d n small fits e i w =
      let room : ltb (suc r) (length b) ≡ false = le→ltb _ _ fits in
      let got : Download = record d {
        transit = record (d.transit) {
          socket = record (d.transit.socket) { input = rest };
          rnonce = sodium_increment_be d.transit.rnonce;
        };
      } in
      rw (receive_block-frame b ct rest d n small e i, write_content-done b got w, room) refl
