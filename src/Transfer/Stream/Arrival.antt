-- ===== src/Transfer/Stream/Arrival.antt =====
-- What the sender's records of src/transfer.rs become on the receiver's side.
use mathlib.Core.List.{append_assoc, append-nil, append_cancel_left}
use magic_wormhole_rs.Common.{
  ℕ, suc, ◌+◌, ◌-◌, ◌<◌, ◌≤◌, ◌≡◌, refl, List, [], ◌∷◌, ◌++◌, some, true, Bytes, ok, length,
  length-append, All, ltb, Bool-cases, inl, inr, arith, ap, ◌∙◌, sym,
}
use magic_wormhole_rs.Core.Crypto.{Crypto, IsSound}
use magic_wormhole_rs.Util.Counter.{sodium_increment_be, sodium_increment_be_lem}
use magic_wormhole_rs.Transit.Record.{Transit}
use magic_wormhole_rs.Transit.Records.{frame}
use magic_wormhole_rs.Transfer.Records.{
  Read, block, failed, finish, send_loop, send_records, Download, receive_loop, receive_records,
}
use magic_wormhole_rs.Transfer.Stream.{
  data_of, send_block_frame, send_loop-block, send_loop-sum, send_loop-extends, finish-ok,
}
use magic_wormhole_rs.Transfer.Stream.Step.{positive, empty, spare, Fits, stored, receive_loop-step}

module _ (c : Crypto) (sound : IsSound c) where
  module _ (size : ℕ) where
    -- The receiver is done when nothing remains.
    receive_loop-done :
        (fuel sent : ℕ) (hashed : Bytes) (d : Download)
        → size ≡ sent
        → receive_loop c (suc fuel) (size - sent) hashed d ≡ (ok (c.sha256 hashed), d)
    unfolding receive_loop
    receive_loop-done fuel sent hashed d e =
        let none_left : size - sent ≡ 0 = omega (arith, e) in rw none_left refl

    receive_loop-block :
        (fuel sent : ℕ) (hashed b ct rest : Bytes) (t : Transit) (d : Download)
        → d.transit.rkey ≡ t.skey
        → d.transit.rnonce ≡ t.snonce
        → length t.snonce ≡ 24
        → length b ≤ 4096
        → sent < size
        → sent + length b ≤ size
        → c.encrypt t.skey t.snonce b ≡ some ct
        → d.transit.socket.input ≡ frame t.snonce ct ++ rest
        → d.writable ≡ true
        → receive_loop c (suc fuel) (size - sent) hashed d
          ≡ receive_loop c fuel (size - (sent + length b)) (hashed ++ b) (stored d b rest)
    receive_loop-block fuel sent hashed b ct rest t d key nonce n small more fits e i w =
        elim (positive (size - sent)) [
          | inl z ↦ absurd (omega (arith, z, more))
          | inr (r, q) ↦
              let left : suc r - length b ≡ size - (sent + length b) = omega (arith, q) in
              rw q (
                receive_loop-step c sound fuel r hashed b ct rest d (rw nonce n) small
                  (omega (arith, q, fits)) (rw (key, nonce) e) (rw nonce i) w
                ∙ ap (λ k. receive_loop c fuel k (hashed ++ b) (stored d b rest)) left)
        ]

    -- What a receiver comes to that has still to read what the sender sends.
    abbrev Arrives : ℕ → ℕ → Bytes → Bytes → Bytes → Download → Type 0
    Arrives fuel sent hashed bytes sum d =
        (e : Download) × (receive_loop c (suc fuel) (size - sent) hashed d ≡ (ok sum, e))
        × (e.content ≡ d.content ++ bytes)

    receive_loop-full :
        (reads : List Read) (fuel sent : ℕ) (hashed sum : Bytes) (t u : Transit) (d : Download)
        → send_loop c size sent hashed reads t ≡ (ok sum, u)
        → size ≡ sent
        → Arrives fuel sent hashed (data_of reads) sum d
    receive_loop-full reads fuel sent hashed sum t u d h full =
        let (n, x) = send_loop-sum c size reads sent hashed t u sum h in
        let no_data : data_of reads ≡ [] = empty (data_of reads) (omega (arith, n, full)) in
        let same : sum ≡ c.sha256 hashed =
          x ∙ ap c.sha256 (ap (λ y. hashed ++ y) no_data ∙ append-nil hashed) in
        (
          d,
          receive_loop-done fuel sent hashed d full ∙ λ j. (ok (sym same j), d),
          sym (append-nil d.content) ∙ ap (λ y. d.content ++ y) (sym no_data),
        )

    receive_loop-send_loop :
        (reads : List Read) (fuel sent : ℕ) (hashed w rest sum : Bytes) (t u : Transit)
        (d : Download)
        → All Fits reads
        → length t.snonce ≡ 24
        → send_loop c size sent hashed reads t ≡ (ok sum, u)
        → u.socket.output ≡ t.socket.output ++ w
        → d.transit.rkey ≡ t.skey
        → d.transit.rnonce ≡ t.snonce
        → d.transit.socket.input ≡ w ++ rest
        → d.writable ≡ true
        → length w ≤ fuel
        → Arrives fuel sent hashed (data_of reads) sum d
    unfolding data_of
    receive_loop-send_loop [] fuel sent hashed w rest sum t u d fit n h o key nonce i wr l =
        let (q, x) = send_loop-sum c size [] sent hashed t u sum h in
        receive_loop-full [] fuel sent hashed sum t u d h (omega (arith, q))
    receive_loop-send_loop (failed x ∷ reads) fuel sent hashed w rest sum t u d fit n h o key nonce
          i wr l =
        let (q, y) = send_loop-sum c size (failed x ∷ reads) sent hashed t u sum h in
        receive_loop-full (failed x ∷ reads) fuel sent hashed sum t u d h (omega (arith, q))
    receive_loop-send_loop (block b ∷ reads) fuel sent hashed w rest sum t u d fit n h o key nonce i
          wr l =
        let (m, e, f) = send_loop-block c size sent hashed b reads t u sum h in
        let (ct, k, p) = send_block_frame c b t m e in
        let (q, y) = send_loop-sum c size (block b ∷ reads) sent hashed t u sum h in
        let (fits_b, fits_rest) = fit in
        elim (positive (size - sent)) [
          | inl z ↦
              receive_loop-full (block b ∷ reads) fuel sent hashed sum t u d h (omega (arith, q, z))
          | inr (r, z) ↦ elim (Bool-cases (ltb (length b) 4096)) [
            | inl short ↦
                let g : finish c size (sent + length b) (hashed ++ b) m ≡ (ok sum, u) =
                  rw short at f in
                let (n', x', o') = finish-ok c size (sent + length b) (hashed ++ b) m u sum g in
                let wire : w ≡ frame t.snonce ct =
                  append_cancel_left t.socket.output w (frame t.snonce ct)
                    (sym o ∙ ap (λ v. v.socket.output) (o' ∙ p)) in
                let (f', zf, none_used) =
                  spare t.snonce ct w fuel [] (wire ∙ sym (append-nil (frame t.snonce ct))) l in
                rw short (
                  stored d b rest,
                  ap (λ x. receive_loop c (suc x) (size - sent) hashed d) zf
                      ∙ (receive_loop-block (suc f') sent hashed b ct rest t d key nonce n fits_b
                            (omega (arith, z)) (omega (arith, n')) k (rw⁻¹ wire i) wr
                          ∙ receive_loop-done f' (sent + length b) (hashed ++ b) (stored d b rest)
                              n'
                          ∙ λ j. (ok (sym x' j), stored d b rest)),
                  refl,
                )
            | inr full ↦
                let g : send_loop c size (sent + length b) (hashed ++ b) reads m ≡ (ok sum, u) =
                  rw full at f in
                let (n', x') =
                  send_loop-sum c size reads (sent + length b) (hashed ++ b) m u sum g in
                let (v, o') =
                  send_loop-extends c size reads (sent + length b) (hashed ++ b) m u sum g in
                let wire : w ≡ frame t.snonce ct ++ v =
                  append_cancel_left t.socket.output w (frame t.snonce ct ++ v) (
                    sym o
                    ∙ o'
                    ∙ ap (λ x. x.socket.output ++ v) p
                    ∙ append_assoc t.socket.output (frame t.snonce ct) v) in
                let (f', zf, enough) = spare t.snonce ct w fuel v wire l in
                let (e', run, content) =
                  receive_loop-send_loop reads f' (sent + length b) (hashed ++ b) v rest sum m u
                    (stored d b (v ++ rest)) fits_rest
                    (rw p ((sodium_increment_be_lem t.snonce).1 ∙ n)) g o' (rw p key)
                    (rw p (ap sodium_increment_be nonce)) refl wr enough in
                rw full (
                  e',
                  ap (λ x. receive_loop c (suc x) (size - sent) hashed d) zf
                      ∙ (receive_loop-block (suc f') sent hashed b ct (v ++ rest) t d key nonce n
                            fits_b (omega (arith, z)) (omega (arith, n')) k
                            (i ∙ ap (λ x. x ++ rest) wire ∙ append_assoc (frame t.snonce ct) v rest)
                            wr
                          ∙ run),
                  content ∙ append_assoc d.content b (data_of reads),
                )
          ]
        ]

    -- If `send_records` sends a file and puts exactly `w` on the wire, then a receiver with the same
    -- key and nonce, the advertized size and a stream that begins with `w` ends `receive_records`
    -- with the sender's checksum, having written exactly the file's bytes.
    pub receive_records-send_records :
        (file : List Read) (w rest sum : Bytes) (t u : Transit) (d : Download)
        → All Fits file
        → length t.snonce ≡ 24
        → send_records c size file t ≡ (ok sum, u)
        → u.socket.output ≡ t.socket.output ++ w
        → d.transit.rkey ≡ t.skey
        → d.transit.rnonce ≡ t.snonce
        → d.transit.socket.input ≡ w ++ rest
        → d.writable ≡ true
        → (e : Download) × (receive_records c size d ≡ (ok sum, e))
          × (e.content ≡ d.content ++ data_of file)
    unfolding send_records receive_records
    receive_records-send_records file w rest sum t u d fit n h o key nonce i wr =
        let zero_sent : size ≡ size - 0 = omega arith in
        let (e, run, content) =
          receive_loop-send_loop file (length d.transit.socket.input) 0 [] w rest sum t u d fit n h
            o key nonce i wr (rw i (omega (arith, length-append w rest))) in
        (
          e,
          ap (λ k. receive_loop c (suc (length d.transit.socket.input)) k [] d) zero_sent ∙ run,
          content,
        )
