-- ===== src/Transfer/Stream.antt =====
-- A file's way through the records of src/transfer.rs.
pub mod Step
pub mod Arrival
pub mod Ends
use mathlib.Core.List.{append_assoc, append-nil}
use magic_wormhole_rs.Common.{
  ℕ, zero, suc, ◌+◌, ◌-◌, ◌^◌, ◌<◌, ◌≤◌, ◌≡◌, refl, List, [], ◌∷◌, ◌++◌, Option, none, some, Bool,
  true, false, Bytes, Outcome, ok, err, panic, pending, Action, after, after-eq-ok, ◌>>=◌, ◌>>◌,
  return, fail, expect, ensure, length, length-append, ltb, ◌==◌, ==_iff, if◌then◌else◌, Bool-cases,
  inl, inr, arith, ap, ◌∙◌, sym,
}
use magic_wormhole_rs.Core.Crypto.{Crypto}
use magic_wormhole_rs.Util.Counter.{sodium_increment_be}
use magic_wormhole_rs.Transit.Record.{TransitError, Transit, send_record, send_record_inner}
use magic_wormhole_rs.Transit.Records.{frame, send_record_frame}
use magic_wormhole_rs.Transfer.Messages.{TransferError, file_size}
use magic_wormhole_rs.Transfer.Records.{
  Read, block, failed, from_transit, add_size, send_block, finish, send_loop, send_records,
}

-- The bytes that the reads give up to the end of the file: a read of fewer than 4096 bytes is the
-- last one.
unfoldable pub data_of : List Read → Bytes
data_of [] = []
data_of (failed e ∷ reads) = []
data_of (block b ∷ reads) = let rest = data_of reads in if ltb (length b) 4096 then b else b ++ rest

pub from_transit-ok :
    {A : Type 0} (o : Outcome TransitError A) {a : A} → from_transit o ≡ ok a → o ≡ ok a
from_transit-ok (ok a) h = cc
from_transit-ok (err e) h = cc
from_transit-ok panic h = cc
from_transit-ok pending h = cc

-- A transit after the record of `ciphertext`.
abbrev pub sent_record : Transit → Bytes → Transit
sent_record t ciphertext = record t {
  socket = record (t.socket) { output = t.socket.output ++ frame t.snonce ciphertext };
  snonce = sodium_increment_be t.snonce;
}

add_size-ok :
    (sent n : ℕ) (f : ℕ → Action Transit TransferError Bytes) (t u : Transit) (sum : Bytes)
    → (expect (add_size sent n) >>= f) t ≡ (ok sum, u)
    → f (sent + n) t ≡ (ok sum, u)
add_size-ok sent n f t u sum h = elim (Bool-cases (ltb (sent + n) (2 ^ 64))) [
  | inl e ↦ rw (e, add_size) at h
  | inr e ↦ let h' = rw (e, add_size) at h in cc
]

module _ (c : Crypto) where
  pub send_block_frame :
      (b : Bytes) (t u : Transit)
      → send_block c b t ≡ (ok tt, u)
      → (ciphertext : Bytes) × (c.encrypt t.skey t.snonce b ≡ some ciphertext)
        × (u ≡ sent_record t ciphertext)
  unfolding send_block send_record
  send_block_frame b t u h =
      let r = send_record_inner c t.skey b (record { socket = t.socket; nonce = t.snonce }) in
      let good : r.0 ≡ ok tt = from_transit-ok r.0 (ap (λ x. x.0) h) in
      let (ct, e, q) =
        send_record_frame c t.skey b (record { socket = t.socket; nonce = t.snonce }) r.1
          (λ i. (good i, r.1)) in
      (ct, e, ap (λ x. x.1) (sym h) ∙ ap (λ x. record t { socket = x.socket; snonce = x.nonce }) q)

  module _ (size : ℕ) where
    finish-ok :
        (sent : ℕ) (hashed : Bytes) (t u : Transit) (sum : Bytes)
        → finish c size sent hashed t ≡ (ok sum, u)
        → (size ≡ sent) × (sum ≡ c.sha256 hashed) × (u ≡ t)
    unfolding finish
    finish-ok sent hashed t u sum h = elim (Bool-cases (sent == size)) [
      | inl e ↦
          let h' : (ok (c.sha256 hashed), t) ≡ (ok sum, u) = rw (e, finish) at h in
          (sym ((==_iff sent size).0 e), cc h', ap (λ x. x.1) (sym h'))
      | inr e ↦ let h' = rw (e, finish) at h in cc
    ]

    -- What is left of the loop when a block has been sent.
    abbrev pub next : ℕ → Bytes → Bytes → List Read → Action Transit TransferError Bytes
    next sent hashed b reads =
        if ltb (length b) 4096
        then finish c size sent (hashed ++ b)
        else send_loop c size sent (hashed ++ b) reads

    pub send_loop-block :
        (sent : ℕ) (hashed b : Bytes) (reads : List Read) (t u : Transit) (sum : Bytes)
        → send_loop c size sent hashed (block b ∷ reads) t ≡ (ok sum, u)
        → (m : Transit) × (send_block c b t ≡ (ok tt, m))
          × (next (sent + length b) hashed b reads m ≡ (ok sum, u))
    unfolding send_loop
    send_loop-block sent hashed b reads t u sum h =
        let (a, m, e, f) =
          after-eq-ok (send_block c b t)
            (λ _. (expect (add_size sent (length b)) >>= λ s. next s hashed b reads)) h in
        (m, e, add_size-ok sent (length b) (λ s. next s hashed b reads) m u sum f)

    pub send_loop-sum :
        (reads : List Read) (sent : ℕ) (hashed : Bytes) (t u : Transit) (sum : Bytes)
        → send_loop c size sent hashed reads t ≡ (ok sum, u)
        → (size ≡ sent + length (data_of reads)) × (sum ≡ c.sha256 (hashed ++ data_of reads))
    unfolding send_loop data_of
    send_loop-sum [] sent hashed t u sum h =
        let (a, m, e, f) = after-eq-ok (send_block c [] t) (λ _. finish c size sent hashed) h in
        let (n, x, o) = finish-ok sent hashed m u sum f in
        (omega (arith, n), x ∙ ap c.sha256 (sym (append-nil hashed)))
    send_loop-sum (failed e ∷ reads) sent hashed t u sum h = cc
    send_loop-sum (block b ∷ reads) sent hashed t u sum h =
        let (m, e, f) = send_loop-block sent hashed b reads t u sum h in
        elim (Bool-cases (ltb (length b) 4096)) [
          | inl small ↦
              let g : finish c size (sent + length b) (hashed ++ b) m ≡ (ok sum, u) =
                rw small at f in
              let (n, x, o) = finish-ok (sent + length b) (hashed ++ b) m u sum g in rw small (n, x)
          | inr full ↦
              let g : send_loop c size (sent + length b) (hashed ++ b) reads m ≡ (ok sum, u) =
                rw full at f in
              let (n, x) = send_loop-sum reads (sent + length b) (hashed ++ b) m u sum g in
              rw full (
                omega (arith, n, length-append b (data_of reads)),
                x ∙ ap c.sha256 (append_assoc hashed b (data_of reads)),
              )
        ]

    -- What `send_loop` puts on the wire comes behind what was there.
    pub send_loop-extends :
        (reads : List Read) (sent : ℕ) (hashed : Bytes) (t u : Transit) (sum : Bytes)
        → send_loop c size sent hashed reads t ≡ (ok sum, u)
        → (w : Bytes) × (u.socket.output ≡ t.socket.output ++ w)
    unfolding send_loop
    send_loop-extends [] sent hashed t u sum h =
        let (a, m, e, f) = after-eq-ok (send_block c [] t) (λ _. finish c size sent hashed) h in
        let (n, x, o) = finish-ok sent hashed m u sum f in
        let (ct, k, p) = send_block_frame [] t m e in
        (frame t.snonce ct, ap (λ y. y.socket.output) (o ∙ p))
    send_loop-extends (failed e ∷ reads) sent hashed t u sum h = cc
    send_loop-extends (block b ∷ reads) sent hashed t u sum h =
        let (m, e, f) = send_loop-block sent hashed b reads t u sum h in
        let (ct, k, p) = send_block_frame b t m e in
        elim (Bool-cases (ltb (length b) 4096)) [
          | inl small ↦
              let g : finish c size (sent + length b) (hashed ++ b) m ≡ (ok sum, u) =
                rw small at f in
              let (n, x, o) = finish-ok (sent + length b) (hashed ++ b) m u sum g in
              (frame t.snonce ct, ap (λ y. y.socket.output) (o ∙ p))
          | inr full ↦
              let g : send_loop c size (sent + length b) (hashed ++ b) reads m ≡ (ok sum, u) =
                rw full at f in
              let (w, o) = send_loop-extends reads (sent + length b) (hashed ++ b) m u sum g in
              (
                frame t.snonce ct ++ w,
                o
                    ∙ ap (λ y. y.socket.output ++ w) p
                    ∙ append_assoc t.socket.output (frame t.snonce ct) w,
              )
        ]

    -- If `send_records` succeeds, then the bytes of the file up to its end are as many as were
    -- advertized, and it returns the hash of exactly these bytes.
    pub send_records-sum :
        (file : List Read) (t u : Transit) (sum : Bytes)
        → send_records c size file t ≡ (ok sum, u)
        → (length (data_of file) ≡ size) × (sum ≡ c.sha256 (data_of file))
    unfolding send_records
    send_records-sum file t u sum h =
        let (n, x) = send_loop-sum file 0 [] t u sum h in (omega (arith, n), x)
