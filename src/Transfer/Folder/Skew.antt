-- ===== src/Transfer/Folder/Skew.antt =====
-- What a `send_folder` of src/transfer.rs that ends well has checked of the two passes over the folder.
use mathlib.Core.Option
use magic_wormhole_rs.Common.{
  arith, ℕ, ◌≡◌, refl, List, [], ◌∷◌, ◌++◌, Option, none, some, Bool, true, false, Bytes, Outcome,
  ok, err, panic, pending, after, after-eq-ok, ok_or-ok, expect-ok, ensure-ok, length, take,
  bytes_eq, bytes_eq_iff, ap, ◌∙◌, sym, Bool-cases, inl, inr, Option-cases,
}
use magic_wormhole_rs.Core.Crypto.{Crypto}
use magic_wormhole_rs.Transit.Record.{Transit}
use magic_wormhole_rs.Transfer.Messages.{
  TransferError, filesystem_skew, TransitAck, new_offer_file, transit_error,
}
use magic_wormhole_rs.Transfer.Records.{Read, send_records}
use magic_wormhole_rs.Transfer.Session.{
  Session, Env, Peer, tell, hear, complain, send_transit, receive_transit, reported, dropped,
}
use magic_wormhole_rs.Transfer.Send.{acknowledged, lead, receive_transit_ack, receive_ack_record}
use magic_wormhole_rs.Transfer.Stream.{data_of, send_loop-sum}
use magic_wormhole_rs.Transfer.Folder.{
  Folder, Write, BroadcastWriter, broadcast, broadcast_all, nothing_written, measure, file_sender,
  compare_sums, wait_for_ack, offer_folder, send_archive, send_folder,
}

-- The hasher behind a `BroadcastWriter` is given what the ring buffer takes.
broadcast_all-same :
    (xs : List Write) (w v : BroadcastWriter)
    → w.primary ≡ w.secondary
    → broadcast_all xs w ≡ some v
    → v.primary ≡ v.secondary
unfolding broadcast_all broadcast
broadcast_all-same [] w v h e = sym (ap (λ x. x.primary) one) ∙ h ∙ ap (λ x. x.secondary) one
  where
    one : w ≡ v
    one = cc e
broadcast_all-same ((buf, none) ∷ xs) w v h e = cc
broadcast_all-same ((buf, some n) ∷ xs) w v h e =
    broadcast_all-same xs
      (record { primary = w.primary ++ take n buf; secondary = w.secondary ++ take n buf }) v
      (ap (λ b. b ++ take n buf) h) e

dropped_fails :
    {A : Type 0} (r : Outcome TransferError (Unit {0}) × Session) (e : TransferError) (t : Session)
    (a : A)
    → after (dropped r.0, r.1) (λ _ s. (err e, s)) ≡ (ok a, t)
    → ⊥
dropped_fails (ok x, s) e t a h = cc
dropped_fails (err x, s) e t a h = cc
dropped_fails (panic, s) e t a h = cc
dropped_fails (pending, s) e t a h = cc

complain-fails :
    {A : Type 0} (c : Crypto) (env : Env) (e : TransferError) (s t : Session) (a : A)
    → complain c env e s ≡ (ok a, t)
    → ⊥
unfolding complain
complain-fails c env e s t a h = dropped_fails _ e t a h

reported-ok :
    {A : Type 0} (c : Crypto) (env : Env) (o : Outcome TransferError A) (s t : Session) (a : A)
    → reported c env o s ≡ (ok a, t)
    → o ≡ ok a
unfolding reported
reported-ok c env (ok x) s t a h = cc
reported-ok c env (err (transit_error e)) s t a h = absurd (dropped_fails _ (transit_error e) t a h)
reported-ok c env (err e) s t a h = cc
reported-ok c env panic s t a h = cc
reported-ok c env pending s t a h = cc

given :
    (p q : Peer) (m n : ℕ) (a b : Bytes) (s t : Session)
    → Path (Outcome TransferError (Peer × ℕ × Bytes) × Session) (ok (p, m, a), s) (ok (q, n, b), t)
    → Path (ℕ × Bytes) (m, a) (n, b)
given p q m n a b s t h =
    let same : Path (Peer × ℕ × Bytes) (p, m, a) (q, n, b) = cc h in λ j. ((same j).1, (same j).2)

module _ (c : Crypto) (env : Env) where
  -- The peer's next record on a connection holds an acknowledgement with a checksum.
  pub record Acked (sum : Bytes) (connection : Transit) : Type 0 where
    pub packet : Bytes
    pub left : Transit
    pub ack : TransitAck
    pub received : receive_ack_record c connection ≡ (ok packet, left)
    pub parsed : env.ack_json.from_slice packet ≡ some ack
    pub given_back : ack.sha256 ≡ c.hex_encode sum

  -- What holds of a folder that was sent well: the archive that was measured, and the one that went
  -- into the ring buffer have one checksum; as many bytes as measured were sent in records, on the
  -- connection to the peer that took the offer; and the record that this connection gave behind these
  -- has the checksum of these bytes.
  pub record Sent (name : Bytes) (folder : Folder) (start : Session) : Type 0 where
    pub size : ℕ
    pub initial : Bytes
    pub writes : List Write
    pub written : BroadcastWriter
    pub peer : Peer
    pub accepted : Session
    pub led : Session
    pub connection : Transit
    pub behind : Transit
    pub offered : offer_folder c env name folder start ≡ (ok (peer, size, initial), accepted)
    pub connects : lead c env peer accepted ≡ (ok connection, led)
    pub measured : measure c folder ≡ some (size, initial)
    pub ran : folder.streamed ≡ some writes
    pub wrote : broadcast_all writes nothing_written ≡ some written
    pub unchanged : c.sha256 written.primary ≡ initial
    pub records_sent :
        send_records c size folder.reads connection ≡ (ok (c.sha256 (data_of folder.reads)), behind)
    pub length_sent : length (data_of folder.reads) ≡ size
    pub acked : Acked (c.sha256 (data_of folder.reads)) behind

  streamed_some :
      (xs : List Write) (o : Option BroadcastWriter) (sum : Bytes)
      → broadcast_all xs nothing_written ≡ o
      → Option.map (λ w. c.sha256 w.secondary) o ≡ some sum
      → (w : BroadcastWriter) × ((broadcast_all xs nothing_written ≡ some w)
          × (c.sha256 w.primary ≡ sum))
  streamed_some xs none sum e h = cc
  streamed_some xs (some w) sum e h =
      let same : w.primary ≡ w.secondary = broadcast_all-same xs nothing_written w refl e in
      let hashed : c.sha256 w.secondary ≡ sum = cc h in (w, (e, ap c.sha256 same ∙ hashed))

  file_sender-some :
      (folder : Folder) (sum : Bytes)
      → file_sender c folder ≡ some sum
      → (xs : List Write) × ((w : BroadcastWriter) × ((folder.streamed ≡ some xs)
            × (broadcast_all xs nothing_written ≡ some w)
            × (c.sha256 w.primary ≡ sum)))
  unfolding file_sender
  file_sender-some folder sum h = elim (Option-cases folder.streamed) [
    | inl n ↦ let x : none ≡ some sum = rw n at h in absurd cc
    | inr (xs, e) ↦
        let g : Option.map (λ w. c.sha256 w.secondary) (broadcast_all xs nothing_written)
            ≡ some sum =
          rw e at h in
        let (w, (b, k)) = streamed_some xs (broadcast_all xs nothing_written) sum refl g in
        (xs, (w, (e, b, k)))
  ]

  wait_for_ack-ok :
      (sum : Bytes) (u : Transit) (s t : Session)
      → wait_for_ack c env sum u s ≡ (ok tt, t)
      → Acked sum u
  unfolding wait_for_ack receive_transit_ack receive_ack_record
  wait_for_ack-ok sum u s t h =
      let waited : (receive_transit_ack c env.ack_json sum u).0 ≡ ok tt = ap (λ r. r.0) h in
      let (b, v, e, f) =
        after-eq-ok (receive_ack_record c u) _
          (λ j. (waited j, (receive_transit_ack c env.ack_json sum u).1)) in
      let (ack, parsed, g) = ok_or-ok (env.ack_json.from_slice b) _ _ v _ tt f in
      record {
        packet = b;
        left = v;
        ack = ack;
        received = e;
        parsed = parsed;
        given_back = (bytes_eq_iff ack.sha256 (c.hex_encode sum)).0 (ensure-ok _ _ v _ refl g);
      }

  compare_sums-ok :
      (folder : Folder) (initial sum : Bytes) (u : Transit) (s t : Session)
      → compare_sums c env folder initial sum u s ≡ (ok tt, t)
      → (file_sender c folder ≡ some initial) × Acked sum u
  unfolding compare_sums
  compare_sums-ok folder initial sum u s t h =
      let (own, e, f) = expect-ok (file_sender c folder) _ s t tt h in
      elim (Bool-cases (bytes_eq own initial)) [
        | inl no_skew ↦
            let g : wait_for_ack c env sum u s ≡ (ok tt, t) = rw no_skew at f in
            (e ∙ ap some ((bytes_eq_iff own initial).0 no_skew), wait_for_ack-ok sum u s t g)
        | inr skew ↦
            let g : complain c env filesystem_skew s ≡ (ok tt, t) = rw skew at f in
            absurd (complain-fails c env filesystem_skew s t tt g)
      ]

  send_records-sum :
      (size : ℕ) (reads : List Read) (t u : Transit) (sum : Bytes)
      → send_records c size reads t ≡ (ok sum, u)
      → (length (data_of reads) ≡ size) × (sum ≡ c.sha256 (data_of reads))
  unfolding send_records
  send_records-sum size reads t u sum h =
      let (n, x) = send_loop-sum c size reads 0 [] t u sum h in (omega (arith, n), x)

  send_archive-ok :
      (size : ℕ) (initial : Bytes) (folder : Folder) (u : Transit) (s t : Session)
      → send_archive c env size initial folder u s ≡ (ok tt, t)
      → (length (data_of folder.reads) ≡ size)
        × (file_sender c folder ≡ some initial)
        × ((behind : Transit) × (send_records c size folder.reads u
              ≡ (ok (c.sha256 (data_of folder.reads)), behind))
            × Acked (c.sha256 (data_of folder.reads)) behind)
  unfolding send_archive
  send_archive-ok size initial folder u s t h =
      let (sum, v, e, f) =
        after-eq-ok (reported c env (send_records c size folder.reads u).0 s) _ h in
      let sent : (send_records c size folder.reads u).0 ≡ ok sum = reported-ok c env _ s v sum e in
      let behind : Transit = (send_records c size folder.reads u).1 in
      let (n, x) = send_records-sum size folder.reads u behind sum (λ j. (sent j, behind)) in
      let (same, acked) = compare_sums-ok folder initial sum behind v t f in
      (n, same, (behind, (λ j. ((sent ∙ ap ok x) j, behind)), rw (← x) acked))

  offer_folder-measured :
      (name : Bytes) (folder : Folder) (peer : Peer) (size : ℕ) (initial : Bytes) (s t : Session)
      → offer_folder c env name folder s ≡ (ok (peer, size, initial), t)
      → measure c folder ≡ some (size, initial)
  unfolding offer_folder
  offer_folder-measured name folder peer size initial s t h =
      let (a, s1, e1, f1) = after-eq-ok (send_transit c env s) _ h in
      let (m, e2, f2) = expect-ok (measure c folder) _ s1 t _ f1 in
      let (b, s3, e3, f3) = after-eq-ok (tell c env (new_offer_file name m.0) s1) _ f2 in
      let (p, s4, e4, f4) = after-eq-ok (receive_transit c env s3) _ f3 in
      let (msg, s5, e5, f5) = after-eq-ok (hear c env s4) _ f4 in
      let (d, s6, e6, f6) = after-eq-ok (acknowledged c env msg s5) _ f5 in
      e2 ∙ ap some (given _ peer _ size _ initial s6 t f6)

  -- If `send_folder` ends well, it was given a folder; what the second pass put into the ring buffer
  -- has the checksum of the first pass; as many bytes as the first pass counted were sent, on the
  -- connection to the peer that accepted the offer; and the record received behind them, on that
  -- connection, is an acknowledgement with the checksum of these bytes.
  pub send_folder-Sent :
      (is_dir : Bool) (name : Bytes) (folder : Folder) (s t : Session)
      → send_folder c env is_dir name folder s ≡ (ok tt, t)
      → (is_dir ≡ true) × Sent name folder s
  unfolding send_folder
  send_folder-Sent false name folder s t h = cc
  send_folder-Sent true name folder s t h =
      let (p, s1, e1, f1) = after-eq-ok (offer_folder c env name folder s) _ h in
      let (u, s2, e2, f2) = after-eq-ok (lead c env p.0 s1) _ f1 in
      let (n, same, (behind, sent, acked)) = send_archive-ok p.1 p.2 folder u s2 t f2 in
      let (xs, (w, (ran, wrote, k))) = file_sender-some folder p.2 same in
      (
        refl,
        record {
          size = p.1;
          initial = p.2;
          writes = xs;
          written = w;
          peer = p.0;
          accepted = s1;
          led = s2;
          connection = u;
          behind = behind;
          offered = e1;
          connects = e2;
          measured = offer_folder-measured name folder p.0 p.1 p.2 s s1 e1;
          ran = ran;
          wrote = wrote;
          unchanged = k;
          records_sent = sent;
          length_sent = n;
          acked = acked;
        },
      )
