-- ===== src/Transfer/Session/PeerText.antt =====
-- The messages of the transfer as text, from what serde derives for them.
use magic_wormhole_rs.Common.{
  ℕ, suc, ◌^◌, ◌≡◌, refl, List, [], ◌∷◌, Option, none, some, Bool, true, false, Bytes, All, lt→ltb,
  Option-cases, inl, inr, arith,
}
use magic_wormhole_rs.Core.Json.{Json, ◌>>=◌, fits, fits_elements, fits_entries, write_elements}
use magic_wormhole_rs.Core.Json.Text.{JsonText, IsFaithful}
use magic_wormhole_rs.Transit.Hints.{Ability, DirectHint, other}
use magic_wormhole_rs.Transit.Hints
use magic_wormhole_rs.Transfer.Messages.{
  Hint, direct_tcp_v1, direct_udt_v1, relay_v1, TransitType, OfferType, message, file, directory,
  unknown, AnswerType, message_ack, file_ack, PeerMessage, offer, answer, error, transit,
  other_message,
}
use magic_wormhole_rs.Transfer.Messages.Encoding.{
  path_to_json, ability_to_json, direct_hint_entries, direct_hint_to_json, relay_hint_entries,
  hint_to_json, transit_to_json, offer_to_json, answer_to_json, peer_to_json,
}
use magic_wormhole_rs.Transfer.Messages.Decoding.{peer_from_json}
use magic_wormhole_rs.Transfer.Messages.RoundTrip.{
  IsPort, IsHint, IsOffer, IsPrintable, peer_from_json-peer_to_json,
}
use magic_wormhole_rs.Transfer.Session.{PeerCodec}

-- `PeerMessage::serialize_vec`, and `serde_json::from_slice` for a `PeerMessage`.
unfoldable pub peer_codec : JsonText → PeerCodec
unfolding peer_to_json peer_from_json
peer_codec text = record {
  to_vec = λ m. peer_to_json m >>= λ v. some (text.print v);
  from_slice = λ b. text.parse b >>= peer_from_json;
}

-- Elements that fit one by one.
elements-fit {ℓ} :
    {A : Type ℓ} (depth : ℕ) (write : A → Json) (xs : List A)
    → All (λ a. fits depth (write a) ≡ true) xs
    → fits_elements depth (write_elements write xs) ≡ true
unfolding fits_elements
elements-fit depth write [] h = refl
elements-fit depth write (a ∷ xs) h = rw (h.0, elements-fit depth write xs h.1) refl

direct_hints-fit :
    (depth : ℕ) (hs : List DirectHint)
    → All IsPort hs
    → All (λ h. fits (suc depth) (direct_hint_to_json h) ≡ true) hs
unfolding fits fits_entries direct_hint_to_json direct_hint_entries
direct_hints-fit depth [] p = tt
direct_hints-fit depth (h ∷ hs) p =
    (rw (lt→ltb h.port (2 ^ 64) (omega (arith, p.0))) refl, direct_hints-fit depth hs p.1)

hint-fits : (depth : ℕ) (h : Hint) → IsHint h → fits (suc (suc (suc depth))) (hint_to_json h) ≡ true
unfolding fits fits_entries hint_to_json direct_hint_entries relay_hint_entries
hint-fits depth (direct_tcp_v1 h) p = rw (lt→ltb h.port (2 ^ 64) (omega (arith, p))) refl
hint-fits depth (direct_udt_v1 h) p = rw (lt→ltb h.port (2 ^ 64) (omega (arith, p))) refl
hint-fits depth (relay_v1 r) p =
    rw (elements-fit (suc depth) direct_hint_to_json r.hints (direct_hints-fit depth r.hints p))
      refl

hints-fit :
    (depth : ℕ) (hs : List Hint)
    → All IsHint hs
    → All (λ h. fits (suc (suc (suc depth))) (hint_to_json h) ≡ true) hs
hints-fit depth [] p = tt
hints-fit depth (h ∷ hs) p = (hint-fits depth h p.0, hints-fit depth hs p.1)

abilities-fit :
    (depth : ℕ) (xs : List Ability) → All (λ a. fits (suc depth) (ability_to_json a) ≡ true) xs
unfolding fits fits_entries ability_to_json
abilities-fit depth [] = tt
abilities-fit depth (Hints.direct_tcp_v1 ∷ xs) = (refl, abilities-fit depth xs)
abilities-fit depth (Hints.direct_udt_v1 ∷ xs) = (refl, abilities-fit depth xs)
abilities-fit depth (Hints.relay_v1 ∷ xs) = (refl, abilities-fit depth xs)
abilities-fit depth (other ∷ xs) = (refl, abilities-fit depth xs)

transit-fits : (t : TransitType) → All IsHint t.hints_v1 → fits 126 (transit_to_json t) ≡ true
unfolding fits fits_entries transit_to_json
transit-fits t p =
    rw
      (
        elements-fit 124 ability_to_json t.abilities_v1 (abilities-fit 123 t.abilities_v1),
        elements-fit 124 hint_to_json t.hints_v1 (hints-fit 121 t.hints_v1 p),
      )
      refl

-- A value that is there, and fits.
abbrev some_fits : ℕ → Option Json → Bool
some_fits depth none = false
some_fits depth (some v) = fits depth v

offer-fits : (o : OfferType) → IsOffer o → some_fits 126 (offer_to_json o) ≡ true
unfolding fits fits_entries offer_to_json path_to_json
offer-fits (message s) p = refl
offer-fits (file name size) p = rw (p.0, lt→ltb size (2 ^ 64) p.1) refl
offer-fits (directory name mode zipsize numbytes numfiles) p =
    rw
      (p.0, lt→ltb zipsize (2 ^ 64) p.1, lt→ltb numbytes (2 ^ 64) p.2, lt→ltb numfiles (2 ^ 64) p.3)
      refl
offer-fits unknown p = refl

answer-fits : (a : AnswerType) → fits 126 (answer_to_json a) ≡ true
unfolding fits fits_entries answer_to_json
answer-fits (message_ack s) = refl
answer-fits (file_ack s) = refl

-- A printable message is written, as a value that serde_json reads back from its text.
peer-fits : (m : PeerMessage) → IsPrintable m → some_fits 127 (peer_to_json m) ≡ true
unfolding fits fits_entries peer_to_json
peer-fits (offer o) p = elim (Option-cases (offer_to_json o)) [
  | inl unwritten ↦ let bad : false ≡ true = rw unwritten at (offer-fits o p) in cc
  | inr (v, written) ↦
      let inside : fits 126 v ≡ true = rw written at (offer-fits o p) in rw (written, inside) refl
]
peer-fits (answer a) p = rw (answer-fits a) refl
peer-fits (error s) p = refl
peer-fits (transit t) p = rw (transit-fits t p) refl
peer-fits other_message p = refl

-- If serde_json reads back what it writes within its limits, then every message for the peer whose
-- numbers are in range and whose path is UTF-8 has a text, and is read back from it.
pub peer_codec-back :
    (text : JsonText) (m : PeerMessage)
    → IsFaithful text
    → IsPrintable m
    → (b : Bytes) × ((peer_codec text).to_vec m ≡ some b)
      × ((peer_codec text).from_slice b ≡ some m)
unfolding peer_codec IsFaithful
peer_codec-back text m faithful p = elim (Option-cases (peer_to_json m)) [
  | inl unwritten ↦ let bad : false ≡ true = rw unwritten at (peer-fits m p) in cc
  | inr (v, written) ↦
      let f : fits 127 v ≡ true = rw written at (peer-fits m p) in
      let back : peer_from_json v ≡ some m = rw written at (peer_from_json-peer_to_json m p) in
      (text.print v, rw written refl, rw (faithful v f) back)
]
