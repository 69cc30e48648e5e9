-- ===== src/Core/Connect/Steps.antt =====
-- The exchanges of `connect_custom` in src/core.rs, taken apart.
use magic_wormhole_rs.Common.{
  ◌≡◌, refl, List, ◌∷◌, Option, none, some, Bool, true, false, Bytes, Outcome, ok, err, panic,
  pending, Action, after, after-eq-ok, ok_or-ok, ok_or, expect, ap, ◌∙◌, sym, if◌then◌else◌,
}
use magic_wormhole_rs.Core.Names.{AppId, Phase, pake}
use magic_wormhole_rs.Core.Messages.{EncryptedMessage, Value, add}
use magic_wormhole_rs.Core.Key.{
  Key, VersionsMessage, make_pake, extract_pake_msg, derive_verifier, decrypt,
}
use magic_wormhole_rs.Core.Rendezvous.Wire.{RendezvousError}
use magic_wormhole_rs.Core.Rendezvous.Server.{
  RendezvousServer, next_peer_message_some, send_peer_message,
}
use magic_wormhole_rs.Core.Rendezvous.Upcoming.{next_peer_message_some-todo}
use magic_wormhole_rs.Core.Rendezvous.Todo.{todo, send_message-todo}
use magic_wormhole_rs.Core.Rendezvous.Refinement.{release_nameplate-todo}
use magic_wormhole_rs.Core.Rendezvous.Setup.{needs_nameplate_release, release_nameplate}
use magic_wormhole_rs.Core.Wormhole.{Wormhole, WormholeError, from_server}
use magic_wormhole_rs.Core.Connect.{
  Env, on_rendezvous, exchange_pake, exchange_versions, connect_custom, send_versions,
  open_versions, release_if_needed, finish,
}

from_server-ok :
    {A : Type 0} (o : Outcome RendezvousError A) {a : A} → from_server o ≡ ok a → o ≡ ok a
from_server-ok (ok a) h = cc
from_server-ok (err e) h = cc
from_server-ok panic h = cc
from_server-ok pending h = cc

on_rendezvous-ok :
    {A : Type 0} (f : Action RendezvousServer RendezvousError A) (s t : RendezvousServer) (a : A)
    → on_rendezvous f s ≡ (ok a, t)
    → f s ≡ (ok a, t)
unfolding on_rendezvous
on_rendezvous-ok f s t a h = λ j. (from_server-ok (f s).0 (ap (λ r. r.0) h) j, (h j).1)

said-todo :
    (s t : RendezvousServer) (p b : Bytes)
    → on_rendezvous (send_peer_message p b) s ≡ (ok tt, t)
    → todo t ≡ todo s
unfolding on_rendezvous send_peer_message
said-todo s t p b h = sym (ap (λ r. todo r.1) h) ∙ send_message-todo (add p b) s

ok_or-ends :
    {S E A : Type 0} (o : Option A) (e : E) (s t : S) (a : A)
    → ok_or o e s ≡ (ok a, t)
    → (o ≡ some a) × (s ≡ t)
ok_or-ends none e s t a h = cc
ok_or-ends (some b) e s t a h = (cc h, ap (λ r. r.1) h)

-- The first message to pass on after sending one of one's own.
first-todo :
    (p b : Bytes) (s s1 s2 : RendezvousServer) (x : EncryptedMessage)
    → on_rendezvous (send_peer_message p b) s ≡ (ok tt, s1)
    → on_rendezvous next_peer_message_some s1 ≡ (ok x, s2)
    → todo s ≡ x ∷ todo s2
first-todo p b s s1 s2 x e f =
    sym (said-todo s s1 p b e)
    ∙ next_peer_message_some-todo s1 s2 x (on_rendezvous-ok next_peer_message_some s1 s2 x f)

said_version-todo :
    (o : Option (Phase × Bytes)) (s : RendezvousServer)
    → todo (after (expect o s) λ p. on_rendezvous (send_peer_message p.0 p.1)).1 ≡ todo s
unfolding on_rendezvous send_peer_message
said_version-todo none s = refl
said_version-todo (some (p, b)) s = send_message-todo (add p b) s

released-todo :
    (b : Bool) (s : RendezvousServer)
    → todo (if b then on_rendezvous release_nameplate s else (ok tt, s)).1 ≡ todo s
unfolding on_rendezvous
released-todo true s = release_nameplate-todo s
released-todo false s = refl

-- The last step of the handshake, taken apart.
ok-pair :
    {A S : Type 0} {a b : A} {s t : S}
    → Path (Outcome WormholeError A × S) (ok a, s) (ok b, t)
    → (a ≡ b) × (s ≡ t)
ok-pair h = (cc h, ap (λ r. r.1) h)

module _ (env : Env) where
  open env use {crypto, phase_json, versions_json, pake_random}

  -- What an exchange of PAKE messages that ended well did.
  record Exchanged (appid : AppId) (password : Bytes) (s : RendezvousServer) (key : Key)
      (t : RendezvousServer) : Type 0 where
    pub reply : EncryptedMessage
    pub peer_pake : Bytes
    pub first : todo s ≡ reply ∷ todo t
    pub extracted : extract_pake_msg phase_json reply.body ≡ some peer_pake
    pub finished :
        crypto.spake_finish (make_pake crypto phase_json pake_random password appid).0 peer_pake
        ≡ some key

  exchange_pake-Exchanged :
      (appid : AppId) (password : Bytes) (s t : RendezvousServer) (key : Key)
      → exchange_pake env appid password s ≡ (ok key, t)
      → Exchanged appid password s key t
  unfolding exchange_pake
  exchange_pake-Exchanged appid password s t key h =
      let (a, s1, e1, f1) =
        after-eq-ok
          (on_rendezvous
            (send_peer_message pake (make_pake crypto phase_json pake_random password appid).1) s)
          _ h in
      let (reply, s2, e2, f2) = after-eq-ok (on_rendezvous next_peer_message_some s1) _ f1 in
      let (peer_pake, x, f3) = ok_or-ok (extract_pake_msg phase_json reply.body) _ _ s2 t key f2 in
      let (k, same) = ok_or-ends (crypto.spake_finish _ peer_pake) _ s2 t key f3 in
      record {
        reply = reply;
        peer_pake = peer_pake;
        first = first-todo pake _ s s1 s2 reply e1 e2 ∙ ap (λ u. reply ∷ todo u) same;
        extracted = x;
        finished = k;
      }

  -- What an exchange of version messages that ended well did, and the wormhole that it gave.
  record Opened (appid : AppId) (key : Key) (s : RendezvousServer) (w : Wormhole)
      (t : RendezvousServer) : Type 0 where
    pub reply : EncryptedMessage
    pub plaintext : Bytes
    pub versions : VersionsMessage
    pub first : todo s ≡ reply ∷ todo t
    pub decrypted : decrypt crypto reply key ≡ ok (some plaintext)
    pub parsed : versions_json.from_slice plaintext ≡ some versions
    pub wormhole : w ≡ record {
      server = t;
      phase = 0;
      key = key;
      appid = appid;
      verifier = derive_verifier crypto key;
      peer_version = versions.app_versions;
    }

  open_versions-ok :
      (o : Outcome ⊥ (Option Bytes)) (s t : RendezvousServer) (v : VersionsMessage)
      → open_versions env o s ≡ (ok v, t)
      → (p : Bytes) × (o ≡ ok (some p)) × (versions_json.from_slice p ≡ some v) × (s ≡ t)
  unfolding open_versions
  open_versions-ok (ok none) s t v h = cc
  open_versions-ok (ok (some p)) s t v h =
      let (parsed, same) = ok_or-ends (versions_json.from_slice p) _ s t v h in
      (p, refl, parsed, same)
  open_versions-ok (err e) s t v h = absurd e
  open_versions-ok panic s t v h = cc
  open_versions-ok pending s t v h = cc

  release_if_needed-todo : (s : RendezvousServer) → todo (release_if_needed env s).1 ≡ todo s
  unfolding release_if_needed on_rendezvous
  release_if_needed-todo s = released-todo (needs_nameplate_release s) s

  send_versions-todo :
      (key : Key) (app : Value) (s t : RendezvousServer)
      → send_versions env key app s ≡ (ok tt, t)
      → todo s ≡ todo t
  unfolding send_versions
  send_versions-todo key app s t h = sym (said_version-todo _ s) ∙ ap (λ r. todo r.1) h

  released-end :
      (appid : AppId) (key : Key) (app : Value) (s t u : RendezvousServer) (w : Wormhole)
      → release_if_needed env s ≡ (ok tt, t)
      → finish env appid key app t ≡ (ok w, u)
      → todo s ≡ todo u
  unfolding finish
  released-end appid key app s t u w h e =
      sym (release_if_needed-todo s) ∙ ap (λ r. todo r.1) h ∙ ap todo (ok-pair e).1

  finish-made :
      (appid : AppId) (key : Key) (app : Value) (s t : RendezvousServer) (w : Wormhole)
      → finish env appid key app s ≡ (ok w, t)
      → w ≡ record {
        server = t;
        phase = 0;
        key = key;
        appid = appid;
        verifier = derive_verifier crypto key;
        peer_version = app;
      }
  unfolding finish
  finish-made appid key app s t w h =
      let (made, end) = ok-pair h in
      sym made ∙ λ j. record {
        server = end j;
        phase = 0;
        key = key;
        appid = appid;
        verifier = derive_verifier crypto key;
        peer_version = app;
      }

  exchange_versions-Opened :
      (appid : AppId) (key : Key) (app : Value) (s t : RendezvousServer) (w : Wormhole)
      → exchange_versions env appid key app s ≡ (ok w, t)
      → Opened appid key s w t
  unfolding exchange_versions
  exchange_versions-Opened appid key app s t w h =
      let (a, s1, e1, f1) = after-eq-ok (send_versions env key app s) _ h in
      let (reply, s2, e2, f2) = after-eq-ok (on_rendezvous next_peer_message_some s1) _ f1 in
      let (versions, s3, e3, f3) =
        after-eq-ok (open_versions env (decrypt crypto reply key) s2) _ f2 in
      let (b, s4, e4, f4) = after-eq-ok (release_if_needed env s3) _ f3 in
      let (plaintext, d, p, same) = open_versions-ok (decrypt crypto reply key) s2 s3 versions e3 in
      let heard : todo s1 ≡ reply ∷ todo s2 =
        next_peer_message_some-todo s1 s2 reply
          (on_rendezvous-ok next_peer_message_some s1 s2 reply e2) in
      record {
        reply = reply;
        plaintext = plaintext;
        versions = versions;
        first =
            send_versions-todo key app s s1 e1
            ∙ heard
            ∙ ap (λ u. reply ∷ todo u) same
            ∙ ap (◌∷◌ reply) (released-end appid key versions.app_versions s3 s4 t w e4 f4);
        decrypted = d;
        parsed = p;
        wormhole = finish-made appid key versions.app_versions s4 t w f4;
      }

  -- What `connect_custom` did when it ended well.
  pub record Connected (appid : AppId) (password : Bytes) (s : RendezvousServer) (w : Wormhole)
      : Type 0 where
    pub reply : EncryptedMessage
    pub rest : List EncryptedMessage
    pub peer_pake : Bytes
    pub first : todo s ≡ reply ∷ rest
    pub extracted : extract_pake_msg phase_json reply.body ≡ some peer_pake
    pub finished :
        crypto.spake_finish (make_pake crypto phase_json pake_random password appid).0 peer_pake
        ≡ some w.key
    pub verified : w.verifier ≡ derive_verifier crypto w.key
    pub second_reply : EncryptedMessage
    pub later : List EncryptedMessage
    pub plaintext : Bytes
    pub versions : VersionsMessage
    pub second : rest ≡ second_reply ∷ later
    pub decrypted : decrypt crypto second_reply w.key ≡ ok (some plaintext)
    pub parsed : versions_json.from_slice plaintext ≡ some versions
    pub told : w.peer_version ≡ versions.app_versions

  pub connect_custom-Connected :
      (appid : AppId) (password : Bytes) (app : Value) (s t : RendezvousServer) (w : Wormhole)
      → connect_custom env appid password app s ≡ (ok w, t)
      → Connected appid password s w
  unfolding connect_custom
  connect_custom-Connected appid password app s t w h =
      let (key, s1, e1, f1) = after-eq-ok (exchange_pake env appid password s) _ h in
      let x : Exchanged appid password s key s1 =
        exchange_pake-Exchanged appid password s s1 key e1 in
      let o : Opened appid key s1 w t = exchange_versions-Opened appid key app s1 t w f1 in
      let keyed : key ≡ w.key = sym (ap (λ v. v.key) o.wormhole) in
      record {
        reply = x.reply;
        rest = todo s1;
        peer_pake = x.peer_pake;
        first = x.first;
        extracted = x.extracted;
        finished = x.finished ∙ ap some keyed;
        verified = ap (λ v. v.verifier) o.wormhole ∙ ap (derive_verifier crypto) keyed;
        second_reply = o.reply;
        later = todo t;
        plaintext = o.plaintext;
        versions = o.versions;
        second = o.first;
        decrypted = ap (decrypt crypto o.reply) (sym keyed) ∙ o.decrypted;
        parsed = o.parsed;
        told = ap (λ v. v.peer_version) o.wormhole;
      }
