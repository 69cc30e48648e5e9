-- ===== src/Core/Connect/Completion.antt =====
-- When the server and the peer do their part, `connect_custom` of src/core.rs comes to its end.
use magic_wormhole_rs.Common.{◌≡◌, refl, List, [], ◌∷◌, ◌++◌, some, none, Bytes, ok}
use magic_wormhole_rs.Core.Names.{AppId, Phase, MySide, Nameplate, Mailbox, pake}
use magic_wormhole_rs.Core.Messages.{
  EncryptedMessage, OutboundMessage, Value, ack, released, add, release,
}
use magic_wormhole_rs.Core.Key.{
  Key, VersionsMessage, new_versions, set_app_versions, make_pake, extract_pake_msg,
  build_version_msg, decrypt, derive_verifier,
}
use magic_wormhole_rs.Core.Rendezvous.Wire.{WsEvent, MessageQueue}
use magic_wormhole_rs.Core.Rendezvous.Server.{RendezvousServer}
use magic_wormhole_rs.Core.Connect.{
  Env, exchange_pake, exchange_versions, connect_custom, send_versions, open_versions, finish,
}
use magic_wormhole_rs.Core.Connect.Schedule.{seat, Replied, Passed, says, hears, releases}

-- What comes in while a client connects, from a queue and the events: an acknowledgement of the PAKE
-- message, the peer's PAKE message, an acknowledgement of the version message, the peer's version
-- message, and an acknowledgement and the answer to the release. Messages of the mailbox may come in
-- between at any place, and the two of the peer before their turn: they wait in the queue, and an
-- echo or a message with a phase that was passed on already is left out.
pub record Schedule (side : MySide) (seen : List Phase) (m v : EncryptedMessage) (q : MessageQueue)
    (events : List WsEvent) : Type 0 where
  pub q1 : MessageQueue
  pub events1 : List WsEvent
  pub pake_acked : Replied ack q events q1 events1
  pub q2 : MessageQueue
  pub events2 : List WsEvent
  pub pake_passed : Passed side seen m q1 events1 q2 events2
  pub q3 : MessageQueue
  pub events3 : List WsEvent
  pub version_acked : Replied ack q2 events2 q3 events3
  pub q4 : MessageQueue
  pub events4 : List WsEvent
  pub version_passed : Passed side (m.phase ∷ seen) v q3 events3 q4 events4
  pub q5 : MessageQueue
  pub events5 : List WsEvent
  pub release_acked : Replied ack q4 events4 q5 events5
  pub q6 : MessageQueue
  pub rest : List WsEvent
  pub release_answered : Replied released q5 events5 q6 rest

module _ (env : Env) (appid : AppId) (password : Bytes) (app : Value) where
  open env use {crypto, phase_json, versions_json, pake_random, version_nonce}

  -- The peer's two messages are well made: a key comes from the PAKE message, our version message can
  -- be built with it, and the peer's version message opens under it.
  pub record Attended (side : MySide) (key : Key) (p : Phase × Bytes) (versions : VersionsMessage)
      (m v : EncryptedMessage) : Type 0 where
    pub peer_pake : Bytes
    pub plaintext : Bytes
    pub extracted : extract_pake_msg phase_json m.body ≡ some peer_pake
    pub finished :
        crypto.spake_finish (make_pake crypto phase_json pake_random password appid).0 peer_pake
        ≡ some key
    pub built :
        build_version_msg crypto versions_json version_nonce side key
          (set_app_versions app new_versions)
        ≡ some p
    pub decrypted : decrypt crypto v key ≡ ok (some plaintext)
    pub parsed : versions_json.from_slice plaintext ≡ some versions

  module _ (side : MySide) (mailbox : Mailbox) (n : Nameplate) (seen : List Phase)
      (said : List OutboundMessage) (q : MessageQueue) (events : List WsEvent) (key : Key)
      (p : Phase × Bytes) (versions : VersionsMessage) (m v : EncryptedMessage)
      (at : Attended side key p versions m v) (sc : Schedule side seen m v q events) where
    open sc use {q1, events1, q2, events2, q3, events3, q4, events4, q5, events5, q6, rest}

    pake_completes :
        exchange_pake env appid password (seat side mailbox (some n) seen q said events) ≡ (
          ok key,
          seat side mailbox
              (some n)
              (m.phase ∷ seen)
              q2
              (said ++ (add pake (make_pake crypto phase_json pake_random password appid).1 ∷ []))
              events2,
        )
    unfolding exchange_pake
    pake_completes =
        let pake_msg : Bytes = (make_pake crypto phase_json pake_random password appid).1 in
        rw
          (
            says side mailbox (some n) seen said q q1 events events1 pake pake_msg sc.pake_acked,
            hears side mailbox (some n) seen (said ++ (add pake pake_msg ∷ [])) m q1 q2 events1
                events2 sc.pake_passed,
            at.extracted,
            at.finished,
          )
          refl

    versions_completes :
        (told : List OutboundMessage)
        → exchange_versions env appid key app
            (seat side mailbox (some n) (m.phase ∷ seen) q2 told events2)
          ≡ finish env appid key versions.app_versions (
              seat side mailbox none
                (v.phase ∷ m.phase ∷ seen)
                q6
                ((told ++ (add p.0 p.1 ∷ [])) ++ (release n ∷ []))
                rest)
    unfolding exchange_versions send_versions open_versions
    versions_completes told =
        rw
          (
            at.built,
            says side mailbox (some n) (m.phase ∷ seen) told q2 q3 events2 events3 p.0 p.1
                sc.version_acked,
            hears side mailbox (some n) (m.phase ∷ seen) (told ++ (add p.0 p.1 ∷ [])) v q3 q4
                events3 events4 sc.version_passed,
            at.decrypted,
            at.parsed,
            releases side mailbox env n (v.phase ∷ m.phase ∷ seen) (told ++ (add p.0 p.1 ∷ [])) q4
                q5 q6 events4 events5 rest sc.release_acked sc.release_answered,
          )
          refl

    -- The server that the client is left with.
    abbrev pub attended : RendezvousServer
    attended =
        seat side mailbox none (v.phase ∷ m.phase ∷ seen) q6
          (((said ++ (add pake (make_pake crypto phase_json pake_random password appid).1 ∷ []))
              ++ (add p.0 p.1 ∷ []))
            ++ (release n ∷ []))
          rest

    -- A client with an open mailbox and its nameplate, whose socket takes what it sends and which
    -- can build its version message, comes to a wormhole if there come, in this order, an
    -- acknowledgement, the peer's PAKE message, from which SPAKE2 gets a key, an acknowledgement,
    -- the peer's version message, which opens under that key, an acknowledgement and the answer to
    -- the release. Echoes of its own messages and repeats may come at any place in between, the
    -- peer's messages also before the acknowledgements, and further ones behind its version
    -- message. The wormhole has that key, its verifier and the peer's version, and the client has
    -- sent its two messages and the release of the nameplate, in that order.
    pub connect_custom-completes :
        connect_custom env appid password app (seat side mailbox (some n) seen q said events) ≡ (
          ok (record {
            server = attended;
            phase = 0;
            key = key;
            appid = appid;
            verifier = derive_verifier crypto key;
            peer_version = versions.app_versions;
          }),
          attended,
        )
    unfolding connect_custom finish
    connect_custom-completes =
        let pake_msg : Bytes = (make_pake crypto phase_json pake_random password appid).1 in
        rw (pake_completes, versions_completes (said ++ (add pake pake_msg ∷ []))) refl
