-- ===== src/Core/Rendezvous/Machine.antt =====
-- `MailboxMachine` of src/core/rendezvous.rs: which of the messages in the mailbox are passed on.
use magic_wormhole_rs.Common.{
  List, ◌∷◌, Option, Bool, true, false, bytes_eq, contains, if◌then◌else◌, not,
}
use magic_wormhole_rs.Core.Names.{Nameplate, Mailbox, Phase, MySide}
use magic_wormhole_rs.Core.Messages.{EncryptedMessage}
use magic_wormhole_rs.Core.Rendezvous.Wire.{MessageQueue}

-- `processed` is a hash set; the list holds its elements.
pub record MailboxMachine : Type 0 where
  pub nameplate : Option Nameplate
  pub mailbox : Mailbox
  pub queue : MessageQueue
  pub processed : List Phase

-- `MailboxMachine::receive_message`: whether the message is new and from the other side.
unfoldable pub receive_message : MailboxMachine → EncryptedMessage → MySide → Bool × MailboxMachine
receive_message m x side =
    if not (bytes_eq x.side side)
    then (if not (contains x.phase m.processed)
        then (true, record m { processed = x.phase ∷ m.processed })
        else (false, m))
    else (false, m)
