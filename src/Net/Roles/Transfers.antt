-- ===== src/Net/Roles/Transfers.antt =====
-- net/mod.rs: a push and a pull, from the greeting to the tally.
use ripsync.Prelude.{ℕ, ◌≡◌, ap, ◌∙◌, some, List, [], ◌∷◌, ok, true}
use ripsync.Errors.{FilePath}
use ripsync.Entries.{Entry}
use ripsync.Disk.{AbsPath}
use ripsync.Meta.{names, canonical_root}
use ripsync.Report.{Stats}
use ripsync.Net.Proto.{proto_version, Role, push, pull, NetOptions, Msg}
use ripsync.Net.Handshake.{greeting}
use ripsync.Net.Handshake.Agree.{handshake_initiator_greeted, handshake_responder_asked}
use ripsync.Net.Sender.{Codecs, Source, Sendable}
use ripsync.Net.Session.Whole.{Carried, run_receiver-run_sender}
use ripsync.Net.Roles.{
  Peer, sent_all, received_all, initiated, responded, run_responder, run_initiator,
}

-- The roots of the tree that is sent and of the one that receives, by role: the initiator's own and
-- the one that it asks for.
abbrev pub sending_root : Role → AbsPath → FilePath → AbsPath
sending_root push local_root remote_root = local_root
sending_root pull local_root remote_root = names remote_root

abbrev pub receiving_root : Role → AbsPath → FilePath → AbsPath
receiving_root push local_root remote_root = names remote_root
receiving_root pull local_root remote_root = local_root

-- Both ends of a run, with one tally, where each takes in exactly what the other gives out.
pub record Transferred {S : Type 0} (c : Codecs) (sender receiver : Peer S) (role : Role)
    (options : NetOptions) (local_root : AbsPath) (remote_root : FilePath) (s t : S) : Type 0 where
  pub stats : Stats
  pub after : S
  pub to_responder : List Msg
  pub to_initiator : List Msg
  pub initiator :
      run_initiator c
        (elim role [ push ↦ sender | pull ↦ receiver ])
        (elim role [ push ↦ s | pull ↦ t ])
        role
        local_root
        remote_root
        options
        (record { input = to_initiator; output = [] })
      ≡ some (ok (stats, elim role [ push ↦ s | pull ↦ after ], to_responder))
  pub responder :
      run_responder c
        (elim role [ push ↦ receiver | pull ↦ sender ])
        (elim role [ push ↦ t | pull ↦ s ])
        (greeting proto_version)
        (record { input = to_responder; output = [] })
      ≡ some (ok (stats, elim role [ push ↦ after | pull ↦ s ], to_initiator))

module _ {S : Type 0} (c : Codecs) (options : NetOptions) (sender receiver : Peer S)
    (local_root : AbsPath) (remote_root : FilePath) where
  -- The messages of a handshake can be sent.
  pub record Greeted (role : Role) : Type 0 where
    pub hello : Sendable c (Msg.server_hello proto_version true)
    pub ack : Sendable c Msg.init_ack
    pub init : Sendable c (Msg.init (record { role = role; root = remote_root; options = options }))

  abbrev pub sending : Role → Source
  sending role = sender.source_at (sending_root role local_root remote_root)

  -- A push and a pull alike: the initiator and the responder shake hands, play their parts and come
  -- to the end with one tally, and each takes in exactly the messages that the other gives out; for
  -- every file system of the receiving end, where both walks succeed, the receiver's root can be
  -- made, nobody cancels, and `bincode` writes within the bound of a frame the handshake, the list of
  -- files, each request that the receiver can make for them, the answers and the tally.
  pub run_responder-run_initiator :
      (role : Role) (s t made : S) (canon : AbsPath) (entries existing : List Entry)
      (alive : (n : ℕ) → (sending role).checkpoint n ≡ ok tt)
      (awake : (n : ℕ) → receiver.destination.checkpoint n ≡ ok tt)
      → (sending role).walk ≡ ok entries
      → canonical_root receiver.destination.disk t (receiving_root role local_root remote_root)
        ≡ ok (canon, made)
      → receiver.destination.walk made ≡ ok existing
      → Greeted role
      → Carried c options (sending role) alive receiver.destination awake entries
      → Transferred c sender receiver role options local_root remote_root s t
  unfolding run_initiator run_responder
  run_responder-run_initiator push s t made canon entries existing alive awake walked root_made
        found greeted carried =
      let (stats, after, requests, sent, serves, receives) =
        run_receiver-run_sender c options (sending push) alive receiver.destination awake
          (names remote_root) canon t made entries existing walked root_made found carried in
      record {
        stats = stats;
        after = after;
        to_responder =
            Msg.init (record { role = push; root = remote_root; options = options }) ∷ sent;
        to_initiator = Msg.server_hello proto_version true ∷ Msg.init_ack ∷ requests;
        initiator =
            ap (initiated c sender s push options local_root)
              (handshake_initiator_greeted c push remote_root options requests greeted.init)
            ∙ ap
                (sent_all c sender s
                  (Msg.init (record { role = push; root = remote_root; options = options }) ∷ []))
                serves;
        responder =
            ap (responded c receiver t)
              (handshake_responder_asked c push remote_root options sent greeted.hello greeted.ack)
            ∙ ap
                (received_all c receiver t
                  (Msg.server_hello proto_version true ∷ Msg.init_ack ∷ []))
                receives;
      }
  run_responder-run_initiator pull s t made canon entries existing alive awake walked root_made
        found greeted carried =
      let (stats, after, requests, sent, serves, receives) =
        run_receiver-run_sender c options (sending pull) alive receiver.destination awake local_root
          canon t made entries existing walked root_made found carried in
      record {
        stats = stats;
        after = after;
        to_responder =
            Msg.init (record { role = pull; root = remote_root; options = options }) ∷ requests;
        to_initiator = Msg.server_hello proto_version true ∷ Msg.init_ack ∷ sent;
        initiator =
            ap (initiated c receiver t pull options local_root)
              (handshake_initiator_greeted c pull remote_root options sent greeted.init)
            ∙ ap
                (received_all c receiver t
                  (Msg.init (record { role = pull; root = remote_root; options = options }) ∷ []))
                receives;
        responder =
            ap (responded c sender s) (
              handshake_responder_asked c pull remote_root options requests greeted.hello
                greeted.ack)
            ∙ ap (sent_all c sender s (Msg.server_hello proto_version true ∷ Msg.init_ack ∷ []))
                serves;
      }
