-- ===== src/Net/Roles.antt =====
-- crates/ripsync-core/src/net/mod.rs: `run_responder` and `run_initiator`, which shake hands and
-- then play the part that the role gives them. A root is an absolute path.
pub mod Transfers
use ripsync.Prelude.{ℕ, Option, none, some, List, ◌++◌, ok, err, ◌>>=◌, []}
use ripsync.Errors.{FilePath, Outcome}
use ripsync.Disk.{AbsPath}
use ripsync.Meta.{names}
use ripsync.Report.{Stats}
use ripsync.Net.Proto.{Role, push, pull, NetOptions, Init, Msg, Conn}
use ripsync.Net.Handshake.{handshake_initiator, handshake_responder}
use ripsync.Net.Sender.{Codecs, Source, run_sender}
use ripsync.Net.Receiver.Run.{Destination, run_receiver}

-- One end: the trees that it could send, by their roots, walked through its filter, and where it
-- receives.
pub record Peer (S : Type 0) : Type 0 where
  pub source_at : AbsPath → Source
  pub destination : Destination S

-- The tally, the state of the end's own tree and what it sent; `none` is a run that does not return.
abbrev pub Played : Type 0 → Type 0
Played S = Option (Outcome (Stats × S × List Msg))

module _ {S : Type 0} (c : Codecs) (peer : Peer S) (s : S) where
  abbrev pub sent_all : List Msg → Option (Outcome (Stats × List Msg)) → Played S
  sent_all before none = none
  sent_all before (some (err e)) = some (err e)
  sent_all before (some (ok (stats, sent))) = some (ok (stats, s, before ++ sent))

  abbrev pub as_sender : NetOptions → AbsPath → Conn → Played S
  as_sender options root conn =
      sent_all conn.output (run_sender c options (peer.source_at root) conn.input)

  abbrev pub received_all : List Msg → Outcome (Stats × S × Conn) → Played S
  received_all before (err e) = some (err e)
  received_all before (ok (stats, after, conn)) = some (ok (stats, after, before ++ conn.output))

  abbrev pub as_receiver : NetOptions → AbsPath → Conn → Played S
  as_receiver options root conn =
      received_all conn.output (
        run_receiver peer.destination c options root s (record { input = conn.input; output = [] }))

  abbrev pub responder_part : Role → Init → Conn → Played S
  responder_part push init conn = as_receiver init.options (names init.root) conn
  responder_part pull init conn = as_sender init.options (names init.root) conn

  abbrev pub responded : Outcome (Init × Conn) → Played S
  responded (err e) = some (err e)
  responded (ok (init, conn)) = responder_part init.role init conn

  unfoldable pub run_responder : List ℕ → Conn → Played S
  unfolding handshake_responder run_sender run_receiver
  run_responder raw conn = responded (handshake_responder c raw conn)

  abbrev pub initiator_part : Role → NetOptions → AbsPath → Conn → Played S
  initiator_part push options local_root conn = as_sender options local_root conn
  initiator_part pull options local_root conn = as_receiver options local_root conn

  abbrev pub initiated : Role → NetOptions → AbsPath → Outcome Conn → Played S
  initiated role options local_root (err e) = some (err e)
  initiated role options local_root (ok conn) = initiator_part role options local_root conn

  unfoldable pub run_initiator : Role → AbsPath → FilePath → NetOptions → Conn → Played S
  unfolding handshake_initiator run_sender run_receiver
  run_initiator role local_root remote_root options conn =
      initiated role options local_root (handshake_initiator c role remote_root options conn)
