-- ===== src/Net/Handshake.antt =====
-- crates/ripsync-core/src/net/mod.rs: the handshake and the roles. The eleven bytes of the
-- initiator's greeting stand apart from the messages, which follow them on the stream.
pub mod Agree
use ripsync.Prelude.{
  ℕ, ◌+◌, ◌*◌, ◌/◌, ◌%◌, ◌==◌, Bool, true, false, not, ◌&&◌, ◌||◌, List, [], ◌∷◌, ◌++◌, length,
  take, drop, leb, if◌then◌else◌, list_eq, ok, err, ◌>>=◌, ◌>>◌, Option, none, some,
}
use ripsync.Errors.{FilePath, Outcome, protocol, bare_io}
use ripsync.Net.Sender.{Codecs, send_ok}
use ripsync.Net.Proto.{
  magic, proto_version, Role, push, pull, NetOptions, Init, Msg, Conn, send, receive,
}

-- `u32::to_be_bytes` and `u32::from_be_bytes`.
unfoldable pub to_be_bytes : ℕ → List ℕ
to_be_bytes n = (n / 16777216 % 256) ∷ (n / 65536 % 256) ∷ (n / 256 % 256) ∷ n % 256 ∷ []

unfoldable pub of_be_bytes : ℕ → List ℕ → ℕ
of_be_bytes n [] = n
of_be_bytes n (b ∷ bytes) = of_be_bytes (n * 256 + b) bytes

-- What an initiator that speaks `version` writes first.
unfoldable pub greeting : ℕ → List ℕ
unfolding to_be_bytes
greeting version = magic ++ to_be_bytes version

abbrev pub hello_ok : Msg → Outcome (Unit {0})
hello_ok (Msg.server_hello version good) =
    if not good || not (version == proto_version) then err protocol else ok tt
hello_ok _ = err protocol

abbrev pub acked : Msg → Outcome (Unit {0})
acked Msg.init_ack = ok tt
acked _ = err protocol

-- `handshake_initiator`, behind its greeting.
unfoldable pub handshake_initiator : Codecs → Role → FilePath → NetOptions → Conn → Outcome Conn
unfolding send_ok
handshake_initiator c role root options conn =
    let asking = Msg.init (record { role = role; root = root; options = options }) in
    receive conn >>= λ hello. hello_ok hello.0 >>= λ _.
    send_ok c asking >>= λ _. receive (send asking hello.1) >>= λ ack. acked ack.0 >>= λ _. ok ack.1

abbrev pub init_of : Codecs → Msg → Conn → Outcome (Init × Conn)
init_of c (Msg.init asked) conn = send_ok c Msg.init_ack >> ok (asked, send Msg.init_ack conn)
init_of c _ conn = err protocol

-- Whether the eleven bytes are a greeting that the responder accepts.
unfoldable pub greeting_ok : List ℕ → Bool
unfolding of_be_bytes list_eq
greeting_ok buf = list_eq (take 7 buf) magic && of_be_bytes 0 (drop 7 buf) == proto_version

abbrev pub answered : Codecs → Bool → Conn → Outcome (Init × Conn)
answered c good conn =
    send_ok c (Msg.server_hello proto_version good)
    >> (if good
        then (receive (send (Msg.server_hello proto_version true) conn) >>= λ got.
            init_of c got.0 got.1)
        else err protocol)

-- `handshake_responder`; a refused greeting is answered all the same.
unfoldable pub handshake_responder : Codecs → List ℕ → Conn → Outcome (Init × Conn)
unfolding greeting_ok send_ok
handshake_responder c raw conn =
    if leb 11 (length raw) then answered c (greeting_ok (take 11 raw)) conn else err bare_io

-- Who sends and who receives: `run_responder` and `run_initiator`.
abbrev pub responder_sends : Role → Bool
responder_sends push = false
responder_sends pull = true

abbrev pub initiator_sends : Role → Bool
initiator_sends push = true
initiator_sends pull = false
