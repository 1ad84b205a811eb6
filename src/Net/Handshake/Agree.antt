-- ===== src/Net/Handshake/Agree.antt =====
-- The two halves of the handshake, each with what the other side writes.
use ripsync.Prelude.{ℕ, ◌<◌, ◌≡◌, ap, ◌∙◌, arith, Bool, true, ◌==◌, ◌>>=◌, ◌>>◌, List, [], ◌∷◌, ok}
use ripsync.Prelude.Words.{u32_mod}
use ripsync.Errors.{FilePath, Outcome}
use ripsync.Net.Proto.{proto_version, Role, NetOptions, Msg, Conn, send, receive}
use ripsync.Net.Sender.{Codecs, Sendable, send_ok-Sendable}
use ripsync.Net.Handshake.{
  greeting, greeting_ok, handshake_initiator, handshake_responder, answered, init_of, acked,
}

-- The responder accepts the greeting of its own version and of no other.
pub greeting_ok-greeting :
    (version : ℕ) → version < u32_mod → greeting_ok (greeting version) ≡ (version == proto_version)
unfolding greeting_ok greeting
greeting_ok-greeting version h = ap (λ (k : ℕ). k == proto_version) (omega arith)

abbrev asking : Role → FilePath → NetOptions → Msg
asking role root options = Msg.init (record { role = role; root = root; options = options })

-- The initiator's half, where the responder greets it back and takes the request.
pub handshake_initiator_greeted :
    (c : Codecs) (role : Role) (root : FilePath) (options : NetOptions) (rest : List Msg)
    → Sendable c (Msg.init (record { role = role; root = root; options = options }))
    → handshake_initiator c role root options
        (record { input = Msg.server_hello proto_version true ∷ Msg.init_ack ∷ rest; output = [] })
      ≡ ok (record { input = rest; output = asking role root options ∷ [] })
unfolding handshake_initiator
handshake_initiator_greeted c role root options rest h =
    ap
      (λ (r : Outcome (Unit {0})). r >>= λ _.
        receive
          (send (asking role root options) (record { input = Msg.init_ack ∷ rest; output = [] }))
        >>= λ ack. acked ack.0 >>= λ _. ok ack.1)
      (send_ok-Sendable c (asking role root options) h)

-- The responder's half, where the initiator speaks its version: it has the role, the root and the
-- options that were asked for.
pub handshake_responder_asked :
    (c : Codecs) (role : Role) (root : FilePath) (options : NetOptions) (rest : List Msg)
    → Sendable c (Msg.server_hello proto_version true)
    → Sendable c Msg.init_ack
    → handshake_responder c (greeting proto_version) (record {
      input = Msg.init (record { role = role; root = root; options = options }) ∷ rest;
      output = [];
    })
      ≡ ok (
        record { role = role; root = root; options = options },
        record { input = rest; output = Msg.server_hello proto_version true ∷ Msg.init_ack ∷ [] },
      )
unfolding handshake_responder greeting
handshake_responder_asked c role root options rest hello ack =
    ap (λ (good : Bool). answered c good conn) (greeting_ok-greeting proto_version (omega arith))
    ∙ ap
        (λ (r : Outcome (Unit {0})).
          r
          >> (receive (send (Msg.server_hello proto_version true) conn) >>= λ got.
              init_of c got.0 got.1))
        (send_ok-Sendable c (Msg.server_hello proto_version true) hello)
    ∙ ap
        (λ (r : Outcome (Unit {0})).
          r
          >> ok (
            record { role = role; root = root; options = options },
            record {
              input = rest;
              output = Msg.server_hello proto_version true ∷ Msg.init_ack ∷ [];
            },
          ))
        (send_ok-Sendable c Msg.init_ack ack)
  where
    conn : Conn
    conn = record { input = asking role root options ∷ rest; output = [] }
