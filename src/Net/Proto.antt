-- ===== src/Net/Proto.antt =====
-- crates/ripsync-core/src/net/proto.rs: the messages.
use ripsync.Prelude.{ℕ, Bool, List, [], ◌∷◌, err, ok, ◌++◌}
use ripsync.Prelude.Int.{ℤ}
use ripsync.Errors.{FilePath, Outcome, bare_io}
use ripsync.Delta.{Signature}
use ripsync.Report.{Stats}

-- `MAGIC`
abbrev pub magic : List ℕ
magic = b'r' ∷ b'i' ∷ b'p' ∷ b's' ∷ b'y' ∷ b'n' ∷ b'c' ∷ []

-- `PROTO_VERSION`
abbrev pub proto_version : ℕ
proto_version = 1

pub data Role : Type 0 where
  push pull : Role

pub record NetOptions : Type 0 where
  pub delete : Bool
  pub checksum : Bool
  pub preserve_mode : Bool
  pub preserve_mtime : Bool
  pub whole_file : Bool
  pub compress : Bool
  pub compress_level : ℤ

pub record Init : Type 0 where
  pub role : Role
  pub root : FilePath
  pub options : NetOptions

-- A link's target is its path.
pub data NetKind : Type 0 where
  dir file : NetKind
  symlink : FilePath → NetKind

pub record NetEntry : Type 0 where
  pub rel : FilePath
  pub kind : NetKind
  pub len : ℕ
  pub mtime_s : ℤ
  pub mtime_ns : ℕ
  pub mode : ℕ

pub data Request : Type 0 where
  whole : FilePath → Request
  delta : FilePath → Signature → Request

pub data Data : Type 0 where
  whole : List ℕ → Bool → Data
  delta : ripsync.Delta.Delta → Data
  not_found : Data

pub data Msg : Type 0 where
  server_hello : ℕ → Bool → Msg
  init : Init → Msg
  init_ack : Msg
  entry : NetEntry → Msg
  list_done : Msg
  request : Request → Msg
  data_of : Data → Msg
  finished : Stats → Msg
  error : Msg

-- A side of a connection: the messages still to come, and those that it sent.
pub record Conn : Type 0 where
  pub input : List Msg
  pub output : List Msg

abbrev pub send : Msg → Conn → Conn
send msg conn = record conn { output = conn.output ++ (msg ∷ []) }

-- `recv_msg`; a connection that ended is an error of the stream.
abbrev pub receive_from : List Msg → List Msg → Outcome (Msg × Conn)
receive_from [] output = err bare_io
receive_from (msg ∷ input) output = ok (msg, record { input = input; output = output })

abbrev pub receive : Conn → Outcome (Msg × Conn)
receive conn = receive_from conn.input conn.output
