-- ===== src/Net/Transport.antt =====
-- crates/ripsync-core/src/net/transport.rs: framed messages and the in-process pipe.
-- A stream is the bytes that are still to come, and it ends behind them; a writer does not fail.
-- What a message is and how `bincode` writes it are parameters.
pub mod Frames
pub mod Pipe
mod Tests
use ripsync.Prelude.{
  ℕ, zero, suc, ◌+◌, ◌*◌, ◌/◌, ◌%◌, ◌≡◌, Bool, true, false, Option, none, some, List, [], ◌∷◌, ◌++◌,
  length, take, drop, min, leb, ltb, is_empty, if◌then◌else◌, ok, err, ◌>>=◌,
}
use ripsync.Errors.{Outcome, bare_io, protocol}

-- `MAX_FRAME`
abbrev pub max_frame : ℕ
max_frame = 256 * 1024 * 1024

-- `to_le_bytes` and `from_le_bytes` of a number of so many bytes.
unfoldable pub le_bytes : ℕ → ℕ → List ℕ
le_bytes zero n = []
le_bytes (suc width) n = n % 256 ∷ le_bytes width (n / 256)

unfoldable pub of_le_bytes : List ℕ → ℕ
of_le_bytes [] = 0
of_le_bytes (b ∷ bytes) = b + 256 * of_le_bytes bytes

-- `read_exact`: the bytes and the rest of the stream.
unfoldable pub receive_exact : ℕ → List ℕ → Outcome (List ℕ × List ℕ)
receive_exact n stream =
    if leb n (length stream) then ok (take n stream, drop n stream) else err bare_io

-- `bincode` on messages.
pub record Wire (Msg : Type 0) : Type 0 where
  pub serialize : Msg → Option (List ℕ)
  pub deserialize : List ℕ → Option Msg

abbrev pub frame : List ℕ → List ℕ
frame bytes = le_bytes 8 (length bytes) ++ bytes

module _ {Msg : Type 0} (wire : Wire Msg) where
  unfoldable pub send_msg : List ℕ → Msg → Outcome (List ℕ)
  unfolding le_bytes
  send_msg stream msg = elim (wire.serialize msg) [
    | none ↦ err protocol
    | some bytes ↦ if ltb max_frame (length bytes) then err protocol else ok (stream ++ frame bytes)
  ]

  abbrev pub decoded : List ℕ → Option Msg → Outcome (Msg × List ℕ)
  decoded rest none = err protocol
  decoded rest (some msg) = ok (msg, rest)

  -- Behind the length; a `usize` has 64 bits.
  unfoldable pub receive_body : ℕ → List ℕ → Outcome (Msg × List ℕ)
  unfolding receive_exact
  receive_body len stream =
      if ltb max_frame len
      then err protocol
      else receive_exact len stream >>= λ body. decoded body.1 (wire.deserialize body.0)

  unfoldable pub recv_msg : List ℕ → Outcome (Msg × List ℕ)
  unfolding receive_body of_le_bytes
  recv_msg stream = receive_exact 8 stream >>= λ head. receive_body (of_le_bytes head.0) head.1

  -- The calls that send several messages, and as many calls that receive.
  unfoldable pub send_msgs : List ℕ → List Msg → Outcome (List ℕ)
  unfolding send_msg
  send_msgs stream [] = ok stream
  send_msgs stream (msg ∷ msgs) = send_msg stream msg >>= λ sent. send_msgs sent msgs

  unfoldable pub recv_msgs : ℕ → List ℕ → Outcome (List Msg × List ℕ)
  unfolding recv_msg
  recv_msgs zero stream = ok ([], stream)
  recv_msgs (suc n) stream = recv_msg stream >>= λ first.
      recv_msgs n first.1 >>= λ others. ok (first.0 ∷ others.0, others.1)

pub record PipeState : Type 0 where
  pub buf : List ℕ
  pub closed : Bool

-- `new_pipe`
abbrev pub new_pipe : PipeState
new_pipe = record { buf = []; closed = false }

-- `PipeWriter::write`
unfoldable pub pipe_write : List ℕ → PipeState → PipeState
pipe_write bytes state = record state { buf = state.buf ++ bytes }

-- The writer's `drop`.
unfoldable pub pipe_close : PipeState → PipeState
pipe_close state = record state { closed = true }

-- `PipeReader::read` into a buffer of `n` bytes; `none` is the wait for a writer.
unfoldable pub pipe_read : ℕ → PipeState → Option (List ℕ × PipeState)
pipe_read zero state = some ([], state)
pipe_read (suc n) state =
    if is_empty state.buf
    then (if state.closed then some ([], state) else none)
    else some (
      take (min (length state.buf) (suc n)) state.buf,
      record state { buf = drop (min (length state.buf) (suc n)) state.buf },
    )
