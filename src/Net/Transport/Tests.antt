-- ===== src/Net/Transport/Tests.antt =====
-- Runs of the transport's theorems, with messages that are bytes.
use ripsync.Prelude.{
  ℕ, ◌≡◌, refl, arith, sym, true, some, List, [], ◌∷◌, ◌++◌, length, take, ok, err,
}
use ripsync.Errors.{bare_io}
use ripsync.Net.Transport.{
  Wire, le_bytes, frame, send_msg, send_msgs, recv_msg, recv_msgs, PipeState, new_pipe, pipe_write,
  pipe_close, pipe_read,
}
use ripsync.Net.Transport.Frames.{ReadsBack, recv_msgs-send_msgs, recv_msg_cut}
use ripsync.Net.Transport.Pipe.{
  Run, start, wrote, closed, took, pipe_read-pipe_write, pipe_read_end,
}

abbrev plain : Wire (List ℕ)
plain = record { serialize = λ msg. some msg; deserialize = λ bytes. some bytes }

plain-ReadsBack : (msg : List ℕ) → ReadsBack plain msg
plain-ReadsBack msg bytes h = sym h

abbrev hello : List ℕ
hello = 1 ∷ 2 ∷ 3 ∷ []

abbrev sent : List ℕ
sent = frame hello ++ frame (9 ∷ [])

all_sent : send_msgs plain [] (hello ∷ (9 ∷ []) ∷ []) ≡ ok sent
unfolding send_msgs send_msg le_bytes
all_sent = refl

recv_msgs-send_msgs_example :
    recv_msgs plain 2 (sent ++ (7 ∷ [])) ≡ ok (hello ∷ (9 ∷ []) ∷ [], 7 ∷ [])
recv_msgs-send_msgs_example =
    recv_msgs-send_msgs plain (hello ∷ (9 ∷ []) ∷ []) sent (7 ∷ [])
      (plain-ReadsBack hello, (plain-ReadsBack (9 ∷ []), tt)) all_sent

length-frame : length (frame hello) ≡ 11
unfolding le_bytes
length-frame = refl

recv_msg_cut_example : recv_msg plain (take 10 (frame hello)) ≡ err bare_io
recv_msg_cut_example = recv_msg_cut plain hello 10 (omega arith) (omega (arith, length-frame))

abbrev empty_read : PipeState
empty_read = record { buf = []; closed = true }

written-Run : Run (pipe_close (pipe_write hello new_pipe)) hello []
written-Run = closed (wrote hello start refl)

all_read : pipe_read 5 (pipe_close (pipe_write hello new_pipe)) ≡ some (hello, empty_read)
unfolding pipe_read pipe_close pipe_write
all_read = refl

ended-Run : Run empty_read hello hello
ended-Run = took 5 written-Run all_read

ended : pipe_read 5 empty_read ≡ some ([], empty_read)
unfolding pipe_read
ended = refl

pipe_read-pipe_write_example : hello ++ [] ≡ hello
pipe_read-pipe_write_example = pipe_read-pipe_write empty_read hello hello ended-Run

pipe_read_end_example : (empty_read.closed ≡ true) × (hello ≡ hello)
pipe_read_end_example = pipe_read_end 4 empty_read empty_read hello hello ended-Run ended
