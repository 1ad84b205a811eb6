-- ===== src/Net/Sender.antt =====
-- crates/ripsync-core/src/net/sender.rs: the side that holds the source. The walk and the files of
-- the source tree, the checkpoints and zstd are inputs.
use ripsync.Prelude.{
  ℕ, ◌+◌, ◌≤◌, ◌≡◌, arith, length, ltb, true, false, Option, none, some, List, [], ◌∷◌, ◌++◌,
  if◌then◌else◌, ok, err, ◌>>=◌, ◌>>◌,
}
use ripsync.Prelude.Int.{ℤ}
use ripsync.Errors.{FilePath, Outcome, protocol, bare_io}
use ripsync.Entries.{EntryKind, Entry}
use ripsync.Meta.{path_of}
use ripsync.Delta.{Signature, encode_with_signature}
use ripsync.Report.{Stats}
use ripsync.Net.Transport.{max_frame, Wire, send_msg}
use ripsync.Net.Proto.{NetOptions, NetKind, NetEntry, Request, Data, Msg}

-- BLAKE3, the square root of `block_size_for`, zstd, and `bincode` on messages.
pub record Codecs : Type 0 where
  pub blake3_hash : List ℕ → List ℕ
  pub sqrt_round : ℕ → ℕ
  pub zstd_encode : ℤ → List ℕ → Option (List ℕ)
  pub zstd_decode : List ℕ → Option (List ℕ)
  pub wire : Wire Msg

-- `send_msg`, as far as it fails: a message that `bincode` does not write, or a frame above the
-- bound. What was sent is kept apart, as messages.
unfoldable pub send_ok : Codecs → Msg → Outcome (Unit {0})
unfolding send_msg
send_ok c msg = send_msg c.wire [] msg >>= λ _. ok tt

-- `bincode` writes the message, and it fits a frame.
abbrev pub Sendable : Codecs → Msg → Type 0
Sendable c msg = (bytes : List ℕ) × (c.wire.serialize msg ≡ some bytes) × (length bytes ≤ max_frame)

pub send_ok-Sendable : (c : Codecs) (msg : Msg) → Sendable c msg → send_ok c msg ≡ ok tt
unfolding send_ok send_msg
send_ok-Sendable c msg (bytes, e, small) =
    let room : ltb max_frame (length bytes) ≡ false = ground arith in rw (e, send_msg) (rw room)

-- The source tree and the control of a sender. A link's target is read as a path by `path_of_text`.
pub record Source : Type 0 where
  pub walk : Outcome (List Entry)
  pub read : FilePath → Option (List ℕ)
  pub path_of_text : List ℕ → FilePath
  pub checkpoint : ℕ → Outcome (Unit {0})

abbrev pub packed_or : List ℕ → Option (List ℕ) → Data
packed_or raw (some packed) = Data.whole packed true
packed_or raw none = Data.whole raw false

unfoldable pub whole_data : Codecs → NetOptions → List ℕ → Data
whole_data c options raw =
    if options.compress
    then packed_or raw (c.zstd_encode options.compress_level raw)
    else Data.whole raw false

abbrev pub net_kind : Source → EntryKind → NetKind
net_kind source EntryKind.dir = NetKind.dir
net_kind source EntryKind.file = NetKind.file
net_kind source (EntryKind.symlink target) = NetKind.symlink (source.path_of_text target)

unfoldable pub net_entry : Source → Entry → NetEntry
net_entry source e = record {
  rel = path_of e.rel;
  kind = net_kind source e.kind;
  len = e.len;
  mtime_s = e.mtime.unix_seconds;
  mtime_ns = e.mtime.nanoseconds;
  mode = e.mode;
}

-- The first loop, from checkpoint `n`: what it sends, and the number of the next checkpoint.
unfoldable pub send_entries : Codecs → Source → ℕ → List Entry → Outcome (List Msg × ℕ)
unfolding net_entry send_ok
send_entries c source n [] = send_ok c Msg.list_done >> ok (Msg.list_done ∷ [], n)
send_entries c source n (e ∷ es) =
    source.checkpoint n
    >> send_ok c (Msg.entry (net_entry source e))
    >> send_entries c source (n + 1) es
    >>= λ rest. ok (Msg.entry (net_entry source e) ∷ rest.0, rest.1)

module _ (c : Codecs) (options : NetOptions) (source : Source) where
  abbrev pub whole_answer : Option (List ℕ) → Data
  whole_answer (some bytes) = whole_data c options bytes
  whole_answer none = Data.not_found

  abbrev pub delta_data : Option ripsync.Delta.Delta → Option Data
  delta_data (some d) = some (Data.delta d)
  delta_data none = none

  abbrev pub delta_answer : Signature → Option (List ℕ) → Option Data
  delta_answer sig (some bytes) = delta_data (encode_with_signature c.blake3_hash sig bytes)
  delta_answer sig none = some Data.not_found

  -- The answer to a request; `none` is an encoder that does not return.
  unfoldable pub answer : Request → Option Data
  unfolding whole_data encode_with_signature
  answer (Request.whole rel) = some (whole_answer (source.read rel))
  answer (Request.delta rel sig) = delta_answer sig (source.read rel)

  -- The reactive loop from checkpoint `n`, over the messages to come: the final tally and what was
  -- sent. `none` is a run that does not return.
  unfoldable pub serve : ℕ → List Msg → List Msg → Option (Outcome (Stats × List Msg))
  unfolding answer send_ok
  serve n [] sent = some (source.checkpoint n >> err bare_io)
  serve n (msg ∷ input) sent = elim (source.checkpoint n) [
    | err e ↦ some (err e)
    | ok _ ↦ elim msg [
      | Msg.request r ↦ elim (answer r) [
        | none ↦ none
        | some reply ↦ elim (send_ok c (Msg.data_of reply)) [
          | err e ↦ some (err e)
          | ok _ ↦ serve (n + 1) input (sent ++ (Msg.data_of reply ∷ []))
        ]
      ]
      | Msg.finished stats ↦ some (ok (stats, sent))
      | _ ↦ some (err protocol)
    ]
  ]

  -- Behind the first loop.
  abbrev pub started : Outcome (List Msg × ℕ) → List Msg → Option (Outcome (Stats × List Msg))
  started (err e) input = some (err e)
  started (ok (sent, n)) input = serve n input sent

  unfoldable pub run_sender : List Msg → Option (Outcome (Stats × List Msg))
  unfolding send_entries serve
  run_sender input = started (source.walk >>= send_entries c source 0) input
