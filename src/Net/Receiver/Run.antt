-- ===== src/Net/Receiver/Run.antt =====
-- receiver.rs, `run_receiver`: the file list, the entries, the deletions and the end.
use ripsync.Prelude.{
  ℕ, ◌+◌, Bool, true, false, List, [], ◌∷◌, ◌++◌, if◌then◌else◌, ok, err, ◌>>=◌, ◌>>◌,
}
use ripsync.Errors.{FilePath, Outcome, protocol, bare_io}
use ripsync.Paths.{path_lt}
use ripsync.Entries.{Entry, is_dir}
use ripsync.Disk.{AbsPath, Disk}
use ripsync.Meta.{canonical_root}
use ripsync.Report.{Stats, no_stats}
use ripsync.Net.Proto.{NetOptions, NetEntry, Msg, Conn, send}
use ripsync.Net.Sender.{Codecs, send_ok}
use ripsync.Net.Receiver.{Work, listed, receive_entry}

-- The destination and the control of a receiver.
pub record Destination (S : Type 0) : Type 0 where
  pub disk : Disk S
  pub walk : S → Outcome (List Entry)
  pub symlink_text : FilePath → List ℕ
  pub checkpoint : ℕ → Outcome (Unit {0})

-- The first loop from checkpoint `n`: the entries, the messages behind them, the next checkpoint.
unfoldable pub receive_list :
    (ℕ → Outcome (Unit {0})) → ℕ → List Msg → Outcome (List NetEntry × List Msg × ℕ)
receive_list checkpoint n [] = checkpoint n >> err bare_io
receive_list checkpoint n (Msg.entry e ∷ input) =
    checkpoint n >> receive_list checkpoint (n + 1) input >>= λ rest.
    ok (e ∷ rest.0, rest.1, rest.2)
receive_list checkpoint n (Msg.list_done ∷ input) = checkpoint n >> ok ([], input, n + 1)
receive_list checkpoint n (_ ∷ input) = checkpoint n >> err protocol

-- The victims, sorted as the planner sorts its deletions.
unfoldable pub insert_victim : Entry → List Entry → List Entry
insert_victim d [] = d ∷ []
insert_victim d (e ∷ es) =
    let rest = insert_victim d es in if path_lt d.rel e.rel then e ∷ rest else d ∷ e ∷ es

unfoldable pub victims : List NetEntry → List Entry → List Entry
unfolding insert_victim listed
victims src_entries [] = []
victims src_entries (x ∷ xs) =
    let rest = victims src_entries xs in
    if listed src_entries x.rel then rest else insert_victim x rest

module _ {S : Type 0} (d : Destination S) (c : Codecs) (options : NetOptions) where
  -- The third loop.
  unfoldable pub receive_entries :
      AbsPath
      → List Entry
      → ℕ
      → List NetEntry
      → Work d.disk c options
      → Conn
      → Outcome ((Work d.disk c options × ℕ) × Conn)
  unfolding receive_entry
  receive_entries root existing n [] work conn = ok ((work, n), conn)
  receive_entries root existing n (e ∷ es) work conn =
      d.checkpoint n
      >> receive_entry d.disk c options d.symlink_text root existing e work conn
      >>= λ next. receive_entries root existing (n + 1) es next.0 next.1

  -- `remove_dir`, or else `remove_dir_all`.
  abbrev pub remove_tree : AbsPath → Bool × S → Bool × S
  remove_tree full (true, s) = (true, s)
  remove_tree full (false, s) = d.disk.remove_dir_all s full

  unfoldable pub remove_victim : AbsPath → Entry → Work d.disk c options → Work d.disk c options
  remove_victim root victim (s, stats) =
      let full = root ++ victim.rel in
      let removed =
        if is_dir victim
        then remove_tree full (d.disk.remove_dir s full)
        else d.disk.remove_file s full in
      (removed.1, if removed.0 then record stats { deleted = stats.deleted + 1 } else stats)

  unfoldable pub remove_victims :
      AbsPath → ℕ → List Entry → Work d.disk c options → Outcome (Work d.disk c options)
  unfolding remove_victim
  remove_victims root n [] work = ok work
  remove_victims root n (victim ∷ rest) work =
      d.checkpoint n >> remove_victims root (n + 1) rest (remove_victim root victim work)

  abbrev pub mirror :
      AbsPath
      → ℕ
      → List NetEntry
      → List Entry
      → Work d.disk c options
      → Outcome (Work d.disk c options)
  mirror root n src_entries existing work =
      let removed = remove_victims root n (victims src_entries existing) work in
      if options.delete then removed else ok work

  abbrev pub finish : Work d.disk c options → Conn → Outcome (Stats × S × Conn)
  finish (s, stats) conn =
      send_ok c (Msg.finished stats) >> ok (stats, s, send (Msg.finished stats) conn)

  -- Behind the walk, and behind the third loop.
  abbrev pub ended :
      AbsPath
      → List NetEntry
      → List Entry
      → (Work d.disk c options × ℕ) × Conn
      → Outcome (Stats × S × Conn)
  ended root src_entries existing done =
      mirror root done.0.1 src_entries existing done.0.0 >>= λ work. finish work done.1

  abbrev pub entries_received :
      AbsPath
      → S
      → List Msg
      → List NetEntry × List Msg × ℕ
      → List Entry
      → Outcome (Stats × S × Conn)
  entries_received root s output list existing =
      receive_entries root existing list.2 list.0 (s, no_stats)
        (record { input = list.1; output = output })
      >>= ended root list.0 existing

  -- From the destination's root on.
  unfoldable pub receive_tree : AbsPath → S → Conn → Outcome (Stats × S × Conn)
  unfolding receive_list receive_entries victims remove_victims
  receive_tree root s conn = receive_list d.checkpoint 0 conn.input >>= λ list.
      d.walk s >>= λ existing. entries_received root s conn.output list existing

  -- The tally, the tree and the connection.
  unfoldable pub run_receiver : AbsPath → S → Conn → Outcome (Stats × S × Conn)
  unfolding receive_tree canonical_root
  run_receiver root s conn =
      canonical_root d.disk s root >>= λ made. receive_tree made.0 made.1 conn
