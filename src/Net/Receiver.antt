-- ===== src/Net/Receiver.antt =====
-- crates/ripsync-core/src/net/receiver.rs: the side that holds the destination, over any file system.
-- The walk of the destination and the checkpoints are inputs; events are not modelled.
pub mod Run
use ripsync.Prelude.{
  ℕ, zero, suc, ◌+◌, ◌-◌, ◌/◌, ◌%◌, ◌==◌, Bool, true, false, not, ◌&&◌, ◌||◌, Option, none, some,
  List, [], ◌∷◌, ◌++◌, length, ltb, if◌then◌else◌, list_eq, ok, err, ◌>>=◌, ◌>>◌,
}
use ripsync.Prelude.Int.{int_eq}
use ripsync.Errors.{
  Component, normal, cur_dir, parent_dir, root_dir, FilePath, Outcome, protocol, bare_io,
}
use ripsync.Paths.{RelPath, path_lt}
use ripsync.Paths.Texts.{file_path_eq}
use ripsync.Entries.{FileTime, Entry, is_file, is_dir}
use ripsync.Disk.{AbsPath, Disk, parent}
use ripsync.Meta.{check_relative, names, path_of, canonical_root, contained_target}
use ripsync.Delta.{Signature, compute, apply}
use ripsync.Report.{Stats, no_stats}
use ripsync.Net.Proto.{NetOptions, NetKind, NetEntry, Request, Data, Msg, Conn, send, receive}
use ripsync.Net.Sender.{Codecs, send_ok}

-- `existing_map.get`: the walk gives a path once.
unfoldable pub existing_at : List Entry → FilePath → Option Entry
existing_at [] rel = none
existing_at (e ∷ es) rel = if file_path_eq (path_of e.rel) rel then some e else existing_at es rel

-- `src_set.contains`
unfoldable pub listed : List NetEntry → RelPath → Bool
listed [] rel = false
listed (e ∷ es) rel = file_path_eq e.rel (path_of rel) || listed es rel

abbrev hex_digit : ℕ → ℕ
hex_digit n = if ltb n 10 then b'0' + n else b'a' + n - 10

-- `{:016x}` is sixteen digits.
abbrev hex : ℕ → ℕ → List ℕ → List ℕ
hex zero n digits = digits
hex (suc width) n digits = hex width (n / 16) (hex_digit (n % 16) ∷ digits)

abbrev pub tmp_name : ℕ → List ℕ
tmp_name n =
    b'.'
    ∷ b'r'
    ∷ b'i'
    ∷ b'p'
    ∷ b's'
    ∷ b'y'
    ∷ b'n'
    ∷ b'c'
    ∷ b'.'
    ∷ b't'
    ∷ b'm'
    ∷ b'p'
    ∷ b'.'
    ∷ hex 16 n []

-- `fail` and `bump`
abbrev pub fail : Stats → Stats
fail stats = record stats { errors = stats.errors + 1 }

abbrev pub bump : Stats → Bool → Stats
bump stats existed =
    if existed
    then record stats { updated = stats.updated + 1 }
    else record stats { copied = stats.copied + 1 }

abbrev pub is_some : {A : Type 0} → Option A → Bool
is_some none = false
is_some (some _) = true

unfoldable pub unpack : Codecs → List ℕ → Bool → Option (List ℕ)
unpack c bytes true = c.zstd_decode bytes
unpack c bytes false = some bytes

abbrev pub applied : Outcome (List ℕ) → Option (List ℕ)
applied (ok bytes) = some bytes
applied (err _) = none

-- The two matches of `fetch_bytes` on the answer.
abbrev pub delta_bytes : Codecs → List ℕ → Msg → Outcome (Option (List ℕ))
delta_bytes c old (Msg.data_of (Data.delta d)) = ok (applied (apply old d))
delta_bytes c old (Msg.data_of (Data.whole bytes zstd)) = ok (unpack c bytes zstd)
delta_bytes c old (Msg.data_of Data.not_found) = ok none
delta_bytes c old _ = err protocol

abbrev pub whole_bytes : Codecs → Msg → Outcome (Option (List ℕ))
whole_bytes c (Msg.data_of (Data.whole bytes zstd)) = ok (unpack c bytes zstd)
whole_bytes c (Msg.data_of Data.not_found) = ok none
whole_bytes c _ = err protocol

abbrev pub or_empty : Option (List ℕ) → List ℕ
or_empty none = []
or_empty (some bytes) = bytes

-- What a symlink's target may not be: absolute, or with `..`.
unfoldable pub target_escapes : FilePath → Bool
target_escapes [] = false
target_escapes (normal _ ∷ path) = target_escapes path
target_escapes (cur_dir ∷ path) = target_escapes path
target_escapes (parent_dir ∷ path) = true
target_escapes (root_dir ∷ path) = true

module _ {S : Type 0} (disk : Disk S) (c : Codecs) (options : NetOptions) where
  -- The state of the receiver's own tree and its tally.
  abbrev pub Work : Type 0
  Work = S × Stats

  -- With `use_delta` the request carries the signature of the old file.
  unfoldable pub request_for : NetEntry → Bool → Option (List ℕ) → Request
  unfolding compute
  request_for e use_delta old =
      if use_delta
      then Request.delta e.rel (compute c.blake3_hash c.sqrt_round (or_empty old) none)
      else Request.whole e.rel

  unfoldable pub bytes_in : Bool → Option (List ℕ) → Msg → Outcome (Option (List ℕ))
  unfolding unpack apply
  bytes_in use_delta old msg =
      if use_delta then delta_bytes c (or_empty old) msg else whole_bytes c msg

  unfoldable pub fetch_bytes :
      NetEntry → AbsPath → Bool → S → Conn → Outcome (Option (List ℕ) × Conn)
  unfolding request_for bytes_in send_ok
  fetch_bytes e dst is_existing_file s conn =
      let use_delta = not options.whole_file && is_existing_file in
      let old = disk.read s dst in
      let asked = Msg.request (request_for e use_delta old) in
      send_ok c asked >> receive (send asked conn) >>= λ got.
      bytes_in use_delta old got.0 >>= λ bytes. ok (bytes, got.1)

  unfoldable pub apply_meta : AbsPath → ℕ → FileTime → S → S
  apply_meta path mode mtime s =
      let s' = if options.preserve_mode then disk.set_mode s path mode else s in
      if options.preserve_mtime then disk.set_mtime s' path mtime else s'

  unfoldable pub ensure_and_contain : AbsPath → RelPath → S → Outcome AbsPath × S
  unfolding contained_target parent
  ensure_and_contain root rel s = elim (parent (root ++ rel)) [
    | none ↦ (contained_target disk root (root ++ rel) s, s)
    | some dir ↦
        let made = disk.create_dir_all s dir in
        ((if made.0 then contained_target disk root (root ++ rel) made.1 else err bare_io), made.1)
  ]

  abbrev pub clear_dir : Option Bool → AbsPath → S → S
  clear_dir (some true) dst s = (disk.remove_dir_all s dst).1
  clear_dir (some false) dst s = s
  clear_dir none dst s = s

  -- Behind the parent's path: whether the file was written, and the state.
  unfoldable pub write_beside : AbsPath → AbsPath → List ℕ → ℕ → FileTime → S → Bool × S
  unfolding apply_meta
  write_beside dir dst bytes mode mtime s =
      let drawn = disk.random s in
      let tmp = dir ++ (tmp_name drawn.0 ∷ []) in
      let written = disk.write drawn.1 tmp bytes in
      let s1 = apply_meta tmp mode mtime written.1 in
      let moved = disk.rename (clear_dir (disk.is_dir_at s1 dst) dst s1) tmp dst in
      if written.0
      then (if moved.0 then (true, moved.1) else (false, (disk.remove_file moved.1 tmp).1))
      else (false, written.1)

  unfoldable pub write_atomic : AbsPath → List ℕ → ℕ → FileTime → S → Bool × S
  unfolding write_beside parent
  write_atomic dst bytes mode mtime s = elim (parent dst) [
    | none ↦ (false, s)
    | some dir ↦ write_beside dir dst bytes mode mtime s
  ]

  abbrev pub mtime_of : NetEntry → FileTime
  mtime_of e = record { unix_seconds = e.mtime_s; nanoseconds = e.mtime_ns }

  unfoldable pub receive_dir : AbsPath → NetEntry → Bool → Work → Work
  unfolding apply_meta
  receive_dir root e existed (s, stats) =
      let full = root ++ names e.rel in
      let made = disk.create_dir_all s full in
      if made.0
      then (apply_meta full e.mode (mtime_of e) made.1, bump stats existed)
      else (made.1, fail stats)

  abbrev pub clear_entry : Option Bool → AbsPath → S → S
  clear_entry (some true) dst s = (disk.remove_dir_all s dst).1
  clear_entry (some false) dst s = (disk.remove_file s dst).1
  clear_entry none dst s = s

  -- `symlink_text` is the target as it is stored.
  abbrev pub place_symlink :
      (FilePath → List ℕ) → NetEntry → FilePath → Bool → AbsPath → S → Stats → Work
  place_symlink symlink_text e target existed dst s stats =
      let cleared = clear_entry (disk.is_dir_at s dst) dst s in
      let linked = disk.symlink cleared (symlink_text target) dst in
      let timed =
        if options.preserve_mtime
        then disk.set_symlink_mtime linked.1 dst (mtime_of e)
        else linked.1 in
      if target_escapes target
      then (cleared, fail stats)
      else (if linked.0 then (timed, bump stats existed) else (linked.1, fail stats))

  abbrev pub symlink_at :
      (FilePath → List ℕ) → NetEntry → FilePath → Bool → Outcome AbsPath → S → Stats → Work
  symlink_at symlink_text e target existed (err _) s stats = (s, fail stats)
  symlink_at symlink_text e target existed (ok dst) s stats =
      place_symlink symlink_text e target existed dst s stats

  unfoldable pub receive_symlink :
      (FilePath → List ℕ) → AbsPath → NetEntry → FilePath → Bool → Work → Work
  unfolding ensure_and_contain target_escapes
  receive_symlink symlink_text root e target existed (s, stats) =
      let (dst, s') = ensure_and_contain root (names e.rel) s in
      symlink_at symlink_text e target existed dst s' stats

  abbrev pub is_existing_file : Option Entry → Bool
  is_existing_file none = false
  is_existing_file (some x) = is_file x

  abbrev pub same_stamp : NetEntry → Option Entry → Bool
  same_stamp e none = false
  same_stamp e (some x) =
      x.len == e.len && int_eq x.mtime.unix_seconds e.mtime_s && x.mtime.nanoseconds == e.mtime_ns

  unfoldable pub unchanged : NetEntry → Option Entry → Bool
  unchanged e existing = not options.checksum && is_existing_file existing && same_stamp e existing

  -- Behind the fetch.
  unfoldable pub store : NetEntry → AbsPath → Bool → Option (List ℕ) → Work → Work
  unfolding write_atomic
  store e dst existed none (s, stats) = (s, fail stats)
  store e dst existed (some bytes) (s, stats) =
      let written = write_atomic dst bytes e.mode (mtime_of e) s in
      if written.0
      then (written.1, bump (record stats { bytes = stats.bytes + length bytes }) existed)
      else (written.1, fail stats)

  abbrev pub file_at : NetEntry → Bool → Outcome AbsPath → Work → Conn → Outcome (Work × Conn)
  file_at e existed (err _) (s, stats) conn = ok ((s, fail stats), conn)
  file_at e existed (ok dst) (s, stats) conn =
      fetch_bytes e dst existed s conn >>= λ got. ok (store e dst existed got.0 (s, stats), got.1)

  unfoldable pub receive_file :
      AbsPath → NetEntry → Option Entry → Work → Conn → Outcome (Work × Conn)
  unfolding unchanged ensure_and_contain fetch_bytes store
  receive_file root e existing (s, stats) conn =
      if unchanged e existing
      then ok ((s, record stats { skipped = stats.skipped + 1 }), conn)
      else (let (dst, s') = ensure_and_contain root (names e.rel) s in
          file_at e (is_existing_file existing) dst (s', stats) conn)

  -- One round of the third loop.
  abbrev pub receive_kind :
      (FilePath → List ℕ)
      → AbsPath
      → NetEntry
      → NetKind
      → Option Entry
      → Work
      → Conn
      → Outcome (Work × Conn)
  receive_kind symlink_text root e NetKind.dir existing work conn =
      ok (receive_dir root e (is_some existing) work, conn)
  receive_kind symlink_text root e (NetKind.symlink target) existing work conn =
      ok (receive_symlink symlink_text root e target (is_some existing) work, conn)
  receive_kind symlink_text root e NetKind.file existing work conn =
      receive_file root e existing work conn

  abbrev pub checked :
      Outcome (Unit {0}) → Work → Conn → Outcome (Work × Conn) → Outcome (Work × Conn)
  checked (ok _) work conn next = next
  checked (err _) (s, stats) conn next = ok ((s, fail stats), conn)

  unfoldable pub receive_entry :
      (FilePath → List ℕ) → AbsPath → List Entry → NetEntry → Work → Conn → Outcome (Work × Conn)
  unfolding receive_dir receive_symlink receive_file existing_at check_relative
  receive_entry symlink_text root existing e work conn =
      checked (check_relative e.rel) work conn
        (receive_kind symlink_text root e e.kind (existing_at existing e.rel) work conn)
