-- ===== src/Net/Tests.antt =====
-- Runs of the theorems on the handshake and on a session that pushes two entries.
use ripsync.Prelude.{
  ℕ, suc, ◌≡◌, ◌≤◌, refl, sym, ap, ◌∙◌, arith, true, false, Option, none, some, List, [], ◌∷◌,
  length, drop, slice, length-take, length-drop, ◌-◌, take_of_le, ok,
}
use ripsync.Prelude.Int.{pos}
use ripsync.Errors.{FilePath, normal}
use ripsync.Paths.{RelPath}
use ripsync.Entries.{EntryKind, Entry}
use ripsync.Disk.{Disk}
use ripsync.Meta.{path_of, canonical_root}
use ripsync.Checksum.{strong_hash, strong_len}
use ripsync.Report.{Stats}
use ripsync.Net.Proto.{push, NetOptions, NetKind, NetEntry, Data, Msg}
use ripsync.Net.Sender.{Codecs, Source, answer, run_sender, Sendable}
use ripsync.Net.Transport.{Wire}
use ripsync.Net.Session.Exchange.{Askable}
use ripsync.Net.Receiver.{request_for, bytes_in}
use ripsync.Net.Receiver.Run.{Destination, run_receiver}
use ripsync.Net.Roles.{Peer}
use ripsync.Net.Roles.Transfers.{Transferred, run_responder-run_initiator}
use ripsync.Net.Session.Whole.{Carried, run_receiver-run_sender}
use ripsync.Net.Session.Content.{Packs, Fine, bytes_in-answer}

abbrev options : NetOptions
options = record {
  delete = true;
  checksum = false;
  preserve_mode = true;
  preserve_mtime = true;
  whole_file = false;
  compress = true;
  compress_level = pos 3;
}

abbrev remote_root : FilePath
remote_root = normal (100 ∷ []) ∷ []

-- One byte for each kind of message.
abbrev tag : Msg → ℕ
tag (Msg.server_hello _ _) = 1
tag (Msg.init _) = 2
tag Msg.init_ack = 3
tag (Msg.entry _) = 4
tag Msg.list_done = 5
tag (Msg.request _) = 6
tag (Msg.data_of _) = 7
tag (Msg.finished _) = 8
tag Msg.error = 9

abbrev tags : Wire Msg
tags = record { serialize = λ msg. some (tag msg ∷ []); deserialize = λ bytes. none }

-- Digests that are the bytes themselves, and a packer that adds a byte in front.
abbrev packer : Codecs
packer = record {
  blake3_hash = λ bytes. bytes;
  sqrt_round = λ n. n;
  zstd_encode = λ level bytes. some (1 ∷ bytes);
  zstd_decode = λ bytes. some (drop 1 bytes);
  wire = tags;
}

abbrev opened : Option (List ℕ) → Option (List ℕ)
opened none = none
opened (some packed) = some (drop 1 packed)

packer-Packs : Packs packer
packer-Packs level bytes packed h = ap opened (sym h)

abbrev a_file : RelPath
a_file = (97 ∷ []) ∷ []

abbrev content : List ℕ
content = 3 ∷ 4 ∷ 9 ∷ []

abbrev listed_entry : RelPath → EntryKind → Entry
listed_entry rel kind = record {
  rel = rel;
  kind = kind;
  len = 3;
  mtime = record { unix_seconds = pos 5; nanoseconds = 7 };
  mode = 0o644;
  ino = 1;
  dev = 1;
  uid = 0;
  gid = 0;
}

abbrev source : Source
source = record {
  walk = ok (listed_entry a_file EntryKind.file ∷ listed_entry ((98 ∷ []) ∷ []) EntryKind.dir ∷ []);
  read = λ rel. some content;
  path_of_text = λ text. normal text ∷ [];
  checkpoint = λ n. ok tt;
}

-- A file system that counts its changes and in which all calls succeed.
abbrev counting : Disk ℕ
counting = record {
  exists = λ s p. true;
  canonicalize = λ s p. ok p;
  is_dir_at = λ s p. some false;
  is_symlink_at = λ s p. some false;
  read = λ s p. some (3 ∷ []);
  create_dir_all = λ s p. (true, suc s);
  remove_dir = λ s p. (true, suc s);
  remove_dir_all = λ s p. (true, suc s);
  remove_file = λ s p. (true, suc s);
  write = λ s p bytes. (true, suc s);
  rename = λ s p q. (true, suc s);
  symlink = λ s t p. (true, suc s);
  set_mode = λ s p m. suc s;
  set_mtime = λ s p t. suc s;
  set_symlink_mtime = λ s p t. suc s;
  random = λ s. (7, suc s);
}

abbrev destination : Destination ℕ
destination = record {
  disk = counting;
  walk = λ s. ok (listed_entry a_file EntryKind.dir ∷ []);
  symlink_text = λ target. [];
  checkpoint = λ n. ok tt;
}

tag-Sendable : (msg : Msg) → Sendable packer msg
tag-Sendable msg = (tag msg ∷ [], refl, omega arith)

abbrev walked : List Entry
walked = listed_entry a_file EntryKind.file ∷ listed_entry ((98 ∷ []) ∷ []) EntryKind.dir ∷ []

askable : (e : NetEntry) → Askable packer options source (λ n. refl) counting e
askable e use_delta dst s = (
  tag-Sendable
      (Msg.request (request_for counting packer options e use_delta (counting.read s dst))),
  λ reply h. tag-Sendable (Msg.data_of reply),
)

source-Carried : Carried packer options source (λ n. refl) destination (λ n. refl) walked
source-Carried = record {
  list = (
    ((4 ∷ [], refl, omega arith), ((4 ∷ [], refl, omega arith), tt)),
    tag-Sendable Msg.list_done,
  );
  files = (askable _, (askable _, tt));
  tally = λ stats. tag-Sendable (Msg.finished stats);
}

run_receiver-run_sender_example :
    (stats : Stats) × (after : ℕ) × (requests sent : List Msg) × (run_sender packer options source
        requests
      ≡ some (ok (stats, sent)))
    × (run_receiver destination packer options
          ((100 ∷ []) ∷ [])
          0
          (record { input = sent; output = [] })
        ≡ ok (stats, after, record { input = []; output = requests }))
unfolding canonical_root
run_receiver-run_sender_example =
    run_receiver-run_sender packer options source (λ n. refl) destination (λ n. refl)
      ((100 ∷ []) ∷ []) ((100 ∷ []) ∷ []) 0 0 walked (listed_entry a_file EntryKind.dir ∷ []) refl
      refl refl source-Carried

distinct : Fine packer (3 ∷ []) content
unfolding strong_hash
distinct = (
  omega arith,
  λ i from to h h' len same.
      let short : length (slice from to content) ≤ 3 =
        omega (arith, length-take (to - from) (drop from content), length-drop from content) in
      sym (take_of_le strong_len (slice from to content) (omega arith))
      ∙ same
      ∙ take_of_le strong_len _ (omega (arith, len)),
)

abbrev asked_entry : NetEntry
asked_entry = record {
  rel = path_of a_file;
  kind = NetKind.file;
  len = 3;
  mtime_s = pos 5;
  mtime_ns = 7;
  mode = 0o644;
}

bytes_in-answer_example :
    (reply : Data) × (answer packer options source
        (request_for counting packer options asked_entry true (some (3 ∷ [])))
      ≡ some reply)
    × (bytes_in counting packer options true (some (3 ∷ [])) (Msg.data_of reply)
        ≡ ok (some content))
bytes_in-answer_example =
    bytes_in-answer counting packer options source packer-Packs asked_entry true (some (3 ∷ []))
      content refl distinct

abbrev peer : Peer ℕ
peer = record { source_at = λ root. source; destination = destination }

run_responder-run_initiator_example :
    Transferred packer peer peer push options ((101 ∷ []) ∷ []) remote_root 5 0
unfolding canonical_root
run_responder-run_initiator_example =
    run_responder-run_initiator packer options peer peer ((101 ∷ []) ∷ []) remote_root push 5 0 0
      ((100 ∷ []) ∷ []) walked (listed_entry a_file EntryKind.dir ∷ []) (λ n. refl) (λ n. refl) refl
      refl refl
      (record {
        hello = (1 ∷ [], refl, omega arith);
        ack = tag-Sendable Msg.init_ack;
        init = (2 ∷ [], refl, omega arith);
      })
      source-Carried
