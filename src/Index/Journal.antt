-- ===== src/Index/Journal.antt =====
-- index.rs: writing and replaying the journal, byte by byte.
pub mod Records
pub mod Replay
pub mod Crash
use ripsync.Prelude.{
  ℕ, zero, suc, ◌+◌, ◌*◌, ◌/◌, ◌%◌, ◌^◌, ◌≡◌, Bool, ◌&&◌, ◌||◌, Option, none, some, List, [], ◌∷◌,
  ◌++◌, length, take, drop, leb, ltb, list_eq, if◌then◌else◌, ok, err, ◌>>=◌,
}
use ripsync.Prelude.Words.{u32_mod}
use ripsync.Errors.{Error, Outcome, pattern_invalid}
use ripsync.Paths.{RelPath, insert, remove}
use ripsync.Index.{ManifestEntry, Change, upsert, delete, compact_bytes}

-- `u32::to_le_bytes` and `u32::from_le_bytes`.
unfoldable pub to_le_bytes : ℕ → List ℕ
to_le_bytes n = n % 256 ∷ (n / 256 % 256) ∷ (n / 65536 % 256) ∷ (n / 16777216 % 256) ∷ []

unfoldable pub from_le_bytes : List ℕ → ℕ
from_le_bytes [] = 0
from_le_bytes (b ∷ bytes) = b + 256 * from_le_bytes bytes

-- `read_exact`: the bytes and the rest of the file, or an error at its end.
unfoldable pub read_exact : ℕ → List ℕ → Option (List ℕ × List ℕ)
read_exact n bytes = if leb n (length bytes) then some (take n bytes, drop n bytes) else none

-- What `bincode` and BLAKE3 do for the journal; `serialize` counts where `can_serialize`.
pub record Format : Type 0 where
  pub serialize : Change → List ℕ
  pub can_serialize : Change → Bool
  pub deserialize : List ℕ → Option Change
  pub blake3_hash : List ℕ → List ℕ

abbrev pub Map : Type 0
Map = List (RelPath × ManifestEntry)

-- The last lines of the loop of `replay_journal`.
abbrev pub apply_change : Change → Map → Map
apply_change (upsert path entry) entries = insert path entry entries
apply_change (delete path) entries = remove path entries

module _ (f : Format) where
  -- The payload of a record, if its checksum is the one expected.
  unfoldable pub read_payload : ℕ → List ℕ → List ℕ → Option (Change × List ℕ)
  unfolding read_exact
  read_payload len expected bytes = elim (read_exact len bytes) [
    | none ↦ none
    | some (payload, rest) ↦
        if list_eq (f.blake3_hash payload) expected
        then elim (f.deserialize payload) [ none ↦ none | some change ↦ some (change, rest) ]
        else none
  ]

  unfoldable pub read_checked : ℕ → List ℕ → Option (Change × List ℕ)
  unfolding read_payload
  read_checked len bytes = elim (read_exact 32 bytes) [
    | none ↦ none
    | some (expected, rest) ↦ read_payload len expected rest
  ]

  -- One round of `replay_journal`: a change and the rest of the file, or `none` for a `break`.
  unfoldable pub read_record : List ℕ → Option (Change × List ℕ)
  unfolding read_checked from_le_bytes
  read_record bytes = elim (read_exact 4 bytes) [
    | none ↦ none
    | some (len_bytes, rest) ↦ read_checked (from_le_bytes len_bytes) rest
  ]

  -- The loop, on fuel: a record takes 36 bytes at least, so `length bytes` rounds are enough.
  unfoldable pub replay_loop : ℕ → List ℕ → Map → Option Map
  unfolding read_record
  replay_loop zero bytes entries = none
  replay_loop (suc fuel) bytes entries = elim (read_record bytes) [
    | none ↦ some entries
    | some (change, rest) ↦ replay_loop fuel rest (apply_change change entries)
  ]

  unfoldable pub replay_journal : List ℕ → Map → Option Map
  unfolding replay_loop
  replay_journal bytes entries = replay_loop (suc (length bytes)) bytes entries

  -- One record: length, checksum, payload.
  abbrev pub record_of : Change → List ℕ
  record_of change =
      to_le_bytes (length (f.serialize change))
      ++ (f.blake3_hash (f.serialize change) ++ f.serialize change)

  -- The loop of `append`, on the journal's bytes: those written, and the outcome.
  unfoldable pub append_changes : List ℕ → List Change → List ℕ × Outcome (Unit {0})
  append_changes journal [] = (journal, ok tt)
  append_changes journal (change ∷ changes) =
      let rest = append_changes (journal ++ record_of change) changes in
      if f.can_serialize change && ltb (length (f.serialize change)) u32_mod
      then rest
      else (journal, err pattern_invalid)

-- `needs_compaction`, on the lengths of the two files.
unfoldable pub needs_compaction : ℕ → ℕ → Bool
needs_compaction journal snapshot =
    ltb compact_bytes journal || ltb 0 snapshot && ltb (snapshot / 10) journal
