-- ===== src/Plan/Skips.antt =====
-- `classify_existing`: what it takes for an entry to be left alone.
use ripsync.Prelude.{ℕ, ◌≡◌, Bool, true, false, some, List}
use ripsync.Paths.Texts.{components}
use ripsync.Entries.{EntryKind, Entry, permissions}
use ripsync.Index.Classify.{Live}

-- The two files have a content digest each, and it is one.
abbrev pub SameDigest : Live → Live → Entry → Entry → Type 0
SameDigest src dst entry d =
    (digest : List ℕ) × (src.hash_file entry.rel ≡ some digest)
    × (dst.hash_file d.rel ≡ some digest)

-- A link whose target has the components of `target`.
abbrev pub SameTarget : List ℕ → EntryKind → Type 0
SameTarget target k =
    (other : List ℕ) × (k ≡ EntryKind.symlink other) × (components target ≡ components other)

-- What the two entries agree in, by the source entry's kind.
abbrev pub SameEntry : Live → Live → Entry → Entry → Bool → EntryKind → EntryKind → Type 0
SameEntry src dst entry d checksum EntryKind.dir k =
    (k ≡ EntryKind.dir)
    × (permissions entry.mode ≡ permissions d.mode)
    × (entry.mtime.unix_seconds ≡ d.mtime.unix_seconds)
SameEntry src dst entry d checksum (EntryKind.symlink target) k =
    SameTarget target k × (entry.mtime.unix_seconds ≡ d.mtime.unix_seconds)
SameEntry src dst entry d true EntryKind.file k =
    (k ≡ EntryKind.file)
    × (permissions entry.mode ≡ permissions d.mode)
    × (entry.mtime.unix_seconds ≡ d.mtime.unix_seconds)
    × SameDigest src dst entry d
SameEntry src dst entry d false EntryKind.file k =
    (k ≡ EntryKind.file)
    × (permissions entry.mode ≡ permissions d.mode)
    × (entry.mtime.unix_seconds ≡ d.mtime.unix_seconds)
    × (entry.len ≡ d.len)
