-- ===== src/Index/Classify.antt =====
-- index.rs, `Manifest::classify`: a source entry against its record and the live destination.
use ripsync.Prelude.{
  ℕ, ◌≡◌, refl, ap, sym, ◌∙◌, arith, Bool, true, false, not, ◌&&◌, ◌||◌, Option, none, some, List,
  if◌then◌else◌, list_eq, ◌==◌, inl, inr, Option-cases,
}
use mathlib.Core.Bool.{true≢false}
use ripsync.Prelude.Int.{int_eq, int_eq→eq}
use ripsync.Paths.{RelPath, lookup}
use ripsync.Paths.Texts.{components, path_text_eq, path_text_eq→eq}
use ripsync.Entries.{MinMeta, FileTypeKind, EntryKind, Entry, permissions, Action, update, skip}
use ripsync.Index.{Kind, ManifestEntry, Manifest}

-- A tree on disk: `meta_min`, `read_link` and the file hash, each of which may fail.
pub record Live : Type 0 where
  pub meta_min : RelPath → Option MinMeta
  pub read_link : RelPath → Option (List ℕ)
  pub hash_file : RelPath → Option (List ℕ)

unfoldable pub metadata_matches : Entry → ManifestEntry → Bool
metadata_matches entry recorded =
    entry.len == recorded.size
    && int_eq entry.mtime.unix_seconds recorded.mtime_s
    && entry.mtime.nanoseconds == recorded.mtime_ns
    && permissions entry.mode == permissions recorded.mode

unfoldable pub action_from_match : Bool → Action
action_from_match true = skip
action_from_match false = update

abbrev kind_matches : Kind → FileTypeKind → Bool
kind_matches Kind.file FileTypeKind.file = true
kind_matches Kind.file _ = false
kind_matches Kind.dir FileTypeKind.dir = true
kind_matches Kind.dir _ = false
kind_matches Kind.symlink FileTypeKind.symlink = true
kind_matches Kind.symlink _ = false

abbrev is_file_kind : Kind → Bool
is_file_kind Kind.file = true
is_file_kind Kind.dir = false
is_file_kind Kind.symlink = false

abbrev pub target_eq : Option (List ℕ) → List ℕ → Bool
target_eq none expected = false
target_eq (some target) expected = path_text_eq target expected

-- Behind a successful `meta_min`.
unfoldable pub live_matches : Live → ManifestEntry → RelPath → Option (List ℕ) → MinMeta → Bool
live_matches dst recorded rel symlink_target meta =
    if not (kind_matches recorded.kind meta.kind)
      || (not (meta.ino == recorded.ino) || not (meta.dev == recorded.dev))
    then false
    else (if (is_file_kind recorded.kind && not (meta.len == recorded.size))
          || (not (int_eq meta.mtime.unix_seconds recorded.mtime_s)
              || (not (meta.mtime.nanoseconds == recorded.mtime_ns)
                  || not (permissions meta.mode == permissions recorded.mode)))
        then false
        else elim symlink_target [
          | some expected ↦ target_eq (dst.read_link rel) expected
          | none ↦ true
        ])

unfoldable pub destination_matches : Live → ManifestEntry → RelPath → Option (List ℕ) → Bool
unfolding live_matches
destination_matches dst recorded rel symlink_target = elim (dst.meta_min rel) [
  | none ↦ false
  | some meta ↦ live_matches dst recorded rel symlink_target meta
]

-- The last lines of the case of two files, behind the test of the metadata.
abbrev hashes_agree : Option (List ℕ) → Option (List ℕ) → Action
hashes_agree (some expected) (some live) = if list_eq expected live then skip else update
hashes_agree (some expected) none = update
hashes_agree none _ = update

module _ (src dst : Live) (entry : Entry) (checksum : Bool) where
  -- The match on the two kinds.
  unfoldable pub classify_recorded : ManifestEntry → EntryKind → Kind → Action
  unfolding metadata_matches action_from_match destination_matches
  classify_recorded recorded EntryKind.dir Kind.dir =
      action_from_match
        (metadata_matches entry recorded && destination_matches dst recorded entry.rel none)
  classify_recorded recorded (EntryKind.symlink target) Kind.symlink = action_from_match (
      target_eq recorded.target target
      && metadata_matches entry recorded
      && destination_matches dst recorded entry.rel (some target))
  classify_recorded recorded EntryKind.file Kind.file =
      if not (metadata_matches entry recorded)
        || not (destination_matches dst recorded entry.rel none)
      then update
      else (if checksum then hashes_agree recorded.hash (src.hash_file entry.rel) else skip)
  classify_recorded recorded _ _ = update

  unfoldable pub classify : Manifest → Action
  unfolding classify_recorded
  classify manifest = elim (lookup entry.rel manifest.entries) [
    | none ↦ Action.copy
    | some recorded ↦ classify_recorded recorded entry.kind recorded.kind
  ]

-- A destination entry has the kind of a source entry.
abbrev pub SameKind : EntryKind → FileTypeKind → Type 0
SameKind EntryKind.file k = k ≡ FileTypeKind.file
SameKind EntryKind.dir k = k ≡ FileTypeKind.dir
SameKind (EntryKind.symlink _) k = k ≡ FileTypeKind.symlink

abbrev same_kinds : EntryKind → Kind → Bool
same_kinds EntryKind.dir Kind.dir = true
same_kinds EntryKind.file Kind.file = true
same_kinds (EntryKind.symlink _) Kind.symlink = true
same_kinds _ _ = false

abbrev pub TargetAgrees : Live → Entry → EntryKind → Type 0
TargetAgrees dst entry (EntryKind.symlink target) =
    (live : List ℕ) × (dst.read_link entry.rel ≡ some live) × (components live ≡ components target)
TargetAgrees dst entry EntryKind.file = Unit
TargetAgrees dst entry EntryKind.dir = Unit

abbrev pub LenAgrees : Entry → MinMeta → EntryKind → Type 0
LenAgrees entry meta EntryKind.file = meta.len ≡ entry.len
LenAgrees entry meta EntryKind.dir = Unit
LenAgrees entry meta (EntryKind.symlink _) = Unit

-- The live destination is what the source entry asks for, but for the content of a file.
pub record UpToDate (dst : Live) (entry : Entry) (kind : EntryKind) (meta : MinMeta) : Type 0 where
  pub found : dst.meta_min entry.rel ≡ some meta
  pub same_kind : SameKind kind meta.kind
  pub seconds : meta.mtime.unix_seconds ≡ entry.mtime.unix_seconds
  pub nanoseconds : meta.mtime.nanoseconds ≡ entry.mtime.nanoseconds
  pub mode : permissions meta.mode ≡ permissions entry.mode
  pub len : LenAgrees entry meta kind
  pub target : TargetAgrees dst entry kind

-- What the tests of a live entry hold it to.
record Matched (recorded : ManifestEntry) (meta : MinMeta) : Type 0 where
  kind : kind_matches recorded.kind meta.kind ≡ true
  seconds : meta.mtime.unix_seconds ≡ recorded.mtime_s
  nanoseconds : meta.mtime.nanoseconds ≡ recorded.mtime_ns
  mode : permissions meta.mode ≡ permissions recorded.mode
  len : is_file_kind recorded.kind ≡ true → meta.len ≡ recorded.size

live_matches-Matched :
    (dst : Live) (recorded : ManifestEntry) (rel : RelPath) (target : Option (List ℕ))
    (meta : MinMeta)
    → live_matches dst recorded rel target meta ≡ true
    → Matched recorded meta
unfolding live_matches
live_matches-Matched dst recorded rel target meta h = record {
  kind = ground arith;
  seconds = int_eq→eq meta.mtime.unix_seconds recorded.mtime_s (ground arith);
  nanoseconds = ground arith;
  mode = ground arith;
  len = λ f. ground arith;
}

matches→meta :
    (dst : Live) (recorded : ManifestEntry) (rel : RelPath) (target : Option (List ℕ))
    → destination_matches dst recorded rel target ≡ true
    → (meta : MinMeta) × (dst.meta_min rel ≡ some meta)
      × (live_matches dst recorded rel target meta ≡ true)
unfolding destination_matches
matches→meta dst recorded rel target h = elim (Option-cases (dst.meta_min rel)) [
  | inl e ↦ absurd (true≢false (sym h ∙ rw (e, destination_matches)))
  | inr (meta, e) ↦ (meta, e, sym (rw (e, destination_matches)) ∙ h)
]

live_matches_target :
    (dst : Live) (recorded : ManifestEntry) (rel : RelPath) (target : List ℕ) (meta : MinMeta)
    → live_matches dst recorded rel (some target) meta ≡ true
    → (found : List ℕ) × (dst.read_link rel ≡ some found) × (components found ≡ components target)
unfolding live_matches
live_matches_target dst recorded rel target meta h = elim (Option-cases (dst.read_link rel)) [
  | inl e ↦ ground arith
  | inr (live, e) ↦ (live, e, path_text_eq→eq live target (ground arith))
]

metadata_matches→fields :
    (entry : Entry) (recorded : ManifestEntry)
    → metadata_matches entry recorded ≡ true
    → (entry.len ≡ recorded.size)
      × (entry.mtime.unix_seconds ≡ recorded.mtime_s)
      × (entry.mtime.nanoseconds ≡ recorded.mtime_ns)
      × (permissions entry.mode ≡ permissions recorded.mode)
unfolding metadata_matches
metadata_matches→fields entry recorded h = (
  ground arith,
  int_eq→eq entry.mtime.unix_seconds recorded.mtime_s (ground arith),
  ground arith,
  ground arith,
)

kind_matches→SameKind :
    (kind : EntryKind) (k : Kind) (live : FileTypeKind)
    → same_kinds kind k ≡ true
    → kind_matches k live ≡ true
    → SameKind kind live
kind_matches→SameKind EntryKind.file Kind.file FileTypeKind.file _ h = refl
kind_matches→SameKind EntryKind.dir Kind.dir FileTypeKind.dir _ h = refl
kind_matches→SameKind (EntryKind.symlink _) Kind.symlink FileTypeKind.symlink _ h = refl
kind_matches→SameKind _ _ _ c h = ground arith

module _ (src dst : Live) (entry : Entry) (checksum : Bool) where
  -- The fields that the three kinds share, from the two tests.
  shared :
      (recorded : ManifestEntry) (kind : EntryKind) (target : Option (List ℕ))
      → metadata_matches entry recorded ≡ true
      → destination_matches dst recorded entry.rel target ≡ true
      → ((meta : MinMeta) → kind_matches recorded.kind meta.kind ≡ true → SameKind kind meta.kind)
      → ((meta : MinMeta)
          → Matched recorded meta
          → entry.len ≡ recorded.size
          → LenAgrees entry meta kind)
      → ((meta : MinMeta)
          → live_matches dst recorded entry.rel target meta ≡ true
          → TargetAgrees dst entry kind)
      → (meta : MinMeta) × UpToDate dst entry kind meta
  shared recorded kind target m d same lens links =
      let (meta, e, l) = matches→meta dst recorded entry.rel target d in
      let matched = live_matches-Matched dst recorded entry.rel target meta l in
      let (size, seconds, nanoseconds, mode) = metadata_matches→fields entry recorded m in
      (
        meta,
        record {
          found = e;
          same_kind = same meta matched.kind;
          seconds = matched.seconds ∙ sym seconds;
          nanoseconds = matched.nanoseconds ∙ sym nanoseconds;
          mode = matched.mode ∙ sym mode;
          len = lens meta matched size;
          target = links meta l;
        },
      )

  classify_recorded_skip :
      (recorded : ManifestEntry) (kind : EntryKind) (k : Kind)
      → recorded.kind ≡ k
      → classify_recorded src dst entry checksum recorded kind k ≡ skip
      → (meta : MinMeta) × UpToDate dst entry kind meta
  unfolding classify_recorded action_from_match
  classify_recorded_skip recorded EntryKind.dir Kind.dir e h =
      shared recorded EntryKind.dir none (ground arith) (ground arith)
        (λ meta q.
          kind_matches→SameKind EntryKind.dir Kind.dir meta.kind refl
            (ap (λ (x : Kind). kind_matches x meta.kind) (sym e) ∙ q))
        (λ _ _ _. tt) (λ _ _. tt)
  classify_recorded_skip recorded (EntryKind.symlink target) Kind.symlink e h =
      shared recorded (EntryKind.symlink target) (some target) (ground arith) (ground arith)
        (λ meta q.
          kind_matches→SameKind (EntryKind.symlink target) Kind.symlink meta.kind refl
            (ap (λ (x : Kind). kind_matches x meta.kind) (sym e) ∙ q))
        (λ _ _ _. tt) (λ meta l. live_matches_target dst recorded entry.rel target meta l)
  classify_recorded_skip recorded EntryKind.file Kind.file e h =
      shared recorded EntryKind.file none (ground arith) (ground arith)
        (λ meta q.
          kind_matches→SameKind EntryKind.file Kind.file meta.kind refl
            (ap (λ (x : Kind). kind_matches x meta.kind) (sym e) ∙ q))
        (λ meta matched size. matched.len (ap is_file_kind e) ∙ sym size) (λ _ _. tt)
  classify_recorded_skip recorded _ _ e h = ground arith

  not_skip : ¬ (Action.copy ≡ skip)
  not_skip h = cc

  -- A skip: the path is recorded, and the live destination has the kind, the time, the
  -- permissions, for a file the length and for a link a target of the components that the source
  -- entry has.
  pub classify_skip :
      (manifest : Manifest)
      → classify src dst entry checksum manifest ≡ skip
      → (recorded : ManifestEntry) × (lookup entry.rel manifest.entries ≡ some recorded)
        × (meta : MinMeta) × UpToDate dst entry entry.kind meta
  unfolding classify
  classify_skip manifest h = elim (Option-cases (lookup entry.rel manifest.entries)) [
    | inl e ↦ absurd (not_skip (sym (rw (e, classify)) ∙ h))
    | inr (recorded, e) ↦
        let g : classify_recorded src dst entry checksum recorded entry.kind recorded.kind ≡ skip =
          sym (rw (e, classify)) ∙ h in
        let (meta, fresh) = classify_recorded_skip recorded entry.kind recorded.kind refl g in
        (recorded, e, meta, fresh)
  ]
