-- ===== src/Verify/Clean.antt =====
-- Entries that the check passes.
use mathlib.Core.Bool.{true≢false}
use ripsync.Prelude.{
  ℕ, ◌+◌, ◌≡◌, refl, sym, ap, ◌∙◌, arith, ◌==◌, ==_iff, Bool, true, false, not, ◌&&◌, ◌||◌, Option,
  none, some, List, [], ◌∷◌, ◌++◌, All, if◌then◌else◌, list_eq→eq, ok, ◌>>◌, >>=-eq-ok,
  ok-injective, Option-cases, inl, inr,
}
use ripsync.Prelude.Int.{int_eq→eq}
use ripsync.Errors.{Outcome}
use ripsync.Paths.{RelPath, lookup}
use ripsync.Entries.{EntryKind, Entry, permissions}
use ripsync.Paths.Texts.{components, path_text_eq→eq}
use ripsync.Verify.{
  sparse_differs, blocks_eq, text_eq, MetadataOptions, Detail, missing, VerificationMismatch, Tree,
  same_discriminant, time_eq, digests_eq, compare_content, or_attributes, compare_found,
  compare_entry, reported, compare_loop,
}

-- What the content of two entries of one kind has in common.
abbrev pub SameContent :
    Tree → Tree → MetadataOptions → RelPath → ℕ → ℕ → EntryKind → EntryKind → Type 0
SameContent src dst metadata rel m n EntryKind.file k =
    (k ≡ EntryKind.file)
    × (m ≡ n)
    × (digest : List ℕ) × (src.live.hash_file rel ≡ some digest)
    × (dst.live.hash_file rel ≡ some digest)
    × (metadata.sparse ≡ true → src.sparse_blocks rel ≡ dst.sparse_blocks rel)
SameContent src dst metadata rel m n EntryKind.dir k = k ≡ EntryKind.dir
SameContent src dst metadata rel m n (EntryKind.symlink target) k =
    (other : List ℕ) × (k ≡ EntryKind.symlink other) × (components target ≡ components other)

-- A source entry is in the destination with all that counts.
pub record Verified (src dst : Tree) (metadata : MetadataOptions)
    (destination : List (RelPath × Entry)) (source : Entry) : Type 0 where
  pub entry : Entry
  pub found : lookup source.rel destination ≡ some entry
  pub mode : permissions source.mode ≡ permissions entry.mode
  pub seconds : source.mtime.unix_seconds ≡ entry.mtime.unix_seconds
  pub nanoseconds : source.mtime.nanoseconds ≡ entry.mtime.nanoseconds
  pub owner : metadata.owner ≡ true → source.uid ≡ entry.uid
  pub group : metadata.group ≡ true → source.gid ≡ entry.gid
  pub attributes :
      (metadata.xattrs || metadata.acls) ≡ true
      → src.extended_attributes source.rel ≡ dst.extended_attributes source.rel
  pub content : SameContent src dst metadata source.rel source.len entry.len source.kind entry.kind

some≢none : {A : Type 0} {a : A} → ¬ (◌≡◌ {A = Outcome (Option A)} (ok (some a)) (ok none))
some≢none h = cc

digests_eq-ok :
    (a b : Option (List ℕ))
    → digests_eq a b ≡ ok true
    → (digest : List ℕ) × (a ≡ some digest) × (b ≡ some digest)
digests_eq-ok none b h = ground arith
digests_eq-ok (some x) none h = ground arith
digests_eq-ok (some x) (some y) h = (x, refl, ap some (sym (list_eq→eq x y (ok-injective h))))

guarded :
    (same : Bool) (detail : Detail) (rest : Option Detail)
    → ◌≡◌ {A = Outcome (Option Detail)} (ok (if not same then some detail else rest)) (ok none)
    → (same ≡ true) × (rest ≡ none)
guarded true detail rest h = (refl, ok-injective h)
guarded false detail rest h = absurd (some≢none h)

-- A test that passes, and one that does not report.
passes :
    (b : Bool) (detail : Detail) (rest : Outcome (Option Detail))
    → (if not b then ok (some detail) else rest) ≡ ok none
    → (b ≡ true) × (rest ≡ ok none)
passes true detail rest h = (refl, h)
passes false detail rest h = absurd (some≢none h)

goes_on :
    (b : Bool) (detail : Detail) (rest : Outcome (Option Detail))
    → (if b then ok (some detail) else rest) ≡ ok none
    → (b ≡ false) × (rest ≡ ok none)
goes_on true detail rest h = absurd (some≢none h)
goes_on false detail rest h = (refl, h)

-- Where a property counts, and its test does not report, the values are equal.
counts : (on : Bool) (a b : ℕ) → (on && not (a == b)) ≡ false → on ≡ true → a ≡ b
counts on a b h e = ground arith

blocks_eq→eq : (a b : Option ℕ) → blocks_eq a b ≡ true → a ≡ b
blocks_eq→eq none none h = refl
blocks_eq→eq (some a) (some b) h = ap some ((==_iff a b).0 h)
blocks_eq→eq none (some b) h = absurd (true≢false (sym h))
blocks_eq→eq (some a) none h = absurd (true≢false (sym h))

text_eq→eq : (a b : Option (List ℕ)) → text_eq a b ≡ true → a ≡ b
text_eq→eq none none h = refl
text_eq→eq (some a) (some b) h = ap some (list_eq→eq a b h)
text_eq→eq none (some b) h = absurd (true≢false (sym h))
text_eq→eq (some a) none h = absurd (true≢false (sym h))

unreported :
    (on same : Bool) (detail : Detail)
    → (if on && not same then some detail else none) ≡ none
    → on ≡ true
    → same ≡ true
unreported true true detail h e = refl
unreported true false detail h e = cc
unreported false same detail h e = absurd (true≢false (sym e))

tested_len :
    (t same : Bool) (tested : Outcome Bool)
    → (if t then tested else ok false) ≡ ok same
    → same ≡ true
    → (t ≡ true) × (tested ≡ ok true)
tested_len true same tested h e = (refl, h ∙ ap ok e)
tested_len false same tested h e = absurd (true≢false (sym e ∙ sym (ok-injective h)))

module _ (src dst : Tree) (metadata : MetadataOptions) where
  compare_content_same :
      (source entry : Entry) (k l : EntryKind)
      → same_discriminant k l ≡ true
      → compare_content src dst metadata source entry k l ≡ ok none
      → SameContent src dst metadata source.rel source.len entry.len k l
  unfolding compare_content
  compare_content_same source entry EntryKind.file EntryKind.file _ h =
      let (same, tested, rest) =
        >>=-eq-ok
          (if source.len == entry.len
            then digests_eq (src.live.hash_file source.rel) (dst.live.hash_file source.rel)
            else ok false)
          _ h in
      let (equal, sparse) = guarded same _ _ rest in
      let (len, digests) = tested_len (source.len == entry.len) same _ tested equal in
      let (digest, s, d) =
        digests_eq-ok (src.live.hash_file source.rel) (dst.live.hash_file source.rel) digests in
      (
        refl,
        ground arith,
        digest,
        s,
        d,
        λ e. blocks_eq→eq _ _ (unreported metadata.sparse _ sparse_differs sparse e),
      )
  compare_content_same source entry (EntryKind.symlink a) (EntryKind.symlink b) _ h =
      (b, refl, path_text_eq→eq a b (ground arith))
  compare_content_same source entry EntryKind.dir EntryKind.dir _ h = refl
  compare_content_same source entry _ _ e h = ground arith

  or_attributes-none :
      (source : Entry) (detail : Option Detail)
      → or_attributes src dst metadata source detail ≡ none
      → (detail ≡ none)
        × ((metadata.xattrs || metadata.acls) ≡ true
            → src.extended_attributes source.rel ≡ dst.extended_attributes source.rel)
  or_attributes-none source none h =
      (refl, λ e. text_eq→eq _ _ (unreported (metadata.xattrs || metadata.acls) _ _ h e))
  or_attributes-none source (some detail) h = ground arith

  -- An entry that `compare_entry` has nothing to say of.
  compare_found-Verified :
      (destination : List (RelPath × Entry)) (source entry : Entry)
      → lookup source.rel destination ≡ some entry
      → compare_found src dst metadata source entry ≡ ok none
      → Verified src dst metadata destination source
  unfolding compare_found
  compare_found-Verified destination source entry found h =
      let (kind, h1) = passes (same_discriminant source.kind entry.kind) _ _ h in
      let (mode, h2) = passes (permissions source.mode == permissions entry.mode) _ _ h1 in
      let (time, h3) = passes (time_eq source.mtime entry.mtime) _ _ h2 in
      let (owner, h4) = goes_on (metadata.owner && not (source.uid == entry.uid)) _ _ h3 in
      let (group, h5) = goes_on (metadata.group && not (source.gid == entry.gid)) _ _ h4 in
      let (detail, compared, attributes) =
        >>=-eq-ok (compare_content src dst metadata source entry source.kind entry.kind) _ h5 in
      let (clean, same) = or_attributes-none source detail (ok-injective attributes) in
      record {
        owner = counts metadata.owner source.uid entry.uid owner;
        group = counts metadata.group source.gid entry.gid group;
        attributes = same;
        entry = entry;
        found = found;
        mode = (==_iff (permissions source.mode) (permissions entry.mode)).0 mode;
        seconds = int_eq→eq source.mtime.unix_seconds entry.mtime.unix_seconds (ground arith);
        nanoseconds = ground arith;
        content =
            compare_content_same source entry source.kind entry.kind kind (compared ∙ ap ok clean);
      }

  compare_entry-Verified :
      (destination : List (RelPath × Entry)) (source : Entry)
      → compare_entry src dst metadata source (lookup source.rel destination) ≡ ok none
      → Verified src dst metadata destination source
  unfolding compare_entry
  compare_entry-Verified destination source h =
      elim (Option-cases (lookup source.rel destination)) [
        | inl n ↦ absurd (some≢none {a = missing} (sym (rw (n, compare_entry)) ∙ h))
        | inr (entry, e) ↦
            compare_found-Verified destination source entry e (sym (rw (e, compare_entry)) ∙ h)
      ]

  reported-nil :
      (rel : RelPath) (problem : Option Detail) (others : List VerificationMismatch)
      → reported src dst metadata rel problem ++ others ≡ []
      → (problem ≡ none) × (others ≡ [])
  reported-nil rel none others h = (refl, h)
  reported-nil rel (some detail) others h = cc

  -- A first loop that reports nothing: each entry of the source that it went through is in the
  -- destination with its kind, permissions and exact time, the owner, group and attributes that
  -- count, for a link a target of the same components, and for a file its length and digest and,
  -- where they count, its sparse blocks.
  pub compare_loop-Verified :
      (checkpoint : ℕ → Outcome (Unit {0})) (n : ℕ) (destination : List (RelPath × Entry))
      (entries : List Entry)
      → compare_loop src dst metadata checkpoint n destination entries ≡ ok []
      → All (Verified src dst metadata destination) entries
  unfolding compare_loop
  compare_loop-Verified checkpoint n destination [] h = tt
  compare_loop-Verified checkpoint n destination (entry ∷ entries) h =
      let (problem, compared, rest) =
        >>=-eq-ok
          (checkpoint n >> compare_entry src dst metadata entry (lookup entry.rel destination)) _
          h in
      let (passed, _, found) = >>=-eq-ok (checkpoint n) _ compared in
      let (others, later, all) =
        >>=-eq-ok (compare_loop src dst metadata checkpoint (n + 1) destination entries) _ rest in
      let (clean, empty) = reported-nil entry.rel problem others (ok-injective all) in
      (
        compare_entry-Verified destination entry (found ∙ ap ok clean),
        compare_loop-Verified checkpoint (n + 1) destination entries (later ∙ ap ok empty),
      )
