-- ===== src/Verify/Run/Whole.antt =====
-- What a run that finds no mismatch has shown of the two trees.
use mathlib.Core.Bool.{true≢false}
use mathlib.Core.Path.{subst}
use ripsync.Prelude.{
  ℕ, ◌+◌, ◌≡◌, refl, sym, ap, ◌∙◌, arith, true, false, some, List, [], ◌∷◌, ◌++◌, length, All,
  if◌then◌else◌, ok, ◌>>◌, >>=-eq-ok, ok-injective, Bool-cases, ◌⊎◌, inl, inr,
}
use ripsync.Errors.{Outcome}
use ripsync.Paths.{RelPath, path_eq, lookup, insert, contains, starts_with}
use ripsync.Paths.Laws.{path_eq→eq, lookup-insert}
use ripsync.Entries.{Entry, SyncPlan}
use ripsync.Plan.{ripsync_dir, retain, rels, collect}
use ripsync.Verify.{all, MetadataOptions, VerificationSummary, Tree, compare_loop}
use ripsync.Verify.Clean.{Verified, compare_loop-Verified}
use ripsync.Verify.Run.{link_problems, extra_loop, verify_found, verify}
use ripsync.Verify.Run.Links.{Linked, link_problems-Follows}

append_nil : {A : Type 0} (xs ys : List A) → xs ++ ys ≡ [] → (xs ≡ []) × (ys ≡ [])
append_nil [] ys h = (refl, h)
append_nil (x ∷ xs) ys h = cc

cons≢nil : {A : Type 0} {x : A} {xs : List A} → ¬ (x ∷ xs ≡ [])
cons≢nil h = cc

extra_loop-present :
    (checkpoint : ℕ → Outcome (Unit {0})) (n : ℕ) (source : List RelPath) (entries : List Entry)
    → extra_loop checkpoint n source entries ≡ ok []
    → All (λ (entry : Entry). contains source entry.rel ≡ true) entries
unfolding extra_loop
extra_loop-present checkpoint n source [] h = tt
extra_loop-present checkpoint n source (entry ∷ entries) h =
    let (others, passed, rest) =
      >>=-eq-ok (checkpoint n >> extra_loop checkpoint (n + 1) source entries) _ h in
    let (_, _, later) = >>=-eq-ok (checkpoint n) _ passed in
    elim (Bool-cases (contains source entry.rel)) [
      | inl t ↦ (t, extra_loop-present checkpoint (n + 1) source entries (later ∙ rw t at rest))
      | inr f ↦ absurd (cons≢nil (ok-injective (rw f at rest)))
    ]

-- A tree without `.ripsync` has no path below it, and neither has a map of its entries.
contains-retain :
    (entries : List Entry) (p : RelPath)
    → contains (rels (retain entries)) p ≡ true
    → starts_with p ripsync_dir ≡ false
unfolding contains retain
contains-retain [] p h = ground arith
contains-retain (entry ∷ entries) p h = elim (Bool-cases (starts_with entry.rel ripsync_dir)) [
  | inl t ↦ contains-retain entries p (rw t at h)
  | inr f ↦ elim (Bool-cases (path_eq entry.rel p)) [
    | inl same ↦
        subst (λ (q : RelPath). starts_with q ripsync_dir ≡ false) (path_eq→eq entry.rel p same) f
    | inr differs ↦ contains-retain entries p (rw (f, differs) at h)
  ]
]

lookup-collect :
    (acc : List (RelPath × Entry)) (entries : List Entry) (p : RelPath) (found : Entry)
    → lookup p (collect acc entries) ≡ some found
    → (lookup p acc ≡ some found) ⊎ (contains (rels entries) p ≡ true)
unfolding collect contains
lookup-collect acc [] p found h = inl h
lookup-collect acc (entry ∷ entries) p found h =
    elim (lookup-collect (insert entry.rel entry acc) entries p found h) [
      | inr later ↦ inr (ground arith)
      | inl now ↦ elim (Bool-cases (path_eq entry.rel p)) [
        | inl t ↦ inr (ground arith)
        | inr f ↦ inl (ground (arith, lookup-insert entry.rel p entry acc))
      ]
    ]

lookup-collect-retain :
    (entries : List Entry) (p : RelPath) (found : Entry)
    → lookup p (collect [] (retain entries)) ≡ some found
    → starts_with p ripsync_dir ≡ false
unfolding lookup
lookup-collect-retain entries p found h = elim (lookup-collect [] (retain entries) p found h) [
  | inl now ↦ cc
  | inr later ↦ contains-retain entries p later
]

module _ (src dst : Tree) (metadata : MetadataOptions) where
  -- A destination with the entries `found`, of which those of `.ripsync` do not count, has the
  -- source's entries, and files linked there are linked here.
  pub record Mirrors (source found : List Entry) : Type 0 where
    pub entries : All (Verified src dst metadata (collect [] (retain found))) source
    pub present : All (λ (entry : Entry). contains (rels source) entry.rel ≡ true) (retain found)
    pub links : metadata.hard_links ≡ true → Linked (collect [] (retain found)) source

  All-Verified :
      (destination : List (RelPath × Entry)) (source : List Entry) (p : RelPath)
      → All (Verified src dst metadata destination) source
      → contains (rels source) p ≡ true
      → (found : Entry) × (lookup p destination ≡ some found)
  unfolding contains
  All-Verified destination [] p verified h = absurd (true≢false (sym h))
  All-Verified destination (entry ∷ source) p verified h = elim (Bool-cases (path_eq entry.rel p)) [
    | inl t ↦ (
      verified.0.entry,
      ap (λ (q : RelPath). lookup q destination) (sym (path_eq→eq entry.rel p t))
          ∙ verified.0.found,
    )
    | inr f ↦ All-Verified destination source p verified.1 (rw f at h)
  ]

  module _ (checkpoint : ℕ → Outcome (Unit {0})) (src_walk dst_walk : Outcome (List Entry))
      (plan : SyncPlan) where
    verify_found-Mirrors :
        (source found : List Entry) (summary : VerificationSummary)
        → verify_found src dst metadata checkpoint src_walk dst_walk all plan source found
          ≡ ok summary
        → summary.mismatches ≡ []
        → Mirrors source found × (summary.checked ≡ length source)
    unfolding verify_found
    verify_found-Mirrors source found summary h clean =
        let destination = collect [] (retain found) in
        let (problems, compared, h1) =
          >>=-eq-ok (compare_loop src dst metadata checkpoint 1 destination source) _ h in
        let (others, passed, h2) =
          >>=-eq-ok (extra_loop checkpoint (1 + length source) (rels source) (retain found)) _ h1 in
        let is = ok-injective h2 in
        let (no_problems, no_more) =
          append_nil problems _ (ap (λ (s : VerificationSummary). s.mismatches) is ∙ clean) in
        let (no_links, no_others) =
          append_nil (if metadata.hard_links then link_problems destination [] source else [])
            others no_more in
        (
          record {
            entries =
                compare_loop-Verified src dst metadata checkpoint 1 destination source
                  (compared ∙ ap ok no_problems);
            present =
                extra_loop-present checkpoint (1 + length source) (rels source) (retain found)
                  (passed ∙ ap ok no_others);
            links = λ t. (link_problems-Follows destination [] source (rw t at no_links)).1;
          },
          sym (ap (λ (s : VerificationSummary). s.checked) is),
        )

    -- A check of all entries that reports no mismatch: both walks gave their entries, each of the
    -- source's was checked and is in the destination with its kind, permissions and exact time, the
    -- owner, group and attributes where they count, for a link a target of the same components and
    -- for a file its length, digest and, where they count, sparse blocks; the destination has no
    -- others outside `.ripsync`, and where hard links count, files of one inode of the source are of
    -- one inode of the destination.
    pub verify-Mirrors :
        (summary : VerificationSummary)
        → verify src dst metadata checkpoint src_walk dst_walk plan all ≡ ok summary
        → summary.mismatches ≡ []
        → (source found : List Entry) × (src_walk ≡ ok source)
          × (dst_walk ≡ ok found)
          × Mirrors source found
          × (summary.checked ≡ length source)
    unfolding verify
    verify-Mirrors summary h clean =
        let (source, walked, h1) = >>=-eq-ok (checkpoint 0 >> src_walk) _ h in
        let (_, _, source_is) = >>=-eq-ok (checkpoint 0) _ walked in
        let (found, found_is, h2) = >>=-eq-ok dst_walk _ h1 in
        let (mirrors, checked) = verify_found-Mirrors source found summary h2 clean in
        (source, found, source_is, found_is, mirrors, checked)

    -- A source with an entry at or below `.ripsync`, which a plan leaves out, never passes a check
    -- of all entries.
    pub verify-ripsync_dir :
        (source : List Entry) (p : RelPath) (summary : VerificationSummary)
        → src_walk ≡ ok source
        → contains (rels source) p ≡ true
        → starts_with p ripsync_dir ≡ true
        → verify src dst metadata checkpoint src_walk dst_walk plan all ≡ ok summary
        → ¬ (summary.mismatches ≡ [])
    verify-ripsync_dir source p summary walked has below h clean =
        let (source', found, walked', _, mirrors, _) = verify-Mirrors summary h clean in
        let same = ok-injective (sym walked ∙ walked') in
        let (entry, at) =
          All-Verified (collect [] (retain found)) source' p mirrors.entries
            (subst (λ (es : List Entry). contains (rels es) p ≡ true) same has) in
        true≢false (sym below ∙ lookup-collect-retain found p entry at)
