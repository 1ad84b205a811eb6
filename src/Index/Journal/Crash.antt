-- ===== src/Index/Journal/Crash.antt =====
-- index.rs: what a crash leaves of the manifest, and what later runs make of it.
use ripsync.Prelude.{
  ℕ, ◌+◌, ◌-◌, ◌≤◌, ◌<◌, ◌≡◌, refl, ap, sym, ◌∙◌, arith, false, Option, none, some, List, [], ◌∷◌,
  ◌++◌, length, take, drop, list_eq, if◌then◌else◌, length-append, length-take, take-append-drop,
  All,
}
use mathlib.Core.List.{append_assoc, append-nil}
use ripsync.Errors.{Outcome}
use ripsync.Paths.{RelPath, path_eq, lookup}
use ripsync.Paths.Laws.{lookup-insert, lookup-remove}
use ripsync.Index.{ManifestEntry, Change, upsert, delete}
use ripsync.Index.Journal.{Format, Map, replay_journal, append_changes, apply_change}
use ripsync.Index.Journal.Records.{
  IsLawful, Fits, Writes, header, read_record_filled, read_record_short,
}
use ripsync.Index.Journal.Replay.{
  records, apply_changes, append_changes-records, replay_journal-tail,
}

-- What a change, and the last of several changes, says of a path.
abbrev effect : RelPath → Change → Option (Option ManifestEntry)
effect p (upsert q entry) = if path_eq q p then some (some entry) else none
effect p (delete q) = if path_eq q p then some none else none

abbrev or_earlier :
    Option (Option ManifestEntry) → Option (Option ManifestEntry) → Option (Option ManifestEntry)
or_earlier none earlier = earlier
or_earlier (some r) earlier = some r

abbrev last_effect : RelPath → List Change → Option (Option ManifestEntry)
last_effect p [] = none
last_effect p (change ∷ changes) = or_earlier (last_effect p changes) (effect p change)

abbrev or_before : Option (Option ManifestEntry) → Option ManifestEntry → Option ManifestEntry
or_before none before = before
or_before (some r) before = r

lookup-apply_change :
    (p : RelPath) (change : Change) (entries : Map)
    → lookup p (apply_change change entries) ≡ or_before (effect p change) (lookup p entries)
lookup-apply_change p (upsert q entry) entries = lookup-insert q p entry entries ∙ ground arith
lookup-apply_change p (delete q) entries = lookup-remove q p entries ∙ ground arith

lookup-apply_changes :
    (p : RelPath) (changes : List Change) (entries : Map)
    → lookup p (apply_changes changes entries)
      ≡ or_before (last_effect p changes) (lookup p entries)
lookup-apply_changes p [] entries = refl
lookup-apply_changes p (change ∷ changes) entries =
    lookup-apply_changes p changes (apply_change change entries)
    ∙ ap (or_before (last_effect p changes)) (lookup-apply_change p change entries)
    ∙ ground arith

module _ (f : Format) (lawful : IsLawful f) where
  -- A crash between the rename of a compacted snapshot and the removal of the old journal is
  -- harmless: replaying the journal once more over the snapshot, which already has its changes,
  -- gives every path the same record, where digests have 32 bytes and each payload fits its length
  -- field and is read back by `bincode`.
  pub lookup-replay_twice :
      (changes : List Change) (entries : Map) (p : RelPath)
      → All (Fits f) changes
      → (loaded : Map) × (replay_journal f (records f changes) (apply_changes changes entries)
          ≡ some loaded)
        × (lookup p loaded ≡ lookup p (apply_changes changes entries))
  lookup-replay_twice changes entries p fits = (
    apply_changes changes (apply_changes changes entries),
    ap (λ b. replay_journal f b (apply_changes changes entries))
          (sym (append-nil (records f changes)))
        ∙ replay_journal-tail f lawful changes [] (apply_changes changes entries) fits
            (read_record_short f [] (omega arith)),
    lookup-apply_changes p changes (apply_changes changes entries)
        ∙ ap (or_before (last_effect p changes)) (lookup-apply_changes p changes entries)
        ∙ same (last_effect p changes)
        ∙ sym (lookup-apply_changes p changes entries),
  )
    where
      same :
          (e : Option (Option ManifestEntry))
          → or_before e (or_before e (lookup p entries)) ≡ or_before e (lookup p entries)
      same none = refl
      same (some r) = refl

  -- Changes that a later run appends behind a record whose payload was cut short are lost: the
  -- next load makes the changes before the cut and none of theirs, if they fill up the payload
  -- and the digest of what fills it is not that of the payload, where `bincode` writes the later
  -- changes, digests have 32 bytes and each payload fits its length field and is read back by `bincode`.
  pub replay_journal_lost :
      (before more : List Change) (torn : Change) (j : ℕ) (entries : Map)
      → All (Fits f) before
      → All (Fits f) more
      → All (Writes f) more
      → Fits f torn
      → j < length (f.serialize torn)
      → length (f.serialize torn) ≤ j + length (records f more)
      → list_eq
          (f.blake3_hash
            (take j (f.serialize torn) ++ take (length (f.serialize torn) - j) (records f more)))
          (f.blake3_hash (f.serialize torn))
        ≡ false
      → replay_journal f
          (append_changes f
            (records f before ++ header f lawful torn (take j (f.serialize torn)))
            more).0
          entries
        ≡ some (apply_changes before entries)
  replay_journal_lost before more torn j entries fits fits' writes fit hj room wrong =
      ap (λ (r : List ℕ × Outcome (Unit {0})). replay_journal f r.0 entries)
        (append_changes-records f (records f before ++ header f lawful torn front) more fits'
          writes)
      ∙ ap (λ b. replay_journal f b entries)
          (append_assoc (records f before) (header f lawful torn front) (records f more)
            ∙ ap (◌++◌ (records f before)) regroup)
      ∙ replay_journal-tail f lawful before (header f lawful torn ((front ++ back) ++ rest)) entries
          fits (read_record_filled f lawful torn front back rest fit len wrong)
    where
      front : List ℕ
      front = take j (f.serialize torn)

      back : List ℕ
      back = take (length (f.serialize torn) - j) (records f more)

      rest : List ℕ
      rest = drop (length (f.serialize torn) - j) (records f more)

      len : length (front ++ back) ≡ length (f.serialize torn)
      len = omega (
        arith,
        length-append front back,
        length-take j (f.serialize torn),
        length-take (length (f.serialize torn) - j) (records f more),
      )

      regroup :
          header f lawful torn front ++ records f more
          ≡ header f lawful torn ((front ++ back) ++ rest)
      regroup =
          ap (◌++◌ (header f lawful torn front))
            (sym (take-append-drop (length (f.serialize torn) - j) (records f more)))
          ∙ simp append_assoc
