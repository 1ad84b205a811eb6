-- ===== src/Index/Snapshot/Store.antt =====
-- index.rs: what `load` gives after `persist_after_plan`.
use ripsync.Prelude.{
  ℕ, ◌≡◌, refl, sym, ap, ◌∙◌, arith, ◌==◌, ==_iff, Bool, true, Option, none, some, List, [], ◌∷◌,
  ◌++◌, length, All, ok, err, ◌>>◌, >>=-eq-ok, Bool-cases, Option-cases, inl, inr,
}
use mathlib.Core.Path.{subst}
use mathlib.Core.List.{append-nil}
use ripsync.Errors.{Error, Outcome}
use ripsync.Entries.{SyncPlan}
use ripsync.Index.{Manifest, format_version, Change}
use ripsync.Index.Classify.{Live}
use ripsync.Index.Journal.{
  Format, Map, replay_journal, to_le_bytes, append_changes, needs_compaction,
}
use ripsync.Index.Journal.Records.{IsLawful, Fits, read_record_short}
use ripsync.Index.Journal.Replay.{
  records, apply_changes, apply_changes-append, records-append, All-append, append_changes_ok,
  replay_journal-tail,
}
use ripsync.Index.Snapshot.{
  Files, Manifests, from_destination, upserts, deletes, with_journal, current, parsed, load,
  SaveCalls, journal_removed, snapshot_renamed, save_snapshot, AppendCalls, bytes_of, append_to,
  append, compacted, saved, persist_upserts, persist_loaded, persist_after_plan,
}
use ripsync.Index.Snapshot.Recorded.{Recorded, expected-Recorded}
use ripsync.Paths.{RelPath, lookup}
use ripsync.Index.Snapshot.Changes.{
  upserts-apply_changes, deletes-apply_changes, changes_from, changes_of, expected_from, expected,
  version-from_destination,
}

err≢ok : {A : Type 0} {e : Error} {a : A} → ¬ (◌≡◌ {A = Outcome A} (err e) (ok a))
err≢ok h = cc

failed : {e : Error} {b c : Files} → ¬ (◌≡◌ {A = Outcome (Unit {0}) × Files} (err e, b) (ok tt, c))
failed h = err≢ok (ap (λ (r : Outcome (Unit {0}) × Files). r.0) h)

none≢some : {A : Type 0} {a : A} → ¬ (none ≡ some a)
none≢some h = cc

some-injective : {A : Type 0} {a b : A} → some a ≡ some b → a ≡ b
some-injective h = cc

module _ (f : Format) (manifests : Manifests) where
  journal_removed-Ok :
      (files after : Files) (o : Outcome (Unit {0}))
      → journal_removed f manifests files o ≡ (ok tt, after)
      → after ≡ record files { journal = none }
  journal_removed-Ok files after (err e) h = absurd (failed h)
  journal_removed-Ok files after (ok _) h = ap (λ (r : Outcome (Unit {0}) × Files). r.1) (sym h)

  snapshot_renamed-Ok :
      (calls : SaveCalls f manifests) (manifest : Manifest) (files after : Files)
      (o : Outcome (Unit {0}))
      → snapshot_renamed f manifests calls manifest files o ≡ (ok tt, after)
      → after ≡ record { snapshot = some (manifests.serialize manifest); journal = none }
  snapshot_renamed-Ok calls manifest files after (err e) h = absurd (failed h)
  snapshot_renamed-Ok calls manifest files after (ok _) h =
      journal_removed-Ok (record files { snapshot = some (manifests.serialize manifest) }) after
        (calls.contain_journal >> calls.remove_journal) h

  of_version :
      (manifest : Manifest) (journal : Option (List ℕ))
      → manifest.version ≡ format_version
      → current f manifests (some manifest) journal ≡ with_journal f manifests manifest journal
  of_version manifest journal version = rw ((==_iff manifest.version format_version).1 version)

  abbrev pub Reads : Manifest → Type 0
  Reads manifest = manifests.deserialize (manifests.serialize manifest) ≡ some manifest

  -- A snapshot that was written whole is read back.
  load-save_snapshot :
      (calls : SaveCalls f manifests) (manifest : Manifest) (files after : Files)
      → manifests.deserialize (manifests.serialize manifest) ≡ some manifest
      → manifest.version ≡ format_version
      → save_snapshot f manifests calls manifest files ≡ (ok tt, after)
      → load f manifests true after ≡ some manifest
  unfolding save_snapshot load
  load-save_snapshot calls manifest files after reads version h =
      ap (load f manifests true) (snapshot_renamed-Ok calls manifest files after _ h)
      ∙ ap (λ (m : Option Manifest). current f manifests m none) reads
      ∙ of_version manifest none version

  records_nil : (changes : List Change) → records f changes ≡ [] → changes ≡ []
  unfolding to_le_bytes
  records_nil [] h = refl
  records_nil (change ∷ changes) h = cc

  module _ (lawful : IsLawful f) where
    -- A journal of whole records, or none, makes its changes.
    with_journal-records :
        (manifest : Manifest) (journal : Option (List ℕ)) (changes : List Change)
        → All (Fits f) changes
        → bytes_of f manifests journal ≡ records f changes
        → with_journal f manifests manifest journal
          ≡ some (record manifest { entries = apply_changes changes manifest.entries })
    with_journal-records manifest none changes fits h =
        ap
          (λ (cs : List Change).
            some (record manifest { entries = apply_changes cs manifest.entries }))
          (sym (records_nil changes (sym h)))
    with_journal-records manifest (some bytes) changes fits h =
        let replayed : replay_journal f bytes manifest.entries
            ≡ some (apply_changes changes manifest.entries) =
          ap (λ b. replay_journal f b manifest.entries) (h ∙ sym (append-nil (records f changes)))
          ∙ replay_journal-tail f lawful changes [] manifest.entries fits
              (read_record_short f [] (omega arith)) in
        rw (replayed, with_journal)

    append_to-records :
        (calls : AppendCalls f manifests) (before changes : List Change) (files after : Files)
        (o : Outcome (Unit {0}))
        → All (Fits f) changes
        → bytes_of f manifests files.journal ≡ records f before
        → append_to f manifests calls changes files o ≡ (ok tt, after)
        → (after.snapshot ≡ files.snapshot)
          × (bytes_of f manifests after.journal ≡ records f (before ++ changes))
    append_to-records calls before changes files after (err e) fits h k = absurd (failed k)
    append_to-records calls before changes files after (ok _) fits h k =
        let is = ap (λ (r : Outcome (Unit {0}) × Files). r.1) (sym k) in
        let done =
          >>=-eq-ok (append_changes f (bytes_of f manifests files.journal) changes).1
            (λ _. calls.sync_data) (ap (λ (r : Outcome (Unit {0}) × Files). r.0) k) in
        (
          ap (λ (files : Files). files.snapshot) is,
          ap (λ (files : Files). bytes_of f manifests files.journal) is
              ∙ append_changes_ok f (bytes_of f manifests files.journal) changes done.1
              ∙ ap (λ b. b ++ records f changes) h
              ∙ sym (records-append f before changes),
        )

    append-records :
        (calls : AppendCalls f manifests) (before changes : List Change) (files after : Files)
        → All (Fits f) changes
        → bytes_of f manifests files.journal ≡ records f before
        → append f manifests calls changes files ≡ (ok tt, after)
        → (after.snapshot ≡ files.snapshot)
          × (bytes_of f manifests after.journal ≡ records f (before ++ changes))
    unfolding append
    append-records calls before [] files after fits h k =
        let is = ap (λ (r : Outcome (Unit {0}) × Files). r.1) (sym k) in
        (
          ap (λ (files : Files). files.snapshot) is,
          ap (λ (files : Files). bytes_of f manifests files.journal) is
              ∙ h
              ∙ ap (records f) (sym (append-nil before)),
        )
    append-records calls before (change ∷ changes) files after fits h k =
        append_to-records calls before (change ∷ changes) files after _ fits h k

    -- What a snapshot and the journal behind it were when they gave a manifest.
    loaded_from :
        (snapshot journal : Option (List ℕ)) (manifest : Manifest)
        → current f manifests (parsed f manifests snapshot) journal ≡ some manifest
        → (base : Manifest) × (parsed f manifests snapshot ≡ some base)
          × (base.version ≡ format_version)
          × (with_journal f manifests base journal ≡ some manifest)
    loaded_from snapshot journal manifest h = elim (Option-cases (parsed f manifests snapshot)) [
      | inl n ↦
          absurd
            (none≢some (sym (ap (λ (m : Option Manifest). current f manifests m journal) n) ∙ h))
      | inr (base, e) ↦
          let found = sym (ap (λ (m : Option Manifest). current f manifests m journal) e) ∙ h in
          elim (Bool-cases (base.version == format_version)) [
            | inl t ↦ (base, e, (==_iff base.version format_version).0 t, rw t at found)
            | inr other ↦ absurd (none≢some (rw other at found))
          ]
    ]

    module _ (appending : AppendCalls f manifests) (saving : SaveCalls f manifests)
        (before : List Change) (fits_before : All (Fits f) before) (files : Files)
        (holds : bytes_of f manifests files.journal ≡ records f before) where
      appended :
          (manifest : Manifest) (changes : List Change) (after : Files)
          → All (Fits f) changes
          → load f manifests true files ≡ some manifest
          → append f manifests appending changes files ≡ (ok tt, after)
          → (manifest.version ≡ format_version)
            × (load f manifests true after
                ≡ some (record manifest { entries = apply_changes changes manifest.entries }))
      unfolding load
      appended manifest changes after fits h k =
          let (base, e, version, journal) = loaded_from files.snapshot files.journal manifest h in
          let is =
            some-injective
              (sym (with_journal-records base files.journal before fits_before holds) ∙ journal) in
          let (same, more) = append-records appending before changes files after fits holds k in
          (
            ap (λ (m : Manifest). m.version) (sym is) ∙ version,
            ap (λ (b : Option (List ℕ)). current f manifests (parsed f manifests b) after.journal)
                  same
                ∙ ap (λ (m : Option Manifest). current f manifests m after.journal) e
                ∙ of_version base after.journal version
                ∙ with_journal-records base after.journal (before ++ changes)
                    (All-append f before changes fits_before fits) more
                ∙ ap (λ (entries : Map). some (record base { entries = entries }))
                    (apply_changes-append before changes base.entries)
                ∙ ap
                    (λ (m : Manifest).
                      some (record m { entries = apply_changes changes m.entries }))
                    is,
          )

      compacted-load :
          (manifest : Manifest) (changes : List Change) (r : Outcome (Unit {0}) × Files)
          (after : Files)
          → Reads (record manifest { entries = apply_changes changes manifest.entries })
          → All (Fits f) changes
          → load f manifests true files ≡ some manifest
          → append f manifests appending changes files ≡ r
          → compacted f manifests saving
              (record manifest { entries = apply_changes changes manifest.entries })
              r
            ≡ (ok tt, after)
          → load f manifests true after
            ≡ some (record manifest { entries = apply_changes changes manifest.entries })
      compacted-load manifest changes (err e, written) after reads fits h k done =
          absurd (failed done)
      compacted-load manifest changes (ok _, written) after reads fits h k done =
          let (version, loads) = appended manifest changes written fits h k in
          elim (Bool-cases (
            needs_compaction (length (bytes_of f manifests written.journal))
              (length (bytes_of f manifests written.snapshot)))) [
                | inl t ↦
                    load-save_snapshot saving
                      (record manifest { entries = apply_changes changes manifest.entries }) written
                      after reads version (rw t at done)
                | inr other ↦
                    ap (load f manifests true)
                      (ap (λ (r : Outcome (Unit {0}) × Files). r.1) (sym (rw other at done)))
                    ∙ loads
              ]

      module _ (live : Live) (hash : Bool) (plan : SyncPlan) (after : Files) where
        first-load :
            (o : Outcome Manifest)
            → from_destination live hash plan ≡ o
            → ((manifest : Manifest) → o ≡ ok manifest → Reads manifest)
            → saved f manifests saving o files ≡ (ok tt, after)
            → (manifest : Manifest) × (o ≡ ok manifest)
              × (load f manifests true after ≡ some manifest)
        first-load (err e) is reads done = absurd (failed done)
        first-load (ok manifest) is reads done = (
          manifest,
          refl,
          load-save_snapshot saving manifest files after (reads manifest refl)
              (version-from_destination live hash plan manifest is) done,
        )

        next-load :
            (loaded : Manifest) (o : Outcome (List Change × Map))
            → load f manifests true files ≡ some loaded
            → upserts live hash plan.actions loaded.entries ≡ o
            → All (Fits f) (changes_from plan o)
            → ((manifest : Manifest) → expected_from plan loaded o ≡ ok manifest → Reads manifest)
            → persist_upserts f manifests appending saving plan loaded o files ≡ (ok tt, after)
            → (manifest : Manifest) × (expected_from plan loaded o ≡ ok manifest)
              × (load f manifests true after ≡ some manifest)
        next-load loaded (err e) h is fits reads done = absurd (failed done)
        next-load loaded (ok (changes, entries)) h is fits reads done =
            let all = changes ++ (deletes plan.deletions entries).0 in
            let same : (deletes plan.deletions entries).1 ≡ apply_changes all loaded.entries =
              deletes-apply_changes plan.deletions entries
              ∙ ap (apply_changes (deletes plan.deletions entries).0)
                  (upserts-apply_changes live hash plan.actions loaded.entries entries changes is)
              ∙ sym (
                  apply_changes-append changes (deletes plan.deletions entries).0 loaded.entries) in
            let made : expected_from plan loaded (ok (changes, entries))
                ≡ ok (record loaded { entries = apply_changes all loaded.entries }) =
              ap (λ (entries : Map). ok (record loaded { entries = entries })) same in
            (
              record loaded { entries = apply_changes all loaded.entries },
              made,
              compacted-load loaded all (append f manifests appending all files) after
                  (reads (record loaded { entries = apply_changes all loaded.entries }) made) fits h
                  refl
                  (subst
                    (λ (entries : Map).
                      compacted f manifests saving (record loaded { entries = entries })
                        (append f manifests appending all files)
                      ≡ (ok tt, after))
                    same done),
            )

        loaded-load :
            (loaded : Option Manifest)
            → load f manifests true files ≡ loaded
            → All (Fits f) (changes_of live hash plan loaded)
            → ((manifest : Manifest)
                → expected live hash plan loaded ≡ ok manifest
                → Reads manifest)
            → persist_loaded f manifests appending saving live hash plan loaded files
              ≡ (ok tt, after)
            → (manifest : Manifest) × (expected live hash plan loaded ≡ ok manifest)
              × (load f manifests true after ≡ some manifest)
        loaded-load none h fits reads done =
            first-load (from_destination live hash plan) refl reads done
        loaded-load (some loaded) h fits reads done =
            next-load loaded (upserts live hash plan.actions loaded.entries) h refl fits reads done

        -- A `persist_after_plan` that succeeds leaves a manifest that the next `load` gives, whether
        -- the journal was compacted or not. Where nothing could be loaded before, each path with an
        -- action has there the record of its last action's entry, as the destination has it, and
        -- no other path has one. Else a path that the plan deletes has no record, one with an action
        -- that is no skip has that of its last such action's entry, and any other path has the
        -- record from before. Before the run the journal held whole records, digests have 32 bytes,
        -- `bincode` reads back the manifest that is left and each change, and each change fits its
        -- length field.
        pub load-persist_after_plan :
            All (Fits f) (changes_of live hash plan (load f manifests true files))
            → ((manifest : Manifest)
                → expected live hash plan (load f manifests true files) ≡ ok manifest
                → Reads manifest)
            → persist_after_plan f manifests appending saving live hash plan true files
              ≡ (ok tt, after)
            → (manifest : Manifest) × (load f manifests true after ≡ some manifest)
              × ((p : RelPath)
                  → Recorded live hash plan
                      (load f manifests true files)
                      p
                      (lookup p manifest.entries))
        unfolding persist_after_plan
        load-persist_after_plan fits reads done =
            let (manifest, is, loads) =
              loaded-load (load f manifests true files) refl fits reads done in
            (
              manifest,
              loads,
              λ p. expected-Recorded live hash plan (load f manifests true files) manifest p is,
            )

      -- Where the journal cannot be removed after the snapshot was renamed into its place, the next
      -- `load` reads the new snapshot with the records of the old journal over its own, also where
      -- nothing of the old files could be loaded. The old journal held whole records of changes
      -- that fit their length field and that `bincode` reads back, digests have 32 bytes, and the
      -- new manifest has format version 3 and is read back by `bincode`.
      pub load-snapshot_renamed :
          (manifest : Manifest) (e : Error)
          → manifest.version ≡ format_version
          → Reads manifest
          → saving.contain_journal >> saving.remove_journal ≡ err e
          → load f manifests true (snapshot_renamed f manifests saving manifest files (ok tt)).1
            ≡ some (record manifest { entries = apply_changes before manifest.entries })
      unfolding load
      load-snapshot_renamed manifest e version reads stopped =
          ap
            (λ (o : Outcome (Unit {0})).
              load f manifests true
                (journal_removed f manifests
                  (record files { snapshot = some (manifests.serialize manifest) }) o).1)
            stopped
          ∙ ap (λ (m : Option Manifest). current f manifests m files.journal) reads
          ∙ of_version manifest files.journal version
          ∙ with_journal-records manifest files.journal before fits_before holds
