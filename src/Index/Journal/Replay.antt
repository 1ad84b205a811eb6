-- ===== src/Index/Journal/Replay.antt =====
-- index.rs: replaying a journal, whole, cut short, or written on behind a cut.
use ripsync.Prelude.{
  ℕ, zero, suc, ◌≤◌, ◌<◌, ◌≡◌, refl, ap, sym, ◌∙◌, arith, none, some, List, [], ◌∷◌, ◌++◌, length,
  take, length-append, lt→ltb, ok, All, Bool-cases, inl, inr, ltb, ◌&&◌,
}
use mathlib.Core.List.{append_assoc, append-nil}
use ripsync.Errors.{Outcome}
use ripsync.Prelude.Words.{u32_mod}
use ripsync.Index.{Change}
use ripsync.Index.Journal.{
  Format, Map, to_le_bytes, read_record, replay_loop, replay_journal, record_of, append_changes,
  apply_change,
}
use ripsync.Index.Journal.Records.{
  IsLawful, Fits, Writes, read_record-record_of, read_record_torn, read_record_short,
}

-- The changes one after the other.
abbrev pub apply_changes : List Change → Map → Map
apply_changes [] entries = entries
apply_changes (change ∷ changes) entries = apply_changes changes (apply_change change entries)

pub apply_changes-append :
    (xs ys : List Change) (entries : Map)
    → apply_changes (xs ++ ys) entries ≡ apply_changes ys (apply_changes xs entries)
apply_changes-append [] ys entries = refl
apply_changes-append (x ∷ xs) ys entries = apply_changes-append xs ys (apply_change x entries)

module _ (f : Format) where
  abbrev pub records : List Change → List ℕ
  records [] = []
  records (change ∷ changes) = record_of f change ++ records changes

  -- `append` writes the records in order behind what the journal holds.
  pub append_changes-records :
      (journal : List ℕ) (changes : List Change)
      → All (Fits f) changes
      → All (Writes f) changes
      → append_changes f journal changes ≡ (journal ++ records changes, ok tt)
  unfolding append_changes
  append_changes-records journal [] fits writes = λ i. (sym (append-nil journal) i, ok tt)
  append_changes-records journal (change ∷ changes) fits writes =
      rw (writes.0, lt→ltb (length (f.serialize change)) u32_mod fits.0.0)
        (append_changes-records (journal ++ record_of f change) changes fits.1 writes.1 ∙ λ i.
          (append_assoc journal (record_of f change) (records changes) i, ok tt))

  -- Where `append` succeeds, it has written all records.
  pub append_changes_ok :
      (journal : List ℕ) (changes : List Change)
      → (append_changes f journal changes).1 ≡ ok tt
      → (append_changes f journal changes).0 ≡ journal ++ records changes
  unfolding append_changes
  append_changes_ok journal [] h = sym (append-nil journal)
  append_changes_ok journal (change ∷ changes) h =
      elim (Bool-cases (f.can_serialize change && ltb (length (f.serialize change)) u32_mod)) [
        | inl t ↦ rw t (
            append_changes_ok (journal ++ record_of f change) changes (rw t at h)
            ∙ append_assoc journal (record_of f change) (records changes))
        | inr other ↦ cc (rw other at h)
      ]

  pub records-append : (xs ys : List Change) → records (xs ++ ys) ≡ records xs ++ records ys
  records-append [] ys = refl
  records-append (x ∷ xs) ys =
      ap (◌++◌ (record_of f x)) (records-append xs ys)
      ∙ sym (append_assoc (record_of f x) (records xs) (records ys))

  pub All-append :
      (xs ys : List Change) → All (Fits f) xs → All (Fits f) ys → All (Fits f) (xs ++ ys)
  All-append [] ys h k = k
  All-append (x ∷ xs) ys h k = (h.0, All-append xs ys h.1 k)

  module _ (lawful : IsLawful f) where
    replay_loop_step :
        (change : Change) (changes : List Change) (tail : List ℕ) (fuel : ℕ) (entries : Map)
        → Fits f change
        → replay_loop f (suc fuel) (records (change ∷ changes) ++ tail) entries
          ≡ replay_loop f fuel (records changes ++ tail) (apply_change change entries)
    unfolding replay_loop
    replay_loop_step change changes tail fuel entries fits =
        let read : read_record f (records (change ∷ changes) ++ tail)
            ≡ some (change, records changes ++ tail) =
          ap (read_record f) (append_assoc (record_of f change) (records changes) tail)
          ∙ read_record-record_of f lawful change (records changes ++ tail) fits in
        rw (read, replay_loop)

    replay_loop-records :
        (changes : List Change) (tail : List ℕ) (fuel : ℕ) (entries : Map)
        → All (Fits f) changes
        → length changes < fuel
        → read_record f tail ≡ none
        → replay_loop f fuel (records changes ++ tail) entries
          ≡ some (apply_changes changes entries)
    replay_loop-records changes tail zero entries fits hf stop = absurd (omega arith)
    replay_loop-records [] tail (suc fuel) entries fits hf stop =
        unfold replay_loop in rw (stop, replay_loop)
    replay_loop-records (change ∷ changes) tail (suc fuel) entries fits hf stop =
        replay_loop_step change changes tail fuel entries fits.0
        ∙ replay_loop-records changes tail fuel (apply_change change entries) fits.1 (omega arith)
            stop

    length-le-records : (changes : List Change) → length changes ≤ length (records changes)
    unfolding to_le_bytes
    length-le-records [] = omega arith
    length-le-records (change ∷ changes) =
        omega
          (arith, length-le-records changes, length-append (record_of f change) (records changes))

    -- A journal is replayed up to a tail that holds no record.
    pub replay_journal-tail :
        (changes : List Change) (tail : List ℕ) (entries : Map)
        → All (Fits f) changes
        → read_record f tail ≡ none
        → replay_journal f (records changes ++ tail) entries ≡ some (apply_changes changes entries)
    unfolding replay_journal
    replay_journal-tail changes tail entries fits stop =
        replay_loop-records changes tail (suc (length (records changes ++ tail))) entries fits
          (omega (arith, length-le-records changes, length-append (records changes) tail)) stop

    -- Replaying a journal whose last record a crash cut short, wherever, makes exactly the changes
    -- of the whole records, where digests have 32 bytes and each payload fits its length field and
    -- is read back by `bincode`.
    pub replay_journal_torn :
        (changes : List Change) (last : Change) (k : ℕ) (entries : Map)
        → All (Fits f) changes
        → Fits f last
        → k < length (record_of f last)
        → replay_journal f (records changes ++ take k (record_of f last)) entries
          ≡ some (apply_changes changes entries)
    replay_journal_torn changes last k entries fits fit h =
        replay_journal-tail changes (take k (record_of f last)) entries fits
          (read_record_torn f lawful last k fit h)

    -- What `append` writes to a journal of whole records is replayed after what was there, where
    -- digests have 32 bytes, `bincode` writes each change and each payload fits its length field and
    -- is read back by `bincode`.
    pub replay_journal-append_changes :
        (before changes : List Change) (entries : Map)
        → All (Fits f) before
        → All (Fits f) changes
        → All (Writes f) changes
        → replay_journal f (append_changes f (records before) changes).0 entries
          ≡ some (apply_changes changes (apply_changes before entries))
    replay_journal-append_changes before changes entries fits fits' writes =
        ap (λ (r : List ℕ × Outcome (Unit {0})). replay_journal f r.0 entries)
          (append_changes-records (records before) changes fits' writes)
        ∙ ap (λ b. replay_journal f b entries)
            (sym (records-append before changes) ∙ sym (append-nil (records (before ++ changes))))
        ∙ replay_journal-tail (before ++ changes) [] entries (All-append before changes fits fits')
            (read_record_short f [] (omega arith))
        ∙ ap some (apply_changes-append before changes entries)
