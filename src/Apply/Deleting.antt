-- ===== src/Apply/Deleting.antt =====
-- apply.rs: the deletion of one entry, and when it may change the destination.
use ripsync.Prelude.{
  ℕ, zero, suc, ◌≤◌, ◌<◌, ◌≡◌, refl, sym, ap, ◌∙◌, arith, length, take, Option-cases, Bool, true,
  false, Option, none, some, List, [], ◌∷◌, ◌++◌, if◌then◌else◌, ok, err, Result-cases, Bool-cases,
  ◌⊎◌, inl, inr,
}
use mathlib.Core.Bool.{true≢false}
use mathlib.Core.List.{append_assoc}
use ripsync.Errors.{Outcome, io}
use ripsync.Paths.{RelPath}
use ripsync.Disk.{AbsPath, Disk}
use ripsync.Meta.{absolute, check_relative, path_of, contained_target}
use ripsync.Meta.Containment.{Contained, contained_target-Contained}
use ripsync.Apply.Entries.{Calls}

module _ {S : Type 0} (disk : Disk S) (calls : Calls S) (root : AbsPath) where
  -- Of the ancestors of `rel` below `prefix`, some is a link or cannot be read.
  unfoldable pub has_symlink_ancestor : AbsPath → RelPath → S → Bool
  has_symlink_ancestor prefix [] s = false
  has_symlink_ancestor prefix (name ∷ []) s = false
  has_symlink_ancestor prefix (name ∷ next ∷ rel) s =
      let rest = has_symlink_ancestor (prefix ++ (name ∷ [])) (next ∷ rel) s in
      elim (disk.is_symlink_at s (prefix ++ (name ∷ []))) [
        | none ↦ true
        | some is_link ↦ if is_link then true else rest
      ]

  -- The second removal, where the directory is not empty.
  abbrev pub or_remove_all : AbsPath → Bool × S → Bool × S
  or_remove_all target (true, s) = (true, s)
  or_remove_all target (false, s) = disk.remove_dir_all s target

  abbrev pub remove_entry : Bool → AbsPath → S → Bool × S
  remove_entry true target s = or_remove_all target (disk.remove_dir s target)
  remove_entry false target s = disk.remove_file s target

  abbrev pub removed : AbsPath → Bool × S → Outcome (Unit {0}) × S
  removed target (true, s) = (ok tt, s)
  removed target (false, s) =
      (if calls.not_found s target then ok tt else err (io (absolute target)), s)

  abbrev pub delete_contained : Bool → Outcome AbsPath → S → Outcome (Unit {0}) × S
  delete_contained is_dir (err e) s = (err e, s)
  delete_contained is_dir (ok target) s = removed target (remove_entry is_dir target s)

  abbrev pub delete_present : RelPath → Bool → Option Bool → S → Outcome (Unit {0}) × S
  delete_present rel is_dir none s = (ok tt, s)
  delete_present rel is_dir (some _) s =
      delete_contained is_dir (contained_target disk root (root ++ rel) s) s

  abbrev pub delete_checked : RelPath → Bool → Outcome (Unit {0}) → S → Outcome (Unit {0}) × S
  delete_checked rel is_dir (err e) s = (err e, s)
  delete_checked rel is_dir (ok _) s =
      if has_symlink_ancestor root rel s
      then (ok tt, s)
      else delete_present rel is_dir (disk.is_symlink_at s (root ++ rel)) s

  unfoldable pub delete_entry : RelPath → Bool → S → Outcome (Unit {0}) × S
  unfolding has_symlink_ancestor contained_target check_relative
  delete_entry rel is_dir s = delete_checked rel is_dir (check_relative (path_of rel)) s

  snd-removed : (target : AbsPath) (r : Bool × S) → (removed target r).1 ≡ r.1
  snd-removed target (true, s) = refl
  snd-removed target (false, s) = refl

  -- No directory between `prefix` and the path `rel` below it is a link, and each could be asked.
  abbrev pub Unlinked : AbsPath → RelPath → S → Type 0
  Unlinked prefix rel s =
      (k : ℕ) → 1 ≤ k → k < length rel → disk.is_symlink_at s (prefix ++ take k rel) ≡ some false

  Unlinked-cons :
      (prefix : AbsPath) (name next : List ℕ) (rel : RelPath) (s : S)
      → disk.is_symlink_at s (prefix ++ (name ∷ [])) ≡ some false
      → Unlinked (prefix ++ (name ∷ [])) (next ∷ rel) s
      → Unlinked prefix (name ∷ next ∷ rel) s
  Unlinked-cons prefix name next rel s here rest zero low high = absurd (omega arith)
  Unlinked-cons prefix name next rel s here rest (suc zero) low high = here
  Unlinked-cons prefix name next rel s here rest (suc (suc k)) low high =
      ap (disk.is_symlink_at s) (sym (append_assoc prefix (name ∷ []) (next ∷ take k rel)))
      ∙ rest (suc k) (omega arith) (omega arith)

  has_symlink_ancestor-Unlinked :
      (prefix : AbsPath) (rel : RelPath) (s : S)
      → has_symlink_ancestor prefix rel s ≡ false
      → Unlinked prefix rel s
  unfolding has_symlink_ancestor
  has_symlink_ancestor-Unlinked prefix [] s h k low high = absurd (omega arith)
  has_symlink_ancestor-Unlinked prefix (name ∷ []) s h k low high = absurd (omega arith)
  has_symlink_ancestor-Unlinked prefix (name ∷ next ∷ rel) s h k low high =
      elim (Option-cases (disk.is_symlink_at s (prefix ++ (name ∷ [])))) [
        | inl n ↦ absurd (true≢false (rw (n, has_symlink_ancestor) at h))
        | inr (is_link, e) ↦ elim (Bool-cases is_link) [
          | inl t ↦ absurd (true≢false (rw (e, t, has_symlink_ancestor) at h))
          | inr f ↦
              Unlinked-cons prefix name next rel s (e ∙ ap some f)
                (has_symlink_ancestor-Unlinked (prefix ++ (name ∷ [])) (next ∷ rel) s
                  (rw (e, f, has_symlink_ancestor) at h))
                k low high
        ]
      ]

  -- A deletion that may have changed the state `s`: no ancestor of the path is a link, and what was
  -- removed is a path below the root that stands for the one that was planned.
  pub record Removal (rel : RelPath) (is_dir : Bool) (s after : S) : Type 0 where
    pub path : AbsPath
    pub unlinked : Unlinked root rel s
    pub contained : Contained disk root (root ++ rel) path s
    pub after_eq : after ≡ (remove_entry is_dir path s).1

  present-Removal :
      (rel : RelPath) (is_dir : Bool) (found : Option Bool) (s : S)
      → has_symlink_ancestor root rel s ≡ false
      → ((delete_present rel is_dir found s).1 ≡ s)
        ⊎ Removal rel is_dir s (delete_present rel is_dir found s).1
  present-Removal rel is_dir none s h = inl refl
  present-Removal rel is_dir (some b) s h =
      elim (Result-cases (contained_target disk root (root ++ rel) s)) [
        | inr (e, f) ↦ inl (ap (λ (o : Outcome AbsPath). (delete_contained is_dir o s).1) f)
        | inl (path, t) ↦ inr (record {
          path = path;
          unlinked = has_symlink_ancestor-Unlinked root rel s h;
          contained = contained_target-Contained disk root (root ++ rel) path s t;
          after_eq =
              ap (λ (o : Outcome AbsPath). (delete_contained is_dir o s).1) t
              ∙ snd-removed path (remove_entry is_dir path s);
        })
      ]

  checked-Removal :
      (rel : RelPath) (is_dir : Bool) (o : Outcome (Unit {0})) (s : S)
      → ((delete_checked rel is_dir o s).1 ≡ s)
        ⊎ Removal rel is_dir s (delete_checked rel is_dir o s).1
  checked-Removal rel is_dir (err e) s = inl refl
  checked-Removal rel is_dir (ok _) s = elim (Bool-cases (has_symlink_ancestor root rel s)) [
    | inl t ↦ inl (rw t)
    | inr f ↦ rw f (present-Removal rel is_dir (disk.is_symlink_at s (root ++ rel)) s f)
  ]

  -- A deletion leaves the file system as it is, or each directory between the root and its path was
  -- found to be no link and all it changes is what removing one path changes, which lies below the root when links are
  -- resolved and has the name that was planned; for every file system, whatever its calls answer.
  pub delete_entry-Removal :
      (rel : RelPath) (is_dir : Bool) (s : S)
      → ((delete_entry rel is_dir s).1 ≡ s) ⊎ Removal rel is_dir s (delete_entry rel is_dir s).1
  unfolding delete_entry
  delete_entry-Removal rel is_dir s = checked-Removal rel is_dir (check_relative (path_of rel)) s
