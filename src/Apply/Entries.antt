-- ===== src/Apply/Entries.antt =====
-- apply.rs: one entry of each kind. The calls that apply owners, modes, attributes and times, those
-- that make hard links, and the copy of a file's bytes (copy.rs, io/uring.rs) are parameters.
use ripsync.Prelude.{
  ℕ, Bool, true, false, Option, none, some, List, [], ◌∷◌, ◌++◌, if◌then◌else◌, ok, err, ◌>>=◌,
}
use ripsync.Errors.{Outcome, io, containment}
use ripsync.Paths.{RelPath, starts_with}
use ripsync.Entries.{Entry, Action, copy, update}
use ripsync.Disk.{AbsPath, Disk, parent, file_name}
use ripsync.Meta.{absolute, contained_target}
use ripsync.Apply.{FsyncMode, ApplyOptions}

pub record Calls (S : Type 0) : Type 0 where
  pub set_owner_group : S → AbsPath → Entry → Outcome (Unit {0}) × S
  pub set_mode : S → AbsPath → Entry → Outcome (Unit {0}) × S
  pub copy_xattrs : S → AbsPath → AbsPath → Outcome (Unit {0}) × S
  pub set_mtime : S → AbsPath → Entry → Outcome (Unit {0}) × S
  pub sync_all : S → AbsPath → S
  -- `copy_file_into` and `copy_file_into_sized`, and the bytes written.
  pub copy_file : S → AbsPath → AbsPath → Outcome ℕ × S
  pub copy_batch : S → List (AbsPath × AbsPath × ℕ) → List (Outcome ℕ) × S
  pub hard_link : S → AbsPath → AbsPath → Bool × S
  -- The error of a removal that just failed is `NotFound`.
  pub not_found : S → AbsPath → Bool
  -- The names beside a target that are drawn for a file, and that stand for a link.
  pub tmp_name : ℕ → List ℕ
  pub link_tmp_name : List ℕ → List ℕ

abbrev pub is_dir_entry : Option Bool → Bool
is_dir_entry (some true) = true
is_dir_entry (some false) = false
is_dir_entry none = false

-- `?` on a call that also changes the state, which an error keeps.
abbrev pub then_on {κ} :
    {S : Type 0} {A : Type 0} {B : Type κ} → Outcome A × S → (A → S → Outcome B × S) → Outcome B × S
then_on (ok a, s) next = next a s
then_on (err e, s) next = (err e, s)

module _ {S : Type 0} (disk : Disk S) (calls : Calls S) (opts : ApplyOptions)
    (src root : AbsPath) where
  -- `Ok(())` or an error by whether a call succeeded.
  abbrev pub checked : AbsPath → Bool × S → Outcome (Unit {0}) × S
  checked path (true, s) = (ok tt, s)
  checked path (false, s) = (err (io (absolute path)), s)

  -- The same, where a failure removes the temporary file.
  abbrev pub checked_or_remove : AbsPath → AbsPath → Bool × S → Outcome (Unit {0}) × S
  checked_or_remove tmp target (true, s) = (ok tt, s)
  checked_or_remove tmp target (false, s) = (err (io (absolute target)), (disk.remove_file s tmp).1)

  abbrev pub tmp_beside : AbsPath → Option AbsPath → S → Outcome (AbsPath × AbsPath) × S
  tmp_beside target none s = (err (containment (absolute target)), s)
  tmp_beside target (some dir) s =
      let drawn = disk.random s in (ok (target, dir ++ (calls.tmp_name drawn.0 ∷ [])), drawn.1)

  unfoldable pub prepare_paths : Entry → S → Outcome (AbsPath × AbsPath) × S
  unfolding contained_target parent
  prepare_paths entry s =
      then_on (contained_target disk root (root ++ entry.rel) s, s)
        (λ target s. tmp_beside target (parent target) s)

  -- A directory in the way of a file.
  abbrev pub clear_dir : AbsPath → AbsPath → S → Outcome (Unit {0}) × S
  clear_dir tmp target s =
      if is_dir_entry (disk.is_dir_at s target)
      then checked_or_remove tmp target (disk.remove_dir_all s target)
      else (ok tt, s)

  abbrev pub synced : AbsPath → FsyncMode → S → S
  synced tmp FsyncMode.always s = calls.sync_all s tmp
  synced tmp FsyncMode.auto s = s
  synced tmp FsyncMode.never s = s

  unfoldable pub finalize_file : AbsPath → AbsPath → AbsPath → Entry → S → Outcome (Unit {0}) × S
  finalize_file src_path target tmp entry s = then_on (calls.set_owner_group s tmp entry) (λ _ s.
      then_on (calls.set_mode s tmp entry) (λ _ s.
        then_on (calls.copy_xattrs s src_path tmp) (λ _ s.
          then_on (calls.set_mtime s tmp entry) (λ _ s.
            then_on (clear_dir tmp target (synced tmp opts.fsync s))
              (λ _ s. checked_or_remove tmp target (disk.rename s tmp target))))))

  abbrev pub copied_to : AbsPath → AbsPath → AbsPath → Entry → Outcome ℕ × S → Outcome ℕ × S
  copied_to src_path target tmp entry (err e, s) =
      (err (io (absolute src_path)), (disk.remove_file s tmp).1)
  copied_to src_path target tmp entry (ok bytes, s) =
      then_on (finalize_file src_path target tmp entry s) (λ _ s. (ok bytes, s))

  unfoldable pub copy_file_atomic : Entry → S → Outcome ℕ × S
  unfolding prepare_paths finalize_file
  copy_file_atomic entry s = then_on (prepare_paths entry s) (λ (target, tmp) s.
      copied_to (src ++ entry.rel) target tmp entry (calls.copy_file s (src ++ entry.rel) tmp))

  abbrev pub action_for_existing : Entry → S → Action
  action_for_existing entry s = if disk.exists s (root ++ entry.rel) then update else copy

  -- A file or link in the way of a directory.
  abbrev pub clear_file : AbsPath → Option Bool → S → Outcome (Unit {0}) × S
  clear_file target none s = (ok tt, s)
  clear_file target (some true) s = (ok tt, s)
  clear_file target (some false) s = checked target (disk.remove_file s target)

  -- `create_directory`: the action to count, or the failure to report.
  unfoldable pub create_directory : Entry → S → Outcome Action × S
  unfolding contained_target
  create_directory entry s =
      let target = root ++ entry.rel in
      then_on (clear_file target (disk.is_dir_at s target) s) (λ _ s1.
        then_on (checked target (disk.create_dir_all s1 target)) (λ _ s2.
          then_on (contained_target disk root target s2, s2)
            (λ contained s3. then_on (calls.set_owner_group s3 contained entry) (λ _ s4.
              then_on (calls.set_mode s4 contained entry) (λ _ s5.
                then_on (calls.copy_xattrs s5 (src ++ entry.rel) contained)
                  (λ _ s6. (ok (action_for_existing entry s), s6)))))))

  -- What stands at the target of a hard link goes.
  abbrev pub clear_any : AbsPath → AbsPath → Option Bool → S → Outcome (Unit {0}) × S
  clear_any tmp target none s = (ok tt, s)
  clear_any tmp target (some true) s = checked_or_remove tmp target (disk.remove_dir_all s target)
  clear_any tmp target (some false) s = checked_or_remove tmp target (disk.remove_file s target)

  abbrev pub inside_root : AbsPath → Outcome AbsPath
  inside_root canonical =
      if starts_with canonical root then ok canonical else err (containment (absolute canonical))

  unfoldable pub create_hardlink : Entry → RelPath → S → Outcome (Unit {0}) × S
  unfolding prepare_paths starts_with
  create_hardlink entry canonical_rel s =
      then_on (disk.canonicalize s (root ++ canonical_rel) >>= inside_root, s)
        (λ canonical s. then_on (prepare_paths entry s) (λ (target, tmp) s.
          then_on (checked tmp (calls.hard_link s canonical tmp)) (λ _ s.
            then_on (clear_any tmp target (disk.is_dir_at s target) s)
              (λ _ s. checked_or_remove tmp target (disk.rename s tmp target)))))

  abbrev pub or_symlink : Option (List ℕ) → List ℕ
  or_symlink (some name) = name
  or_symlink none = 115 ∷ 121 ∷ 109 ∷ 108 ∷ 105 ∷ 110 ∷ 107 ∷ []

  -- `with_file_name`
  abbrev pub with_file_name : Option AbsPath → List ℕ → AbsPath
  with_file_name none name = name ∷ []
  with_file_name (some dir) name = dir ++ (name ∷ [])

  unfoldable pub create_symlink : Entry → List ℕ → S → Outcome (Unit {0}) × S
  unfolding contained_target parent file_name
  create_symlink entry link_target s =
      then_on (contained_target disk root (root ++ entry.rel) s, s)
        (λ target s.
          let tmp_link =
            with_file_name (parent target) (calls.link_tmp_name (or_symlink (file_name target))) in
          then_on
            (checked tmp_link (disk.symlink (disk.remove_file s tmp_link).1 link_target tmp_link))
            (λ _ s.
              then_on
                (if is_dir_entry (disk.is_dir_at s target)
                  then checked target (disk.remove_dir_all s target)
                  else (ok tt, s))
                (λ _ s.
                  then_on (checked_or_remove tmp_link target (disk.rename s tmp_link target))
                    (λ _ s. then_on (calls.set_owner_group s target entry) (λ _ s.
                      then_on (calls.copy_xattrs s (src ++ entry.rel) target)
                        (λ _ s. (ok tt, disk.set_symlink_mtime s target entry.mtime)))))))
