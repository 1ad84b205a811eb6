-- ===== src/Meta/Tests.antt =====
-- The containment of a target on a disk where the directory `2` of the root is a link to `3`.
use ripsync.Prelude.{refl, Bool, true, false, none, some, [], ◌∷◌, if◌then◌else◌, ok, list_eq}
use ripsync.Disk.{AbsPath, Disk}
use ripsync.Meta.{contained_target}
use ripsync.Meta.Containment.{Contained, contained_target-Contained}

abbrev linked : AbsPath
linked = (1 ∷ []) ∷ (2 ∷ []) ∷ []

abbrev resolved : AbsPath
resolved = (1 ∷ []) ∷ (3 ∷ []) ∷ []

abbrev paths_eq : AbsPath → AbsPath → Bool
paths_eq [] [] = true
paths_eq (x ∷ xs) (y ∷ ys) = if list_eq x y then paths_eq xs ys else false
paths_eq [] (_ ∷ _) = false
paths_eq (_ ∷ _) [] = false

abbrev linking_disk : Disk (Unit {0})
linking_disk = record {
  exists = λ s path. true;
  canonicalize = λ s path. ok (if paths_eq path linked then resolved else path);
  is_dir_at = λ s path. some true;
  is_symlink_at = λ s path. some false;
  read = λ s path. none;
  create_dir_all = λ s path. (true, s);
  remove_dir = λ s path. (false, s);
  remove_dir_all = λ s path. (false, s);
  remove_file = λ s path. (false, s);
  write = λ s path bytes. (false, s);
  rename = λ s from path. (false, s);
  symlink = λ s target path. (false, s);
  set_mode = λ s path mode. s;
  set_mtime = λ s path time. s;
  set_symlink_mtime = λ s path time. s;
  random = λ s. (0, s);
}

contained_target-Contained_example :
    Contained linking_disk
      ((1 ∷ []) ∷ [])
      ((1 ∷ []) ∷ (2 ∷ []) ∷ (9 ∷ []) ∷ [])
      ((1 ∷ []) ∷ (3 ∷ []) ∷ (9 ∷ []) ∷ [])
      tt
unfolding contained_target list_eq
contained_target-Contained_example =
    contained_target-Contained linking_disk ((1 ∷ []) ∷ []) ((1 ∷ []) ∷ (2 ∷ []) ∷ (9 ∷ []) ∷ [])
      ((1 ∷ []) ∷ (3 ∷ []) ∷ (9 ∷ []) ∷ []) tt refl
