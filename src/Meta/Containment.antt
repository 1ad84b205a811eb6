-- ===== src/Meta/Containment.antt =====
-- What a path that passed the checks is.
use ripsync.Prelude.{
  ℕ, ◌≡◌, refl, sym, arith, true, some, List, [], ◌∷◌, ◌++◌, ok, err, >>=-eq-ok, ok-injective,
  Bool-cases, Option-cases, inl, inr,
}
use mathlib.Core.Path.{subst}
use ripsync.Errors.{Error, Outcome}
use ripsync.Paths.{starts_with}
use ripsync.Disk.{AbsPath, Disk, parent, file_name}
use ripsync.Meta.{contained_in, contained_target}

err≢ok : {A : Type 0} {e : Error} {a : A} → ¬ (◌≡◌ {A = Outcome A} (err e) (ok a))
err≢ok h = cc

-- A name more leaves a path below its root.
starts_with-append :
    (path root : AbsPath) (name : List ℕ)
    → starts_with path root ≡ true
    → starts_with (path ++ (name ∷ [])) root ≡ true
unfolding starts_with
starts_with-append path [] name h = refl
starts_with-append [] (y ∷ ys) name h = ground arith
starts_with-append (x ∷ xs) (y ∷ ys) name h = ground (arith, starts_with-append xs ys name)

-- What `contained_target` says of the path that it gives for a target.
pub record Contained {S : Type 0} (disk : Disk S) (root target path : AbsPath) (s : S)
    : Type 0 where
  pub above : AbsPath
  pub dir : AbsPath
  pub name : List ℕ
  pub named : file_name target ≡ some name
  pub parent_of : parent target ≡ some above
  pub canonical : disk.canonicalize s above ≡ ok dir
  pub below : starts_with dir root ≡ true
  pub path_eq : path ≡ dir ++ (name ∷ [])
  pub path_below : starts_with path root ≡ true

module _ {S : Type 0} (disk : Disk S) where
  -- A path that `contained_target` gives lies below the root: it is the target's name in the
  -- directory whose path, links resolved, is that of the target's parent, and that path lies
  -- below the root.
  pub contained_target-Contained :
      (root target path : AbsPath) (s : S)
      → contained_target disk root target s ≡ ok path
      → Contained disk root target path s
  unfolding contained_target
  contained_target-Contained root target path s h = elim (Option-cases (parent target)) [
    | inl n ↦ absurd (err≢ok (rw (n, contained_target) at h))
    | inr (above, e) ↦
        let h' : contained_in disk root target (some above) s ≡ ok path =
          rw (e, contained_target) at h in
        let (dir, canonical, tested) = >>=-eq-ok (disk.canonicalize s above) _ h' in
        elim (Bool-cases (starts_with dir root)) [
          | inr f ↦ absurd (err≢ok (rw f at tested))
          | inl t ↦ elim (Option-cases (file_name target)) [
            | inl n ↦ absurd (err≢ok (rw (t, n) at tested))
            | inr (name, named) ↦
                let is : dir ++ (name ∷ []) ≡ path = ok-injective (rw (t, named) at tested) in
                record {
                  above = above;
                  dir = dir;
                  name = name;
                  named = named;
                  parent_of = e;
                  canonical = canonical;
                  below = t;
                  path_eq = sym is;
                  path_below =
                      subst (λ (p : AbsPath). starts_with p root ≡ true) is
                        (starts_with-append dir root name t);
                }
          ]
        ]
  ]
