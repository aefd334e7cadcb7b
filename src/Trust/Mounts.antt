-- ===== src/Trust/Mounts.antt =====
-- What the mutation does to one container.
use weft_operator.Prelude.{
  String, ◌≡◌, refl, sym, ◌∙◌, Bool, true, false, List, [], ◌∷◌, ◌++◌, append_assoc, append-nil,
  any, arith, Bool-cases, All, In, All-intro, inl, inr,
}
use weft_operator.Trust.{
  VolumeMount, Container, path_covers, mount_covers, bundle_mount, inject_paths, inject_container,
  system_bundle_paths,
}

any-append_left :
    {A : Type 0} (p : A → Bool) (xs ys : List A) → any p xs ≡ true → any p (xs ++ ys) ≡ true
any-append_left p [] ys h = cc
any-append_left p (x ∷ xs) ys h = ground (arith, any-append_left p xs ys)

pub any-append_right :
    {A : Type 0} (p : A → Bool) (xs ys : List A) → any p ys ≡ true → any p (xs ++ ys) ≡ true
any-append_right p [] ys h = h
any-append_right p (x ∷ xs) ys h = ground (arith, any-append_right p xs ys h)

All-map :
    {A : Type 0} {P Q : A → Type 0} (xs : List A) → ((a : A) → P a → Q a) → All P xs → All Q xs
All-map [] f h = tt
All-map (x ∷ xs) f h = (f x h.0, All-map xs f h.1)

mount_covers-append :
    (mounts : List VolumeMount) (m : VolumeMount) (q : String)
    → mount_covers (mounts ++ m ∷ []) q ≡ false
    → mount_covers mounts q ≡ false
unfolding mount_covers
mount_covers-append mounts m q h = elim (Bool-cases (mount_covers mounts q)) [
  | inl e ↦ cc (any-append_left (λ (m : VolumeMount). path_covers m.mount_path q) mounts (m ∷ []) e)
  | inr e ↦ e
]

-- A mount at each of the paths covers that path.
abbrev Covered : List String → Type 0
Covered = All (λ p. path_covers p p ≡ true)

Covered-system : Covered system_bundle_paths
unfolding path_covers
Covered-system = (refl, (refl, (refl, tt)))

inject_paths-keeps :
    (ps : List String) (mounts : List VolumeMount) (q : String)
    → mount_covers mounts q ≡ true
    → mount_covers (inject_paths ps mounts).0 q ≡ true
unfolding inject_paths
inject_paths-keeps [] mounts q h = h
inject_paths-keeps (p ∷ ps) mounts q h = elim (Bool-cases (mount_covers mounts p)) [
  | inl e ↦ rw (e, inject_paths) (inject_paths-keeps ps mounts q h)
  | inr e ↦
      rw (e, inject_paths)
        (inject_paths-keeps ps (mounts ++ bundle_mount p ∷ []) q
          (any-append_left (λ (m : VolumeMount). path_covers m.mount_path q) mounts _ h))
]

inject_paths-covers :
    (ps : List String) (mounts : List VolumeMount)
    → Covered ps
    → (q : String) → In q ps
    → mount_covers (inject_paths ps mounts).0 q ≡ true
unfolding inject_paths
inject_paths-covers [] mounts h q m = absurd m
inject_paths-covers (p ∷ ps) mounts h q m = elim (Bool-cases (mount_covers mounts p)) [
  | inl e ↦
      rw (e, inject_paths)
        (elim m [
          | inl s ↦ inject_paths-keeps ps mounts q (rw s e)
          | inr m' ↦ inject_paths-covers ps mounts h.1 q m'
        ])
  | inr e ↦
      rw (e, inject_paths)
        (elim m [
          | inl s ↦ inject_paths-keeps ps (mounts ++ bundle_mount p ∷ []) q (
              rw s (
                any-append_right (λ (m : VolumeMount). path_covers m.mount_path p) mounts
                  (bundle_mount p ∷ []) (rw h.0 refl)))
          | inr m' ↦ inject_paths-covers ps (mounts ++ bundle_mount p ∷ []) h.1 q m'
        ])
]

-- Where all paths are covered, nothing is mounted.
inject_paths-covered :
    (ps : List String) (mounts : List VolumeMount)
    → All (λ p. mount_covers mounts p ≡ true) ps
    → inject_paths ps mounts ≡ (mounts, false)
unfolding inject_paths
inject_paths-covered [] mounts h = refl
inject_paths-covered (p ∷ ps) mounts h = rw (h.0, inject_paths) (inject_paths-covered ps mounts h.1)

-- A second injection into a container changes nothing.
pub inject_container-inject_container :
    (c : Container) → inject_container (inject_container c).0 ≡ ((inject_container c).0, false)
unfolding inject_container
inject_container-inject_container c = rw (
    inject_paths-covered system_bundle_paths (inject_paths system_bundle_paths c.volume_mounts).0 (
      All-intro _ system_bundle_paths
        (inject_paths-covers system_bundle_paths c.volume_mounts Covered-system)))

-- The mounts that are added: one for each path that no mount before it covers, behind the
-- container's own mounts.
inject_paths-append :
    (ps : List String) (mounts : List VolumeMount)
    → (added : List VolumeMount) × ((inject_paths ps mounts).0 ≡ mounts ++ added)
      × All
          (λ m. (p : String) × In p ps × (m ≡ bundle_mount p) × (mount_covers mounts p ≡ false))
          added
unfolding inject_paths
inject_paths-append [] mounts = ([], sym (append-nil mounts), tt)
inject_paths-append (p ∷ ps) mounts = elim (Bool-cases (mount_covers mounts p)) [
  | inl e ↦
      let (added, same, each) = inject_paths-append ps mounts in
      (added, rw (e, inject_paths) same, All-map added (λ m (q, i, f, n). (q, inr i, f, n)) each)
  | inr e ↦
      let (added, same, each) = inject_paths-append ps (mounts ++ bundle_mount p ∷ []) in
      (
        bundle_mount p ∷ added,
        rw (e, inject_paths) (same ∙ append_assoc mounts _ added),
        (
          (p, inl refl, refl, e),
          All-map added
              (λ m (q, i, f, n). (q, inr i, f, mount_covers-append mounts (bundle_mount p) q n))
              each,
        ),
      )
]

-- A container after the mutation: its name and its environment are as before, every system bundle
-- path is covered by a mount, and its mounts are its own followed by mounts of the bundle at system
-- paths which no mount of its own covers.
pub record IsInjected (c c' : Container) : Type 0 where
  pub name : c'.name ≡ c.name
  pub env : c'.env ≡ c.env
  pub covered : (p : String) → In p system_bundle_paths → mount_covers c'.volume_mounts p ≡ true
  pub added : List VolumeMount
  pub mounts : c'.volume_mounts ≡ c.volume_mounts ++ added
  pub each :
      All
        (λ m.
          (p : String) × In p system_bundle_paths
          × (m ≡ bundle_mount p)
          × (mount_covers c.volume_mounts p ≡ false))
        added

-- The mutation of a container covers every system bundle path and keeps the name, the environment
-- and the container's own mounts: it only adds mounts of the bundle, at system paths that no mount
-- of the container covers.
pub inject_container_lem : (c : Container) → IsInjected c (inject_container c).0
unfolding inject_container
inject_container_lem c =
    let (added, same, each) = inject_paths-append system_bundle_paths c.volume_mounts in
    record {
      name = refl;
      env = refl;
      covered = inject_paths-covers system_bundle_paths c.volume_mounts Covered-system;
      added = added;
      mounts = same;
      each = each;
    }
