-- ===== src/Browse/Volumes.antt =====
-- The handlers of files stay inside the volume that a request names.
use portainer_agent.Base.{
  ◌≡◌, refl, sym, ap, ◌∙◌, subst, Bool, true, false, not, Option, none, some, List, [], ◌∷◌, ◌++◌,
  append_assoc, Str, codes, str_eq, split_on, Lacks, if◌then◌else◌,
}
use portainer_agent.Base.Decimal.{onto_first, split_on-last}
use portainer_agent.Browse.{
  dots, is_valid_path, FilePath, as_given, joined, clean_onto, parent, join_onto,
  system_volume_path, build_path_to_file_inside_volume, Reply, bad_request, opens, lists, removes,
  renames, writes, call_or_bad_request, path_in, with_path, browse_get, browse_list, browse_delete,
  or_empty, with_path_v1, browse_get_v1, browse_list_v1, browse_delete_v1, both, browse_rename,
  browse_rename_v1, write_named, browse_put, browse_put_v1, written,
}
use portainer_agent.Browse.Inside.{Below, join_onto-Below}

-- The name of a volume: one element of a path, and none of the two special ones.
pub record IsName (id : Str) : Type 0 where
  pub one : Lacks b'/' id
  pub filled : str_eq id [] ≡ false
  pub not_this : str_eq id (codes ".") ≡ false
  pub not_parent : str_eq id dots ≡ false

abbrev pub volume_dir : Str → List Str
volume_dir id = codes "_data" ∷ id ∷ system_volume_path

abbrev pub InVolume : Str → FilePath → Type 0
InVolume id (joined path) = Below (volume_dir id) path
InVolume id (as_given path) = ⊥

abbrev InVolumeIf : Str → Option FilePath → Type 0
InVolumeIf id none = Unit
InVolumeIf id (some path) = InVolume id path

-- The file that is written has the name in the folder.
abbrev pub WritesIn : Str → FilePath → Str → Type 0
WritesIn id (joined folder) filename =
    Below (volume_dir id) folder × Below (volume_dir id) (written folder filename)
WritesIn id (as_given folder) filename = ⊥

-- What a handler reads or changes is in the volume.
abbrev pub StaysIn : Str → Reply → Type 0
StaysIn id bad_request = Unit
StaysIn id (opens path) = InVolume id path
StaysIn id (lists path) = InVolume id path
StaysIn id (removes path) = InVolume id path
StaysIn id (renames from to) = InVolume id from × InVolume id to
StaysIn id (writes folder filename) = WritesIn id folder filename

join_onto-name : (dir : List Str) (id : Str) → IsName id → join_onto dir id ≡ id ∷ dir
unfolding join_onto clean_onto
join_onto-name dir id h =
    rw (split_on-last b'/' id h.one) (rw (h.filled, h.not_this, h.not_parent) refl)

join_onto-data : (dir : List Str) → join_onto dir (codes "_data") ≡ codes "_data" ∷ dir
unfolding join_onto clean_onto split_on onto_first str_eq
join_onto-data dir = refl

build-InVolumeIf :
    (id path : Str) → IsName id → InVolumeIf id (build_path_to_file_inside_volume id path)
unfolding build_path_to_file_inside_volume
build-InVolumeIf id path h = by_test (is_valid_path path) refl
  where
    by_test :
        (b : Bool)
        → is_valid_path path ≡ b
        → InVolumeIf id (
            if not b
            then none
            else some (
                joined
                  (join_onto (join_onto (join_onto system_volume_path id) (codes "_data")) path)))
    by_test false e = tt
    by_test true e =
        subst (λ d. Below (volume_dir id) (join_onto d path))
          (sym (
            ap (λ d. join_onto d (codes "_data")) (join_onto-name system_volume_path id h)
            ∙ join_onto-data (id ∷ system_volume_path)))
          (join_onto-Below (volume_dir id) path e)

call-StaysIn :
    (id : Str) (call : FilePath → Reply) (o : Option FilePath)
    → ((path : FilePath) → InVolume id path → StaysIn id (call path))
    → InVolumeIf id o
    → StaysIn id (call_or_bad_request call o)
unfolding call_or_bad_request
call-StaysIn id call none keep h = tt
call-StaysIn id call (some path) keep h = keep path h

both-StaysIn :
    (id : Str) (from to : Option FilePath)
    → InVolumeIf id from
    → InVolumeIf id to
    → StaysIn id (both from to)
unfolding both
both-StaysIn id none to h k = tt
both-StaysIn id (some from) none h k = tt
both-StaysIn id (some from) (some to) h k = (h, k)

writes-StaysIn :
    (id filename : Str) (folder : FilePath)
    → is_valid_path filename ≡ true
    → InVolume id folder
    → StaysIn id (writes folder filename)
unfolding written
writes-StaysIn id filename (as_given folder) valid h = h
writes-StaysIn id filename (joined folder) valid (more, path) =
    let (further, file) = join_onto-Below folder filename valid in
    (
      (more, path),
      (
        further ++ more,
        file ∙ ap (λ f. further ++ f) path ∙ sym (append_assoc further more (volume_dir id)),
      ),
    )

-- The name of an uploaded file has no two dots.
abbrev pub IsBase : Option (Str × Str) → Type 0
IsBase none = Unit
IsBase (some (path, filename)) = is_valid_path filename ≡ true

module _ (id : Str) (name : IsName id) where
  path_in-InVolumeIf : (path : Str) → InVolumeIf id (path_in id path)
  unfolding path_in
  path_in-InVolumeIf path =
      subst
        (λ b.
          InVolumeIf id
            (if not b then build_path_to_file_inside_volume id path else some (as_given path)))
        (sym name.filled) (build-InVolumeIf id path name)

  with_path-StaysIn :
      (call : FilePath → Reply) (path : Option Str)
      → ((p : FilePath) → InVolume id p → StaysIn id (call p))
      → StaysIn id (with_path call id path) × StaysIn id (with_path_v1 call id path)
  unfolding with_path with_path_v1
  with_path-StaysIn call none keep =
      (tt, call-StaysIn id call _ keep (build-InVolumeIf id (or_empty none) name))
  with_path-StaysIn call (some path) keep = (
    call-StaysIn id call _ keep (path_in-InVolumeIf path),
    call-StaysIn id call _ keep (build-InVolumeIf id (or_empty (some path)) name),
  )

  rename-StaysIn :
      (payload : Option (Str × Str))
      → StaysIn id (browse_rename id payload) × StaysIn id (browse_rename_v1 id payload)
  unfolding browse_rename browse_rename_v1
  rename-StaysIn none = (tt, tt)
  rename-StaysIn (some (from, to)) = (
    both-StaysIn id _ _ (path_in-InVolumeIf from) (path_in-InVolumeIf to),
    both-StaysIn id _ _ (build-InVolumeIf id from name) (build-InVolumeIf id to name),
  )

  valid_in :
      (filename : Str) (p : FilePath) → path_in id filename ≡ some p → is_valid_path filename ≡ true
  unfolding path_in build_path_to_file_inside_volume
  valid_in filename p h = by_test (is_valid_path filename) (
      subst
        (λ b.
          (if not b
            then (if not (is_valid_path filename)
                then none
                else some (
                    joined (
                      join_onto (join_onto (join_onto system_volume_path id) (codes "_data"))
                        filename)))
            else some (as_given filename))
          ≡ some p)
        name.filled h)
    where
      by_test :
          (b : Bool)
          → (if not b
              then none
              else some (
                  joined (
                    join_onto
                      (join_onto (join_onto system_volume_path id) (codes "_data"))
                      filename)))
            ≡ some p
          → b ≡ true
      by_test true e = refl
      by_test false e = cc (e)

  write_named-StaysIn :
      (filename : Str) (folder named : Option FilePath)
      → InVolumeIf id folder
      → ((p : FilePath) → named ≡ some p → is_valid_path filename ≡ true)
      → StaysIn id (write_named filename folder named)
  unfolding write_named
  write_named-StaysIn filename none named h k = tt
  write_named-StaysIn filename (some folder) none h k = tt
  write_named-StaysIn filename (some folder) (some p) h k =
      writes-StaysIn id filename folder (k p refl) h

  put-StaysIn : (payload : Option (Str × Str)) → StaysIn id (browse_put id payload)
  unfolding browse_put
  put-StaysIn none = tt
  put-StaysIn (some (path, filename)) =
      write_named-StaysIn filename _ _ (path_in-InVolumeIf path) (valid_in filename)

  put_v1-StaysIn :
      (payload : Option (Str × Str)) → IsBase payload → StaysIn id (browse_put_v1 id payload)
  unfolding browse_put_v1
  put_v1-StaysIn none h = tt
  put_v1-StaysIn (some (path, filename)) h =
      call-StaysIn id _ _ (λ p k. writes-StaysIn id filename p h k) (build-InVolumeIf id path name)

  -- For the name of a volume, whatever paths a request has, each handler of files refuses it or
  -- reads, lists, removes, renames and writes files of this volume only; the first version of the
  -- upload does so for a file name without two dots, as the standard library gives it.
  pub handlers-StaysIn :
      (path : Option Str) (renaming upload upload_v1 : Option (Str × Str))
      → IsBase upload_v1
      → (StaysIn id (browse_get id path) × StaysIn id (browse_get_v1 id path))
        × (StaysIn id (browse_list id path) × StaysIn id (browse_list_v1 id path))
        × (StaysIn id (browse_delete id path) × StaysIn id (browse_delete_v1 id path))
        × (StaysIn id (browse_rename id renaming) × StaysIn id (browse_rename_v1 id renaming))
        × (StaysIn id (browse_put id upload) × StaysIn id (browse_put_v1 id upload_v1))
  unfolding browse_get browse_get_v1 browse_list browse_list_v1 browse_delete browse_delete_v1
  handlers-StaysIn path renaming upload upload_v1 h = (
    with_path-StaysIn opens path (λ p k. k),
    with_path-StaysIn lists path (λ p k. k),
    with_path-StaysIn removes path (λ p k. k),
    rename-StaysIn renaming,
    (put-StaysIn upload, put_v1-StaysIn upload_v1 h),
  )

outside_dir :
    join_onto (join_onto system_volume_path dots) (codes "_data")
    ≡ codes "_data" ∷ codes "docker" ∷ codes "lib" ∷ codes "var" ∷ []
unfolding join_onto clean_onto parent split_on onto_first str_eq
outside_dir = refl

-- A volume that is named by two dots is none: the path then leads out of the directory of all
-- volumes, into a directory beside it.
pub build-outside :
    (path : Str)
    → is_valid_path path ≡ true
    → build_path_to_file_inside_volume dots path
      ≡ some (
          joined (join_onto (codes "_data" ∷ codes "docker" ∷ codes "lib" ∷ codes "var" ∷ []) path))
unfolding build_path_to_file_inside_volume
build-outside path valid = rw valid (ap (λ d. some (joined (join_onto d path))) outside_dir)
