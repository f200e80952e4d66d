-- ===== src/Browse.antt =====
-- http/handler/browse, the handlers that read and change files, and the paths of
-- filesystem/filesystem.go that they build.
pub mod Elements
pub mod Inside
pub mod Volumes
pub mod Examples
use portainer_agent.Base.{
  ℕ, ◌==◌, Bool, true, false, not, ◌&&◌, ◌||◌, Option, none, some, List, [], ◌∷◌, ◌++◌, Str, codes,
  str_eq, contains_text, split_on, any, if◌then◌else◌,
}

unfoldable pub is_slash_rune : ℕ → Bool
is_slash_rune c = c == b'/' || c == b'\\'

-- strings.FieldsFunc, which leaves out empty fields: `field` is the field so far.
unfoldable pub end_field : Str → List Str → List Str
end_field [] rest = rest
end_field (c ∷ cs) rest = (c ∷ cs) ∷ rest

unfoldable pub fields_from : Str → Str → List Str
fields_from field [] = end_field field []
fields_from field (c ∷ s) =
    let rest = fields_from (if is_slash_rune c then [] else field ++ c ∷ []) s in
    if is_slash_rune c then end_field field rest else rest

abbrev pub dots : Str
dots = codes ".."

unfoldable pub contains_dot_dot : Str → Bool
contains_dot_dot v =
    if not (contains_text v dots) then false else any (λ ent. str_eq ent dots) (fields_from [] v)

unfoldable pub is_valid_path : Str → Bool
is_valid_path path = not (contains_dot_dot path)

-- The elements of a path of a file below the root, innermost first, and a path that is used as it
-- was given.
pub data FilePath : Type 0 where
  as_given : Str → FilePath
  joined : List Str → FilePath

unfoldable pub parent : List Str → List Str
parent [] = []
parent (e ∷ es) = es

-- path.Clean on a rooted path: the elements that follow those in `dir`.
unfoldable pub clean_onto : List Str → List Str → List Str
clean_onto dir [] = dir
clean_onto dir (e ∷ es) =
    clean_onto
      (if str_eq e [] || str_eq e (codes ".")
        then dir
        else if str_eq e dots
        then parent dir
        else e ∷ dir)
      es

-- path.Join with a further part, of which `/` separates the elements; an empty one adds nothing.
unfoldable pub join_onto : List Str → Str → List Str
join_onto dir part = clean_onto dir (split_on b'/' part)

-- constants.SystemVolumePath, on systems other than Windows.
abbrev pub system_volume_path : List Str
system_volume_path = codes "volumes" ∷ codes "docker" ∷ codes "lib" ∷ codes "var" ∷ []

-- `none` is the error.
unfoldable pub build_path_to_file_inside_volume : Str → Str → Option FilePath
build_path_to_file_inside_volume volume_id file_path =
    if not (is_valid_path file_path)
    then none
    else some (
        joined (
          join_onto (join_onto (join_onto system_volume_path volume_id) (codes "_data")) file_path))

-- The call of the operating system that a handler ends in, or 400.
pub data Reply : Type 0 where
  bad_request : Reply
  opens lists removes : FilePath → Reply
  renames : FilePath → FilePath → Reply
  writes : FilePath → Str → Reply

unfoldable pub call_or_bad_request : (FilePath → Reply) → Option FilePath → Reply
call_or_bad_request call none = bad_request
call_or_bad_request call (some path) = call path

-- A path that is taken in the volume, if there is one.
unfoldable pub path_in : Str → Str → Option FilePath
path_in volume_id path =
    if not (str_eq volume_id [])
    then build_path_to_file_inside_volume volume_id path
    else some (as_given path)

-- A query parameter is `none` if it is missing or empty.
unfoldable pub with_path : (FilePath → Reply) → Str → Option Str → Reply
with_path call volume_id none = bad_request
with_path call volume_id (some path) = call_or_bad_request call (path_in volume_id path)

unfoldable pub browse_get : Str → Option Str → Reply
browse_get = with_path opens

unfoldable pub browse_list : Str → Option Str → Reply
browse_list = with_path lists

unfoldable pub browse_delete : Str → Option Str → Reply
browse_delete = with_path removes

unfoldable pub or_empty : Option Str → Str
or_empty none = []
or_empty (some path) = path

-- In the first version the volume is a part of the route, and the error of the parameter is
-- overwritten.
unfoldable pub with_path_v1 : (FilePath → Reply) → Str → Option Str → Reply
with_path_v1 call volume_id path =
    call_or_bad_request call (build_path_to_file_inside_volume volume_id (or_empty path))

unfoldable pub browse_get_v1 : Str → Option Str → Reply
browse_get_v1 = with_path_v1 opens

unfoldable pub browse_list_v1 : Str → Option Str → Reply
browse_list_v1 = with_path_v1 lists

unfoldable pub browse_delete_v1 : Str → Option Str → Reply
browse_delete_v1 = with_path_v1 removes

-- The two paths of a payload, or `none` if it does not decode or one of them is empty.
unfoldable pub both : Option FilePath → Option FilePath → Reply
both none to = bad_request
both (some from) none = bad_request
both (some from) (some to) = renames from to

unfoldable pub browse_rename : Str → Option (Str × Str) → Reply
browse_rename volume_id none = bad_request
browse_rename volume_id (some (from, to)) = both (path_in volume_id from) (path_in volume_id to)

unfoldable pub browse_rename_v1 : Str → Option (Str × Str) → Reply
browse_rename_v1 volume_id none = bad_request
browse_rename_v1 volume_id (some (from, to)) =
    both (build_path_to_file_inside_volume volume_id from)
      (build_path_to_file_inside_volume volume_id to)

-- The path of a folder and the name of the file, of which only the name is checked.
unfoldable pub write_named : Str → Option FilePath → Option FilePath → Reply
write_named filename none named = bad_request
write_named filename (some folder) none = bad_request
write_named filename (some folder) (some named) = writes folder filename

unfoldable pub browse_put : Str → Option (Str × Str) → Reply
browse_put volume_id none = bad_request
browse_put volume_id (some (path, filename)) =
    write_named filename (path_in volume_id path) (path_in volume_id filename)

unfoldable pub browse_put_v1 : Str → Option (Str × Str) → Reply
browse_put_v1 volume_id none = bad_request
browse_put_v1 volume_id (some (path, filename)) =
    call_or_bad_request (λ folder. writes folder filename)
      (build_path_to_file_inside_volume volume_id path)

-- The file that WriteFile and WriteBigFile write, for a folder that was joined.
unfoldable pub written : List Str → Str → List Str
written = join_onto
