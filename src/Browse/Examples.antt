-- ===== src/Browse/Examples.antt =====
-- The theorem of the file handlers at a volume and a path.
use portainer_agent.Base.{refl, some, Option, Str, codes, str_eq, contains_text, has_prefix}
use portainer_agent.Browse.{
  browse_get, browse_get_v1, browse_list, browse_list_v1, browse_delete, browse_delete_v1,
  browse_rename, browse_rename_v1, browse_put, browse_put_v1, is_valid_path, contains_dot_dot,
}
use portainer_agent.Browse.Volumes.{IsName, StaysIn, handlers-StaysIn}

web-IsName : IsName (codes "web")
unfolding str_eq
web-IsName = record {
  one = (refl, (refl, (refl, tt)));
  filled = refl;
  not_this = refl;
  not_parent = refl;
}

abbrev path : Option Str
path = some (codes "conf/../../x")

abbrev renaming : Option (Str × Str)
renaming = some (codes "conf", codes "../conf")

abbrev upload : Option (Str × Str)
upload = some (codes "conf", codes "../nginx.conf")

abbrev upload_v1 : Option (Str × Str)
upload_v1 = some (codes "conf", codes "nginx.conf")

handlers-StaysIn_example :
    (StaysIn (codes "web") (browse_get (codes "web") path)
      × StaysIn (codes "web") (browse_get_v1 (codes "web") path))
    × (StaysIn (codes "web") (browse_list (codes "web") path)
        × StaysIn (codes "web") (browse_list_v1 (codes "web") path))
    × (StaysIn (codes "web") (browse_delete (codes "web") path)
        × StaysIn (codes "web") (browse_delete_v1 (codes "web") path))
    × (StaysIn (codes "web") (browse_rename (codes "web") renaming)
        × StaysIn (codes "web") (browse_rename_v1 (codes "web") renaming))
    × (StaysIn (codes "web") (browse_put (codes "web") upload)
        × StaysIn (codes "web") (browse_put_v1 (codes "web") upload_v1))
unfolding is_valid_path contains_dot_dot contains_text has_prefix
handlers-StaysIn_example =
    handlers-StaysIn (codes "web") web-IsName path renaming upload upload_v1 refl
