-- ===== src/Storage/Tests.antt =====
-- Objects in memory and paths under a root.
use gomyadmin.Base.{◌≡◌, refl, true, some, [], str_eq, str_beq}
use gomyadmin.Base.Result.{err}
use gomyadmin.Text.{lit, has_prefix, trim_prefix, split_byte, join}
use gomyadmin.Storage.{Object, invalid_key}
use gomyadmin.Storage.Local.{
  back, step, clean_loop, is_abs, parts_of, path_of, clean, join_path, safe_path,
}
use gomyadmin.Storage.Local.Under.{IsUnder, safe_path-IsUnder}

abbrev object : Object
object = record {
  key = lit "a";
  reader = some (lit "text");
  content_type = [];
  size = 0;
  private = true;
  metadata = [];
}

safe_path-IsUnder_example : IsUnder (lit "/srv/files") (lit "/srv/files/b/c")
unfolding safe_path clean parts_of path_of join_path is_abs clean_loop step back has_prefix
    trim_prefix split_byte join str_beq
safe_path-IsUnder_example =
    safe_path-IsUnder (lit "/srv/files") (lit "/a/../b//./c") (lit "/srv/files/b/c") refl

-- A name that begins with two dots is refused, though it leaves nothing.
dotted_run : safe_path (lit "/srv") (lit "..a") ≡ err invalid_key
unfolding safe_path clean parts_of path_of is_abs clean_loop step back has_prefix trim_prefix
    split_byte join str_beq
dotted_run = refl

climbing_run : safe_path (lit "/srv") (lit "a/../../etc") ≡ err invalid_key
unfolding safe_path clean parts_of path_of is_abs clean_loop step back has_prefix trim_prefix
    split_byte join str_beq
climbing_run = refl
