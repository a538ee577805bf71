-- ===== src/Storage/Local.antt =====
-- The paths of pkg/storage/local.go: `safePath`, with `filepath.Clean` and `filepath.Join` of a system
-- whose separator is `/`.
pub mod Parts
pub mod Under
use gomyadmin.Base.{Bool, true, false, ◌||◌, List, [], ◌∷◌, ◌++◌, Str, ◌==◌, str_eq, if◌then◌else◌}
use gomyadmin.Base.Result.{Result, ok, err}
use gomyadmin.Text.{lit, has_prefix, trim_prefix, split_byte, join}
use gomyadmin.Storage.{StorageError, invalid_key}

-- What `..` does to the parts of a path so far.
unfoldable pub back : Bool → List Str → List Str
back true [] = []
back false [] = lit ".." ∷ []
back rooted (x ∷ []) = if x == lit ".." then x ∷ lit ".." ∷ [] else []
back rooted (x ∷ y ∷ parts) = x ∷ back rooted (y ∷ parts)

unfoldable pub step : Bool → List Str → Str → List Str
step rooted parts part =
    if part == [] || part == lit "."
    then parts
    else if part == lit ".."
    then back rooted parts
    else parts ++ part ∷ []

-- The parts of a path after those that are already known.
unfoldable pub clean_loop : Bool → List Str → List Str → List Str
clean_loop rooted parts [] = parts
clean_loop rooted parts (part ∷ rest) = clean_loop rooted (step rooted parts part) rest

-- `filepath.IsAbs`
unfoldable pub is_abs : Str → Bool
is_abs path = has_prefix path (lit "/")

unfoldable pub parts_of : Str → List Str
parts_of path = clean_loop (is_abs path) [] (split_byte path b'/')

-- The path of some parts.
unfoldable pub path_of : Bool → List Str → Str
path_of true parts = lit "/" ++ join parts (lit "/")
path_of false [] = lit "."
path_of false (part ∷ parts) = join (part ∷ parts) (lit "/")

-- `filepath.Clean`
unfoldable pub clean : Str → Str
clean path = path_of (is_abs path) (parts_of path)

-- `filepath.Join` of two elements, the second not empty.
unfoldable pub join_path : Str → Str → Str
join_path root path = if root == [] then clean path else clean (root ++ (lit "/" ++ path))

-- `func (l *Local) safePath`
unfoldable pub safe_path : Str → Str → Result StorageError Str
safe_path root key =
    let cleaned = clean (trim_prefix key (lit "/")) in
    if cleaned == lit "." || (has_prefix cleaned (lit "..") || is_abs cleaned)
    then err invalid_key
    else ok (join_path root cleaned)
