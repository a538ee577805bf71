-- ===== src/Scaffold/Files.antt =====
-- `internal/generator/generator.go`: how a project and a resource are written.
pub mod Names
pub mod Written
pub mod Project
use gomyadmin.Base.{
  Bool, true, false, not, ◌&&◌, ◌||◌, Option, none, some, List, [], ◌∷◌, ◌++◌, Str, ◌==◌, str_eq,
  if◌then◌else◌,
}
use gomyadmin.Base.Result.{Result, ok, err}
use gomyadmin.Dict.{Dict}
use gomyadmin.Scaffold.Columns.{GeneratedField}
use gomyadmin.Scaffold.Files.Names.{resource_file_name, plural_snake, module_name}
use gomyadmin.Storage.Local.{clean, join_path}
use gomyadmin.Text.{lit, trim_space}

-- What `os.Stat` tells: a file or a directory, that there is none, or another error.
pub data FileStat : Type 0 where
  found missing failed : FileStat

abbrev pub is_found : FileStat → Bool
is_found found = true
is_found _ = false

-- The calls of `os` and `filepath.Dir`. A call that changes files may do so and fail.
pub record Disk : Type 1 where
  pub State : Type 0
  pub stat : Str → State → FileStat
  pub make_dirs : Str → State → State × Bool
  pub write : Str → Str → State → State × Bool
  pub remove : Str → State → State × Bool
  pub dir : Str → Str

pub data ScaffoldError : Type 0 where
  name_required not_a_new_directory render_failed : ScaffoldError
  unsupported : Str → ScaffoldError
  already_exists : Str → ScaffoldError
  disk_failed : Str → ScaffoldError

pub record InitOptions : Type 0 where
  pub name : Str
  pub module_path : Str
  pub backend : Str
  pub database : Str
  pub frontend : Str
  pub ui : Str

pub record ResourceOptions : Type 0 where
  pub name : Str
  pub package_name : Str
  pub table : Str
  pub fields : List GeneratedField
  pub overwrite : Bool

-- The defaults of `InitProject`
unfoldable pub or_else : Str → Str → Str
or_else given fallback = if given == [] then fallback else given

unfoldable pub with_init_defaults : InitOptions → InitOptions
unfolding or_else
with_init_defaults o = record {
  name = o.name;
  module_path = or_else o.module_path (lit "github.com/darwvin-dev/" ++ module_name o.name);
  backend = or_else o.backend (lit "go");
  database = or_else o.database (lit "postgres");
  frontend = or_else o.frontend (lit "next");
  ui = or_else o.ui (lit "shadcn");
}

unfoldable pub check_supported : InitOptions → Result ScaffoldError (Unit {0})
check_supported o =
    if not (o.backend == lit "go")
    then err (unsupported o.backend)
    else if not (o.database == lit "postgres")
    then err (unsupported o.database)
    else if not (o.frontend == lit "next")
    then err (unsupported o.frontend)
    else if not (o.ui == lit "shadcn")
    then err (unsupported o.ui)
    else ok tt

abbrev default_fields : List GeneratedField
default_fields =
    record {
      name = lit "ID";
      method = lit "UUID";
      primary = true;
      readonly = true;
      searchable = false;
      sortable = true;
      filterable = false;
      required = false;
    }
    ∷ record {
      name = lit "Name";
      method = lit "String";
      primary = false;
      readonly = false;
      searchable = true;
      sortable = true;
      filterable = false;
      required = true;
    }
    ∷ record {
      name = lit "CreatedAt";
      method = lit "DateTime";
      primary = false;
      readonly = true;
      searchable = false;
      sortable = true;
      filterable = true;
      required = false;
    }
    ∷ []

unfoldable pub with_resource_defaults : ResourceOptions → ResourceOptions
unfolding or_else
with_resource_defaults o = record o {
  package_name = or_else o.package_name (lit "adminapp");
  table = or_else o.table (plural_snake o.name);
  fields = elim o.fields [ [] ↦ default_fields | f ∷ fs ↦ f ∷ fs ];
}

module _ (disk : Disk) where
  unfoldable pub write_file :
      Str → Str → Bool → disk.State → disk.State × Result ScaffoldError (Unit {0})
  write_file path content overwrite s =
      let (t, made) = disk.make_dirs (disk.dir path) s in
      let (u, done) = disk.write path content t in
      if not overwrite && is_found (disk.stat path s)
      then (s, err (already_exists path))
      else if not made
      then (t, err (disk_failed (disk.dir path)))
      else if not done
      then (u, err (disk_failed path))
      else (u, ok tt)

  unfoldable pub ensure_no_conflicts : Str → Dict Str → disk.State → Result ScaffoldError (Unit {0})
  ensure_no_conflicts root [] s = ok tt
  ensure_no_conflicts root ((name, _) ∷ rest) s =
      let path = join_path root name in
      elim (disk.stat path s) [
        | found ↦ err (already_exists path)
        | missing ↦ ensure_no_conflicts root rest s
        | failed ↦ err (disk_failed path)
      ]

  -- The deferred function of `InitProject`, with the last file written as the first of the list. It
  -- ignores whether a file could be removed.
  unfoldable pub remove_written : Str → List Str → disk.State → disk.State
  remove_written root [] s = (disk.remove root s).0
  remove_written root (path ∷ written) s = remove_written root written (disk.remove path s).0

  -- The loop of `InitProject`
  unfoldable pub write_files :
      Str → Dict Str → List Str → disk.State → disk.State × Result ScaffoldError (Unit {0})
  unfolding write_file remove_written
  write_files root [] written s = (s, ok tt)
  write_files root ((name, content) ∷ rest) written s =
      let path = join_path root name in
      let (t, r) = write_file path content false s in
      elim r [
        | err e ↦ (remove_written root written t, err e)
        | ok _ ↦ write_files root rest (path ∷ written) t
      ]

  -- `InitProject` from the call of `ensureNoConflicts` on
  unfoldable pub create_project :
      Str → Dict Str → disk.State → disk.State × Result ScaffoldError (Unit {0})
  unfolding ensure_no_conflicts write_files
  create_project root files s = elim (ensure_no_conflicts root files s) [
    | err e ↦ (s, err e)
    | ok _ ↦
        let (t, made) = disk.make_dirs root s in
        let written = write_files root files [] t in
        if made then written else (t, err (disk_failed root))
  ]

  -- `func InitProject`. What `projectFiles` renders is a parameter.
  unfoldable pub init_project :
      (InitOptions → Option (Dict Str))
      → InitOptions
      → disk.State
      → disk.State × Result ScaffoldError (Unit {0})
  unfolding with_init_defaults check_supported create_project
  init_project project_files given s =
      let options = with_init_defaults given in
      let root = clean options.name in
      if trim_space given.name == []
      then (s, err name_required)
      else elim (check_supported options) [
        | err e ↦ (s, err e)
        | ok _ ↦
            if root == lit "." || root == lit "/"
            then (s, err not_a_new_directory)
            else elim (project_files options) [
              | none ↦ (s, err render_failed)
              | some files ↦ create_project root files s
            ]
      ]

  -- `func GenerateResource`. What the template renders is a parameter.
  unfoldable pub generate_resource :
      (ResourceOptions → Option Str)
      → ResourceOptions
      → disk.State
      → disk.State × Result ScaffoldError (Unit {0})
  unfolding with_resource_defaults write_file
  generate_resource rendered given s =
      let options = with_resource_defaults given in
      let folder = lit "backend/internal/admin" in
      let (t, made) = disk.make_dirs folder s in
      let path = join_path folder (resource_file_name options.name) in
      if given.name == []
      then (s, err name_required)
      else if not made
      then (t, err (disk_failed folder))
      else elim (rendered options) [
        | none ↦ (t, err render_failed)
        | some content ↦ write_file path content options.overwrite t
      ]
