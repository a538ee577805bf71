-- ===== src/Scaffold/Tests.antt =====
-- Names of the tests of `internal/cli` and `internal/generator`, and a project on a small disk.
use gomyadmin.Text.Case.{is_digit, is_lower, to_lower, upper_byte}
use gomyadmin.Base.{
  ◌+◌, ◌≡◌, ◌≢◌, ◌∙◌, refl, sym, Bool, true, false, not, Option, none, some, List, [], ◌∷◌, Str,
  ◌==◌, str_eq, str_beq, str_beq_refl, str_beq-false, map, All, In, IsDistinct, inl, inr, ◌⊎◌,
  arith, subst, some-injective,
}
use gomyadmin.Base.Result.{ok, err}
use gomyadmin.Dict.{Dict, lookup, insert, delete, lookup-insert, lookup-delete}
use gomyadmin.Scaffold.Columns.Sound.{stored_type, column_to_field_lem}
use gomyadmin.Scaffold.Columns.Names.{table_to_resource_name, column_to_field_name}
use gomyadmin.Scaffold.Columns.{
  Column, GeneratedField, column_to_field, suggest_field_type, method_of,
}
use gomyadmin.Scaffold.Schema.{Table, Counts, generate_tables, generate_tables_total}
use gomyadmin.Scaffold.Files.Project.{init_project_undone, init_project_done}
use gomyadmin.Scaffold.Files.Written.{Documented, UndoneAt}
use gomyadmin.Scaffold.Files.Names.{module_name, plural_snake}
use gomyadmin.Scaffold.Files.{
  with_init_defaults, Disk, FileStat, found, missing, InitOptions, disk_failed, init_project,
}
use gomyadmin.Storage.Local.{clean_loop, path_of, step, is_abs, parts_of, join_path, clean}
use gomyadmin.Text.{replace_byte, has_suffix, split_byte, join, has_prefix, trim_space, lit}

singulars :
    (table_to_resource_name (lit "user_profiles") ≡ some (lit "UserProfile"))
    × (table_to_resource_name (lit "categories") ≡ some (lit "Category"))
    × (column_to_field_name (lit "api_key") ≡ some (lit "APIKey"))
unfolding table_to_resource_name split_byte to_lower str_beq upper_byte column_to_field_name
singulars = (refl, refl, refl)

-- Two tables with one name of a resource, and so one file.
clash : table_to_resource_name (lit "user") ≡ table_to_resource_name (lit "users")
unfolding table_to_resource_name to_lower split_byte str_beq
clash = refl

module_of_path : module_name (lit "./My Shop_2/") ≡ lit "my-shop-2"
unfolding module_name str_beq trim_space to_lower clean path_of is_abs has_prefix parts_of
    clean_loop split_byte step join is_lower is_digit
module_of_path = refl

plural_of_ticket : plural_snake (lit "SupportTicket") ≡ lit "support_tickets"
unfolding plural_snake has_suffix replace_byte to_lower join trim_space is_lower str_beq
plural_of_ticket = refl

abbrev price : Column
price = record {
  name = lit "unit_price";
  data_type = lit " MONEY";
  nullable = false;
  default_value = [];
  is_identity = false;
}

column_to_field_lem_example :
    (g : GeneratedField) × (column_to_field price false ≡ some g)
    × (method_of (stored_type (suggest_field_type price)) ≡ some g.method)
    × (column_to_field_name (lit "unit_price") ≡ some g.name)
column_to_field_lem_example = column_to_field_lem price false

abbrev bad : Str
bad = lit "shop/b"

-- A disk on which the write of one file fails in the middle.
abbrev stat_of : Option Str → FileStat
stat_of none = missing
stat_of (some _) = found

abbrev is_none : Option Str → Bool
is_none none = true
is_none (some _) = false

is_none_sound : (o : Option Str) → is_none o ≡ true → o ≡ none
is_none_sound none h = refl
is_none_sound (some s) h = cc

stat_of_sound : (o : Option Str) → stat_of o ≡ missing → o ≡ none
stat_of_sound none h = refl
stat_of_sound (some s) h = cc

abbrev small : Disk
small = record {
  State = Dict Str;
  stat = λ p s. stat_of (lookup p s);
  make_dirs = λ d s. (s, is_none (lookup d s));
  write = λ p c s. (insert p c s, not (p == bad));
  remove = λ p s. (delete p s, not (p == lit "shop"));
  dir = λ p. lit "dir";
}

abbrev small-Documented : Documented small
small-Documented = record {
  content = λ p s. lookup p s;
  written = λ p c s h. lookup-insert p p c s ∙ rw (str_beq_refl p) refl;
  write_others = λ p c q s h. lookup-insert p q c s ∙ rw (str_beq-false p q (λ e. h (sym e))) refl;
  removed = λ p s h. lookup-delete p p s ∙ rw (str_beq_refl p) refl;
  remove_others = λ p q s h. lookup-delete p q s ∙ rw (str_beq-false p q (λ e. h (sym e))) refl;
  dirs_keep = λ d q s. refl;
  no_file = λ d s h. is_none_sound (lookup d s) h;
  missing_file = λ p s h. stat_of_sound (lookup p s) h;
}

abbrev options : InitOptions
options = record {
  name = lit "shop";
  module_path = [];
  backend = [];
  database = [];
  frontend = [];
  ui = [];
}

abbrev good_files : InitOptions → Option (Dict Str)
good_files o = some ((lit "a", lit "A") ∷ (lit "c", lit "C") ∷ [])

abbrev bad_files : InitOptions → Option (Dict Str)
bad_files o = some ((lit "a", lit "A") ∷ (lit "b", lit "B") ∷ [])

abbrev other : Dict Str
other = (lit "x", lit "X") ∷ []

-- The file whose write failed stays.
bad_run :
    init_project small bad_files options other
    ≡ ((lit "x", lit "X") ∷ (bad, lit "B") ∷ [], err (disk_failed bad))
unfolding init_project str_beq trim_space clean path_of is_abs has_prefix parts_of clean_loop
    split_byte step join lookup join_path insert delete
bad_run = refl

init_project_undone_example :
    ((q : Str) → lookup q ((lit "x", lit "X") ∷ (bad, lit "B") ∷ []) ≡ lookup q other)
    ⊎ ((files : Dict Str) × (bad_files (with_init_defaults options) ≡ some files)
        × UndoneAt small small-Documented
            (clean (with_init_defaults options).name)
            files
            other
            other
            ((lit "x", lit "X") ∷ (bad, lit "B") ∷ [])
            (disk_failed bad)
            [])
init_project_undone_example =
    init_project_undone small small-Documented bad_files options other _ bad_run

good_run :
    init_project small good_files options other
    ≡ ((lit "x", lit "X") ∷ (lit "shop/a", lit "A") ∷ (lit "shop/c", lit "C") ∷ [], ok tt)
unfolding init_project str_beq trim_space clean path_of is_abs has_prefix parts_of clean_loop
    split_byte step join lookup join_path insert
good_run = refl

path_a : join_path (lit "shop") (lit "a") ≡ lit "shop/a"
unfolding join_path str_beq clean path_of is_abs has_prefix parts_of clean_loop split_byte step join
path_a = refl

path_c : join_path (lit "shop") (lit "c") ≡ lit "shop/c"
unfolding join_path str_beq clean path_of is_abs has_prefix parts_of clean_loop split_byte step join
path_c = refl

different : join_path (lit "shop") (lit "a") ≢ join_path (lit "shop") (lit "c")
different e = let e' : lit "shop/a" ≡ lit "shop/c" = sym path_a ∙ e ∙ path_c in ground arith

IsDistinct-files :
    (files : Dict Str)
    → good_files options ≡ some files
    → IsDistinct (map (λ f. join_path (lit "shop") f.0) files)
IsDistinct-files files h =
    subst (λ fs. IsDistinct (map (λ f. join_path (lit "shop") f.0) fs)) (some-injective h)
      ((λ i. elim i [ inl e ↦ different e | inr none_left ↦ none_left ]), ((λ i. i), tt))

init_project_done_example :
    (files : Dict Str) × (good_files options ≡ some files)
    × All (λ f. lookup (join_path (lit "shop") f.0) other ≡ none) files
    × All
        (λ f.
          lookup
            (join_path (lit "shop") f.0)
            ((lit "x", lit "X") ∷ (lit "shop/a", lit "A") ∷ (lit "shop/c", lit "C") ∷ [])
          ≡ some f.1)
        files
    × ((q : Str)
        → ¬ In q (map (λ f. join_path (lit "shop") f.0) files)
        → lookup q ((lit "x", lit "X") ∷ (lit "shop/a", lit "A") ∷ (lit "shop/c", lit "C") ∷ [])
          ≡ lookup q other)
unfolding clean path_of is_abs has_prefix with_init_defaults parts_of clean_loop split_byte step
    str_beq join
init_project_done_example =
    init_project_done small small-Documented good_files options other _ IsDistinct-files good_run

abbrev both_tables : List Table
both_tables =
    record {
      schema = lit "public";
      name = lit "users";
      columns = price ∷ [];
      primary_key = lit "id" ∷ [];
    }
    ∷ record { schema = lit "public"; name = lit "user"; columns = []; primary_key = [] }
    ∷ []

generate_tables_total_example :
    (d : Counts) × ((generate_tables small
        (λ o. some (lit "code"))
        (lit "adminapp")
        false
        both_tables
        (record { generated = 0; failed = 0 })
        other).1
      ≡ some d)
    × (d.generated + d.failed ≡ 2)
generate_tables_total_example =
    generate_tables_total small (λ o. some (lit "code")) (lit "adminapp") false both_tables other
