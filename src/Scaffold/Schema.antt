-- ===== src/Scaffold/Schema.antt =====
-- `runGenerateFromSchema` of `internal/cli/cli.go`, behind the reading of its file, and the choice of a
-- command in `Run`.
use gomyadmin.Base.{
  ℕ, suc, ◌+◌, ◌≡◌, ◌∙◌, refl, ap, Bool, not, ◌&&◌, Option, none, some, List, [], ◌∷◌, ◌++◌, Str,
  ◌==◌, str_eq, arith, if◌then◌else◌, length, any,
}
use gomyadmin.Base.Result.{Result, ok, err}
use gomyadmin.Scaffold.Columns.{Column, GeneratedField, column_to_field}
use gomyadmin.Scaffold.Columns.Names.{table_to_resource_name}
use gomyadmin.Scaffold.Columns.Sound.{column_to_field_lem, table_to_resource_name_total}
use gomyadmin.Scaffold.Files.{Disk, ResourceOptions, ScaffoldError, generate_resource}
use gomyadmin.Text.{lit, has_prefix}

-- `type Table struct`
pub record Table : Type 0 where
  pub schema : Str
  pub name : Str
  pub columns : List Column
  pub primary_key : List Str

-- `fields`; `none` is a panic.
unfoldable pub fields_of : List Str → List Column → Option (List GeneratedField)
unfolding column_to_field
fields_of primary_key [] = some []
fields_of primary_key (col ∷ rest) =
    elim (column_to_field col (any (λ pk. pk == col.name) primary_key)) [
      | none ↦ none
      | some f ↦ elim (fields_of primary_key rest) [ none ↦ none | some fs ↦ some (f ∷ fs) ]
    ]

-- `func splitNameAndFlags`
split_loop : Str → List Str → List Str → Str × List Str
split_loop name flags [] = (name, flags)
split_loop name flags (arg ∷ rest) =
    let named = split_loop arg flags rest in
    let passed = split_loop name (flags ++ arg ∷ []) rest in
    if name == [] && not (has_prefix arg (lit "-")) then named else passed

unfoldable pub split_name_and_flags : List Str → Str × List Str
unfolding split_loop
split_name_and_flags args = split_loop [] [] args

-- The options for a table
unfoldable pub table_options : Str → Bool → Table → Option ResourceOptions
unfolding fields_of table_to_resource_name
table_options pkg force table = elim (fields_of table.primary_key table.columns) [
  | none ↦ none
  | some fs ↦ elim (table_to_resource_name table.name) [
    | none ↦ none
    | some resource_name ↦ some (record {
      name = resource_name;
      package_name = pkg;
      table = table.name;
      fields = fs;
      overwrite = force;
    })
  ]
]

-- The numbers `generated` and `failed`
pub record Counts : Type 0 where
  pub generated : ℕ
  pub failed : ℕ

module _ (disk : Disk) (rendered : ResourceOptions → Option Str) (pkg : Str) (force : Bool) where
  unfoldable pub counted : Counts → Result ScaffoldError (Unit {0}) → Counts
  counted c (ok _) = record c { generated = c.generated + 1 }
  counted c (err _) = record c { failed = c.failed + 1 }

  -- The loop over the tables; `none` is a panic.
  unfoldable pub generate_tables : List Table → Counts → disk.State → disk.State × Option Counts
  unfolding counted table_options
  generate_tables [] c s = (s, some c)
  generate_tables (table ∷ rest) c s = elim (table_options pkg force table) [
    | none ↦ (s, none)
    | some options ↦
        let (t, r) = generate_resource disk rendered options s in
        generate_tables rest (counted c r) t
  ]

fields_of_total :
    (pks : List Str) (cols : List Column)
    → (fs : List GeneratedField) × (fields_of pks cols ≡ some fs) × (length fs ≡ length cols)
unfolding fields_of
fields_of_total pks [] = ([], refl, refl)
fields_of_total pks (col ∷ rest) =
    let (f, e, _, _) = column_to_field_lem col (any (λ pk. pk == col.name) pks) in
    let (fs, later, same) = fields_of_total pks rest in
    (f ∷ fs, rw (fields_of, e, later) refl, ap suc same)

table_options_total :
    (pkg : Str) (force : Bool) (table : Table)
    → (o : ResourceOptions) × (table_options pkg force table ≡ some o)
unfolding table_options
table_options_total pkg force table =
    let (fs, e, _) = fields_of_total table.primary_key table.columns in
    let (name, f) = table_to_resource_name_total table.name in
    (
      record {
        name = name;
        package_name = pkg;
        table = table.name;
        fields = fs;
        overwrite = force;
      },
      rw (table_options, e, f) refl,
    )

module _ (disk : Disk) (rendered : ResourceOptions → Option Str) (pkg : Str) (force : Bool) where
  counted_sum :
      (c : Counts) (r : Result ScaffoldError (Unit {0}))
      → (counted disk rendered pkg force c r).generated
          + (counted disk rendered pkg force c r).failed
        ≡ suc (c.generated + c.failed)
  unfolding counted
  counted_sum c (ok _) = omega arith
  counted_sum c (err _) = omega arith

  generate_tables_from :
      (tables : List Table) (c : Counts) (s : disk.State)
      → (d : Counts) × ((generate_tables disk rendered pkg force tables c s).1 ≡ some d)
        × (d.generated + d.failed ≡ (c.generated + c.failed) + length tables)
  unfolding generate_tables
  generate_tables_from [] c s = (c, refl, omega arith)
  generate_tables_from (table ∷ rest) c s =
      let (o, e) = table_options_total pkg force table in
      let (t, r) = generate_resource disk rendered o s in
      let (d, later, total) = generate_tables_from rest (counted disk rendered pkg force c r) t in
      (d, rw (generate_tables, e) later, total ∙ omega (arith, counted_sum c r))

  -- The generation from a schema ends without a panic, whatever its tables and the disk, and counts
  -- every table as generated or skipped.
  pub generate_tables_total :
      (tables : List Table) (s : disk.State)
      → (d : Counts) × ((generate_tables disk rendered pkg force tables
            (record { generated = 0; failed = 0 })
            s).1
          ≡ some d)
        × (d.generated + d.failed ≡ length tables)
  generate_tables_total tables s =
      let (d, run, total) = generate_tables_from tables (record { generated = 0; failed = 0 }) s in
      (d, run, total ∙ omega arith)
