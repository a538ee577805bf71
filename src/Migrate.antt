-- ===== src/Migrate.antt =====
-- pkg/migrate/migrate.go: SQL migrations from a directory, and the runner that applies them.
pub mod Applied
pub mod Stopped
mod Tests
use gomyadmin.Base.{
  ℕ, ◌+◌, Bool, true, false, not, ◌||◌, Option, none, some, List, [], ◌∷◌, ◌++◌, Str, ◌==◌, str_eq,
  nat_eq, if◌then◌else◌, zero, suc,
}
use gomyadmin.Base.Result.{Result, ok, err, ◌>>=◌}
use gomyadmin.Text.{lit, join, replace_byte, has_suffix, trim_suffix}
use gomyadmin.Text.Number.{itoa}
use gomyadmin.Text.Order.{str_ltb}
use gomyadmin.Dict.{Dict, lookup, insert}
use gomyadmin.Database.{Value, text, time, Pool}

-- `type Dialect string`
pub data Dialect : Type 0 where
  postgres mysql sqlite : Dialect

-- `type Migration struct`
pub record Migration : Type 0 where
  pub version : Str
  pub name : Str
  pub sql : Str
  pub checksum : Str

-- `type Runner struct`. `has_db` says whether `DB` is set, and `now` is the reading of `Now`, if set.
pub record Runner : Type 0 where
  pub has_db : Bool
  pub dialect : Dialect
  pub table : Str
  pub now : Option ℕ

-- The errors of `Up`, by their format strings, and those of the database.
pub data MigrateError : Type 0 where
  db_required database : MigrateError
  checksum_mismatch failed : Str → MigrateError

-- An entry of a directory, with what `fs.ReadFile` gives for it.
pub record Entry : Type 0 where
  pub name : Str
  pub is_dir : Bool
  pub body : Option Str

-- `strings.Cut(s, "_")`
unfoldable pub cut_underscore : Str → Str × Str
cut_underscore [] = ([], [])
cut_underscore (c ∷ s) =
    let rest = cut_underscore s in if c == b'_' then ([], s) else (c ∷ rest.0, rest.1)

-- `checksum` is the hex of the SHA-256 sum of a text.
module _ (checksum : Str → Str) where
  abbrev migration_of : Str → Str → Migration
  migration_of name body =
      let parts = cut_underscore (trim_suffix name (lit ".sql")) in
      record { version = parts.0; name = parts.1; sql = body; checksum = checksum body }

  -- The loop of `func FromFS`
  unfoldable pub read_entries : List Entry → Option (List Migration)
  read_entries [] = some []
  read_entries (e ∷ rest) =
      let later = read_entries rest in
      let taken : Option (List Migration) = elim e.body [
        | none ↦ none
        | some body ↦ elim later [ none ↦ none | some ms ↦ some (migration_of e.name body ∷ ms) ]
      ] in
      if e.is_dir || not (has_suffix e.name (lit ".sql")) then later else taken

unfoldable pub insert_by_version : Migration → List Migration → List Migration
insert_by_version m [] = m ∷ []
insert_by_version m (x ∷ rest) =
    let later = insert_by_version m rest in
    if str_ltb x.version m.version then x ∷ later else m ∷ x ∷ rest

-- `sort.Slice` by version. The order of migrations with one version is not specified there.
unfoldable pub sort_by_version : List Migration → List Migration
sort_by_version [] = []
sort_by_version (m ∷ rest) = insert_by_version m (sort_by_version rest)

-- `func FromFS`, on what `fs.ReadDir` gives.
unfoldable pub from_fs : (Str → Str) → Option (List Entry) → Option (List Migration)
from_fs checksum none = none
from_fs checksum (some entries) = elim (read_entries checksum entries) [
  | none ↦ none
  | some ms ↦ some (sort_by_version ms)
]

-- `func quote`
unfoldable pub quote : Str → Dialect → Str
quote identifier mysql = lit "`" ++ (replace_byte identifier b'`' (lit "``") ++ lit "`")
quote identifier postgres = lit "\"" ++ (replace_byte identifier b'"' (lit "\"\"") ++ lit "\"")
quote identifier sqlite = lit "\"" ++ (replace_byte identifier b'"' (lit "\"\"") ++ lit "\"")

-- `func (r Runner) table`
unfoldable pub table_name : Runner → Str
table_name r =
    if r.table == []
    then quote (lit "gomyadmin_schema_migrations") r.dialect
    else quote r.table r.dialect

-- The marks of `func (r Runner) placeholders`, from the one of number `i`.
abbrev marks : Dialect → ℕ → ℕ → List Str
marks d i zero = []
marks d i (suc n) = elim d [ postgres ↦ lit "$" ++ itoa i | _ ↦ lit "?" ] ∷ marks d (i + 1) n

unfoldable pub placeholders : Runner → ℕ → Str
placeholders r n = join (marks r.dialect 1 n) (lit ", ")

unfoldable pub create_text : Runner → Str
create_text r =
    lit "create table if not exists "
    ++ (table_name r
        ++ lit
            " (\nversion varchar(128) primary key,\nname varchar(255) not null,\nchecksum varchar(64) not null,\napplied_at timestamp not null\n)")

unfoldable pub applied_text : Runner → Str
applied_text r = lit "select version, checksum from " ++ table_name r

unfoldable pub record_text : Runner → Str
record_text r =
    lit "insert into "
    ++ (table_name r
        ++ (lit " (version, name, checksum, applied_at) values (" ++ (placeholders r 4 ++ lit ")")))

-- The loop of `func (r Runner) applied` over the rows of two texts.
unfoldable pub applied_loop : List (List Value) → Dict Str → Option (Dict Str)
applied_loop [] result = some result
applied_loop ((text version ∷ text checksum ∷ []) ∷ rows) result =
    applied_loop rows (insert version checksum result)
applied_loop (_ ∷ rows) result = none

module _ (pool : Pool) (r : Runner) where
  open pool use {State, query, exec, begin, commit}

  abbrev pub Outcome : Type 0
  Outcome = State × Result MigrateError (Unit {0})

  -- `func (r Runner) applied`
  unfoldable pub applied : State → Option (Dict Str)
  applied s = elim (query (applied_text r) [] s) [ none ↦ none | some rows ↦ applied_loop rows [] ]

  -- The row that `apply` inserts, at the time that the clock shows.
  unfoldable pub record_values : Migration → ℕ → List Value
  record_values m clock =
      text m.version
      ∷ text m.name
      ∷ text m.checksum
      ∷ time (elim r.now [ none ↦ clock | some t ↦ t ])
      ∷ []

  -- `func (r Runner) apply`
  unfoldable pub apply : Migration → ℕ → State → Outcome
  apply m clock s = elim (begin s) [
    | none ↦ (s, err database)
    | some t ↦ elim (exec m.sql [] t) [
      | none ↦ (s, err (failed m.version))
      | some t' ↦ elim (exec (record_text r) (record_values m clock) t') [
        | none ↦ (s, err database)
        | some t'' ↦ elim (commit t'') [ none ↦ (s, err database) | some u ↦ (u, ok tt) ]
      ]
    ]
  ]

  -- The loop of `func (r Runner) Up`
  unfoldable pub up_loop : Dict Str → List Migration → (Migration → ℕ) → State → Outcome
  up_loop known [] clock s = (s, ok tt)
  up_loop known (m ∷ rest) clock s = elim (lookup m.version known) [
    | some previous ↦ elim (previous == m.checksum) [
      | true ↦ up_loop known rest clock s
      | false ↦ (s, err (checksum_mismatch m.version))
    ]
    | none ↦ elim (apply m (clock m) s).1 [
      | ok _ ↦ up_loop known rest clock (apply m (clock m) s).0
      | err e ↦ ((apply m (clock m) s).0, err e)
    ]
  ]

  -- `func (r Runner) Up`, with the reading of the clock in the round of each migration.
  unfoldable pub up : List Migration → (Migration → ℕ) → State → Outcome
  up migrations clock s =
      let started : Outcome = elim (exec (create_text r) [] s) [
        | none ↦ (s, err database)
        | some t ↦ elim (applied t) [
          | none ↦ (t, err database)
          | some known ↦ up_loop known migrations clock t
        ]
      ] in
      if not r.has_db then (s, err db_required) else started
