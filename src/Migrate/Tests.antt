-- ===== src/Migrate/Tests.antt =====
-- Migrations over a small ledger, and the theorems at it.
use gomyadmin.Base.{
  ℕ, ◌≡◌, refl, sym, ap, ◌∙◌, true, false, Option, none, some, List, [], ◌∷◌, ◌++◌, Str, arith, All,
  ◌==◌, str_eq, str_beq, if◌then◌else◌,
}
use gomyadmin.Base.Result.{ok, err}
use gomyadmin.Text.{lit, has_suffix, trim_suffix}
use gomyadmin.Text.Order.{str_ltb}
use gomyadmin.Dict.{Dict, lookup, insert}
use gomyadmin.Database.{Value, text, Pool}
use gomyadmin.Migrate
use gomyadmin.Migrate.{
  Dialect, postgres, Migration, Runner, MigrateError, failed, Entry, from_fs, record_values,
  applied, applied_loop, create_text, record_text, up,
}
use gomyadmin.Migrate.Applied.{Laws, IsRecorded, up_idempotent}

abbrev entry : Str → Str → Entry
entry name body = record { name = name; is_dir = false; body = some body }

abbrev users : Migration
users = record {
  version = lit "001";
  name = lit "users";
  sql = lit "create";
  checksum = lit "create";
}

abbrev posts : Migration
posts = record { version = lit "002"; name = lit "posts"; sql = lit "bad"; checksum = lit "bad" }

from_fs_run :
    from_fs
      (λ s. s)
      (some (
        entry (lit "002_posts.sql") (lit "bad")
        ∷ entry (lit "notes.txt") []
        ∷ entry (lit "001_users.sql") (lit "create")
        ∷ []))
    ≡ some (users ∷ posts ∷ [])
unfolding from_fs Migrate.read_entries has_suffix str_beq Migrate.sort_by_version
    Migrate.insert_by_version str_ltb Migrate.cut_underscore trim_suffix
from_fs_run = refl

-- The table of the runner, by the versions and checksums of its rows; none before it is created.
abbrev State : Type 0
State = Dict Str

abbrev row : List (Str × Str) → List (List Value)
row [] = []
row ((v, c) ∷ rest) = (text v ∷ text c ∷ []) ∷ row rest

-- The statement "bad" fails.
abbrev run : Str → List Value → State → Option State
run sql [] s = if sql == lit "bad" then none else some s
run sql (text v ∷ text n ∷ text c ∷ _) s = some (s ++ (v, c) ∷ [])
run sql _ s = some s

abbrev pool : Pool
pool = record {
  State = State;
  query = λ _ _ s. some (row s);
  query_count = λ _ _ s. none;
  exec = run;
  begin = λ s. some s;
  commit = λ t. some t;
}

abbrev runner : Runner
runner = record { has_db = true; dialect = postgres; table = []; now = none }

applied_append :
    (s : State) (v c : Str) (d k : Dict Str)
    → applied_loop (row s) d ≡ some k
    → applied_loop (row (s ++ (v, c) ∷ [])) d ≡ some (insert v c k)
unfolding applied_loop
applied_append [] v c d k h = ground arith
applied_append ((w, e) ∷ s) v c d k h = applied_append s v c (insert w e d) k h

laws : (ms : List Migration) → Laws pool runner ms
unfolding applied record_values create_text Migrate.table_name Migrate.quote str_beq
laws ms = record {
  created = λ s t h. refl;
  begun = λ s t h. ground arith;
  committed = λ t u h. ground arith;
  ran = λ m s t i h has.
      let same : t ≡ s = ground arith in (ap (λ z. applied_loop (row z) []) same, refl);
  recorded = λ m clock s t k h has e.
      let same : s ++ (m.version, m.checksum) ∷ [] ≡ t = ground arith in
      (
        ap (λ z. applied_loop (row z) []) (sym same) ∙ applied_append s m.version m.checksum [] k e,
        refl,
      );
}

abbrev clock : Migration → ℕ
clock _ = 5

first_run : up pool runner (users ∷ []) clock [] ≡ ((lit "001", lit "create") ∷ [], ok tt)
unfolding up Migrate.up_loop Migrate.apply applied applied_loop lookup record_values create_text
    Migrate.table_name Migrate.quote str_beq
first_run = refl

up_idempotent_example :
    (known : Dict Str) × (applied pool runner ((lit "001", lit "create") ∷ []) ≡ some known)
    × All (IsRecorded known) (users ∷ [])
    × (up pool runner (users ∷ []) clock ((lit "001", lit "create") ∷ [])
        ≡ ((lit "001", lit "create") ∷ [], ok tt))
up_idempotent_example =
    up_idempotent pool runner (users ∷ []) (laws (users ∷ [])) clock clock []
      ((lit "001", lit "create") ∷ []) ((λ i. i), tt) first_run

stopped_run :
    up pool runner (users ∷ posts ∷ []) clock []
    ≡ ((lit "001", lit "create") ∷ [], err (failed (lit "002")))
unfolding up Migrate.up_loop Migrate.apply applied applied_loop lookup record_values create_text
    Migrate.table_name Migrate.quote str_beq
stopped_run = refl

created_run : pool.exec (create_text runner) [] [] ≡ some []
unfolding create_text Migrate.table_name Migrate.quote str_beq
created_run = refl

applied_run : applied pool runner [] ≡ some []
unfolding applied applied_loop
applied_run = refl
