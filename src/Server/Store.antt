-- ===== src/Server/Store.antt =====
-- The record operations of pkg/server/store.go, over a connection pool. The pool's state is passed
-- on explicitly; a query that changes it is an `exec`, and no other client comes in between.
use gomyadmin.Base.{
  ℕ, ◌+◌, Bool, true, false, not, ◌&&◌, ◌||◌, Option, none, some, List, [], ◌∷◌, ◌++◌, Str, ◌==◌,
  str_eq, nat_eq, if◌then◌else◌,
}
use gomyadmin.Base.Result.{Result, ok, err, ◌>>=◌}
use gomyadmin.Text.{lit, join}
use gomyadmin.Text.Number.{itoa}
use gomyadmin.Dict.{Dict, lookup, insert}
pub use gomyadmin.Database.{Pool}
use gomyadmin.Server.Meta.{password, FieldMeta, ResourceMeta, has_column, visible_columns}
use gomyadmin.Server.Sql.{
  Value, nil, text, time, bytes, uuid, document, StoreError, not_found, hash_failed, database,
  quote_ident, select_cols,
}

-- What the store calls of other packages: `fmt.Sprint`, `auth.HashPassword` and `formatUUID`.
pub record Outside : Type 0 where
  pub sprint : Value → Str
  pub hash_password : Str → Option Str
  pub format_uuid : List ℕ → Str

-- `type record map[string]any`
abbrev pub Record : Type 0
Record = Dict Value

-- `func normalizeValue`
unfoldable pub normalize_value : Value → Value
normalize_value (document json) = bytes json
normalize_value v = v

-- `func normalizeScanned`
unfoldable pub normalize_scanned : Outside → Value → Value
normalize_scanned out (uuid b) = text (out.format_uuid b)
normalize_scanned out (bytes b) = text b
normalize_scanned out v = v

-- `input[k] == nil`: a missing key counts.
unfoldable pub is_nil : Str → Record → Bool
is_nil k r = elim (lookup k r) [ none ↦ true | some v ↦ elim v [ nil ↦ true | _ ↦ false ] ]

-- A row of `scanRows`, which fails where the row has other columns.
unfoldable pub scan_row : Outside → List Str → List Value → Record → Option Record
scan_row out [] [] row = some row
scan_row out [] (v ∷ values) row = none
scan_row out (c ∷ cols) [] row = none
scan_row out (c ∷ cols) (v ∷ values) row =
    scan_row out cols values (insert c (normalize_scanned out v) row)

-- The loop of `scanRows`
unfoldable pub scan_loop : Outside → List Str → List (List Value) → Option (List Record)
scan_loop out cols [] = some []
scan_loop out cols (values ∷ rows) = elim (scan_row out cols values []) [
  | none ↦ none
  | some row ↦ elim (scan_loop out cols rows) [ none ↦ none | some records ↦ some (row ∷ records) ]
]

-- `func scanRows`, on what the query gave.
unfoldable pub scan_rows :
    Outside → ResourceMeta → Option (List (List Value)) → Result StoreError (List Record)
scan_rows out resource none = err database
scan_rows out resource (some rows) = elim (scan_loop out (visible_columns resource) rows) [
  | none ↦ err database
  | some records ↦ ok records
]

-- The times and the random id of a `Create`.
pub record Fresh : Type 0 where
  pub now : ℕ
  pub id : Str

-- `if hasColumn(resource, col) && input[col] == nil { input[col] = now }`
unfoldable pub stamped : ResourceMeta → Str → ℕ → Record → Record
stamped resource col now input =
    if has_column resource col && is_nil col input then insert col (time now) input else input

-- The input of `Create` with the entries that it adds.
unfoldable pub complete : ResourceMeta → Str → Fresh → Record → Record
complete resource tenant_id fresh input =
    let pk = resource.primary_key in
    let with_id = if is_nil pk input then insert pk (text fresh.id) input else input in
    let with_tenant =
      if resource.tenant_key == []
      then with_id
      else insert resource.tenant_key (text tenant_id) with_id in
    stamped resource (lit "updated_at") fresh.now
      (stamped resource (lit "created_at") fresh.now with_tenant)

-- The value that is stored for a field.
unfoldable pub stored : Outside → FieldMeta → Value → Result StoreError Value
stored out f value =
    let hashed : Result StoreError Value = elim (out.hash_password (out.sprint value)) [
      | none ↦ err hash_failed
      | some h ↦ ok (text h)
    ] in
    elim f.kind [ password ↦ hashed | _ ↦ ok (normalize_value value) ]

-- The loop over the fields that are written: their names and values, in order.
unfoldable pub written_loop :
    Outside → (FieldMeta → Bool) → List FieldMeta → Record → Result StoreError (List (Str × Value))
written_loop out skipped [] input = ok []
written_loop out skipped (f ∷ rest) input =
    let later = written_loop out skipped rest input in
    let taken : Result StoreError (List (Str × Value)) = elim (lookup f.sql_name input) [
      | none ↦ later
      | some value ↦ stored out f value >>= λ v. later >>= λ more. ok ((f.sql_name, v) ∷ more)
    ] in
    if skipped f then later else taken

-- The fields that `Create` does not write.
unfoldable pub is_kept_out : ResourceMeta → FieldMeta → Bool
is_kept_out resource f = f.hidden && not (f.sql_name == resource.tenant_key)

-- The fields that `Update` does not write.
unfoldable pub is_fixed : ResourceMeta → FieldMeta → Bool
is_fixed resource f =
    f.readonly
    || (f.hidden || (f.sql_name == resource.primary_key || f.sql_name == resource.tenant_key))

abbrev pub columns : List (Str × Value) → List Str
columns [] = []
columns ((c, _) ∷ rest) = quote_ident c ∷ columns rest

abbrev pub values : List (Str × Value) → List Value
values [] = []
values ((_, v) ∷ rest) = v ∷ values rest

abbrev pub placeholders : ℕ → List (Str × Value) → List Str
placeholders n [] = []
placeholders n (_ ∷ rest) = (lit "$" ++ itoa (n + 1)) ∷ placeholders (n + 1) rest

abbrev pub assignments : ℕ → List (Str × Value) → List Str
assignments n [] = []
assignments n ((c, _) ∷ rest) =
    (quote_ident c ++ (lit " = $" ++ itoa (n + 1))) ∷ assignments (n + 1) rest

unfoldable pub insert_text : ResourceMeta → List (Str × Value) → Str
insert_text resource written =
    lit "insert into "
    ++ (quote_ident resource.table
        ++ (lit " ("
            ++ (join (columns written) (lit ", ")
                ++ (lit ") values (" ++ (join (placeholders 0 written) (lit ", ") ++ lit ")")))))

-- What `Update` writes: the fields of the input, and the time of the update.
unfoldable pub updates :
    Outside → ResourceMeta → ℕ → Record → Result StoreError (List (Str × Value))
updates out resource now input =
    written_loop out (is_fixed resource) resource.fields input >>= λ written. ok (
      if has_column resource (lit "updated_at")
      then written ++ (lit "updated_at", time now) ∷ []
      else written)

unfoldable pub update_text : ResourceMeta → List (Str × Value) → Str → Str
update_text resource written where_sql =
    lit "update "
    ++ (quote_ident resource.table
        ++ (lit " set " ++ (join (assignments 0 written) (lit ", ") ++ where_sql)))

unfoldable pub select_text : ResourceMeta → Str → Str
select_text resource rest =
    lit "select "
    ++ (select_cols resource ++ (lit " from " ++ (quote_ident resource.table ++ rest)))

unfoldable pub delete_text : ResourceMeta → Str → Str
delete_text resource where_sql = lit "delete from " ++ (quote_ident resource.table ++ where_sql)

abbrev pub first_record : List Record → Result StoreError Record
first_record [] = err not_found
first_record (r ∷ _) = ok r
