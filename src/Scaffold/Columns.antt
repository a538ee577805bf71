-- ===== src/Scaffold/Columns.antt =====
-- `internal/introspect/mapping.go`, and the fields that `internal/cli/cli.go` makes of columns.
pub mod Names
pub mod Sound
use gomyadmin.Base.{
  ℕ, ◌-◌, Bool, true, false, not, ◌&&◌, ◌||◌, Option, none, some, List, [], ◌∷◌, ◌++◌, Str, ◌==◌,
  str_eq, nat_eq, ltb, if◌then◌else◌, length, take, any,
}
use gomyadmin.Dict.{Dict, lookup}
use gomyadmin.Registry.Fields.{
  FieldType, string, text, email, password, number, integer, float, decimal, money, boolean, enum,
  status, date, date_time, time, uuid, json, jsonb, markdown, rich_text, image, file, relation,
  computed,
}
use gomyadmin.Registry.Names.{upper_first}
use gomyadmin.Scaffold.Columns.Names.{column_to_field_name}
use gomyadmin.Text.Case.{to_lower, contains}
use gomyadmin.Text.{lit, trim_space, has_suffix, split_byte}

-- `type Column struct`
pub record Column : Type 0 where
  pub name : Str
  pub data_type : Str
  pub nullable : Bool
  pub default_value : Str
  pub is_identity : Bool

-- The cases of the switch of `ColumnToFieldType`
abbrev pub column_types : Dict FieldType
column_types =
    (lit "uuid", uuid)
    ∷ (lit "boolean", boolean)
    ∷ (lit "bool", boolean)
    ∷ (lit "smallint", integer)
    ∷ (lit "integer", integer)
    ∷ (lit "int", integer)
    ∷ (lit "int2", integer)
    ∷ (lit "int4", integer)
    ∷ (lit "bigint", integer)
    ∷ (lit "int8", integer)
    ∷ (lit "real", float)
    ∷ (lit "float4", float)
    ∷ (lit "double precision", float)
    ∷ (lit "float8", float)
    ∷ (lit "numeric", decimal)
    ∷ (lit "decimal", decimal)
    ∷ (lit "money", money)
    ∷ (lit "text", text)
    ∷ (lit "character varying", string)
    ∷ (lit "varchar", string)
    ∷ (lit "character", string)
    ∷ (lit "char", string)
    ∷ (lit "bpchar", string)
    ∷ (lit "date", date)
    ∷ (lit "time", time)
    ∷ (lit "time without time zone", time)
    ∷ (lit "time with time zone", time)
    ∷ (lit "timetz", time)
    ∷ (lit "timestamp", date_time)
    ∷ (lit "timestamp without time zone", date_time)
    ∷ (lit "timestamp with time zone", date_time)
    ∷ (lit "timestamptz", date_time)
    ∷ (lit "json", json)
    ∷ (lit "jsonb", jsonb)
    ∷ []

unfoldable pub column_to_field_type : Str → FieldType
unfolding lookup
column_to_field_type data_type = elim (lookup (to_lower (trim_space data_type)) column_types) [
  | some t ↦ t
  | none ↦ string
]

unfoldable pub is_likely_primary_key : Column → Bool
is_likely_primary_key col =
    let name = to_lower col.name in
    name == lit "id"
    || (col.is_identity
        || ((name == lit "uuid" && col.data_type == lit "uuid")
            || (has_suffix name (lit "_id") && col.is_identity)))

unfoldable pub is_likely_timestamp : Column → Bool
is_likely_timestamp col =
    let lower = to_lower col.data_type in
    contains lower (lit "timestamp") || contains lower (lit "timetz")

unfoldable pub is_likely_email : Column → Bool
is_likely_email col =
    let name = to_lower col.name in name == lit "email" || has_suffix name (lit "_email")

unfoldable pub is_likely_password : Column → Bool
is_likely_password col =
    let name = to_lower col.name in
    name == lit "password"
    || (name == lit "password_hash"
        || (name == lit "hashed_password" || has_suffix name (lit "_password")))

unfoldable pub suggest_field_type : Column → FieldType
unfolding is_likely_email is_likely_password column_to_field_type
suggest_field_type col =
    if is_likely_email col
    then email
    else if is_likely_password col
    then password
    else column_to_field_type col.data_type

unfoldable pub is_searchable : Column → Bool
unfolding column_to_field_type is_likely_email
is_searchable col = elim (column_to_field_type col.data_type) [
  | string ↦ true
  | text ↦ true
  | email ↦ true
  | _ ↦ is_likely_email col
]

unfoldable pub is_sortable : Column → Bool
unfolding column_to_field_type
is_sortable col = elim (column_to_field_type col.data_type) [
  | string ↦ true
  | text ↦ true
  | email ↦ true
  | integer ↦ true
  | float ↦ true
  | decimal ↦ true
  | money ↦ true
  | date ↦ true
  | date_time ↦ true
  | time ↦ true
  | boolean ↦ true
  | _ ↦ false
]

-- The constants of `admin.FieldType`
unfoldable pub type_text : FieldType → Str
type_text string = lit "string"
type_text text = lit "text"
type_text email = lit "email"
type_text password = lit "password"
type_text number = lit "number"
type_text integer = lit "integer"
type_text float = lit "float"
type_text decimal = lit "decimal"
type_text money = lit "money"
type_text boolean = lit "boolean"
type_text enum = lit "enum"
type_text status = lit "status"
type_text date = lit "date"
type_text date_time = lit "datetime"
type_text time = lit "time"
type_text uuid = lit "uuid"
type_text json = lit "json"
type_text jsonb = lit "jsonb"
type_text markdown = lit "markdown"
type_text rich_text = lit "rich_text"
type_text image = lit "image"
type_text file = lit "file"
type_text relation = lit "relation"
type_text computed = lit "computed"

-- `func fieldTypeMethodName`; no constant is empty.
unfoldable pub field_type_method_name : FieldType → Str
unfolding type_text upper_first
field_type_method_name date_time = lit "DateTime"
field_type_method_name uuid = lit "UUID"
field_type_method_name json = lit "JSON"
field_type_method_name jsonb = lit "JSONB"
field_type_method_name money = lit "Decimal"
field_type_method_name t = upper_first (type_text t)

-- The methods of a field without parameters that set its type, from `String` to `Computed`
unfoldable pub method_of : FieldType → Option Str
method_of string = some (lit "String")
method_of text = some (lit "Text")
method_of email = some (lit "Email")
method_of password = some (lit "Password")
method_of number = some (lit "Number")
method_of integer = some (lit "Integer")
method_of float = some (lit "Float")
method_of decimal = some (lit "Decimal")
method_of boolean = some (lit "Boolean")
method_of date = some (lit "Date")
method_of date_time = some (lit "DateTime")
method_of time = some (lit "Time")
method_of uuid = some (lit "UUID")
method_of json = some (lit "JSON")
method_of jsonb = some (lit "JSONB")
method_of markdown = some (lit "Markdown")
method_of rich_text = some (lit "RichText")
method_of image = some (lit "ImageUpload")
method_of file = some (lit "FileUpload")
method_of computed = some (lit "Computed")
method_of _ = none

-- `type GeneratedField struct`
pub record GeneratedField : Type 0 where
  pub name : Str
  pub method : Str
  pub primary : Bool
  pub readonly : Bool
  pub searchable : Bool
  pub sortable : Bool
  pub filterable : Bool
  pub required : Bool

abbrev is_filterable_type : FieldType → Bool
is_filterable_type boolean = true
is_filterable_type date = true
is_filterable_type date_time = true
is_filterable_type _ = false

-- The field of `columnToField` under its name
unfoldable pub generated_field : Str → Column → Bool → GeneratedField
unfolding suggest_field_type is_likely_timestamp is_searchable is_sortable field_type_method_name
generated_field field_name col is_pk = record {
  name = field_name;
  method = field_type_method_name (suggest_field_type col);
  primary = is_pk;
  readonly = is_pk || is_likely_timestamp col;
  searchable = is_searchable col;
  sortable = is_sortable col;
  filterable = is_filterable_type (suggest_field_type col);
  required = not col.nullable && not is_pk;
}

unfoldable pub column_to_field : Column → Bool → Option GeneratedField
unfolding generated_field column_to_field_name
column_to_field col is_pk = elim (column_to_field_name col.name) [
  | none ↦ none
  | some field_name ↦ some (generated_field field_name col is_pk)
]
