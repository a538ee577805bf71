-- ===== src/Filters.antt =====
-- pkg/filters/filters.go: the list query of a request, checked against the allowed fields.
pub mod Checked
pub mod Keys
mod Tests
use gomyadmin.Base.{
  Bool, true, false, not, ◌&&◌, ◌||◌, Option, none, some, List, [], ◌∷◌, ◌++◌, Str, ◌==◌, str_eq,
  map, if◌then◌else◌,
}
use gomyadmin.Base.Result.{Result, ok, err, ◌>>=◌}
use gomyadmin.Text.{
  lit, has_prefix, has_suffix, trim_prefix, trim_suffix, trim_space, split_byte, split_pair,
}
use gomyadmin.Text.Order.{sort_strings}
use gomyadmin.Dict.{Dict, lookup}
use gomyadmin.Paging
use gomyadmin.Paging.{Page, Values}

-- `type FieldType string`. `other` stands for any string that is not one of the constants.
pub data FieldType : Type 0 where
  string number boolean enum date date_time jsonb relation other : FieldType

-- `type AllowedField struct`
pub record AllowedField : Type 0 where
  pub name : Str
  pub column : Str
  pub kind : FieldType
  pub searchable : Bool
  pub sortable : Bool
  pub filterable : Bool

-- `type Sort struct`
pub record Sort : Type 0 where
  pub field : Str
  pub desc : Bool

-- `type Filter struct`
pub record Filter : Type 0 where
  pub field : Str
  pub operator : Str
  pub value : Str

-- `type Query struct`
pub record Query : Type 0 where
  pub page : Page
  pub search : Str
  pub sorts : List Sort
  pub filters : List Filter

-- The errors, by the format strings of their messages.
pub data FilterError : Type 0 where
  not_sortable : Str → FilterError
  invalid_key : Str → FilterError
  not_filterable : Str → FilterError
  operator_not_allowed : Str → Str → FilterError

-- `func defaultOperator`
unfoldable pub default_operator : FieldType → Str
default_operator string = lit "contains"
default_operator jsonb = lit "contains"
default_operator _ = lit "eq"

abbrev is_text : FieldType → Bool
is_text string = true
is_text jsonb = true
is_text _ = false

abbrev is_ordered : FieldType → Bool
is_ordered number = true
is_ordered date = true
is_ordered date_time = true
is_ordered _ = false

abbrev is_choice : FieldType → Bool
is_choice enum = true
is_choice relation = true
is_choice _ = false

-- `func operatorAllowed`
unfoldable pub operator_allowed : FieldType → Str → Bool
operator_allowed field_type operator =
    if operator == lit "eq"
    then true
    else if operator == lit "contains"
        || (operator == lit "starts_with" || operator == lit "ends_with")
    then is_text field_type
    else if operator == lit "gte"
        || (operator == lit "lte" || (operator == lit "gt" || operator == lit "lt"))
    then is_ordered field_type
    else if operator == lit "in"
    then is_choice field_type
    else false

-- `allowedField, ok := allowed[field]; ok && test(allowedField)`
unfoldable pub allows : (AllowedField → Bool) → Option AllowedField → Bool
allows test none = false
allows test (some f) = test f

-- The loop of `func parseSort` over the parts of the value.
unfoldable pub sort_loop : Dict AllowedField → List Str → List Sort → Result FilterError (List Sort)
sort_loop allowed [] sorts = ok sorts
sort_loop allowed (raw ∷ rest) sorts =
    let part = trim_space raw in
    let field = trim_prefix part (lit "-") in
    let skipped = sort_loop allowed rest sorts in
    let taken =
      sort_loop allowed rest
        (sorts ++ record { field = field; desc = has_prefix part (lit "-") } ∷ []) in
    if part == []
    then skipped
    else if allows (λ f. f.sortable) (lookup field allowed)
    then taken
    else err (not_sortable field)

-- `func parseSort`
unfoldable pub parse_sort : Str → Dict AllowedField → Result FilterError (List Sort)
parse_sort value allowed =
    if trim_space value == [] then ok [] else sort_loop allowed (split_byte value b',') []

-- `func parseFilterKey`; `none` is its `ok == false`. `strings.Split` gives at least one part.
abbrev key_parts : List Str → Option (Str × Str)
key_parts [] = none
key_parts (part ∷ rest) =
    if trim_suffix part (lit "]") == []
    then none
    else some (
      trim_suffix part (lit "]"),
      elim rest [ [] ↦ [] | second ∷ _ ↦ trim_suffix second (lit "]") ],
    )

unfoldable pub parse_filter_key : Str → Option (Str × Str)
parse_filter_key key =
    if not (has_prefix key (lit "filter[")) || not (has_suffix key (lit "]"))
    then none
    else key_parts (split_pair (trim_prefix key (lit "filter[")) b']' b'[')

-- `if op == "" { op = defaultOperator(…) }`
abbrev chosen_operator : AllowedField → Str → Str
chosen_operator f op = if op == [] then default_operator f.kind else op

-- The end of a round of the loop of `func parseFilters`: the field and the operator are checked.
unfoldable pub checked_filter : Str → Str → Str → Option AllowedField → Result FilterError Filter
checked_filter field op value none = err (not_filterable field)
checked_filter field op value (some f) =
    if not f.filterable
    then err (not_filterable field)
    else if not (operator_allowed f.kind (chosen_operator f op))
    then err (operator_not_allowed (chosen_operator f op) field)
    else ok (record { field = field; operator = chosen_operator f op; value = value })

-- A round for a key with a nonempty first value.
unfoldable pub read_filter : Dict AllowedField → Str → Str → Result FilterError Filter
read_filter allowed key value = elim (parse_filter_key key) [
  | none ↦ err (invalid_key key)
  | some (field, op) ↦ checked_filter field op value (lookup field allowed)
]

-- The loop of `func parseFilters` over the sorted keys. `Paging.get` is the first value, or "".
unfoldable pub filter_loop :
    Values → Dict AllowedField → List Str → List Filter → Result FilterError (List Filter)
filter_loop values allowed [] out = ok out
filter_loop values allowed (key ∷ rest) out =
    let value = Paging.get values key in
    let skipped = filter_loop values allowed rest out in
    let taken = (do
      f ← read_filter allowed key value
      filter_loop values allowed rest (out ++ f ∷ [])) in
    if not (has_prefix key (lit "filter[")) then skipped else if value == [] then skipped else taken

abbrev pub keys {ℓ} : {V : Type ℓ} → Dict V → List Str
keys [] = []
keys ((k, _) ∷ m) = k ∷ keys m

-- `func parseFilters`
unfoldable pub parse_filters : Values → Dict AllowedField → Result FilterError (List Filter)
parse_filters values allowed = filter_loop values allowed (sort_strings (keys values)) []

-- The search text: `q`, or `search` where that is blank.
unfoldable pub search_text : Values → Str
search_text values =
    if trim_space (Paging.get values (lit "q")) == []
    then trim_space (Paging.get values (lit "search"))
    else trim_space (Paging.get values (lit "q"))

-- `func Parse`
unfoldable pub parse : Values → Dict AllowedField → Result FilterError Query
parse values allowed = do
  sorts ← parse_sort (Paging.get values (lit "sort")) allowed
  filters ← parse_filters values allowed
  ok (record {
    page = Paging.parse values;
    search = search_text values;
    sorts = sorts;
    filters = filters;
  })
