-- ===== src/SqlStore/Records.antt =====
-- The record operations of pkg/adapters/sqlstore/sqlstore.go. `DeleteMany` has a transaction, but
-- reads the records with the database itself, which does not see what the transaction has done.
use gomyadmin.Base.{ℕ, ◌-◌, ◌*◌, none, some, List, [], ◌∷◌, ◌++◌, Str, str_eq, if◌then◌else◌}
use gomyadmin.Base.Int.{pos, wrap_nat}
use gomyadmin.Base.Result.{Result, ok, err, ◌>>=◌}
use gomyadmin.Text.{lit, join}
use gomyadmin.Dict.{Dict, lookup, insert}
use gomyadmin.Database.{Value, number, time, Pool}
use gomyadmin.Server.Meta.{ResourceMeta, has_column, visible_columns}
use gomyadmin.Server.Sql.{StoreError, not_found, no_fields, database}
use gomyadmin.Server.Store.{
  Outside, Record, Fresh, complete, is_kept_out, is_fixed, values, first_record,
}
use gomyadmin.Server.Records.{value_at, page_of, per_page_of}
use gomyadmin.SqlStore.{
  Dialect, quote, placeholder, select_cols, equals, where_sql, order, where_key, normalize_scanned,
  written_loop,
}

-- A row of `scanRows` by the columns of the query.
unfoldable pub scan_row : List Str → List Value → Record → Record
scan_row (c ∷ cols) (v ∷ row) record_ = scan_row cols row (insert c (normalize_scanned v) record_)
scan_row _ _ record_ = record_

-- `func scanRows`, on what the query gave.
unfoldable pub scan_loop : List Str → List (List Value) → List Record
scan_loop cols [] = []
scan_loop cols (row ∷ rows) = scan_row cols row [] ∷ scan_loop cols rows

abbrev columns : Dialect → List (Str × Value) → List Str
columns dialect [] = []
columns dialect ((name, _) ∷ rest) = quote dialect name ∷ columns dialect rest

abbrev marks : List (Str × Value) → List Str
marks [] = []
marks (_ ∷ rest) = placeholder ∷ marks rest

abbrev assignments : Dialect → List (Str × Value) → List Str
assignments dialect [] = []
assignments dialect ((name, _) ∷ rest) = equals dialect name ∷ assignments dialect rest

unfoldable pub insert_text : Dialect → ResourceMeta → List (Str × Value) → Str
insert_text dialect resource written =
    lit "insert into "
    ++ (quote dialect resource.table
        ++ (lit " ("
            ++ (join (columns dialect written) (lit ", ")
                ++ (lit ") values (" ++ (join (marks written) (lit ", ") ++ lit ")")))))

unfoldable pub update_text : Dialect → ResourceMeta → List (Str × Value) → Str → Str
update_text dialect resource written where_text =
    lit "update "
    ++ (quote dialect resource.table
        ++ (lit " set " ++ (join (assignments dialect written) (lit ", ") ++ where_text)))

unfoldable pub select_text : Dialect → ResourceMeta → Str → Str
select_text dialect resource rest =
    lit "select "
    ++ (select_cols dialect resource ++ (lit " from " ++ (quote dialect resource.table ++ rest)))

unfoldable pub delete_text : Dialect → ResourceMeta → Str → Str
delete_text dialect resource where_text =
    lit "delete from " ++ (quote dialect resource.table ++ where_text)

module _ (pool : Pool) (out : Outside) (dialect : Dialect) (resources : Dict ResourceMeta) where
  open pool use {State, query, query_count, exec, begin, commit}

  abbrev pub Outcome : Type 0 → Type 0
  Outcome A = State × Result StoreError A

  -- The records that a query of a resource gives.
  unfoldable pub read_rows :
      ResourceMeta → Str → List Value → State → Result StoreError (List Record)
  read_rows resource rest args s = elim (query (select_text dialect resource rest) args s) [
    | none ↦ err database
    | some rows ↦ ok (scan_loop (visible_columns resource) rows)
  ]

  -- The body of `List` after its `where`.
  unfoldable pub list_where :
      ResourceMeta → Str → ℕ → ℕ → State → Str × List Value → Result StoreError (List Record × ℕ)
  list_where resource sort_by page per_page s (where_text, args) =
      elim (query_count
        (lit "select count(*) from " ++ (quote dialect resource.table ++ where_text)) args s) [
          | none ↦ err database
          | some total ↦
              read_rows resource
                (where_text
                  ++ (order dialect resource sort_by
                      ++ (lit " limit " ++ (placeholder ++ (lit " offset " ++ placeholder)))))
                (args ++ number (pos per_page) ∷ number (wrap_nat ((page - 1) * per_page)) ∷ []) s
              >>= λ records. ok (records, total)
        ]

  -- `func (s *Store) List`
  unfoldable pub list :
      Str → Str → Str → Str → Str → Dict Str → ℕ → ℕ → State → Result StoreError (List Record × ℕ)
  list table tenant_id role search sort_by filters page per_page s = elim (lookup table resources) [
    | none ↦ err not_found
    | some resource ↦
        where_sql dialect resource tenant_id role search filters
        >>= list_where resource sort_by (page_of page) (per_page_of per_page) s
  ]

  -- `func (s *Store) Get`
  unfoldable pub get : Str → Str → Str → Str → State → Result StoreError Record
  get table id tenant_id role s = elim (lookup table resources) [
    | none ↦ err not_found
    | some resource ↦
        let key = where_key dialect resource [] id tenant_id role in
        read_rows resource (key.0 ++ lit " limit 1") key.1 s >>= first_record
  ]

  -- The execution and the last lines of `Create`.
  unfoldable pub insert_record :
      Str
      → ResourceMeta
      → Str
      → Record
      → State
      → Result StoreError (List (Str × Value))
      → Outcome Record
  insert_record table resource tenant_id input s (err e) = (s, err e)
  insert_record table resource tenant_id input s (ok []) = (s, err no_fields)
  insert_record table resource tenant_id input s (ok (w ∷ written)) =
      elim (exec (insert_text dialect resource (w ∷ written)) (values (w ∷ written)) s) [
        | none ↦ (s, err database)
        | some t ↦ (
          t,
          get table (out.sprint (value_at resource.primary_key input)) tenant_id (lit "super_admin")
              t,
        )
      ]

  -- `func (s *Store) Create`
  unfoldable pub create : Str → Str → Fresh → Record → State → Outcome Record
  create table tenant_id fresh input s = elim (lookup table resources) [
    | none ↦ (s, err not_found)
    | some resource ↦
        let input' = complete resource tenant_id fresh input in
        insert_record table resource tenant_id input' s
          (written_loop out (is_kept_out resource) resource.fields input')
  ]

  -- What `Update` writes: the fields of the input, and the time of the update.
  unfoldable pub updates : ResourceMeta → ℕ → Record → Result StoreError (List (Str × Value))
  updates resource now input =
      written_loop out (is_fixed resource) resource.fields input >>= λ written. ok (
        if has_column resource (lit "updated_at")
        then written ++ (lit "updated_at", time now) ∷ []
        else written)

  unfoldable pub update_record :
      Str
      → ResourceMeta
      → Str
      → Str
      → Str
      → Record
      → State
      → Result StoreError (List (Str × Value))
      → Outcome (Record × Record)
  update_record table resource id tenant_id role old s (err e) = (s, err e)
  update_record table resource id tenant_id role old s (ok []) = (s, ok (old, old))
  update_record table resource id tenant_id role old s (ok (w ∷ written)) =
      let key = where_key dialect resource (values (w ∷ written)) id tenant_id role in
      elim (exec (update_text dialect resource (w ∷ written) key.0) key.1 s) [
        | none ↦ (s, err database)
        | some t ↦ (t, get table id tenant_id role t >>= λ new. ok (old, new))
      ]

  -- `func (s *Store) Update`
  unfoldable pub update : Str → Str → Str → Str → ℕ → Record → State → Outcome (Record × Record)
  update table id tenant_id role now input s = elim (lookup table resources) [
    | none ↦ (s, err not_found)
    | some resource ↦ elim (get table id tenant_id role s) [
      | err e ↦ (s, err e)
      | ok old ↦ update_record table resource id tenant_id role old s (updates resource now input)
    ]
  ]

  -- A round of `DeleteMany`: the record is read in the database `s`, and deleted in the transaction.
  unfoldable pub delete_one : Str → Str → Str → Str → State → State → Outcome Record
  delete_one table tenant_id role id s t = elim (lookup table resources) [
    | none ↦ (t, err not_found)
    | some resource ↦
        let key = where_key dialect resource [] id tenant_id role in
        elim (get table id tenant_id role s) [
          | err e ↦ (t, err e)
          | ok old ↦ elim (exec (delete_text dialect resource key.0) key.1 t) [
            | none ↦ (t, err database)
            | some u ↦ (u, ok old)
          ]
        ]
  ]

  -- The loop of `DeleteMany`
  unfoldable pub delete_loop :
      Str → Str → Str → State → List Str → List Record → State → Outcome (List Record)
  delete_loop table tenant_id role s [] deleted t = (t, ok deleted)
  delete_loop table tenant_id role s (id ∷ ids) deleted t =
      let step = delete_one table tenant_id role id s t in
      elim step.1 [
        | err e ↦ (step.0, err e)
        | ok old ↦ delete_loop table tenant_id role s ids (deleted ++ old ∷ []) step.0
      ]

  -- The commit, or the rollback to the state `s` before.
  unfoldable pub finish : State → Outcome (List Record) → Outcome (List Record)
  finish s (t, err e) = (s, err e)
  finish s (t, ok deleted) = elim (commit t) [ none ↦ (s, err database) | some u ↦ (u, ok deleted) ]

  -- `func (s *Store) DeleteMany`
  unfoldable pub delete_many : Str → List Str → Str → Str → State → Outcome (List Record)
  delete_many table ids tenant_id role s = elim (begin s) [
    | none ↦ (s, err database)
    | some t ↦ finish s (delete_loop table tenant_id role s ids [] t)
  ]

  abbrev first_deleted : Outcome (List Record) → Outcome Record
  first_deleted (s, err e) = (s, err e)
  first_deleted (s, ok records) = (s, first_record records)

  -- `func (s *Store) Delete`
  unfoldable pub delete : Str → Str → Str → Str → State → Outcome Record
  delete table id tenant_id role s = first_deleted (delete_many table (id ∷ []) tenant_id role s)
