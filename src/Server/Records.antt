-- ===== src/Server/Records.antt =====
-- `List`, `Get`, `Create`, `Update`, `Delete` and `DeleteMany` of pkg/server/store.go. Each gives the
-- state that it leaves with its result.
use gomyadmin.Base.{
  ℕ, ◌+◌, ◌-◌, ◌*◌, not, ◌&&◌, ◌||◌, none, some, List, [], ◌∷◌, ◌++◌, Str, ◌==◌, str_eq, nat_eq,
  ltb, length, if◌then◌else◌,
}
use gomyadmin.Base.Int.{pos, wrap_nat}
use gomyadmin.Base.Result.{Result, ok, err, ◌>>=◌}
use gomyadmin.Text.{lit}
use gomyadmin.Text.Number.{itoa}
use gomyadmin.Dict.{Dict, lookup}
use gomyadmin.Server.Meta.{ResourceMeta}
use gomyadmin.Server.Sql.{
  Value, nil, text, number, StoreError, not_found, no_fields, database, quote_ident, where_key,
  build_where, build_order_clause,
}
use gomyadmin.Server.Store.{
  Pool, Outside, Record, Fresh, scan_rows, complete, written_loop, is_kept_out, insert_text, values,
  updates, update_text, select_text, delete_text, first_record,
}

-- A value of a map, or the zero value.
abbrev pub value_at : Str → Record → Value
value_at k r = elim (lookup k r) [ none ↦ nil | some v ↦ v ]

abbrev pub page_of : ℕ → ℕ
page_of page = if page == 0 then 1 else page

abbrev pub per_page_of : ℕ → ℕ
per_page_of per_page = if per_page == 0 || ltb 100 per_page then 25 else per_page

-- `QueryRow(...).Scan(&key)`
abbrev key_of : List (List Value) → Result StoreError Str
key_of [] = err not_found
key_of ((text key ∷ []) ∷ _) = ok key
key_of _ = err database

module _ (pool : Pool) (out : Outside) (resources : Dict ResourceMeta) where
  open pool use {State, query, query_count, exec, begin, commit}

  abbrev pub Outcome : Type 0 → Type 0
  Outcome A = State × Result StoreError A

  -- The body of `List` after its `buildWhere`.
  unfoldable pub list_where :
      ResourceMeta → Str → ℕ → ℕ → State → Str × List Value → Result StoreError (List Record × ℕ)
  list_where resource sort_by page per_page s (where_sql, args) =
      let rest =
        lit " limit $" ++ (itoa (length args + 1) ++ (lit " offset $" ++ itoa (length args + 2))) in
      let args' =
        args ++ (number (pos per_page) ∷ number (wrap_nat ((page - 1) * per_page)) ∷ []) in
      elim (query_count (lit "select count(*) from " ++ (quote_ident resource.table ++ where_sql))
        args s) [
          | none ↦ err database
          | some total ↦
              scan_rows out resource (
                query
                  (select_text resource
                    (where_sql ++ (build_order_clause resource sort_by ++ rest)))
                  args' s)
              >>= λ records. ok (records, total)
        ]

  -- `func (s *serverStore) List`. Its callers give no negative numbers.
  unfoldable pub list :
      Str → Str → Str → Str → Str → Dict Str → ℕ → ℕ → State → Result StoreError (List Record × ℕ)
  list table tenant_id role search sort_by filters page per_page s = elim (lookup table resources) [
    | none ↦ err not_found
    | some resource ↦
        build_where resource tenant_id role search filters
        >>= list_where resource sort_by (page_of page) (per_page_of per_page) s
  ]

  -- The one record of a resource, as `Get` and `DeleteMany` read it.
  unfoldable pub read_one : ResourceMeta → Str → Str → Str → State → Result StoreError Record
  read_one resource id tenant_id role s =
      let key = where_key resource [] id tenant_id role in
      scan_rows out resource (query (select_text resource (key.0 ++ lit " limit 1")) key.1 s)
      >>= first_record

  -- `func (s *serverStore) Get`
  unfoldable pub get : Str → Str → Str → Str → State → Result StoreError Record
  get table id tenant_id role s = elim (lookup table resources) [
    | none ↦ err not_found
    | some resource ↦ read_one resource id tenant_id role s
  ]

  -- The execution and the last lines of `Create`.
  unfoldable pub insert_record :
      Str
      → ResourceMeta
      → Str
      → Record
      → State
      → Result StoreError (List (Str × Value))
      → Outcome Record
  insert_record table resource tenant_id input s (err e) = (s, err e)
  insert_record table resource tenant_id input s (ok []) = (s, err no_fields)
  insert_record table resource tenant_id input s (ok (w ∷ written)) =
      elim (exec (insert_text resource (w ∷ written)) (values (w ∷ written)) s) [
        | none ↦ (s, err database)
        | some t ↦ (
          t,
          get table (out.sprint (value_at resource.primary_key input)) tenant_id (lit "super_admin")
              t,
        )
      ]

  -- `func (s *serverStore) Create`
  unfoldable pub create : Str → Str → Fresh → Record → State → Outcome Record
  create table tenant_id fresh input s = elim (lookup table resources) [
    | none ↦ (s, err not_found)
    | some resource ↦
        let input' = complete resource tenant_id fresh input in
        insert_record table resource tenant_id input' s
          (written_loop out (is_kept_out resource) resource.fields input')
  ]

  -- The execution and the last lines of `Update`.
  unfoldable pub update_record :
      Str
      → ResourceMeta
      → Str
      → Str
      → Str
      → Record
      → State
      → Result StoreError (List (Str × Value))
      → Outcome (Record × Record)
  update_record table resource id tenant_id role old s (err e) = (s, err e)
  update_record table resource id tenant_id role old s (ok []) = (s, ok (old, old))
  update_record table resource id tenant_id role old s (ok (w ∷ written)) =
      let key = where_key resource (values (w ∷ written)) id tenant_id role in
      elim (exec (update_text resource (w ∷ written) key.0) key.1 s) [
        | none ↦ (s, err database)
        | some t ↦ (t, get table id tenant_id role t >>= λ new. ok (old, new))
      ]

  -- `func (s *serverStore) Update`, at the time `now`.
  unfoldable pub update : Str → Str → Str → Str → ℕ → Record → State → Outcome (Record × Record)
  update table id tenant_id role now input s = elim (lookup table resources) [
    | none ↦ (s, err not_found)
    | some resource ↦ elim (read_one resource id tenant_id role s) [
      | err e ↦ (s, err e)
      | ok old ↦
          update_record table resource id tenant_id role old s (updates out resource now input)
    ]
  ]

  -- Reading a record and deleting it, in `Delete` and in a round of `DeleteMany`.
  unfoldable pub delete_one : ResourceMeta → Str → Str → Str → State → Outcome Record
  delete_one resource id tenant_id role s =
      let key = where_key resource [] id tenant_id role in
      elim (read_one resource id tenant_id role s) [
        | err e ↦ (s, err e)
        | ok old ↦ elim (exec (delete_text resource key.0) key.1 s) [
          | none ↦ (s, err database)
          | some t ↦ (t, ok old)
        ]
      ]

  -- `func (s *serverStore) Delete`
  unfoldable pub delete : Str → Str → Str → Str → State → Outcome Record
  delete table id tenant_id role s = elim (lookup table resources) [
    | none ↦ (s, err not_found)
    | some resource ↦ delete_one resource id tenant_id role s
  ]

  -- `func (s *serverStore) FileKey`. The query has one column, a string.
  unfoldable pub file_key : Str → Str → Str → State → Result StoreError Str
  file_key id tenant_id role s =
      let scoped = not (tenant_id == []) && not (role == lit "super_admin") in
      let args = if scoped then text id ∷ text tenant_id ∷ [] else text id ∷ [] in
      let where_sql =
        if scoped then lit " where id = $1 and tenant_id = $2" else lit " where id = $1" in
      elim (query (lit "select key from gomyadmin_files" ++ (where_sql ++ lit " limit 1")) args s) [
        | none ↦ err database
        | some rows ↦ key_of rows
      ]

  -- The loop of `DeleteMany`, on the state of the transaction.
  unfoldable pub delete_loop :
      ResourceMeta → List Str → Str → Str → List Record → State → Outcome (List Record)
  delete_loop resource [] tenant_id role deleted t = (t, ok deleted)
  delete_loop resource (id ∷ ids) tenant_id role deleted t =
      let step = delete_one resource id tenant_id role t in
      elim step.1 [
        | err e ↦ (step.0, err e)
        | ok old ↦ delete_loop resource ids tenant_id role (deleted ++ old ∷ []) step.0
      ]

  -- The end of `DeleteMany`: the commit, or the rollback to the state `s` before.
  unfoldable pub finish : State → Outcome (List Record) → Outcome (List Record)
  finish s (t, err e) = (s, err e)
  finish s (t, ok deleted) = elim (commit t) [ none ↦ (s, err database) | some u ↦ (u, ok deleted) ]

  -- The transaction of `DeleteMany`
  unfoldable pub delete_all : ResourceMeta → List Str → Str → Str → State → Outcome (List Record)
  delete_all resource ids tenant_id role s = elim (begin s) [
    | none ↦ (s, err database)
    | some t ↦ finish s (delete_loop resource ids tenant_id role [] t)
  ]

  -- `func (s *serverStore) DeleteMany`
  unfoldable pub delete_many : Str → List Str → Str → Str → State → Outcome (List Record)
  delete_many table ids tenant_id role s = elim (lookup table resources) [
    | none ↦ (s, err not_found)
    | some resource ↦
        if length ids == 0 then (s, ok []) else delete_all resource ids tenant_id role s
  ]
