-- ===== src/MongoStore/Records.antt =====
-- The operations of `pkg/adapters/mongostore/mongostore.go` on records and files, over the collections
-- of a database. A command that fails changes nothing.
use gomyadmin.Base.{
  ℕ, ◌-◌, ◌*◌, Bool, not, ◌&&◌, Option, none, some, List, [], ◌∷◌, ◌++◌, Str, ◌==◌, str_eq,
  if◌then◌else◌,
}
use gomyadmin.Base.Int.{ℤ, wrap_nat}
use gomyadmin.Base.Result.{Result, ok, err, ◌>>=◌}
use gomyadmin.Database.{Value, nil, text, time}
use gomyadmin.Dict.{Dict, lookup, insert, delete}
use gomyadmin.MongoStore.{Filter, is, key_filter, build_filter, build_sort}
use gomyadmin.Server.Meta.{FieldMeta, ResourceMeta, has_column}
use gomyadmin.Server.Records.{page_of, per_page_of}
use gomyadmin.Server.Sql.{StoreError, not_found, database}
use gomyadmin.Server.Store.{Record, Fresh, complete, is_fixed, is_nil}
use gomyadmin.Text.{lit}

-- The driver. `none` is an error, but for `find_one`, whose `some none` is `ErrNoDocuments`.
pub record Driver : Type 1 where
  pub State : Type 0
  pub count : Str → Filter → State → Option ℕ
  pub find : Str → Filter → Option (Str × Bool) → ℕ → ℤ → State → Option (List Record)
  pub find_one : Str → Filter → State → Option (Option Record)
  pub insert_one : Str → Record → State → Option State
  pub update_one : Str → Filter → Record → State → Option State
  pub delete_one : Str → Filter → State → Option State
  pub sprint : Value → Str

module _ (driver : Driver) where
  open driver use {State, count, find, find_one, insert_one, update_one, delete_one, sprint}

  -- `func normalizeRecord`
  unfoldable pub normalize_record : Record → Record
  normalize_record r = delete (lit "_id") (elim (lookup (lit "_id") r) [
    | none ↦ r
    | some id ↦ if is_nil (lit "id") r then insert (lit "id") (text (sprint id)) r else r
  ])

  unfoldable pub normalize_all : List Record → List Record
  unfolding normalize_record
  normalize_all [] = []
  normalize_all (r ∷ rest) = normalize_record r ∷ normalize_all rest

  -- `FindOne(...).Decode(&record)` with its two errors
  unfoldable pub read_one : Option (Option Record) → Result StoreError Record
  read_one none = err database
  read_one (some none) = err not_found
  read_one (some (some r)) = ok r

module _ (driver : Driver) (resources : Dict ResourceMeta) where
  open driver use {State, count, find, find_one, insert_one, update_one, delete_one, sprint}

  -- `List` behind its filter
  unfoldable pub list_filtered :
      ResourceMeta → Str → ℕ → ℕ → State → Filter → Result StoreError (List Record × ℕ)
  unfolding normalize_all build_sort
  list_filtered resource sort_by page per_page s filter = elim (count resource.table filter s) [
    | none ↦ err database
    | some total ↦
        elim (find resource.table filter (build_sort resource sort_by) per_page
          (wrap_nat ((page - 1) * per_page)) s) [
            | none ↦ err database
            | some records ↦ ok (normalize_all driver records, total)
          ]
  ]

  -- `func (s *Store) List`
  unfoldable pub list :
      Str → Str → Str → Str → Str → Dict Str → ℕ → ℕ → State → Result StoreError (List Record × ℕ)
  unfolding list_filtered build_filter
  list table tenant_id role search sort_by filters page per_page s = elim (lookup table resources) [
    | none ↦ err not_found
    | some resource ↦
        build_filter resource tenant_id role search filters
        >>= list_filtered resource sort_by (page_of page) (per_page_of per_page) s
  ]

  -- `func (s *Store) Get`
  unfoldable pub get : Str → Str → Str → Str → State → Result StoreError Record
  unfolding key_filter read_one normalize_record
  get table id tenant_id role s = elim (lookup table resources) [
    | none ↦ err not_found
    | some resource ↦
        read_one driver (find_one resource.table (key_filter resource id tenant_id role) s) >>= λ r.
        ok (normalize_record driver r)
  ]

  abbrev id_text : ResourceMeta → Record → Str
  id_text resource r = elim (lookup resource.primary_key r) [
    | none ↦ sprint nil
    | some v ↦ sprint v
  ]

  -- `func (s *Store) Create`
  unfoldable pub create : Fresh → Str → Str → Record → State → State × Result StoreError Record
  unfolding get
  create fresh table tenant_id input s = elim (lookup table resources) [
    | none ↦ (s, err not_found)
    | some resource ↦
        let record_ = complete resource tenant_id fresh input in
        elim (insert_one resource.table record_ s) [
          | none ↦ (s, err database)
          | some t ↦ (t, get table (id_text resource record_) tenant_id (lit "super_admin") t)
        ]
  ]

  -- The loop of `Update` over the fields
  unfoldable pub set_loop : ResourceMeta → List FieldMeta → Record → Record → Record
  set_loop resource [] input set_ = set_
  set_loop resource (f ∷ rest) input set_ = elim (lookup f.sql_name input) [
    | none ↦ set_loop resource rest input set_
    | some v ↦
        set_loop resource rest input
          (if is_fixed resource f then set_ else insert f.sql_name v set_)
  ]

  unfoldable pub set_of : ℕ → ResourceMeta → Record → Record
  unfolding set_loop
  set_of now resource input =
      let set_ = set_loop resource resource.fields input [] in
      if has_column resource (lit "updated_at")
      then insert (lit "updated_at") (time now) set_
      else set_

  -- `UpdateOne` and the second `Get` of `Update`
  unfoldable pub update_set :
      Str
      → ResourceMeta
      → Str
      → Str
      → Str
      → Record
      → Record
      → State
      → State × Result StoreError (Record × Record)
  unfolding get
  update_set table resource id tenant_id role set_ old s =
      elim (update_one resource.table (key_filter resource id tenant_id role) set_ s) [
        | none ↦ (s, err database)
        | some t ↦ (t, get table id tenant_id role t >>= λ new. ok (old, new))
      ]

  -- `func (s *Store) Update`
  unfoldable pub update :
      ℕ → Str → Str → Str → Str → Record → State → State × Result StoreError (Record × Record)
  unfolding update_set set_of
  update now table id tenant_id role input s = elim (lookup table resources) [
    | none ↦ (s, err not_found)
    | some resource ↦
        let set_ = set_of now resource input in
        elim (get table id tenant_id role s) [
          | err e ↦ (s, err e)
          | ok old ↦ elim set_ [
            | [] ↦ (s, ok (old, old))
            | e ∷ es ↦ update_set table resource id tenant_id role (e ∷ es) old s
          ]
        ]
  ]

  -- A round of `DeleteMany`
  unfoldable pub delete_round : Str → Str → Str → Str → State → State × Result StoreError Record
  unfolding get
  delete_round table tenant_id role id s = elim (lookup table resources) [
    | none ↦ (s, err not_found)
    | some resource ↦ elim (get table id tenant_id role s) [
      | err e ↦ (s, err e)
      | ok old ↦ elim (delete_one resource.table (key_filter resource id tenant_id role) s) [
        | none ↦ (s, err database)
        | some t ↦ (t, ok old)
      ]
    ]
  ]

  -- `func (s *Store) DeleteMany`, with the records deleted so far
  unfoldable pub delete_loop :
      Str → Str → Str → List Str → List Record → State → State × Result StoreError (List Record)
  unfolding delete_round
  delete_loop table tenant_id role [] deleted s = (s, ok deleted)
  delete_loop table tenant_id role (id ∷ ids) deleted s =
      let (t, r) = delete_round table tenant_id role id s in
      elim r [
        | err e ↦ (t, err e)
        | ok old ↦ delete_loop table tenant_id role ids (deleted ++ old ∷ []) t
      ]

  unfoldable pub delete_many :
      Str → List Str → Str → Str → State → State × Result StoreError (List Record)
  unfolding delete_loop
  delete_many table ids tenant_id role s = delete_loop table tenant_id role ids [] s

  abbrev first_deleted : Result StoreError (List Record) → Result StoreError Record
  first_deleted (err e) = err e
  first_deleted (ok []) = err not_found
  first_deleted (ok (r ∷ _)) = ok r

  -- `func (s *Store) Delete`
  unfoldable pub delete_record : Str → Str → Str → Str → State → State × Result StoreError Record
  unfolding delete_many
  delete_record table id tenant_id role s =
      let (t, r) = delete_many table (id ∷ []) tenant_id role s in (t, first_deleted r)

module _ (driver : Driver) where
  open driver use {State, find, find_one, insert_one, sprint}

  -- `filter` of `Files` and `FileKey`
  unfoldable pub file_filter : Filter → Str → Str → Filter
  file_filter filter tenant_id role =
      if not (tenant_id == []) && not (role == lit "super_admin")
      then insert (lit "tenant_id") (is tenant_id) filter
      else filter

  -- `func (s *Store) AddFile`
  unfoldable pub add_file : Fresh → Record → State → Option State
  add_file fresh r s =
      let with_id =
        if is_nil (lit "id") r then insert (lit "id") (text (lit "file_" ++ fresh.id)) r else r in
      let dated =
        if is_nil (lit "created_at") with_id
        then insert (lit "created_at") (time fresh.now) with_id
        else with_id in
      insert_one (lit "gomyadmin_files") dated s

  -- `func (s *Store) FileKey`
  unfoldable pub file_key : Str → Str → Str → State → Result StoreError Str
  unfolding file_filter read_one
  file_key id tenant_id role s =
      read_one driver
        (find_one (lit "gomyadmin_files") (file_filter ((lit "id", is id) ∷ []) tenant_id role) s)
      >>= λ r. ok (elim (lookup (lit "key") r) [ none ↦ sprint nil | some v ↦ sprint v ])
