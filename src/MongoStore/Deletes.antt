-- ===== src/MongoStore/Deletes.antt =====
-- `DeleteMany` of the MongoDB adapter has no transaction.
use gomyadmin.Base.{
  ◌≡◌, ◌∙◌, refl, sym, ap, not, ◌&&◌, Option, none, some, List, [], ◌∷◌, ◌++◌, Str, ◌==◌, str_eq,
  if◌then◌else◌, ◌⊎◌, inl, inr, Option-cases,
}
use gomyadmin.Base.Result.{Result, ok, err, err≢ok, ◌>>=◌}
use gomyadmin.Dict.{Dict, lookup, insert}
use gomyadmin.MongoStore.Records.{
  Driver, read_one, normalize_record, get, delete_round, delete_loop, delete_many,
}
use gomyadmin.MongoStore.{Filter, is, key_filter, add_tenant}
use gomyadmin.Server.Meta.{ResourceMeta}
use gomyadmin.Server.Sql.{StoreError, not_found, database, is_scoped}
use gomyadmin.Server.Store.{Record}
use gomyadmin.Text.{lit}

module _ (driver : Driver) (resource : ResourceMeta) (tenant_id role : Str) where
  -- The documents with this id, of the tenant where the resource has one and the role is not super_admin
  abbrev pub of_id : Str → Filter
  of_id id =
      if not (resource.tenant_key == []) && not (role == lit "super_admin")
      then insert resource.tenant_key (is tenant_id) ((resource.primary_key, is id) ∷ [])
      else (resource.primary_key, is id) ∷ []

  -- The documents of the ids are found and deleted one after the other, from the first state to the
  -- second; the records are those that were found.
  pub data Removed : List Str → driver.State → driver.State → List Record → Type 0 where
    nothing : {s : driver.State} → Removed [] s s []
    one :
        {id : Str} {ids : List Str} {s t u : driver.State} {r : Record} {olds : List Record}
        → driver.find_one resource.table (of_id id) s ≡ some (some r)
        → driver.delete_one resource.table (of_id id) s ≡ some t
        → Removed ids t u olds
        → Removed (id ∷ ids) s u (normalize_record driver r ∷ olds)

  -- Why an id is not deleted in a state, and the error for it
  pub data IsRefused (id : Str) (s : driver.State) (e : StoreError) : Type 0 where
    unread : driver.find_one resource.table (of_id id) s ≡ none → e ≡ database → IsRefused id s e
    absent :
        driver.find_one resource.table (of_id id) s ≡ some none → e ≡ not_found → IsRefused id s e
    undeleted :
        (r : Record)
        → driver.find_one resource.table (of_id id) s ≡ some (some r)
        → driver.delete_one resource.table (of_id id) s ≡ none
        → e ≡ database
        → IsRefused id s e

  -- The ids before one that is refused are deleted, and the state after that is the second one.
  pub record StoppedAt (s t : driver.State) (e : StoreError) (ids : List Str) : Type 0 where
    pub done : List Str
    pub at : Str
    pub rest : List Str
    pub split : ids ≡ done ++ at ∷ rest
    pub records : List Record
    pub removed : Removed done s t records
    pub refused : IsRefused at t e

module _ (driver : Driver) (resources : Dict ResourceMeta) (table tenant_id role : Str) where
  abbrev decoded : Option (Option Record) → Result StoreError Record
  decoded found = read_one driver found >>= λ r. ok (normalize_record driver r)

  get_lem :
      (resource : ResourceMeta) (id : Str) (s : driver.State) {found : Option (Option Record)}
      → lookup table resources ≡ some resource
      → driver.find_one resource.table (of_id driver resource tenant_id role id) s ≡ found
      → get driver resources table id tenant_id role s ≡ decoded found
  unfolding get key_filter add_tenant is_scoped
  get_lem resource id s known e = rw (get, known) (ap decoded e)

  -- A round either deletes the document that it found, or changes nothing.
  round_lem :
      (resource : ResourceMeta) (id : Str) (s : driver.State)
      → lookup table resources ≡ some resource
      → ((r : Record) × (t : driver.State) × (driver.find_one resource.table
              (of_id driver resource tenant_id role id)
              s
            ≡ some (some r))
          × (driver.delete_one resource.table (of_id driver resource tenant_id role id) s ≡ some t)
          × (delete_round driver resources table tenant_id role id s
              ≡ (t, ok (normalize_record driver r))))
        ⊎ ((e : StoreError) × IsRefused driver resource tenant_id role id s e
            × (delete_round driver resources table tenant_id role id s ≡ (s, err e)))
  unfolding delete_round key_filter add_tenant is_scoped
  round_lem resource id s known =
      let k = key_filter resource id tenant_id role in
      let f = of_id driver resource tenant_id role id in
      elim (Option-cases (driver.find_one resource.table f s)) [
        | inl a ↦
            inr (
              database,
              unread a refl,
              rw (delete_round, known, get_lem resource id s known a) refl,
            )
        | inr (o, a) ↦ elim (Option-cases o) [
          | inl b ↦
              let e = a ∙ ap some b in
              inr (
                not_found,
                absent e refl,
                rw (delete_round, known, get_lem resource id s known e) refl,
              )
          | inr (r, b) ↦
              let e = a ∙ ap some b in
              elim (Option-cases (driver.delete_one resource.table f s)) [
                | inl c ↦
                    let c' : driver.delete_one resource.table k s ≡ none = c in
                    inr (
                      database,
                      undeleted r e c refl,
                      rw (delete_round, known, get_lem resource id s known e, c') refl,
                    )
                | inr (t, c) ↦
                    let c' : driver.delete_one resource.table k s ≡ some t = c in
                    inl
                      (r, t, e, c, rw (delete_round, known, get_lem resource id s known e, c') refl)
              ]
        ]
      ]

  delete_loop-StoppedAt :
      (resource : ResourceMeta) (ids : List Str) (before : List Record) (s t : driver.State)
      {e : StoreError}
      → lookup table resources ≡ some resource
      → delete_loop driver resources table tenant_id role ids before s ≡ (t, err e)
      → StoppedAt driver resource tenant_id role s t e ids
  unfolding delete_loop
  delete_loop-StoppedAt resource [] before s t known h = absurd (err≢ok (sym (ap (λ z. z.1) h)))
  delete_loop-StoppedAt resource (id ∷ ids) before s t {e} known h =
      elim (round_lem resource id s known) [
        | inr (f, refused, a) ↦
            let stopped = rw (delete_loop, ap (λ z. z.1) a, ap (λ z. z.0) a) at h in
            let same_error : f ≡ e = cc (ap (λ z. z.1) stopped) in
            let same_state : s ≡ t = ap (λ z. z.0) stopped in
            record {
              done = [];
              at = id;
              rest = ids;
              split = refl;
              records = [];
              removed = rw same_state nothing;
              refused = rw (sym same_state, sym same_error) refused;
            }
        | inl (r, u, found, gone, a) ↦
            let later =
              delete_loop-StoppedAt resource ids (before ++ normalize_record driver r ∷ []) u t
                known (rw (delete_loop, ap (λ z. z.1) a, ap (λ z. z.0) a) at h) in
            record {
              done = id ∷ later.done;
              at = later.at;
              rest = later.rest;
              split = ap (λ z. id ∷ z) later.split;
              records = normalize_record driver r ∷ later.records;
              removed = one found gone later.removed;
              refused = later.refused;
            }
      ]

  -- A DeleteMany of a known table that fails has deleted the documents of the ids before one that is
  -- not found or cannot be read or deleted, each by its id and tenant, and has changed nothing else.
  pub delete_many-StoppedAt :
      (resource : ResourceMeta) (ids : List Str) (s t : driver.State) {e : StoreError}
      → lookup table resources ≡ some resource
      → delete_many driver resources table ids tenant_id role s ≡ (t, err e)
      → StoppedAt driver resource tenant_id role s t e ids
  unfolding delete_many
  delete_many-StoppedAt resource ids s t known h = delete_loop-StoppedAt resource ids [] s t known h
