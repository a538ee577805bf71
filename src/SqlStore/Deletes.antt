-- ===== src/SqlStore/Deletes.antt =====
-- What `DeleteMany` of pkg/adapters/sqlstore/sqlstore.go leaves and gives back.
use gomyadmin.Base.{
  ◌≡◌, refl, sym, subst, append-nil, ◌∙◌, arith, inl, inr, Option-cases, List, [], ◌∷◌, ◌++◌, Str,
  append_assoc,
}
use gomyadmin.Base.Result.{ok, err, ok-injective, Result-cases}
use gomyadmin.Dict.{Dict, lookup}
use gomyadmin.Database.{Pool}
use gomyadmin.Server.Meta.{ResourceMeta}
use gomyadmin.Server.Sql.{StoreError, database}
use gomyadmin.Server.Store.{Outside, Record}
use gomyadmin.SqlStore.{Dialect, where_key}
use gomyadmin.SqlStore.Records.{
  Outcome, get, delete_text, delete_one, delete_loop, finish, delete_many,
}

module _ (pool : Pool) (out : Outside) (dialect : Dialect) (resources : Dict ResourceMeta) where
  open pool use {State, exec, commit, begin}

  -- The records are those that `Get` finds for the ids in the state `s`, in their order.
  pub data Reads (table tenant_id role : Str) (s : State) : List Str → List Record → Type 0 where
    none_read : Reads table tenant_id role s [] []
    one_read :
        (id : Str) (ids : List Str) (found : Record) (records : List Record)
        → get pool out dialect resources table id tenant_id role s ≡ ok found
        → Reads table tenant_id role s ids records
        → Reads table tenant_id role s (id ∷ ids) (found ∷ records)

  delete_one_reads :
      (table tenant_id role id : Str) (s t : State) (found : Record)
      → (delete_one pool out dialect resources table tenant_id role id s t).1 ≡ ok found
      → get pool out dialect resources table id tenant_id role s ≡ ok found
  unfolding delete_one
  delete_one_reads table tenant_id role id s t found h =
      elim (Option-cases (lookup table resources)) [
        | inl n ↦ ground arith
        | inr (resource, e) ↦
            elim (Result-cases (get pool out dialect resources table id tenant_id role s)) [
              | inl (x, n) ↦ ground arith
              | inr (old, n) ↦
                  let key = where_key dialect resource [] id tenant_id role in
                  elim (Option-cases (exec (delete_text dialect resource key.0) key.1 t)) [
                    | inl m ↦ ground arith
                    | inr (u, m) ↦ ground arith
                  ]
            ]
      ]

  delete_loop-Reads :
      (table tenant_id role : Str) (s : State) (ids : List Str) (deleted : List Record) (t : State)
      (records : List Record)
      → (delete_loop pool out dialect resources table tenant_id role s ids deleted t).1 ≡ ok records
      → (more : List Record) × (records ≡ deleted ++ more) × Reads table tenant_id role s ids more
  unfolding delete_loop
  delete_loop-Reads table tenant_id role s [] deleted t records h =
      ([], sym (ok-injective h) ∙ sym (append-nil deleted), none_read)
  delete_loop-Reads table tenant_id role s (id ∷ ids) deleted t records h =
      elim (Result-cases (delete_one pool out dialect resources table tenant_id role id s t).1) [
        | inl (e, n) ↦ ground arith
        | inr (old, n) ↦
            let (more, same, reads) =
              delete_loop-Reads table tenant_id role s ids (deleted ++ old ∷ [])
                (delete_one pool out dialect resources table tenant_id role id s t).0 records
                (ground arith) in
            (
              old ∷ more,
              same ∙ append_assoc deleted (old ∷ []) more,
              one_read id ids old more (delete_one_reads table tenant_id role id s t old n) reads,
            )
      ]

  -- What a `DeleteMany` can come to: an error that leaves the database as it was, or the records that
  -- were there before the call, one for each id.
  pub data Deleted (table tenant_id role : Str) (ids : List Str) (s : State)
      : Outcome pool out dialect resources (List Record) → Type 0 where
    undone : (e : StoreError) → Deleted table tenant_id role ids s (s, err e)
    done :
        (u : State) (records : List Record)
        → Reads table tenant_id role s ids records
        → Deleted table tenant_id role ids s (u, ok records)

  finish-Deleted :
      (table tenant_id role : Str) (ids : List Str) (s : State)
      (o : Outcome pool out dialect resources (List Record))
      → ((records : List Record) → o.1 ≡ ok records → Reads table tenant_id role s ids records)
      → Deleted table tenant_id role ids s (finish pool out dialect resources s o)
  unfolding finish
  finish-Deleted table tenant_id role ids s (t, err x) reads = undone x
  finish-Deleted table tenant_id role ids s (t, ok records) reads = elim (Option-cases (commit t)) [
    | inl n ↦ rw (finish, n) (undone database)
    | inr (u, n) ↦ rw (finish, n) (done u records (reads records refl))
  ]

  -- `DeleteMany` either fails and leaves the database as it was, or gives for each id, also for one that
  -- is repeated, the record that `Get` found before the call.
  pub delete_many-Deleted :
      (table tenant_id role : Str) (ids : List Str) (s : State)
      → Deleted table tenant_id role ids s
          (delete_many pool out dialect resources table ids tenant_id role s)
  unfolding delete_many
  delete_many-Deleted table tenant_id role ids s = elim (Option-cases (begin s)) [
    | inl n ↦ rw (delete_many, n) (undone database)
    | inr (t, n) ↦
        rw (delete_many, n)
          (finish-Deleted table tenant_id role ids s
            (delete_loop pool out dialect resources table tenant_id role s ids [] t)
            (λ records h.
              let (more, same, reads) =
                delete_loop-Reads table tenant_id role s ids [] t records h in
              subst (Reads table tenant_id role s ids) (sym same) reads))
  ]
