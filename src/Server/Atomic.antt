-- ===== src/Server/Atomic.antt =====
-- Deletion in pkg/server/store.go: `Delete` and `DeleteMany` are all or nothing.
use gomyadmin.Base.{
  ◌≡◌, refl, sym, ap, subst, ◌∙◌, inl, inr, some, List, [], ◌∷◌, ◌++◌, Str, str_eq, nat_eq, arith,
  Option-cases, append_assoc, append-nil,
}
use gomyadmin.Base.Result.{ok, err, Result-cases}
use gomyadmin.Dict.{Dict, lookup}
use gomyadmin.Server.Meta.{ResourceMeta}
use gomyadmin.Server.Sql.{StoreError, where_key}
use gomyadmin.Server.Store.{Pool, Outside, Record, delete_text}
use gomyadmin.Server.Records.{
  Outcome, read_one, delete_one, delete, delete_loop, finish, delete_all, delete_many,
}

module _ (pool : Pool) (out : Outside) (resources : Dict ResourceMeta) where
  open pool use {State, exec, begin, commit}

  delete_one_error :
      (resource : ResourceMeta) (id tenant_id role : Str) (s : State) (e : StoreError)
      → (delete_one pool out resources resource id tenant_id role s).1 ≡ err e
      → (delete_one pool out resources resource id tenant_id role s).0 ≡ s
  unfolding delete_one
  delete_one_error resource id tenant_id role s e h =
      let key = where_key resource [] id tenant_id role in
      elim (Result-cases (read_one pool out resources resource id tenant_id role s)) [
        | inl (x, r) ↦ ground arith
        | inr (old, r) ↦ elim (Option-cases (exec (delete_text resource key.0) key.1 s)) [
          | inl n ↦ ground arith
          | inr (t, n) ↦ ground arith
        ]
      ]

  -- A `Delete` that fails leaves the database as it was.
  pub delete_error :
      (table id tenant_id role : Str) (s : State) (e : StoreError)
      → (delete pool out resources table id tenant_id role s).1 ≡ err e
      → (delete pool out resources table id tenant_id role s).0 ≡ s
  unfolding delete
  delete_error table id tenant_id role s e h = elim (Option-cases (lookup table resources)) [
    | inl n ↦ ground arith
    | inr (resource, n) ↦ ground (arith, delete_one_error resource id tenant_id role s e)
  ]

  finish_error :
      (s : State) (o : Outcome pool out resources (List Record)) (e : StoreError)
      → (finish pool out resources s o).1 ≡ err e
      → (finish pool out resources s o).0 ≡ s
  unfolding finish
  finish_error s (t, err x) e h = refl
  finish_error s (t, ok deleted) e h = elim (Option-cases (commit t)) [
    | inl n ↦ ground arith
    | inr (u, n) ↦ ground arith
  ]

  delete_all_error :
      (resource : ResourceMeta) (ids : List Str) (tenant_id role : Str) (s : State) (e : StoreError)
      → (delete_all pool out resources resource ids tenant_id role s).1 ≡ err e
      → (delete_all pool out resources resource ids tenant_id role s).0 ≡ s
  unfolding delete_all
  delete_all_error resource ids tenant_id role s e h = elim (Option-cases (begin s)) [
    | inl n ↦ ground arith
    | inr (t, n) ↦
        ground (
          arith,
          finish_error s (delete_loop pool out resources resource ids tenant_id role [] t) e,
        )
  ]

  -- A `DeleteMany` that fails leaves the database as it was, also where some of the records had been
  -- deleted before one of them failed.
  pub delete_many_error :
      (table : Str) (ids : List Str) (tenant_id role : Str) (s : State) (e : StoreError)
      → (delete_many pool out resources table ids tenant_id role s).1 ≡ err e
      → (delete_many pool out resources table ids tenant_id role s).0 ≡ s
  unfolding delete_many
  delete_many_error table ids tenant_id role s e h = elim (Option-cases (lookup table resources)) [
    | inl n ↦ ground arith
    | inr (resource, n) ↦ ground (arith, delete_all_error resource ids tenant_id role s e)
  ]

  -- The states and records of single deletes, one after the other.
  pub data Deletes (table tenant_id role : Str)
      : State → List Str → List Record → State → Type 0 where
    done : {s : State} → Deletes table tenant_id role s [] [] s
    step :
        {s t u : State} {id : Str} {ids : List Str} {r : Record} {rs : List Record}
        → delete pool out resources table id tenant_id role s ≡ (t, ok r)
        → Deletes table tenant_id role t ids rs u
        → Deletes table tenant_id role s (id ∷ ids) (r ∷ rs) u

  delete_found :
      (table : Str) (resource : ResourceMeta) (id tenant_id role : Str) (s : State)
      → lookup table resources ≡ some resource
      → delete pool out resources table id tenant_id role s
        ≡ delete_one pool out resources resource id tenant_id role s
  unfolding delete
  delete_found table resource id tenant_id role s found = rw (found, delete) refl

  delete_loop_next :
      (resource : ResourceMeta) (id : Str) (ids : List Str) (tenant_id role : Str)
      (deleted : List Record) (s t : State) (r : Record)
      → delete_one pool out resources resource id tenant_id role s ≡ (t, ok r)
      → delete_loop pool out resources resource (id ∷ ids) tenant_id role deleted s
        ≡ delete_loop pool out resources resource ids tenant_id role (deleted ++ r ∷ []) t
  unfolding delete_loop
  delete_loop_next resource id ids tenant_id role deleted s t r one =
      rw (one, delete_loop)
        (ap
          (λ o. delete_loop pool out resources resource ids tenant_id role (deleted ++ r ∷ []) o.0)
          one)

  delete_many_found :
      (table : Str) (resource : ResourceMeta) (id : Str) (ids : List Str) (tenant_id role : Str)
      (s : State)
      → lookup table resources ≡ some resource
      → delete_many pool out resources table (id ∷ ids) tenant_id role s
        ≡ delete_all pool out resources resource (id ∷ ids) tenant_id role s
  unfolding delete_many
  delete_many_found table resource id ids tenant_id role s found =
      rw (found, delete_many) (ground arith)

  delete_loop-Deletes :
      (table : Str) (resource : ResourceMeta) (tenant_id role : Str)
      → lookup table resources ≡ some resource
      → (ids : List Str) (deleted : List Record) (s u : State) (all : List Record)
      → delete_loop pool out resources resource ids tenant_id role deleted s ≡ (u, ok all)
      → (rs : List Record) × (all ≡ deleted ++ rs) × Deletes table tenant_id role s ids rs u
  unfolding delete_loop delete
  delete_loop-Deletes table resource tenant_id role found [] deleted s u all h =
      let same : s ≡ u = ground arith in
      (
        [],
        ground (arith, append-nil deleted),
        subst (λ x. Deletes table tenant_id role s [] [] x) same done,
      )
  delete_loop-Deletes table resource tenant_id role found (id ∷ ids) deleted s u all h =
      let first = delete_one pool out resources resource id tenant_id role s in
      elim (Result-cases first.1) [
        | inl (x, e) ↦ ground arith
        | inr (r, e) ↦
            let later =
              delete_loop-Deletes table resource tenant_id role found ids (deleted ++ r ∷ [])
                first.0 u all (rw (e, delete_loop) at h) in
            (
              r ∷ later.0,
              later.1 ∙ append_assoc deleted (r ∷ []) later.0,
              step
                  (delete_found table resource id tenant_id role s found ∙ ap (λ x. (first.0, x)) e)
                  later.2,
            )
      ]

  Deletes-delete_loop :
      (table : Str) (resource : ResourceMeta) (tenant_id role : Str)
      → lookup table resources ≡ some resource
      → (ids : List Str) (deleted : List Record) {s u : State} {rs : List Record}
      → Deletes table tenant_id role s ids rs u
      → delete_loop pool out resources resource ids tenant_id role deleted s
        ≡ (u, ok (deleted ++ rs))
  unfolding delete_loop delete
  Deletes-delete_loop table resource tenant_id role found [] deleted (done) =
      rw (append-nil deleted) refl
  Deletes-delete_loop table resource tenant_id role found (id ∷ ids) deleted {s = s} {u = u}
        (step {t = t} {r = r} {rs = rs} e later) =
      let rest =
        Deletes-delete_loop table resource tenant_id role found ids (deleted ++ r ∷ []) later in
      let one = sym (delete_found table resource id tenant_id role s found) ∙ e in
      delete_loop_next resource id ids tenant_id role deleted s t r one
      ∙ rest
      ∙ ap (λ x. (u, ok x)) (append_assoc deleted (r ∷ []) rs)

  finish_ok :
      (s u : State) (o : Outcome pool out resources (List Record)) (rs : List Record)
      → finish pool out resources s o ≡ (u, ok rs)
      → (t : State) × (o ≡ (t, ok rs)) × (commit t ≡ some u)
  unfolding finish
  finish_ok s u (t, err x) rs h = ground arith
  finish_ok s u (t, ok deleted) rs h = elim (Option-cases (commit t)) [
    | inl n ↦ ground arith
    | inr (v, n) ↦
        let same : deleted ≡ rs = ground arith in (t, ap (λ x. (t, ok x)) same, ground arith)
  ]

  delete_all-Deletes :
      ((s t : State) → begin s ≡ some t → t ≡ s)
      → ((t u : State) → commit t ≡ some u → u ≡ t)
      → (table : Str) (resource : ResourceMeta) (ids : List Str) (tenant_id role : Str)
        (s u : State) (rs : List Record)
      → lookup table resources ≡ some resource
      → delete_all pool out resources resource ids tenant_id role s ≡ (u, ok rs)
      → Deletes table tenant_id role s ids rs u
  unfolding delete_all
  delete_all-Deletes begins commits table resource ids tenant_id role s u rs found h =
      elim (Option-cases (begin s)) [
        | inl n ↦ ground arith
        | inr (t, n) ↦
            let ended =
              finish_ok s u (delete_loop pool out resources resource ids tenant_id role [] t) rs
                (rw (n, delete_all) at h) in
            let looped =
              delete_loop-Deletes table resource tenant_id role found ids [] t ended.0 rs ended.1 in
            let start : t ≡ s = begins s t n in
            let stop : u ≡ ended.0 = commits ended.0 u ended.2 in
            rw (sym start, stop, looped.1) looped.2
      ]

  -- Where a transaction begins with the state of the database and its commit makes its state that of
  -- the database, a `DeleteMany` that succeeds leaves the state, and returns the records, of a
  -- `Delete` of each id in turn.
  pub delete_many-Deletes :
      ((s t : State) → begin s ≡ some t → t ≡ s)
      → ((t u : State) → commit t ≡ some u → u ≡ t)
      → (table : Str) (ids : List Str) (tenant_id role : Str) (s u : State) (rs : List Record)
      → delete_many pool out resources table ids tenant_id role s ≡ (u, ok rs)
      → Deletes table tenant_id role s ids rs u
  unfolding delete_many delete_all
  delete_many-Deletes begins commits table ids tenant_id role s u rs h =
      elim (Option-cases (lookup table resources)) [
        | inl n ↦ ground arith
        | inr (resource, n) ↦
            elim ids
                as (λ ids.
                  delete_many pool out resources table ids tenant_id role s ≡ (u, ok rs)
                  → Deletes table tenant_id role s ids rs u) [
                    | [] ↦ λ h'.
                        let same : s ≡ u = ground arith in
                        let none_deleted : [] ≡ rs = ground arith in
                        rw (sym none_deleted, sym same) done
                    | id ∷ ids' ↦ λ h'.
                        delete_all-Deletes begins commits table resource (id ∷ ids') tenant_id role
                          s u rs n
                          (sym (delete_many_found table resource id ids' tenant_id role s n) ∙ h')
                  ]
              h
      ]

  -- Where a transaction begins with the state of the database and commits it, deletes that succeed
  -- one after the other succeed in one `DeleteMany`, with the same state and records.
  pub Deletes-delete_many :
      (table : Str) (resource : ResourceMeta) (tenant_id role : Str) (ids : List Str) (s u : State)
      (rs : List Record)
      → lookup table resources ≡ some resource
      → begin s ≡ some s
      → commit u ≡ some u
      → Deletes table tenant_id role s ids rs u
      → delete_many pool out resources table ids tenant_id role s ≡ (u, ok rs)
  unfolding delete_many delete_all finish
  Deletes-delete_many table resource tenant_id role [] s u rs found b c done =
      rw (found, delete_many) refl
  Deletes-delete_many table resource tenant_id role (id ∷ ids) s u rs found b c d =
      let looped = Deletes-delete_loop table resource tenant_id role found (id ∷ ids) [] d in
      delete_many_found table resource id ids tenant_id role s found
      ∙ rw (b, delete_all) (ap (λ o. finish pool out resources s o) looped ∙ rw (c, finish) refl)
