-- ===== src/Server/Guard.antt =====
-- The permission check, the audit trail and the failures of the record handlers of pkg/server.
use gomyadmin.Base.{
  ℕ, ◌≡◌, ◌∙◌, refl, ap, inl, inr, true, false, none, some, List, [], ◌∷◌, ◌++◌, Str, str_beq, In,
  ◌==◌, nat_eq, str_eq, arith, length, Bool-cases, Option-cases,
}
use gomyadmin.Base.Result.{ok, err}
use gomyadmin.Text.{lit}
use gomyadmin.Dict.{Dict, lookup}
use gomyadmin.Access
use gomyadmin.Access.Grants.{Grants, every, Grants-star, can_iff}
use gomyadmin.Access.{Actor}
use gomyadmin.Server.Meta.{ResourceMeta, first_role, clean_ids}
use gomyadmin.Server.Sql.{text, time, bytes, StoreError}
use gomyadmin.Server.Store.{Pool, Outside, Record}
use gomyadmin.Server.Records.{Outcome, delete_many}
use gomyadmin.Server.Atomic.{delete_many_error}
use gomyadmin.Server.Request.{
  Payload, no_values, Request, audit_text, event_of, failure, actor_of, can, Route, listed, got,
  made, changed, removed, bulk_removed, exported, permission,
}
use gomyadmin.Server.Handler.{
  record_audit, emit_audit, deny, serve, handle_list, handle_get, handle_create, handle_update,
  handle_delete, handle_bulk_delete, handle_export, finish_bulk,
}

-- The request has no actor, or none of the actor's permissions grants `name`.
abbrev pub IsWithout : Request → Str → Type 0
IsWithout r name = (a : Actor) (g : Str) → r.actor ≡ some a → In g a.permissions → ¬ Grants g name

can_without : (r : Request) (name : Str) → IsWithout r name → can r name ≡ false
unfolding can
can_without r name h = elim (Option-cases r.actor) [
  | inl n ↦ ground arith
  | inr (a, n) ↦ elim (Bool-cases (Access.can a (lit "*"))) [
    | inl y ↦
        let (g, i, gr) = (can_iff a (lit "*")).0 y in absurd (h a g n i (every (Grants-star g gr)))
    | inr y ↦ elim (Bool-cases (Access.can a name)) [
      | inl z ↦ let (g, i, gr) = (can_iff a name).0 z in absurd (h a g n i gr)
      | inr z ↦ ground arith
    ]
  ]
]

module _ (pool : Pool) (marshal : Payload → List ℕ) where
  open pool use {State, exec}

  -- The state with one more row in the audit table, of the request and its actor, with the JSON of the
  -- given values, at the time of the request. If the insertion fails, the state stays as it is.
  abbrev pub recorded : Request → Str → Str → Payload → Payload → State → State
  recorded r action id old new s =
      elim (exec audit_text
        (text (lit "audit_" ++ r.audit_id)
          ∷ text (actor_of r).id
          ∷ text (actor_of r).email
          ∷ text (actor_of r).tenant_id
          ∷ text action
          ∷ text r.table
          ∷ text id
          ∷ bytes (marshal old)
          ∷ bytes (marshal new)
          ∷ text r.remote_addr
          ∷ text r.user_agent
          ∷ text r.request_id
          ∷ time r.now_after
          ∷ [])
        s) [ none ↦ s | some t ↦ t ]

module _ (pool : Pool) (out : Outside) (resources : Dict ResourceMeta)
    (marshal : Payload → List ℕ) where
  open pool use {State}

  emit_audit_lem :
      (r : Request) (action id : Str) (old new : Payload) (s : State)
      → emit_audit pool out resources marshal r action id old new s
        ≡ recorded pool marshal r action id old new s
  unfolding emit_audit record_audit event_of str_beq
  emit_audit_lem r action id old new s = elim (Bool-cases (r.now_after == 0)) [
    | inl e ↦ rw (emit_audit, record_audit, event_of, e) refl
    | inr e ↦ rw (emit_audit, record_audit, event_of, e) refl
  ]

  denied_lem :
      (r : Request) (s : State)
      → deny pool out resources marshal r s ≡ (
        recorded pool marshal r (lit "permission_denied") [] no_values no_values s,
        failure 403 (lit "FORBIDDEN"),
      )
  unfolding deny
  denied_lem r s =
      ap (λ z. (z, failure 403 (lit "FORBIDDEN")))
        (emit_audit_lem r (lit "permission_denied") [] no_values no_values s)

  serve-deny :
      (route : Route) (r : Request) (s : State)
      → can r (permission route r) ≡ false
      → serve pool out resources marshal route r s ≡ deny pool out resources marshal r s
  unfolding serve permission handle_list handle_get handle_create handle_update handle_delete
      handle_bulk_delete handle_export
  serve-deny listed r s h = rw (h, handle_list) refl
  serve-deny got r s h = rw (h, handle_get) refl
  serve-deny made r s h = rw (h, handle_create) refl
  serve-deny changed r s h = rw (h, handle_update) refl
  serve-deny removed r s h = rw (h, handle_delete) refl
  serve-deny bulk_removed r s h = rw (h, handle_bulk_delete) refl
  serve-deny exported r s h = rw (h, handle_export) refl

  -- A request whose actor has no permission that grants the one of its route, or that has no actor, is
  -- answered 403 FORBIDDEN, and changes nothing but the audit table, in which the denial is recorded with
  -- the request and its actor, unless that insertion fails.
  pub serve_denied :
      (route : Route) (r : Request) (s : State)
      → IsWithout r (permission route r)
      → serve pool out resources marshal route r s ≡ (
        recorded pool marshal r (lit "permission_denied") [] no_values no_values s,
        failure 403 (lit "FORBIDDEN"),
      )
  serve_denied route r s h =
      serve-deny route r s (can_without r (permission route r) h) ∙ denied_lem r s

  -- A request with the permission to list or to read leaves the database as it is.
  pub serve_reads :
      (r : Request) (s : State)
      → can r (permission listed r) ≡ true
      → ((serve pool out resources marshal listed r s).0 ≡ s)
        × ((serve pool out resources marshal got r s).0 ≡ s)
  unfolding serve permission handle_get handle_list
  serve_reads r s h = (
    elim (Option-cases (lookup r.table resources)) [
      | inl n ↦ ground arith
      | inr (resource, n) ↦ ground arith
    ],
    rw (h, handle_get) refl,
  )

  finish_bulk_failure :
      (r : Request) (ids : List Str) (o : Outcome pool out resources (List Record)) (status : ℕ)
      (code : Str)
      → (finish_bulk pool out resources marshal r ids o).1 ≡ failure status code
      → (e : StoreError) × (o.1 ≡ err e)
        × ((finish_bulk pool out resources marshal r ids o).0 ≡ o.0)
  unfolding finish_bulk
  finish_bulk_failure r ids (t, err e) status code h = (e, refl, refl)
  finish_bulk_failure r ids (t, ok old) status code h = ground arith

  -- A permitted bulk delete that is answered with an error leaves the database as it was, also where
  -- some of the records had been deleted before one of them failed.
  pub bulk_delete_failure :
      (r : Request) (s : State) (status : ℕ) (code : Str)
      → can r (permission bulk_removed r) ≡ true
      → (serve pool out resources marshal bulk_removed r s).1 ≡ failure status code
      → (serve pool out resources marshal bulk_removed r s).0 ≡ s
  unfolding serve permission handle_bulk_delete
  bulk_delete_failure r s status code p h = elim (Option-cases r.ids) [
    | inl n ↦ ground arith
    | inr (raw, n) ↦ elim (Bool-cases (length (clean_ids raw) == 0)) [
      | inl y ↦ ground arith
      | inr m ↦
          let ids = clean_ids raw in
          let o =
            delete_many pool out resources r.table ids (actor_of r).tenant_id
              (first_role (actor_of r)) s in
          let f = finish_bulk_failure r ids o status code (ground arith) in
          let kept =
            delete_many_error pool out resources r.table ids (actor_of r).tenant_id
              (first_role (actor_of r)) s f.0 f.1 in
          ground arith
    ]
  ]
