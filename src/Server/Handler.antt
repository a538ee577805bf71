-- ===== src/Server/Handler.antt =====
-- The record handlers of pkg/server/handler_crud.go, with the permission check and the audit trail of
-- pkg/server/handler.go. A handler gives the state of the pool that it leaves, and its reply.
use gomyadmin.Base.{
  ℕ, not, none, some, List, [], ◌∷◌, ◌++◌, Str, ◌==◌, str_eq, nat_eq, length, if◌then◌else◌,
}
use gomyadmin.Base.Result.{ok, err}
use gomyadmin.Text.{lit, replace_byte}
use gomyadmin.Dict.{Dict, lookup}
use gomyadmin.Server.Meta.{ResourceMeta, first_role, parse_int, clean_ids, parse_filters}
use gomyadmin.Server.Sql.{text, time, bytes}
use gomyadmin.Server.Store.{Pool, Outside, Record, Fresh}
use gomyadmin.Server.Records.{Outcome, list, get, create, update, delete, delete_many, value_at}
use gomyadmin.Server.Request.{
  selected, queued, Payload, no_values, one, many, counted, AuditEvent, Request, Reply, failure,
  listing, shown, created, deleted, deleted_many, csv, actor_of, can, query_get, event_of,
  audit_text, str_val, csv_lines, store_failure, Route, listed, got, made, changed, removed,
  bulk_removed, exported,
}

module _ (pool : Pool) (out : Outside) (resources : Dict ResourceMeta)
    (marshal : Payload → List ℕ) where
  open pool use {State, exec}

  -- `func (s *serverStore) RecordAudit`, which drops the error.
  unfoldable pub record_audit : Fresh → AuditEvent → State → State
  record_audit fresh e s =
      let created_at = if e.created_at == 0 then fresh.now else e.created_at in
      let id = if e.id == [] then lit "audit_" ++ fresh.id else e.id in
      let args =
        text id
        ∷ text e.actor_id
        ∷ text e.actor_email
        ∷ text e.tenant_id
        ∷ text e.action
        ∷ text e.resource
        ∷ text e.resource_id
        ∷ bytes (marshal e.old_values)
        ∷ bytes (marshal e.new_values)
        ∷ text e.ip_address
        ∷ text e.user_agent
        ∷ text e.request_id
        ∷ time created_at
        ∷ [] in
      elim (exec audit_text args s) [ none ↦ s | some t ↦ t ]

  -- `func (s *AdminServer) emitAudit`, for the actor of the context and the resource of the URL.
  unfoldable pub emit_audit : Request → Str → Str → Payload → Payload → State → State
  emit_audit r action resource_id old_values new_values =
      record_audit (record { now = r.now_after; id = r.audit_id })
        (event_of r action resource_id old_values new_values)

  -- `func (s *AdminServer) deny`
  unfoldable pub deny : Request → State → State × Reply
  deny r s = (
    emit_audit r (lit "permission_denied") [] no_values no_values s,
    failure 403 (lit "FORBIDDEN"),
  )

  -- `func (s *AdminServer) handleList`
  unfoldable pub handle_list : Request → State → State × Reply
  handle_list r s =
      let actor = actor_of r in
      let page = parse_int (query_get r (lit "page")) 1 in
      let per_page = parse_int (query_get r (lit "per_page")) 25 in
      let found =
        list pool out resources r.table actor.tenant_id (first_role actor) (query_get r (lit "q"))
          (query_get r (lit "sort")) (parse_filters r.query) page per_page s in
      let reply : Reply = elim found [
        | err _ ↦ failure 500 (lit "QUERY_FAILED")
        | ok (records, total) ↦ listing records page per_page total
      ] in
      if not (can r (r.table ++ lit ".view")) then deny r s else elim (lookup r.table resources) [
        | none ↦ (s, failure 404 (lit "NOT_FOUND"))
        | some _ ↦ (s, reply)
      ]

  -- `func (s *AdminServer) handleGet`
  unfoldable pub handle_get : Request → State → State × Reply
  handle_get r s =
      let actor = actor_of r in
      let reply : Reply =
        elim (get pool out resources r.table r.id actor.tenant_id (first_role actor) s) [
          | err e ↦ store_failure e (lit "QUERY_FAILED")
          | ok rec ↦ shown rec
        ] in
      if not (can r (r.table ++ lit ".view")) then deny r s else (s, reply)

  -- `handleCreate` after `Create`
  unfoldable pub finish_create : Request → Outcome pool out resources Record → State × Reply
  finish_create r (t, err e) = (t, failure 500 (lit "CREATE_FAILED"))
  finish_create r (t, ok rec) = (
    emit_audit r (lit "create") (str_val out (value_at (lit "id") rec)) no_values (one rec) t,
    created rec,
  )

  -- `func (s *AdminServer) handleCreate`
  unfoldable pub handle_create : Request → State → State × Reply
  handle_create r s =
      let actor = actor_of r in
      if not (can r (r.table ++ lit ".create")) then deny r s else elim r.body [
        | none ↦ (s, failure 400 (lit "INVALID_JSON"))
        | some input ↦ finish_create r (
            create pool out resources r.table actor.tenant_id
              (record { now = r.now; id = r.fresh_id }) input s)
      ]

  -- `handleUpdate` after `Update`
  unfoldable pub finish_update :
      Request → Outcome pool out resources (Record × Record) → State × Reply
  finish_update r (t, err e) = (t, store_failure e (lit "UPDATE_FAILED"))
  finish_update r (t, ok (old, rec)) =
      (emit_audit r (lit "update") r.id (one old) (one rec) t, shown rec)

  -- `func (s *AdminServer) handleUpdate`
  unfoldable pub handle_update : Request → State → State × Reply
  handle_update r s =
      let actor = actor_of r in
      if not (can r (r.table ++ lit ".update")) then deny r s else elim r.body [
        | none ↦ (s, failure 400 (lit "INVALID_JSON"))
        | some input ↦ finish_update r (
            update pool out resources r.table r.id actor.tenant_id (first_role actor) r.now input s)
      ]

  -- `handleDelete` after `Delete`
  unfoldable pub finish_delete : Request → Outcome pool out resources Record → State × Reply
  finish_delete r (t, err e) = (t, store_failure e (lit "DELETE_FAILED"))
  finish_delete r (t, ok old) = (emit_audit r (lit "delete") r.id (one old) no_values t, deleted)

  -- `func (s *AdminServer) handleDelete`
  unfoldable pub handle_delete : Request → State → State × Reply
  handle_delete r s =
      let actor = actor_of r in
      if not (can r (r.table ++ lit ".delete"))
      then deny r s
      else finish_delete r
          (delete pool out resources r.table r.id actor.tenant_id (first_role actor) s)

  -- `handleBulkDelete` after `DeleteMany`
  unfoldable pub finish_bulk :
      Request → List Str → Outcome pool out resources (List Record) → State × Reply
  finish_bulk r ids (t, err e) = (t, store_failure e (lit "BULK_DELETE_FAILED"))
  finish_bulk r ids (t, ok olds) =
      (emit_audit r (lit "bulk_delete") [] (many olds) no_values t, deleted_many (length olds) ids)

  -- `func (s *AdminServer) handleBulkDelete`
  unfoldable pub handle_bulk_delete : Request → State → State × Reply
  handle_bulk_delete r s =
      let actor = actor_of r in
      if not (can r (r.table ++ lit ".delete")) then deny r s else elim r.ids [
        | none ↦ (s, failure 400 (lit "INVALID_JSON"))
        | some raw ↦
            if length (clean_ids raw) == 0
            then (s, failure 400 (lit "EMPTY_SELECTION"))
            else finish_bulk r (clean_ids raw) (
                delete_many pool out resources r.table (clean_ids raw) actor.tenant_id
                  (first_role actor) s)
      ]

  -- `func (s *AdminServer) handleExport`
  unfoldable pub handle_export : Request → State → State × Reply
  handle_export r s =
      let actor = actor_of r in
      if not (can r (r.table ++ lit ".view"))
      then deny r s
      else elim (list pool out resources r.table actor.tenant_id (first_role actor) [] [] [] 1 100
          s) [
            | err _ ↦ (s, failure 500 (lit "EXPORT_FAILED"))
            | ok (records, total) ↦ (
              emit_audit r (lit "export") [] no_values (counted (length records)) s,
              csv (csv_lines out records),
            )
          ]

  -- `func (s *AdminServer) handleBulkAction`, for an action of the URL. An error in the body is
  -- dropped, and there are no ids then.
  unfoldable pub handle_bulk_action : Str → Request → State → State × Reply
  handle_bulk_action action r s =
      let ids : List Str = elim r.ids [ none ↦ [] | some given ↦ given ] in
      if not (can r (r.table ++ (lit ".actions." ++ replace_byte action b'-' (lit "_"))))
      then deny r s
      else (
        emit_audit r (lit "bulk_action:" ++ action) [] no_values (selected ids) s,
        queued (length ids),
      )

  -- The handlers by route.
  unfoldable pub serve : Route → Request → State → State × Reply
  serve route r s = elim route [
    | listed ↦ handle_list r s
    | got ↦ handle_get r s
    | made ↦ handle_create r s
    | changed ↦ handle_update r s
    | removed ↦ handle_delete r s
    | bulk_removed ↦ handle_bulk_delete r s
    | exported ↦ handle_export r s
  ]
