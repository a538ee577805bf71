-- ===== src/AuditLog/Postgres.antt =====
-- `PGStore` of `pkg/audit/pg_store.go`: the audit log in a table. The JSON of the values is a parameter.
pub mod Asked
mod Tests
use gomyadmin.Base.{
  ℕ, ◌+◌, Bool, true, false, not, ◌&&◌, ◌||◌, Option, none, some, List, [], ◌∷◌, ◌++◌, Str, ◌==◌,
  nat_eq, str_eq, ltb, if◌then◌else◌, length,
}
use gomyadmin.AuditLog.{Event, Query}
use gomyadmin.Base.Int.{ℤ, pos, negsuc}
use gomyadmin.Database.{Value, text, number, time, bytes, Pool}
use gomyadmin.Server.Sql.{Parts}
use gomyadmin.Text.Number.{itoa}
use gomyadmin.Text.{lit, join}

-- What is stored of the values of an event, and what is read of it; a failed reading leaves the zero.
pub record Json (V : Type 0) : Type 0 where
  pub encode : V → Option Str
  pub decode : Str → V
  pub zero_value : V

-- The limit of `List`
unfoldable pub pg_limit : ℤ → ℕ
pg_limit (pos n) = if n == 0 then 100 else if ltb 200 n then 200 else n
pg_limit (negsuc _) = 100

-- `if asked { args = append(args, v); clauses = append(clauses, fmt.Sprintf(condition+"%d", len(args))) }`
unfoldable pub add_clause : Bool → Str → Value → Parts → Parts
add_clause asked condition v (args, clauses) =
    let args' = args ++ v ∷ [] in
    if asked then (args', clauses ++ (condition ++ itoa (length args')) ∷ []) else (args, clauses)

unfoldable pub where_parts : Query → Parts
unfolding add_clause
where_parts query = add_clause (not (query.to == 0)) (lit "created_at <= $") (time query.to) (
    add_clause (not (query.from == 0)) (lit "created_at >= $") (time query.from) (
      add_clause (not (query.action == [])) (lit "action = $") (text query.action) (
        add_clause (not (query.resource == [])) (lit "resource = $") (text query.resource) (
          add_clause (not (query.tenant_id == [])) (lit "tenant_id = $") (text query.tenant_id) (
            add_clause (not (query.actor_id == [])) (lit "actor_id = $") (text query.actor_id)
              ([], []))))))

abbrev pub columns : Str
columns =
    lit
      "id, actor_id, actor_email, tenant_id, action, resource, resource_id, old_values, new_values, metadata, ip_address, user_agent, request_id, created_at"

abbrev where_text : List Str → Str
where_text [] = []
where_text (c ∷ cs) = lit " WHERE " ++ join (c ∷ cs) (lit " AND ")

-- The text of `List` and its arguments
unfoldable pub list_query : Query → Str × List Value
unfolding where_parts pg_limit
list_query query =
    let args = (where_parts query).0 ++ number (pos (pg_limit query.limit)) ∷ [] in
    (
      lit "SELECT "
          ++ (columns
              ++ (lit " FROM gomyadmin_audit_events"
                  ++ (where_text (where_parts query).1
                      ++ (lit " ORDER BY created_at DESC LIMIT $" ++ itoa (length args))))),
      args,
    )

module _ {V : Type 0} (json : Json V) where
  open json use {encode, decode, zero_value}

  -- `if len(s) > 0 && string(s) != "null" { _ = json.Unmarshal(s, &v) }`
  unfoldable pub unmarshal : Str → V
  unmarshal s = if s == [] || s == lit "null" then zero_value else decode s

  -- `rows.Scan` of a round; the columns have the types of the table.
  unfoldable pub scan_event : List Value → Option (Event V)
  unfolding unmarshal
  scan_event
        (text a
          ∷ text b
          ∷ text c
          ∷ text d
          ∷ text e
          ∷ text f
          ∷ text g
          ∷ bytes old
          ∷ bytes new
          ∷ bytes meta
          ∷ text h
          ∷ text i
          ∷ text j
          ∷ time at
          ∷ []) =
      some (record {
        id = a;
        actor_id = b;
        actor_email = c;
        tenant_id = d;
        action = e;
        resource = f;
        resource_id = g;
        old_values = unmarshal old;
        new_values = unmarshal new;
        metadata = unmarshal meta;
        ip_address = h;
        user_agent = i;
        request_id = j;
        created_at = at;
      })
  scan_event _ = none

  -- The loop of `List`; `none` is an error.
  unfoldable pub scan_events : List (List Value) → Option (List (Event V))
  unfolding scan_event
  scan_events [] = some []
  scan_events (row ∷ rows) = elim (scan_event row) [
    | none ↦ none
    | some e ↦ elim (scan_events rows) [ none ↦ none | some es ↦ some (e ∷ es) ]
  ]

  -- The arguments of the insertion, from the id on
  unfoldable pub event_args : Event V → Option (List Value)
  event_args e = elim (encode e.old_values) [
    | none ↦ none
    | some old ↦ elim (encode e.new_values) [
      | none ↦ none
      | some new ↦ elim (encode e.metadata) [
        | none ↦ none
        | some meta ↦ some (
            text e.id
            ∷ text e.actor_id
            ∷ text e.actor_email
            ∷ text e.tenant_id
            ∷ text e.action
            ∷ text e.resource
            ∷ text e.resource_id
            ∷ bytes old
            ∷ bytes new
            ∷ bytes meta
            ∷ text e.ip_address
            ∷ text e.user_agent
            ∷ text e.request_id
            ∷ time e.created_at
            ∷ [])
      ]
    ]
  ]

  -- `event` of `Record` behind its first two statements, with the id and the time that it may take
  unfoldable pub completed : Str → ℕ → Event V → Event V
  completed fresh now e = record e {
    id = if e.id == [] then fresh else e.id;
    created_at = if e.created_at == 0 then now else e.created_at;
  }

  abbrev insert_text : Str
  insert_text =
      lit "INSERT INTO gomyadmin_audit_events ("
      ++ (columns ++ lit ") VALUES ($1,$2,$3,$4,$5,$6,$7,$8,$9,$10,$11,$12,$13,$14)")

  module _ (pool : Pool) where
    -- `func (s *PGStore) Record`; `none` is an error.
    unfoldable pub pg_record : Str → ℕ → Event V → pool.State → Option pool.State
    unfolding completed event_args
    pg_record fresh now e s = elim (event_args (completed fresh now e)) [
      | none ↦ none
      | some args ↦ pool.exec insert_text args s
    ]

    -- `func (s *PGStore) List`
    unfoldable pub pg_list : Query → pool.State → Option (List (Event V))
    unfolding list_query scan_events
    pg_list query s = elim (pool.query (list_query query).0 (list_query query).1 s) [
      | none ↦ none
      | some rows ↦ scan_events rows
    ]
