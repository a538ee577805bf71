-- ===== src/Server/Request.antt =====
-- Requests, replies and audit events of pkg/server: handler.go and the types of store.go.
use gomyadmin.Base.{
  ℕ, Bool, false, ◌||◌, Option, none, some, List, [], ◌∷◌, ◌++◌, Str, str_eq, nat_eq, map,
}
use gomyadmin.Text.{lit, join}
use gomyadmin.Text.Order.{sort_strings}
use gomyadmin.Dict.{Dict, lookup}
use gomyadmin.Access
use gomyadmin.Access.{Actor}
use gomyadmin.Server.Sql.{Value, nil, StoreError, not_found}
use gomyadmin.Server.Store.{Outside, Record}
use gomyadmin.Server.Records.{value_at}

-- The values of an audit event.
pub data Payload : Type 0 where
  no_values : Payload
  one : Record → Payload
  many : List Record → Payload
  counted : ℕ → Payload
  selected : List Str → Payload

-- `type auditEvent struct`
pub record AuditEvent : Type 0 where
  pub id : Str
  pub actor_id : Str
  pub actor_email : Str
  pub tenant_id : Str
  pub action : Str
  pub resource : Str
  pub resource_id : Str
  pub old_values : Payload
  pub new_values : Payload
  pub ip_address : Str
  pub user_agent : Str
  pub request_id : Str
  pub created_at : ℕ

-- A request as a handler sees it: the actor of the context, the parts of the URL, the query, the
-- decoded body, which is none for invalid JSON, and what the handler takes from the clock, before and
-- after its call of the store, and from the random source.
pub record Request : Type 0 where
  pub actor : Option Actor
  pub table : Str
  pub id : Str
  pub query : Dict (List Str)
  pub body : Option Record
  pub ids : Option (List Str)
  pub remote_addr : Str
  pub user_agent : Str
  pub request_id : Str
  pub now : ℕ
  pub now_after : ℕ
  pub fresh_id : Str
  pub audit_id : Str

-- The replies: an error with its status and code, or the data of a success.
pub data Reply : Type 0 where
  failure : ℕ → Str → Reply
  listing : List Record → ℕ → ℕ → ℕ → Reply
  shown created : Record → Reply
  deleted : Reply
  deleted_many : ℕ → List Str → Reply
  csv : List Str → Reply
  queued : ℕ → Reply

-- `var none admin.Actor`, what `ActorFromContext` gives without an actor.
abbrev no_actor : Actor
no_actor = record { id = []; email = []; name = []; tenant_id = []; roles = []; permissions = [] }

abbrev pub actor_of : Request → Actor
actor_of r = elim r.actor [ none ↦ no_actor | some a ↦ a ]

-- `func (s *AdminServer) can`
unfoldable pub can : Request → Str → Bool
can r permission = elim r.actor [
  | none ↦ false
  | some actor ↦ Access.can actor (lit "*") || Access.can actor permission
]

-- `r.URL.Query().Get(key)`
unfoldable pub query_get : Request → Str → Str
query_get r key = elim (lookup key r.query) [
  | none ↦ []
  | some vs ↦ elim vs [ [] ↦ [] | v ∷ _ ↦ v ]
]

-- The event of `emitAudit`
unfoldable pub event_of : Request → Str → Str → Payload → Payload → AuditEvent
event_of r action resource_id old_values new_values =
    let actor = actor_of r in
    record {
      id = [];
      actor_id = actor.id;
      actor_email = actor.email;
      tenant_id = actor.tenant_id;
      action = action;
      resource = r.table;
      resource_id = resource_id;
      old_values = old_values;
      new_values = new_values;
      ip_address = r.remote_addr;
      user_agent = r.user_agent;
      request_id = r.request_id;
      created_at = r.now_after;
    }

abbrev pub audit_text : Str
audit_text =
    lit
      "\ninsert into gomyadmin_audit_logs\n    (id, actor_id, actor_email, tenant_id, action, resource, resource_id, old_values, new_values, ip_address, user_agent, request_id, created_at)\nvalues ($1,$2,$3,$4,$5,$6,$7,$8,$9,$10,$11,$12,$13)"

-- `func strVal`
unfoldable pub str_val : Outside → Value → Str
str_val out v = elim v [ nil ↦ [] | other ↦ out.sprint other ]

abbrev key_list : Record → List Str
key_list [] = []
key_list ((k, _) ∷ rest) = k ∷ key_list rest

-- The lines that `handleExport` writes.
unfoldable pub csv_lines : Outside → List Record → List Str
csv_lines out [] = []
csv_lines out (first ∷ rest) =
    let cols = sort_strings (key_list first) in
    join cols (lit ",")
    ∷ map (λ rec. join (map (λ c. str_val out (value_at c rec)) cols) (lit ",")) (first ∷ rest)

-- The answer to an error of the store.
unfoldable pub store_failure : StoreError → Str → Reply
store_failure e code = elim e [ not_found ↦ failure 404 (lit "NOT_FOUND") | _ ↦ failure 500 code ]

-- The routes of the records.
pub data Route : Type 0 where
  listed got made changed removed bulk_removed exported : Route

-- The permission that each handler asks for.
unfoldable pub permission : Route → Request → Str
permission route r = r.table ++ (elim route [
  | listed ↦ lit ".view"
  | got ↦ lit ".view"
  | made ↦ lit ".create"
  | changed ↦ lit ".update"
  | removed ↦ lit ".delete"
  | bulk_removed ↦ lit ".delete"
  | exported ↦ lit ".view"
])
