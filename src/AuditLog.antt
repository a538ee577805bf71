-- ===== src/AuditLog.antt =====
-- `MemoryStore` of pkg/audit/audit.go. A time is a number of nanoseconds, and 0 is the zero `time.Time`.
pub mod Listing
pub mod Postgres
mod Tests
use gomyadmin.Base.{
  ℕ, ◌+◌, Bool, true, false, not, ◌&&◌, ◌||◌, List, [], ◌∷◌, ◌++◌, reverse, Str, ◌==◌, nat_eq,
  str_eq, ltb, leb, if◌then◌else◌, length,
}
use gomyadmin.Base.Int.{ℤ, pos, negsuc}

-- `type Event struct`. Values and metadata are passed on as they are; they are of any type `V`.
pub record Event (V : Type 0) : Type 0 where
  pub id : Str
  pub actor_id : Str
  pub actor_email : Str
  pub tenant_id : Str
  pub action : Str
  pub resource : Str
  pub resource_id : Str
  pub old_values : V
  pub new_values : V
  pub metadata : V
  pub ip_address : Str
  pub user_agent : Str
  pub request_id : Str
  pub created_at : ℕ

-- `type Query struct`
pub record Query : Type 0 where
  pub actor_id : Str
  pub tenant_id : Str
  pub resource : Str
  pub action : Str
  pub from : ℕ
  pub to : ℕ
  pub limit : ℤ

-- `type MemoryStore struct`, less its lock
pub record MemoryStore (V : Type 0) : Type 0 where
  pub events : List (Event V)

-- `limit := query.Limit; if limit <= 0 || limit > 200 { limit = 100 }`
abbrev pub list_limit : ℤ → ℕ
list_limit (pos n) = if leb n 0 || ltb 200 n then 100 else n
list_limit (negsuc _) = 100

module _ {V : Type 0} where
  -- `func (s *MemoryStore) Record` at the time `now`
  unfoldable pub record_event : Event V → ℕ → MemoryStore V → MemoryStore V
  record_event event now s =
      if event.created_at == 0
      then record s { events = s.events ++ (record event { created_at = now }) ∷ [] }
      else record s { events = s.events ++ event ∷ [] }

  -- The tests of a round of `List`, in its order: the event is passed over where one holds.
  unfoldable pub is_skipped : Query → Event V → Bool
  is_skipped query event =
      (not (query.actor_id == []) && not (event.actor_id == query.actor_id))
      || ((not (query.tenant_id == []) && not (event.tenant_id == query.tenant_id))
          || ((not (query.resource == []) && not (event.resource == query.resource))
              || ((not (query.action == []) && not (event.action == query.action))
                  || ((not (query.from == 0) && ltb event.created_at query.from)
                      || (not (query.to == 0) && ltb query.to event.created_at)))))

  -- The loop of `List` over the events from the last to the first.
  unfoldable pub list_loop : Query → ℕ → List (Event V) → List (Event V) → List (Event V)
  list_loop query limit [] out = out
  list_loop query limit (event ∷ rest) out =
      let skipped = list_loop query limit rest out in
      let taken = list_loop query limit rest (out ++ event ∷ []) in
      if not (ltb (length out) limit)
      then out
      else if is_skipped query event
      then skipped
      else taken

  -- `func (s *MemoryStore) List`
  unfoldable pub list : Query → MemoryStore V → List (Event V)
  list query s = list_loop query (list_limit query.limit) (reverse s.events) []
