-- ===== src/AuditLog/Tests.antt =====
-- A log in use, and the theorems at it.
use gomyadmin.Base.{ℕ, ◌≡◌, refl, [], ◌∷◌, Str, str_beq}
use gomyadmin.Base.Int.{pos}
use gomyadmin.Text.{lit}
use gomyadmin.AuditLog.{Event, Query, MemoryStore, is_skipped, list_loop, list}

abbrev event : Str → Str → ℕ → Event Str
event id tenant at = record {
  id = id;
  actor_id = [];
  actor_email = [];
  tenant_id = tenant;
  action = lit "login";
  resource = lit "auth";
  resource_id = [];
  old_values = [];
  new_values = [];
  metadata = [];
  ip_address = [];
  user_agent = [];
  request_id = [];
  created_at = at;
}

abbrev store : MemoryStore Str
store = record {
  events =
      event (lit "1") (lit "t1") 5
      ∷ event (lit "2") (lit "t2") 6
      ∷ event (lit "3") (lit "t1") 7
      ∷ [];
}

abbrev of_tenant : Query
of_tenant = record {
  actor_id = [];
  tenant_id = lit "t1";
  resource = [];
  action = [];
  from = 0;
  to = 0;
  limit = pos 1;
}

list_run : list of_tenant store ≡ event (lit "3") (lit "t1") 7 ∷ []
unfolding list list_loop is_skipped str_beq
list_run = refl
