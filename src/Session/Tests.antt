-- ===== src/Session/Tests.antt =====
-- Sessions in use, and the theorems at them.
use gomyadmin.Base.{
  ◌≡◌, refl, true, false, none, some, [], ◌∷◌, Str, str_eq, str_beq, arith, ltb, if◌then◌else◌,
}
use gomyadmin.Base.Int.{pos}
use gomyadmin.Text.{lit}
use gomyadmin.Dict.{Dict, lookup, insert}
use gomyadmin.Access.{Actor}
use gomyadmin.Session.{Session, Draw}
use gomyadmin.Session.Memory
use gomyadmin.Session.Memory.{MemorySessionStore, memory_session_store}
use gomyadmin.Session.Manager.{
  SessionManager, Cookie, kept_cookies, start, middleware, middleware-start,
}

abbrev ann : Actor
ann = record {
  id = lit "u1";
  email = lit "a@x";
  name = lit "Ann";
  tenant_id = lit "t1";
  roles = [];
  permissions = [];
}

abbrev draw : Draw
draw = record { token = some (lit "tok"); now = 10; now_after = 11 }

abbrev empty_store : MemorySessionStore
empty_store = record { sessions = [] }

abbrev session : Session
session = record { id = lit "tok"; actor = ann; expires_at = 15; created_at = 11 }

abbrev with_session : MemorySessionStore
with_session = record { sessions = (lit "tok", session) ∷ [] }

abbrev manager : SessionManager
manager = record { cookie_name = lit "sid"; ttl = pos 5; secure = true; same_site = 2 }

abbrev cookie : Cookie
cookie = record {
  name = lit "sid";
  value = lit "tok";
  expires = 15;
  is_removal = false;
  secure = true;
  same_site = 2;
}

create_run : Memory.create ann (pos 5) draw empty_store ≡ (with_session, some session)
unfolding Memory.create insert
create_run = refl

started : (start memory_session_store manager ann draw empty_store).1 ≡ some (session, cookie)
unfolding start Memory.create
started = refl

middleware-start_example :
    middleware memory_session_store manager
      (kept_cookies cookie [])
      12
      (start memory_session_store manager ann draw empty_store).0
    ≡ (if ltb 15 12 then none else some ann)
middleware-start_example =
    middleware-start memory_session_store manager ann draw empty_store session cookie [] 12 started
      (λ e. ground (arith, e))

abbrev jar : Dict Str
jar = (lit "sid", lit "tok") ∷ []

passes : middleware memory_session_store manager jar 12 with_session ≡ some ann
unfolding middleware Memory.get lookup str_beq
passes = refl
