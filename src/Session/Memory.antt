-- ===== src/Session/Memory.antt =====
-- `MemorySessionStore` of pkg/auth/session.go, and that it is a session store.
use gomyadmin.Base.{
  ℕ, ◌≡◌, Option, none, some, Str, ◌==◌, str_eq, arith, ltb, if◌then◌else◌, str_beq_refl,
  Option-cases, inl, inr,
}
use gomyadmin.Base.Int.{ℤ}
use gomyadmin.Dict
use gomyadmin.Dict.{Dict, lookup, lookup-insert, lookup-delete}
use gomyadmin.Access.{Actor}
use gomyadmin.Session.{Session, Draw, SessionStore, add_duration}

-- `type MemorySessionStore struct`, less its lock
pub record MemorySessionStore : Type 0 where
  pub sessions : Dict Session

-- `func (s *MemorySessionStore) Create`; no session is a failure of the random source.
unfoldable pub create : Actor → ℤ → Draw → MemorySessionStore → MemorySessionStore × Option Session
create actor ttl d s = elim d.token [
  | none ↦ (s, none)
  | some id ↦
      let session : Session = record {
        id = id;
        actor = actor;
        expires_at = add_duration d.now ttl;
        created_at = d.now_after;
      } in
      (record s { sessions = Dict.insert id session s.sessions }, some session)
]

-- `func (s *MemorySessionStore) Get`; no session is `ErrSessionNotFound`.
unfoldable pub get : Str → ℕ → MemorySessionStore → Option Session
get id now s = elim (lookup id s.sessions) [
  | none ↦ none
  | some session ↦ if ltb session.expires_at now then none else some session
]

-- `func (s *MemorySessionStore) Delete`
unfoldable pub delete : Str → MemorySessionStore → MemorySessionStore
delete id s = record s { sessions = Dict.delete id s.sessions }

-- What is found after a `Create` with a token: the new session under the token, until it expires, and
-- under any other id what was found before.
pub get-create :
    (actor : Actor) (ttl : ℤ) (d : Draw) (s : MemorySessionStore) (session : Session) (other : Str)
    (now : ℕ)
    → (create actor ttl d s).1 ≡ some session
    → get other now (create actor ttl d s).0 ≡ (
        if session.id == other
        then (if ltb session.expires_at now then none else some session)
        else get other now s)
unfolding get create
get-create actor ttl d s session other now h = elim (Option-cases d.token) [
  | inl e ↦ ground arith
  | inr (id, e) ↦
      let made : Session = record {
        id = id;
        actor = actor;
        expires_at = add_duration d.now ttl;
        created_at = d.now_after;
      } in
      ground (arith, lookup-insert id other made s.sessions)
]

-- After a `Delete` the session is not found, and what is found under another id does not change.
pub get-delete :
    (id other : Str) (now : ℕ) (s : MemorySessionStore)
    → get other now (delete id s) ≡ (if id == other then none else get other now s)
unfolding get delete
get-delete id other now s = ground (arith, lookup-delete id other s.sessions)

pub create_actor :
    (actor : Actor) (ttl : ℤ) (d : Draw) (s : MemorySessionStore) (session : Session)
    → (create actor ttl d s).1 ≡ some session
    → session.actor ≡ actor
unfolding create
create_actor actor ttl d s session h = ground arith

pub create_get :
    (actor : Actor) (ttl : ℤ) (d : Draw) (s : MemorySessionStore) (session : Session) (now : ℕ)
    → (create actor ttl d s).1 ≡ some session
    → get session.id now (create actor ttl d s).0
      ≡ (if ltb session.expires_at now then none else some session)
create_get actor ttl d s session now h =
    rw (get-create actor ttl d s session session.id now h) (ground (arith, str_beq_refl session.id))

pub delete_get : (id : Str) (now : ℕ) (s : MemorySessionStore) → get id now (delete id s) ≡ none
delete_get id now s = rw (get-delete id id now s) (ground (arith, str_beq_refl id))

abbrev pub memory_session_store : SessionStore
memory_session_store = record {
  State = MemorySessionStore;
  create = create;
  get = get;
  delete = delete;
  get-create = create_get;
  actor-create = create_actor;
  get-delete = delete_get;
}
