-- ===== src/Session/Manager.antt =====
-- `SessionManager` of pkg/auth/session.go, over any session store.
use gomyadmin.Base.{
  ℕ, ◌≡◌, ◌≢◌, Bool, true, false, Option, none, some, [], Str, ◌==◌, str_eq, arith, ltb,
  if◌then◌else◌, str_beq_iff, str_beq_refl, Option-cases, inl, inr,
}
use gomyadmin.Base.Int.{ℤ, pos}
use gomyadmin.Text.{lit}
use gomyadmin.Dict.{Dict, lookup, insert, lookup-insert}
use gomyadmin.Access.{Actor}
use gomyadmin.Session.{Session, Draw, SessionStore}

-- `type SessionManager struct`, less its store, which is the section's parameter
pub record SessionManager : Type 0 where
  pub cookie_name : Str
  pub ttl : ℤ
  pub secure : Bool
  pub same_site : ℕ

-- `func NewSessionManager`: twelve hours in nanoseconds, and `http.SameSiteLaxMode`, which is 2.
abbrev pub new_session_manager : SessionManager
new_session_manager = record {
  cookie_name = lit "gomyadmin_session";
  ttl = pos 43200000000000;
  secure = false;
  same_site = 2;
}

-- `http.Cookie`, as far as the program sets it. `http.SetCookie` adds it to the response.
pub record Cookie : Type 0 where
  pub name : Str
  pub value : Str
  pub expires : ℕ
  pub is_removal : Bool
  pub secure : Bool
  pub same_site : ℕ

-- The cookies that a browser sends after a response that sets one: it keeps the value, or drops the
-- cookie when its age is over.
abbrev pub kept_cookies : Cookie → Dict Str → Dict Str
kept_cookies cookie jar = insert cookie.name cookie.value jar

module _ (store : SessionStore) (m : SessionManager) where
  open store use {State, create, get, delete}

  -- `func (m *SessionManager) Start`
  unfoldable pub start : Actor → Draw → State → State × Option (Session × Cookie)
  start actor d s = elim (create actor m.ttl d s).1 [
    | none ↦ ((create actor m.ttl d s).0, none)
    | some session ↦ (
      (create actor m.ttl d s).0,
      some (
        session,
        record {
          name = m.cookie_name;
          value = session.id;
          expires = session.expires_at;
          is_removal = false;
          secure = m.secure;
          same_site = m.same_site;
        },
      ),
    )
  ]

  -- `func (m *SessionManager) End`, on the cookies of the request. The clock's zero stands for
  -- `time.Unix(0, 0)`.
  unfoldable pub end_session : Dict Str → State → State × Cookie
  end_session cookies s = (
    elim (lookup m.cookie_name cookies) [ none ↦ s | some value ↦ delete value s ],
    record {
      name = m.cookie_name;
      value = [];
      expires = 0;
      is_removal = true;
      secure = m.secure;
      same_site = m.same_site;
    },
  )

  -- `func (m *SessionManager) Middleware`: the actor with whom the next handler runs, or none where
  -- it answers UNAUTHENTICATED and does not run it.
  unfoldable pub middleware : Dict Str → ℕ → State → Option Actor
  middleware cookies now s = elim (lookup m.cookie_name cookies) [
    | none ↦ none
    | some value ↦
        if value == []
        then none
        else elim (get value now s) [ none ↦ none | some session ↦ some session.actor ]
  ]

  -- After `Start` gave a cookie that is not empty, a request with it is let through as the actor who
  -- logged in while the session has not expired, and is refused after that.
  pub middleware-start :
      (actor : Actor) (d : Draw) (s : State) (session : Session) (cookie : Cookie) (jar : Dict Str)
      (now : ℕ)
      → (start actor d s).1 ≡ some (session, cookie)
      → session.id ≢ []
      → middleware (kept_cookies cookie jar) now (start actor d s).0
        ≡ (if ltb session.expires_at now then none else some actor)
  unfolding start middleware
  middleware-start actor d s session cookie jar now h ne =
      elim (Option-cases (create actor m.ttl d s).1) [
        | inl e ↦ ground arith
        | inr (made, e) ↦ ground (
          arith,
          lookup-insert cookie.name m.cookie_name cookie.value jar,
          str_beq_refl m.cookie_name,
          store.get-create actor m.ttl d s made now e,
          store.actor-create actor m.ttl d s made e,
          str_beq_iff session.id [],
        )
      ]

  -- A request that is let through names, in its cookie, a session that the store finds at this time,
  -- and runs as the actor of that session.
  pub middleware_sound :
      (cookies : Dict Str) (now : ℕ) (s : State) (actor : Actor)
      → middleware cookies now s ≡ some actor
      → (id : Str) × (session : Session) × (lookup m.cookie_name cookies ≡ some id)
        × (id ≢ [])
        × (get id now s ≡ some session)
        × (session.actor ≡ actor)
  unfolding middleware
  middleware_sound cookies now s actor h = elim (Option-cases (lookup m.cookie_name cookies)) [
    | inl e ↦ ground arith
    | inr (id, e) ↦ elim (Option-cases (get id now s)) [
      | inl e' ↦ ground arith
      | inr (session, e') ↦ (id, session, e, ground (arith, str_beq_iff id []), e', ground arith)
    ]
  ]

  -- After `End` the cookie of the request, if it is sent again, is refused.
  pub middleware-end_session :
      (cookies : Dict Str) (now : ℕ) (s : State)
      → middleware cookies now (end_session cookies s).0 ≡ none
  unfolding end_session middleware
  middleware-end_session cookies now s = elim (Option-cases (lookup m.cookie_name cookies)) [
    | inl e ↦ ground arith
    | inr (id, e) ↦ ground (arith, store.get-delete id now s)
  ]
