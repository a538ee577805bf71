-- ===== src/Session/Cached/Tests.antt =====
-- A session in the cache of pkg/cache/cache.go.
use gomyadmin.Base.{◌≡◌, refl, sym, ap, true, none, some, [], ◌∷◌, Str, Option, str_beq}
use gomyadmin.Base.Int.{pos}
use gomyadmin.Base.Result.{ok}
use gomyadmin.Text.{lit}
use gomyadmin.Dict.{insert}
use gomyadmin.Access.{Actor}
use gomyadmin.Cache
use gomyadmin.Cache.{MemoryCache}
use gomyadmin.Session.{Session, Draw}
use gomyadmin.Session.Cached.{memory_store, Json, key_of, new_session, set_session, create}

abbrev ann : Actor
ann = record { id = lit "u1"; email = []; name = []; tenant_id = []; roles = []; permissions = [] }

abbrev draw : Draw
draw = record { token = some (lit "tok"); now = 10; now_after = 11 }

abbrev read_text : Str → Option Session
read_text (expires_at ∷ created_at ∷ id) =
    some (record { id = id; actor = ann; expires_at = expires_at; created_at = created_at })
read_text _ = none

-- A text for the sessions of one actor.
abbrev json : Json
json = record { marshal = λ s. some (s.expires_at ∷ s.created_at ∷ s.id); unmarshal = read_text }

abbrev session : Session
session = record { id = lit "tok"; actor = ann; expires_at = 15; created_at = 10 }

abbrev stored : MemoryCache
stored = record {
  items =
      (lit "gomyadmin:session:tok", record { value = 15 ∷ 10 ∷ lit "tok"; expires_at = 16 }) ∷ [];
}

create_run :
    create memory_store json true [] ann (pos 5) draw Cache.new_memory ≡ (stored, ok session)
unfolding create set_session key_of new_session Cache.set insert str_beq
create_run = refl

read_option : Option Str → Option Session
read_option none = none
read_option (some text) = read_text text

round_trip : (text : Str) → json.marshal session ≡ some text → json.unmarshal text ≡ some session
unfolding read_option
round_trip text h = ap read_option (sym h)
