-- ===== src/ApiKeys.antt =====
-- pkg/auth/apikey.go, with the handlers of pkg/server/handler_api_keys.go in ApiKeys/Handlers.
pub mod Keys
pub mod Handlers
pub mod Scopes
mod Tests
use gomyadmin.Base.{
  ℕ, ◌+◌, ◌≡◌, ◌≢◌, Bool, true, false, not, ◌&&◌, ◌||◌, Option, none, some, List, [], ◌∷◌, ◌++◌,
  Str, ◌==◌, str_eq, nat_eq, ltb, length, if◌then◌else◌,
}
use gomyadmin.Base.Int.{ℤ, pos, negsuc}
use gomyadmin.Base.Result.{Result, ok, err}
use gomyadmin.Text.{lit, split_byte, trim_space}
use gomyadmin.Access.{Actor, has_role}

-- `type APIKey struct`
pub record ApiKey : Type 0 where
  pub id : Str
  pub name : Str
  pub prefix : Str
  pub scopes : List Str
  pub actor : Actor
  pub expires_at : Option ℕ
  pub last_used_at : Option ℕ
  pub revoked_at : Option ℕ
  pub created_at : ℕ

-- `type CreateAPIKeyInput struct`
pub record CreateInput : Type 0 where
  pub name : Str
  pub actor : Actor
  pub scopes : List Str
  pub expires_in : ℤ

-- `type apiKeyRow struct`
pub record KeyRow : Type 0 where
  pub id : Str
  pub name : Str
  pub prefix : Str
  pub secret_hash : Str
  pub actor : Actor
  pub scopes : List Str
  pub expires_at : Option ℕ
  pub last_used_at : Option ℕ
  pub revoked_at : Option ℕ
  pub created_at : ℕ

-- The table `gomyadmin_api_keys` by the statements that the program runs on it; `none` is an error of
-- the database. The roles, permissions and scopes are columns of JSON, which read back what was
-- written. `revoke` gives the number of rows that it changed.
pub record KeyTable : Type 1 where
  pub State : Type 0
  pub insert : KeyRow → State → Option State
  pub by_prefix : Str → State → Option (Option KeyRow)
  pub touch : Str → ℕ → State → Option State
  pub by_actor : Str → Option Str → State → Option (List KeyRow)
  pub revoke : Str → Str → Option Str → State → Option (ℕ × State)

-- The errors of `Create` and `Revoke`.
pub data KeyError : Type 0 where
  name_required actor_required not_found database : KeyError

-- The random parts of a key, in hex, and the time.
pub record Draw : Type 0 where
  pub id : Str
  pub prefix : Str
  pub secret : Str
  pub now : ℕ

-- `actorWithPermissions`
abbrev pub with_permissions : Actor → List Str → Actor
with_permissions actor permissions = record actor { permissions = permissions }

-- `func apiKeyFromRow`
unfoldable pub key_of_row : KeyRow → ApiKey
key_of_row row = record {
  id = row.id;
  name = row.name;
  prefix = row.prefix;
  scopes = row.scopes;
  actor = row.actor;
  expires_at = row.expires_at;
  last_used_at = row.last_used_at;
  revoked_at = row.revoked_at;
  created_at = row.created_at;
}

abbrev prefix_of : List Str → Option Str
prefix_of (tag ∷ prefix ∷ secret ∷ []) =
    if not (tag == lit "gma") || (prefix == [] || secret == []) then none else some prefix
prefix_of _ = none

-- `func parseAPIKeyPrefix`
unfoldable pub parse_prefix : Str → Option Str
parse_prefix raw = prefix_of (split_byte raw b'_')

-- `raw := "gma_" + prefix + "_" + secret`
unfoldable pub raw_key : Draw → Str
raw_key d = lit "gma_" ++ (d.prefix ++ (lit "_" ++ d.secret))

-- The scopes of a new key.
unfoldable pub scopes_of : CreateInput → List Str
scopes_of input = if length input.scopes == 0 then input.actor.permissions else input.scopes

unfoldable pub expiry : ℤ → ℕ → Option ℕ
expiry (pos n) now = if n == 0 then none else some (now + n)
expiry (negsuc n) now = none

-- The tenant by which `List` and `Revoke` restrict their statements.
unfoldable pub tenant_scope : Actor → Option Str
tenant_scope actor =
    if not (actor.tenant_id == []) && not (has_role actor (lit "super_admin"))
    then some actor.tenant_id
    else none

-- `row.RevokedAt != nil || (row.ExpiresAt != nil && time.Now().UTC().After(*row.ExpiresAt))`
unfoldable pub is_refused : KeyRow → ℕ → Bool
is_refused row now =
    let expired : Bool = elim row.expires_at [ none ↦ false | some t ↦ ltb t now ] in
    elim row.revoked_at [ none ↦ expired | some _ ↦ true ]

-- `hash` is the hex of the SHA-256 sum.
module _ (table : KeyTable) (hash : Str → Str) where
  open table use {State, insert, by_prefix, touch, by_actor, revoke}

  -- The row of a new key.
  unfoldable pub new_row : CreateInput → Draw → KeyRow
  new_row input d = record {
    id = lit "key_" ++ d.id;
    name = input.name;
    prefix = d.prefix;
    secret_hash = hash (raw_key d);
    actor = with_permissions input.actor (scopes_of input);
    scopes = scopes_of input;
    expires_at = expiry input.expires_in d.now;
    last_used_at = none;
    revoked_at = none;
    created_at = d.now;
  }

  -- `func (s *PGAPIKeys) Create`
  unfoldable pub create : CreateInput → Draw → State → State × Result KeyError (ApiKey × Str)
  create input d s =
      let inserted : State × Result KeyError (ApiKey × Str) = elim (insert (new_row input d) s) [
        | none ↦ (s, err database)
        | some t ↦ (t, ok (key_of_row (new_row input d), raw_key d))
      ] in
      if trim_space input.name == []
      then (s, err name_required)
      else if input.actor.id == []
      then (s, err actor_required)
      else inserted

  -- `Authenticate` after the row was found, with the two readings of the clock.
  unfoldable pub accept :
      Str → ℕ → ℕ → KeyRow → State → State × Result KeyError (Option (Actor × ApiKey))
  accept raw now now' row s =
      let touched : State × Result KeyError (Option (Actor × ApiKey)) = elim (touch row.id now' s) [
        | none ↦ (s, err database)
        | some t ↦ (t, ok (some (row.actor, key_of_row (record row { last_used_at = some now' }))))
      ] in
      if is_refused row now
      then (s, ok none)
      else if not (row.secret_hash == hash raw)
      then (s, ok none)
      else touched

  -- `func (s *PGAPIKeys) Authenticate`
  unfoldable pub authenticate :
      Str → ℕ → ℕ → State → State × Result KeyError (Option (Actor × ApiKey))
  authenticate raw now now' s = elim (parse_prefix raw) [
    | none ↦ (s, ok none)
    | some prefix ↦ elim (by_prefix prefix s) [
      | none ↦ (s, err database)
      | some found ↦ elim found [ none ↦ (s, ok none) | some row ↦ accept raw now now' row s ]
    ]
  ]

  abbrev keys_of : List KeyRow → List ApiKey
  keys_of [] = []
  keys_of (row ∷ rest) = key_of_row row ∷ keys_of rest

  -- `func (s *PGAPIKeys) List`
  unfoldable pub list : Actor → State → Result KeyError (List ApiKey)
  list actor s = elim (by_actor actor.id (tenant_scope actor) s) [
    | none ↦ err database
    | some rows ↦ ok (keys_of rows)
  ]

  -- `func (s *PGAPIKeys) Revoke`
  unfoldable pub revoke_key : Str → Actor → State → State × Result KeyError (Unit {0})
  revoke_key id actor s = elim (revoke id actor.id (tenant_scope actor) s) [
    | none ↦ (s, err database)
    | some (affected, t) ↦ (t, (if affected == 0 then err not_found else ok tt))
  ]
