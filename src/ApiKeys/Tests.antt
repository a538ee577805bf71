-- ===== src/ApiKeys/Tests.antt =====
-- API keys over a table that holds one row.
use gomyadmin.Base.{
  ℕ, zero, suc, arith, ◌≡◌, ◌≢◌, refl, subst, sym, ap, ◌∙◌, Bool, true, false, ◌&&◌, Option, none,
  some, List, [], ◌∷◌, ◌++◌, Str, str_beq, str_beq_refl, ◌==◌, str_eq, if◌then◌else◌,
}
use gomyadmin.Base.Int.{ℤ, pos, negsuc}
use gomyadmin.Base.Result.{ok}
use gomyadmin.Text.{lit, trim_space, split_byte}
use gomyadmin.Access.{Actor}
use gomyadmin.ApiKeys.{
  CreateInput, KeyRow, KeyTable, Draw, raw_key, key_of_row, with_permissions, accept, scopes_of,
  create, authenticate, expiry, revoke_key, is_refused, parse_prefix, new_row,
}
use gomyadmin.ApiKeys.Keys.{Laws, IsHexDraw, hex, is_past, authenticate-create, authenticate-revoke}
use gomyadmin.ApiKeys.Handlers.{
  KeyBody, entered, raw_key_of, actor_middleware, handle_create, finish_create,
  parse_optional_duration,
}
use gomyadmin.ApiKeys.Scopes.{actor_middleware-handle_create, actor_middleware_sound}

abbrev Row : Type 0
Row = Option KeyRow

abbrev insert : KeyRow → Row → Option Row
insert row none = some (some row)
insert row (some old) = none

abbrev by_prefix : Str → Row → Option (Option KeyRow)
by_prefix prefix none = some none
by_prefix prefix (some row) = if row.prefix == prefix then some (some row) else some none

abbrev touch : Str → ℕ → Row → Option Row
touch id now none = some none
touch id now (some row) =
    if row.id == id then some (some (record row { last_used_at = some now })) else some (some row)

abbrev by_actor : Str → Option Str → Row → Option (List KeyRow)
by_actor actor_id tenant none = some []
by_actor actor_id tenant (some row) = if row.actor.id == actor_id then some (row ∷ []) else some []

abbrev revoke : Str → Str → Option Str → Row → Option (ℕ × Row)
revoke id actor_id tenant none = some (0, none)
revoke id actor_id tenant (some row) =
    if row.id == id && row.actor.id == actor_id
    then some (1, some (record row { revoked_at = some 0 }))
    else some (0, some row)

abbrev table : KeyTable
table = record {
  State = Row;
  insert = insert;
  by_prefix = by_prefix;
  touch = touch;
  by_actor = by_actor;
  revoke = revoke;
}

abbrev hash : Str → Str
hash raw = lit "#" ++ raw

insert_found :
    (row : KeyRow) (s t : Row) → insert row s ≡ some t → by_prefix row.prefix t ≡ some (some row)
insert_found row none t h =
    let put : some row ≡ t = cc in
    subst (λ z. by_prefix row.prefix z ≡ some (some row)) put (rw (str_beq_refl row.prefix) refl)
insert_found row (some old) t h = cc

if_found :
    (b : Bool) (row row' : KeyRow)
    → (if b then some (some row) else some none) ≡ some (some row')
    → row ≡ row'
if_found true row row' h = cc
if_found false row row' h = cc

if_revoked :
    (b : Bool) (n : ℕ) (old : KeyRow) (t : Row)
    → if◌then◌else◌ {A = Option (ℕ × Row)} b
        (some (1, some (record old { revoked_at = some 0 })))
        (some (0, some old))
      ≡ some (n, t)
    → n ≢ 0
    → some (record old { revoked_at = some 0 }) ≡ t
if_revoked true n old t h k = ap get_row h
  where
    get_row : Option (ℕ × Row) → Row
    get_row none = none
    get_row (some z) = z.1
if_revoked false n old t h k = absurd (k (ap get_count (sym h)))
  where
    get_count : Option (ℕ × Row) → ℕ
    get_count none = 0
    get_count (some z) = z.0

some≢none : {n : ℕ} → some n ≢ none
some≢none h = cc

revoke_revoked :
    (id actor_id : Str) (tenant : Option Str) (n : ℕ) (s t : Row) (prefix : Str) (row : KeyRow)
    → revoke id actor_id tenant s ≡ some (n, t)
    → n ≢ 0
    → by_prefix prefix t ≡ some (some row)
    → row.revoked_at ≢ none
revoke_revoked id actor_id tenant n none t prefix row h k l m = absurd (k (ground arith))
revoke_revoked id actor_id tenant n (some old) t prefix row h k l m =
    let changed = if_revoked (old.id == id && old.actor.id == actor_id) n old t h k in
    let kept =
      if_found (old.prefix == prefix) (record old { revoked_at = some 0 }) row
        (subst (λ z. by_prefix prefix z ≡ some (some row)) (sym changed) l) in
    some≢none (ap (λ z. z.revoked_at) kept ∙ m)

laws_hold : Laws table hash
laws_hold = record {
  found = insert_found;
  revoked = λ id actor_id tenant n s t prefix row h k l m.
      revoke_revoked id actor_id tenant n s t prefix row h k l;
}

abbrev viewer : Actor
viewer = record {
  id = lit "u1";
  email = [];
  name = [];
  tenant_id = lit "t1";
  roles = [];
  permissions = lit "posts.view" ∷ [];
}

abbrev draw : Draw
draw = record { id = lit "00"; prefix = lit "ab"; secret = lit "cd"; now = 1000 }

draw_hex : IsHexDraw draw
draw_hex =
    hex ((λ e. ground arith), ((λ e. ground arith), tt))
      ((λ e. ground arith), ((λ e. ground arith), tt)) (λ e. cc) (λ e. cc)

abbrev body : KeyBody
body = record { name = lit "ci"; scopes = lit "*" ∷ []; expires_in = [] }

abbrev no_duration : Str → Option ℤ
no_duration raw = none

abbrev row : KeyRow
row =
    new_row table hash
      (record { name = lit "ci"; actor = viewer; scopes = lit "*" ∷ []; expires_in = pos 0 }) draw

abbrev used : Row
used = some (record row { last_used_at = some 1003 })

no_expiry :
    (n : ℤ) → parse_optional_duration no_duration [] ≡ some n → is_past (expiry n 1000) 1002 ≡ false
unfolding parse_optional_duration expiry str_beq
no_expiry (pos zero) h = refl
no_expiry (pos (suc n)) h = cc
no_expiry (negsuc n) h = cc

abbrev viewer_all : Actor
viewer_all = with_permissions viewer (lit "*" ∷ [])

entered_all :
    actor_middleware table hash true (λ s. s) (lit "gma_ab_cd") [] 1002 1003 (some row)
    ≡ (used, entered viewer_all)
unfolding actor_middleware raw_key_of trim_space str_beq authenticate accept parse_prefix split_byte
    is_refused new_row raw_key expiry scopes_of
entered_all = refl

-- A viewer asks for the scope `*` and gets in with it.
actor_middleware-handle_create_example :
    actor_middleware table hash true (λ s. s) (lit "gma_ab_cd") [] 1002 1003 (some row)
    ≡ (used, entered (with_permissions viewer (lit "*" ∷ [])))
unfolding handle_create parse_optional_duration str_beq finish_create create trim_space new_row
    raw_key raw_key_of expiry
actor_middleware-handle_create_example =
    actor_middleware-handle_create table hash no_duration laws_hold (λ s. s) viewer body draw none
      (some row) used _ (lit "gma_ab_cd") (lit "gma_ab_cd") _ 1002 1003 draw_hex (λ e. cc) refl refl
      (no_expiry) refl

abbrev input : CreateInput
input = record { name = lit "ci"; actor = viewer; scopes = lit "*" ∷ []; expires_in = pos 0 }

-- The key lets in at 1002.
authenticate-create_example : authenticate table hash (lit "gma_ab_cd") 1002 1003 (some row) ≡ (
  used,
  ok (
      some (
        with_permissions viewer (lit "*" ∷ []),
        key_of_row (record row { last_used_at = some 1003 }),
      )),
)
unfolding create str_beq trim_space new_row raw_key expiry scopes_of key_of_row
authenticate-create_example =
    authenticate-create table hash laws_hold input draw none (some row) used (key_of_row row)
      (lit "gma_ab_cd") 1002 1003 draw_hex refl refl

abbrev gone : Row
gone = some (record row { revoked_at = some 0 })

authenticate-revoke_example :
    authenticate table hash (lit "gma_ab_cd") 1002 1003 gone ≡ (gone, ok none)
unfolding revoke_key str_beq parse_prefix split_byte new_row
authenticate-revoke_example =
    authenticate-revoke table hash laws_hold (lit "key_00") viewer (some row) gone (lit "gma_ab_cd")
      (lit "ab") (record row { revoked_at = some 0 }) 1002 1003 refl refl refl refl

actor_middleware_sound_example :
    (prefix : Str) × (r : KeyRow) × (by_prefix prefix (some row) ≡ some (some r))
    × (r.secret_hash ≡ hash (raw_key_of (λ s. s) (lit "gma_ab_cd") []))
    × (r.revoked_at ≡ none)
    × (is_past r.expires_at 1002 ≡ false)
    × (viewer_all ≡ r.actor)
actor_middleware_sound_example =
    actor_middleware_sound table hash true (λ s. s) (lit "gma_ab_cd") [] 1002 1003 (some row)
      viewer_all (ap (λ z. z.1) entered_all)
