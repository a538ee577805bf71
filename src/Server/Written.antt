-- ===== src/Server/Written.antt =====
-- What `Create` and `Update` of pkg/server/store.go write, and what they leave alone.
use gomyadmin.Base.{
  ℕ, ◌≡◌, refl, sym, ◌≢◌, inl, inr, Bool, false, some, List, [], ◌∷◌, ◌++◌, Str, ◌==◌, str_eq,
  nat_eq, arith, if◌then◌else◌, Bool-cases, Option-cases, All, All-append, str_beq_iff,
  str_beq_refl,
}
use gomyadmin.Base.Result.{ok, ◌>>=◌, >>=-eq-ok, ok-injective}
use gomyadmin.Text.{lit}
use gomyadmin.Dict.{lookup, insert, lookup-insert}
use gomyadmin.Server.Meta.{FieldMeta, ResourceMeta, has_column}
use gomyadmin.Server.Sql.{Value, text, time}
use gomyadmin.Server.Store.{
  Outside, Record, Fresh, is_nil, stamped, complete, stored, written_loop, is_fixed, updates,
}

-- The field is one of the list.
pub data IsOf (f : FieldMeta) : List FieldMeta → Type 0 where
  here : {fields : List FieldMeta} → IsOf f (f ∷ fields)
  there : {g : FieldMeta} {fields : List FieldMeta} → IsOf f fields → IsOf f (g ∷ fields)

-- The entry is of a field of the list that is not skipped, and that the input has.
pub data IsFrom (skipped : FieldMeta → Bool) (input : Record) (fields : List FieldMeta)
    (w : Str × Value) : Type 0 where
  from :
      (f : FieldMeta) (value : Value)
      → IsOf f fields
      → skipped f ≡ false
      → w.0 ≡ f.sql_name
      → lookup f.sql_name input ≡ some value
      → IsFrom skipped input fields w

later-IsFrom :
    (skipped : FieldMeta → Bool) (input : Record) (f : FieldMeta) (fields : List FieldMeta)
    (w : Str × Value)
    → IsFrom skipped input fields w
    → IsFrom skipped input (f ∷ fields) w
later-IsFrom skipped input f fields w (from g value i n e l) = from g value (there i) n e l

later-All :
    (skipped : FieldMeta → Bool) (input : Record) (f : FieldMeta) (fields : List FieldMeta)
    (ws : List (Str × Value))
    → All (IsFrom skipped input fields) ws
    → All (IsFrom skipped input (f ∷ fields)) ws
later-All skipped input f fields [] h = tt
later-All skipped input f fields (w ∷ ws) (h, hs) =
    (later-IsFrom skipped input f fields w h, later-All skipped input f fields ws hs)

written_loop-IsFrom :
    (out : Outside) (skipped : FieldMeta → Bool) (fields : List FieldMeta) (input : Record)
    (ws : List (Str × Value))
    → written_loop out skipped fields input ≡ ok ws
    → All (IsFrom skipped input fields) ws
unfolding written_loop
written_loop-IsFrom out skipped [] input ws h = rw (sym (ok-injective h)) tt
written_loop-IsFrom out skipped (f ∷ fields) input ws h = elim (Bool-cases (skipped f)) [
  | inl t ↦
      later-All skipped input f fields ws
        (written_loop-IsFrom out skipped fields input ws (ground arith))
  | inr n ↦ elim (Option-cases (lookup f.sql_name input)) [
    | inl o ↦
        later-All skipped input f fields ws
          (written_loop-IsFrom out skipped fields input ws (ground arith))
    | inr (value, o) ↦
        let taken : (stored out f value >>= λ v.
        written_loop out skipped fields input >>= λ more. ok ((f.sql_name, v) ∷ more))
            ≡ ok ws =
          ground arith in
        let one = >>=-eq-ok (stored out f value) _ taken in
        let two = >>=-eq-ok (written_loop out skipped fields input) _ one.2 in
        rw (sym (ok-injective two.2)) (
          from f value here n refl o,
          later-All skipped input f fields two.0
              (written_loop-IsFrom out skipped fields input two.0 two.1),
        )
  ]
]

-- The entry is the time of the update, or is of a field that may be updated: one that is not the
-- primary key, not the tenant's, not read-only and not hidden.
pub data IsAllowed (resource : ResourceMeta) (now : ℕ) (w : Str × Value) : Type 0 where
  stamp : w ≡ (lit "updated_at", time now) → IsAllowed resource now w
  field :
      (f : FieldMeta)
      → IsOf f resource.fields
      → w.0 ≡ f.sql_name
      → f.readonly ≡ false
      → f.hidden ≡ false
      → w.0 ≢ resource.primary_key
      → w.0 ≢ resource.tenant_key
      → IsAllowed resource now w

from-IsAllowed :
    (resource : ResourceMeta) (now : ℕ) (input : Record) (ws : List (Str × Value))
    → All (IsFrom (is_fixed resource) input resource.fields) ws
    → All (IsAllowed resource now) ws
unfolding is_fixed
from-IsAllowed resource now input [] h = tt
from-IsAllowed resource now input (w ∷ ws) (from f value i n e l, hs) = (
  field f i e (ground arith) (ground arith)
      (ground (arith, str_beq_iff f.sql_name resource.primary_key))
      (ground (arith, str_beq_iff f.sql_name resource.tenant_key)),
  from-IsAllowed resource now input ws hs,
)

-- An update writes nothing but the time of the update and fields that are not the primary key, not
-- the tenant's, not read-only and not hidden, whatever the input holds.
pub updates-IsAllowed :
    (out : Outside) (resource : ResourceMeta) (now : ℕ) (input : Record) (ws : List (Str × Value))
    → updates out resource now input ≡ ok ws
    → All (IsAllowed resource now) ws
unfolding updates
updates-IsAllowed out resource now input ws h =
    let one = >>=-eq-ok (written_loop out (is_fixed resource) resource.fields input) _ h in
    let fields =
      from-IsAllowed resource now input one.0
        (written_loop-IsFrom out (is_fixed resource) resource.fields input one.0 one.1) in
    elim (Bool-cases (has_column resource (lit "updated_at"))) [
      | inl t ↦
          let e : one.0 ++ (lit "updated_at", time now) ∷ [] ≡ ws = ok-injective (rw t at one.2) in
          rw (sym e) (All-append (IsAllowed resource now) one.0 (_ ∷ []) fields (stamp refl, tt))
      | inr n ↦ let e : one.0 ≡ ws = ok-injective (rw n at one.2) in rw (sym e) fields
    ]

stamped-keeps :
    (resource : ResourceMeta) (col : Str) (now : ℕ) (input : Record) (k t : Str)
    → lookup k input ≡ some (text t)
    → lookup k (stamped resource col now input) ≡ some (text t)
unfolding stamped is_nil
stamped-keeps resource col now input k t h = elim (Bool-cases (col == k)) [
  | inl e ↦
      let same : col ≡ k = (str_beq_iff col k).0 e in
      let present : is_nil col input ≡ false = rw (same, h, is_nil) refl in
      rw (present, stamped) (ground arith)
  | inr n ↦ ground (arith, lookup-insert col k (time now) input)
]

forced :
    (k t : Str) (r : Record)
    → k ≢ []
    → lookup k (if k == [] then r else insert k (text t) r) ≡ some (text t)
forced k t r ne = ground (arith, str_beq_iff k [], lookup-insert k k (text t) r, str_beq_refl k)

-- The entry of the tenant's column is the tenant of the actor in what `Create` inserts, whatever the
-- input holds.
pub complete-tenant :
    (resource : ResourceMeta) (tenant_id : Str) (fresh : Fresh) (input : Record)
    → resource.tenant_key ≢ []
    → lookup resource.tenant_key (complete resource tenant_id fresh input) ≡ some (text tenant_id)
unfolding complete
complete-tenant resource tenant_id fresh input ne =
    stamped-keeps resource (lit "updated_at") fresh.now _ resource.tenant_key tenant_id (
      stamped-keeps resource (lit "created_at") fresh.now _ resource.tenant_key tenant_id
        (forced resource.tenant_key tenant_id _ ne))
