-- ===== src/AuditLog/Postgres/Asked.antt =====
-- Which events the table's log asks for, and that an event is read as it was stored.
use gomyadmin.Base.{
  ℕ, zero, suc, ◌≡◌, ◌∙◌, refl, ap, Bool, true, false, not, ◌&&◌, ◌||◌, Option, none, some, List,
  [], ◌∷◌, ◌++◌, Str, ◌==◌, nat_eq, str_eq, ltb, leb, length, all, get_elem?, append_assoc, arith,
}
use gomyadmin.AuditLog.Postgres.{add_clause, where_parts, list_query, pg_limit}
use gomyadmin.AuditLog.{Event, Query, is_skipped}
use gomyadmin.Base.Int.{pos}
use gomyadmin.Database.{Value, text, number, time}
use gomyadmin.Server.Sql.{Parts}
use gomyadmin.Text.Number.{itoa}
use gomyadmin.Text.{lit}

-- The argument `$n`
abbrev pub arg_at : ℕ → List Value → Option Value
arg_at zero args = none
arg_at (suc n) args = get_elem? args n

abbrev pub is_text : Str → Option Value → Bool
is_text s (some (text t)) = s == t
is_text s _ = false

abbrev pub is_from : ℕ → Option Value → Bool
is_from at (some (time t)) = leb t at
is_from at _ = false

abbrev pub is_to : ℕ → Option Value → Bool
is_to at (some (time t)) = leb at t
is_to at _ = false

-- How a database reads a condition of `List` on a row: the column against the argument of this number.
pub record Reads {V : Type 0} (holds : Str → List Value → Event V → Bool) : Type 0 where
  pub actor :
      (n : ℕ) (args : List Value) (e : Event V)
      → holds (lit "actor_id = $" ++ itoa n) args e ≡ is_text e.actor_id (arg_at n args)
  pub tenant :
      (n : ℕ) (args : List Value) (e : Event V)
      → holds (lit "tenant_id = $" ++ itoa n) args e ≡ is_text e.tenant_id (arg_at n args)
  pub of_resource :
      (n : ℕ) (args : List Value) (e : Event V)
      → holds (lit "resource = $" ++ itoa n) args e ≡ is_text e.resource (arg_at n args)
  pub of_action :
      (n : ℕ) (args : List Value) (e : Event V)
      → holds (lit "action = $" ++ itoa n) args e ≡ is_text e.action (arg_at n args)
  pub since :
      (n : ℕ) (args : List Value) (e : Event V)
      → holds (lit "created_at >= $" ++ itoa n) args e ≡ is_from e.created_at (arg_at n args)
  pub until :
      (n : ℕ) (args : List Value) (e : Event V)
      → holds (lit "created_at <= $" ++ itoa n) args e ≡ is_to e.created_at (arg_at n args)

arg_at_last :
    (args : List Value) (v : Value) (more : List Value)
    → arg_at (length (args ++ v ∷ [])) ((args ++ v ∷ []) ++ more) ≡ some v
arg_at_last [] v more = refl
arg_at_last (x ∷ []) v more = refl
arg_at_last (x ∷ y ∷ args) v more = arg_at_last (y ∷ args) v more

all-append {ℓ} :
    {A : Type ℓ} (p : A → Bool) (xs : List A) (x : A) → all p (xs ++ x ∷ []) ≡ (all p xs && p x)
all-append p [] x = ground arith
all-append p (y ∷ xs) x = ground (arith, all-append p xs x)

module _ {V : Type 0} (holds : Str → List Value → Event V → Bool) (e : Event V) where
  -- With any further arguments, the clauses hold of the event just where `b` is true.
  Means : Parts → Bool → Type 0
  Means p b = (more : List Value) → all (λ c. holds c (p.0 ++ more) e) p.1 ≡ b

  add_clause-Means :
      (asked : Bool) (condition : Str) (v : Value) (test : Option Value → Bool) (p : Parts)
      (b : Bool)
      → ((n : ℕ) (args : List Value) → holds (condition ++ itoa n) args e ≡ test (arg_at n args))
      → Means p b
      → Means (add_clause asked condition v p) (b && (not asked || test (some v)))
  unfolding add_clause Means
  add_clause-Means false condition v test p b law h more = h more ∙ ground arith
  add_clause-Means true condition v test (args, clauses) b law h more =
      let args' = args ++ v ∷ [] in
      let old : all (λ c. holds c (args' ++ more) e) clauses ≡ b =
        ap (λ z. all (λ c. holds c z e) clauses) (append_assoc args (v ∷ []) more) ∙ h (v ∷ more) in
      let new = law (length args') (args' ++ more) ∙ ap test (arg_at_last args v more) in
      all-append (λ c. holds c (args' ++ more) e) clauses (condition ++ itoa (length args'))
      ∙ rw (old, new) refl

  none-Means : Means ([], []) true
  unfolding Means
  none-Means more = refl

  Means_lem :
      (p : Parts) (b : Bool) (more : List Value)
      → Means p b
      → all (λ c. holds c (p.0 ++ more) e) p.1 ≡ b
  unfolding Means
  Means_lem p b more h = h more

kept_text : (q t : Bool) → (not (not q) || t) ≡ not (not q && not t)
kept_text true t = refl
kept_text false true = refl
kept_text false false = refl

kept_from : (q : Bool) (from at : ℕ) → (not (not q) || leb from at) ≡ not (not q && ltb at from)
kept_from true from at = refl
kept_from false from at = ground arith

kept_to : (q : Bool) (at to : ℕ) → (not (not q) || leb at to) ≡ not (not q && ltb to at)
kept_to true at to = refl
kept_to false at to = ground arith

none_skips :
    (a b c d e f : Bool)
    → ((((((true && not a) && not b) && not c) && not d) && not e) && not f)
      ≡ not (a || (b || (c || (d || (e || f)))))
none_skips true b c d e f = refl
none_skips false true c d e f = refl
none_skips false false true d e f = refl
none_skips false false false true e f = refl
none_skips false false false false true f = refl
none_skips false false false false false f = refl

kept_all :
    (a b c d e f : Bool) {a' b' c' d' e' f' : Bool}
    → a' ≡ not a
    → b' ≡ not b
    → c' ≡ not c
    → d' ≡ not d
    → e' ≡ not e
    → f' ≡ not f
    → ((((((true && a') && b') && c') && d') && e') && f')
      ≡ not (a || (b || (c || (d || (e || f)))))
kept_all a b c d e f p q r s t u = rw (p, q, r, s, t, u) (none_skips a b c d e f)

-- An event meets all conditions of the table's List, whatever their number, just where the memory's
-- List does not pass it over, in a database that reads each condition as its column against the
-- argument of its number.
pub where_parts-is_skipped :
    {V : Type 0} (holds : Str → List Value → Event V → Bool)
    → Reads holds
    → (query : Query) (e : Event V)
    → all (λ c. holds c (list_query query).1 e) (where_parts query).1 ≡ not (is_skipped query e)
unfolding list_query where_parts is_skipped
where_parts-is_skipped holds law query e =
    let a =
      add_clause-Means holds e (not (query.actor_id == [])) (lit "actor_id = $")
        (text query.actor_id) (is_text e.actor_id) _ _ (λ n args. law.actor n args e)
        (none-Means holds e) in
    let b =
      add_clause-Means holds e (not (query.tenant_id == [])) (lit "tenant_id = $")
        (text query.tenant_id) (is_text e.tenant_id) _ _ (λ n args. law.tenant n args e) a in
    let c =
      add_clause-Means holds e (not (query.resource == [])) (lit "resource = $")
        (text query.resource) (is_text e.resource) _ _ (λ n args. law.of_resource n args e) b in
    let d =
      add_clause-Means holds e (not (query.action == [])) (lit "action = $") (text query.action)
        (is_text e.action) _ _ (λ n args. law.of_action n args e) c in
    let f =
      add_clause-Means holds e (not (query.from == 0)) (lit "created_at >= $") (time query.from)
        (is_from e.created_at) _ _ (λ n args. law.since n args e) d in
    let g =
      add_clause-Means holds e (not (query.to == 0)) (lit "created_at <= $") (time query.to)
        (is_to e.created_at) _ _ (λ n args. law.until n args e) f in
    Means_lem holds e _ _ (number (pos (pg_limit query.limit)) ∷ []) g
    ∙ kept_all _ _ _ _ _ _ (kept_text (query.actor_id == []) (e.actor_id == query.actor_id))
        (kept_text (query.tenant_id == []) (e.tenant_id == query.tenant_id))
        (kept_text (query.resource == []) (e.resource == query.resource))
        (kept_text (query.action == []) (e.action == query.action))
        (kept_from (query.from == 0) query.from e.created_at)
        (kept_to (query.to == 0) e.created_at query.to)
