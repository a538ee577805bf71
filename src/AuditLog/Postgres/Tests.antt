-- ===== src/AuditLog/Postgres/Tests.antt =====
-- The conditions of the table's log, read by a small interpreter.
use gomyadmin.Base.{
  ℕ, zero, suc, ◌+◌, ◌<◌, ◌≡◌, ◌≢◌, refl, ap, Bool, false, not, Option, none, some, List, [], ◌∷◌,
  Str, ◌==◌, nat_eq, str_eq, str_beq, str_beq_refl, str_beq-false, if◌then◌else◌, drop, get_elem?,
  all, arith,
}
use gomyadmin.AuditLog.Postgres.Asked.{
  arg_at, is_text, is_from, is_to, Reads, where_parts-is_skipped,
}
use gomyadmin.AuditLog.Postgres.{where_parts, list_query}
use gomyadmin.AuditLog.{Event, Query, is_skipped}
use gomyadmin.Base.Int.{pos}
use gomyadmin.Database.{Value, text, number, time}
use gomyadmin.Text.Number.{itoa, itoa_injective}
use gomyadmin.Text.{lit, has_prefix}

-- The argument with this number in print, where the first of the list has the number `k`.
abbrev find : Str → ℕ → List Value → Option Value
find printed k [] = none
find printed k (v ∷ vs) =
    let later = find printed (suc k) vs in if itoa k == printed then some v else later

find-itoa : (i k n : ℕ) (args : List Value) → n ≡ k + i → find (itoa n) k args ≡ get_elem? args i
find-itoa i k n [] e = refl
find-itoa zero k n (v ∷ vs) e =
    let same : itoa k ≡ itoa n = ap itoa (omega (arith, e)) in
    rw same (rw (str_beq_refl (itoa n)) refl)
find-itoa (suc i) k n (v ∷ vs) e =
    let apart : itoa k ≢ itoa n = λ same. absurd (omega (arith, itoa_injective k n same, e)) in
    rw (str_beq-false (itoa k) (itoa n) apart) (find-itoa i (suc k) n vs (omega (arith, e)))

find-below : (k n : ℕ) (args : List Value) → n < k → find (itoa n) k args ≡ none
find-below k n [] h = refl
find-below k n (v ∷ vs) h =
    let apart : itoa k ≢ itoa n = λ same. absurd (omega (arith, itoa_injective k n same)) in
    rw (str_beq-false (itoa k) (itoa n) apart) (find-below (suc k) n vs (omega arith))

find-arg_at : (n : ℕ) (args : List Value) → find (itoa n) 1 args ≡ arg_at n args
find-arg_at zero args = find-below 1 0 args (omega arith)
find-arg_at (suc n) args = find-itoa n 1 (suc n) args (omega arith)

abbrev holds : Str → List Value → Event Str → Bool
holds c args e =
    if has_prefix c (lit "actor_id = $")
    then is_text e.actor_id (find (drop 12 c) 1 args)
    else if has_prefix c (lit "tenant_id = $")
    then is_text e.tenant_id (find (drop 13 c) 1 args)
    else if has_prefix c (lit "resource = $")
    then is_text e.resource (find (drop 12 c) 1 args)
    else if has_prefix c (lit "action = $")
    then is_text e.action (find (drop 10 c) 1 args)
    else if has_prefix c (lit "created_at >= $")
    then is_from e.created_at (find (drop 15 c) 1 args)
    else if has_prefix c (lit "created_at <= $")
    then is_to e.created_at (find (drop 15 c) 1 args)
    else false

holds-Reads : Reads holds
unfolding has_prefix
holds-Reads = record {
  actor = λ n args e. ap (is_text e.actor_id) (find-arg_at n args);
  tenant = λ n args e. ap (is_text e.tenant_id) (find-arg_at n args);
  of_resource = λ n args e. ap (is_text e.resource) (find-arg_at n args);
  of_action = λ n args e. ap (is_text e.action) (find-arg_at n args);
  since = λ n args e. ap (is_from e.created_at) (find-arg_at n args);
  until = λ n args e. ap (is_to e.created_at) (find-arg_at n args);
}

abbrev login : Event Str
login = record {
  id = lit "1";
  actor_id = lit "u1";
  actor_email = [];
  tenant_id = lit "acme";
  action = lit "login";
  resource = lit "auth";
  resource_id = [];
  old_values = [];
  new_values = [];
  metadata = [];
  ip_address = [];
  user_agent = [];
  request_id = [];
  created_at = 5;
}

abbrev since_four : Query
since_four = record {
  actor_id = [];
  tenant_id = lit "acme";
  resource = [];
  action = [];
  from = 4;
  to = 0;
  limit = pos 500;
}

-- Above 200 the limit is 200, where that of the memory's log is 100.
query_run : (list_query since_four).1 ≡ text (lit "acme") ∷ time 4 ∷ number (pos 200) ∷ []
unfolding list_query str_beq
query_run = refl

clauses_run : (where_parts since_four).1 ≡ lit "tenant_id = $1" ∷ lit "created_at >= $2" ∷ []
unfolding where_parts str_beq itoa
clauses_run = refl

where_parts-is_skipped_example :
    all (λ c. holds c (list_query since_four).1 login) (where_parts since_four).1
    ≡ not (is_skipped since_four login)
where_parts-is_skipped_example = where_parts-is_skipped holds holds-Reads since_four login
