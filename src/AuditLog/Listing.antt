-- ===== src/AuditLog/Listing.antt =====
-- What `List` gives (pkg/audit/audit.go), against a plain description of it.
use gomyadmin.Base.{
  ℕ, zero, suc, ◌-◌, ◌≤◌, ◌≡◌, ◌⊎◌, refl, sym, ap, ◌∙◌, Bool, true, not, List, [], ◌∷◌, ◌++◌,
  reverse, append_assoc, append-nil, arith, str_eq, str_beq_iff, nat_eq, length, take, keep,
  length-append, All, Bool-cases, inl, inr, ltb,
}
use gomyadmin.Base.Int.{ℤ, pos, negsuc}
use gomyadmin.AuditLog.{Event, Query, MemoryStore, is_skipped, list_loop, list_limit, list}

limit_small : (l : ℤ) → list_limit l ≤ 200
limit_small (pos n) = ground arith
limit_small (negsuc n) = omega arith

module _ {V : Type 0} where
  -- The events that a query asks for.
  abbrev pub is_asked : Query → Event V → Bool
  is_asked query event = not (is_skipped query event)

  take-nil : (n : ℕ) → take {A = Event V} n [] ≡ []
  take-nil zero = refl
  take-nil (suc n) = refl

  list_loop_lem :
      (query : Query) (limit : ℕ) (events out : List (Event V))
      → length out ≤ limit
      → list_loop query limit events out
        ≡ out ++ take (limit - length out) (keep (is_asked query) events)
  unfolding list_loop keep
  list_loop_lem query limit [] out h =
      sym (ap (λ z. out ++ z) (take-nil (limit - length out)) ∙ append-nil out)
  list_loop_lem query limit (event ∷ rest) out h = elim (Bool-cases (ltb (length out) limit)) [
    | inr full ↦
        let nothing : limit - length out ≡ 0 = ground arith in
        rw (full, nothing) (sym (append-nil out))
    | inl room ↦
        let longer : length (out ++ event ∷ []) ≡ suc (length out) =
          omega (arith, length-append {0} out (event ∷ [])) in
        let more : limit - length out ≡ suc (limit - length (out ++ event ∷ [])) =
          ground (arith, longer) in
        elim (Bool-cases (is_skipped query event)) [
          | inl skip ↦ rw (room, skip) (list_loop_lem query limit rest out h)
          | inr asked ↦
              rw (room, asked, more)
                (list_loop_lem query limit rest (out ++ event ∷ []) (ground (arith, longer))
                  ∙ append_assoc out (event ∷ []) _)
        ]
  ]

  -- The list is the newest events that the query asks for, the last recorded first, as many as the
  -- limit allows.
  pub list_lem :
      (query : Query) (s : MemoryStore V)
      → list query s ≡ take (list_limit query.limit) (keep (is_asked query) (reverse s.events))
  unfolding list
  list_lem query s =
      let limit = list_limit query.limit in
      let all_left : limit - 0 ≡ limit = omega arith in
      list_loop_lem query limit (reverse s.events) [] (omega arith)
      ∙ ap (λ n. take n (keep (is_asked query) (reverse s.events))) all_left

  -- An event is asked for exactly when it passes every test that the query makes.
  pub record IsAsked (query : Query) (event : Event V) : Type 0 where
    pub actor : (query.actor_id ≡ []) ⊎ (event.actor_id ≡ query.actor_id)
    pub tenant : (query.tenant_id ≡ []) ⊎ (event.tenant_id ≡ query.tenant_id)
    pub resource : (query.resource ≡ []) ⊎ (event.resource ≡ query.resource)
    pub action : (query.action ≡ []) ⊎ (event.action ≡ query.action)
    pub since : query.from ≤ event.created_at
    pub until : (query.to ≡ 0) ⊎ (event.created_at ≤ query.to)

  kept-IsAsked :
      (query : Query) (event : Event V) → is_asked query event ≡ true → IsAsked query event
  unfolding is_skipped
  kept-IsAsked query event h = record {
    actor =
        ground (arith, str_beq_iff query.actor_id [], str_beq_iff event.actor_id query.actor_id);
    tenant =
        ground (arith, str_beq_iff query.tenant_id [], str_beq_iff event.tenant_id query.tenant_id);
    resource =
        ground (arith, str_beq_iff query.resource [], str_beq_iff event.resource query.resource);
    action = ground (arith, str_beq_iff query.action [], str_beq_iff event.action query.action);
    since = ground arith;
    until = ground arith;
  }

  take_kept :
      (query : Query) (n : ℕ) (events : List (Event V))
      → All (IsAsked query) (take n (keep (is_asked query) events))
        × (length (take n (keep (is_asked query) events)) ≤ n)
  unfolding keep
  take_kept query zero events = (tt, omega arith)
  take_kept query (suc n) [] = (tt, omega arith)
  take_kept query (suc n) (event ∷ events) = elim (Bool-cases (is_skipped query event)) [
    | inl skip ↦ rw skip (take_kept query (suc n) events)
    | inr asked ↦
        let (each, few) = take_kept query n events in
        let good = kept-IsAsked query event (rw asked refl) in rw asked ((good, each), omega arith)
  ]

  -- Every event of a list passes every test of the query, so that a query for a tenant lists events
  -- of that tenant alone, and the list holds at most 200 events.
  pub list-IsAsked :
      (query : Query) (s : MemoryStore V)
      → All (IsAsked query) (list query s) × (length (list query s) ≤ 200)
  list-IsAsked query s =
      let (each, few) = take_kept query (list_limit query.limit) (reverse s.events) in
      rw list_lem (each, omega (arith, limit_small query.limit))
