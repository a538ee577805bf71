-- ===== src/Server/Setup/Pools.antt =====
-- No pool is left open that `New` has opened, and none is closed that the caller has opened.
use gomyadmin.Base.{
  ℕ, ◌≡◌, ◌≢◌, ◌∙◌, refl, sym, ap, Bool, true, false, not, ◌&&◌, Option, none, some, Str, ◌==◌,
  str_eq, nat_eq, nat_beq_iff, [], if◌then◌else◌, Bool-cases, inl, inr, ◌⊎◌, Option-cases, subst,
}
use gomyadmin.Base.Result.{Result, ok, err}
use gomyadmin.Server.Setup.{
  Config, AdminServer, SetupError, Outside, Source, given, postgres, with_defaults, give_up,
  assemble, setup_keys, setup_sessions, setup_store, setup_given, setup_pool, new_server, close_own,
  close_server, is_none,
}

-- What pgxpool documents: a new pool is a further one, which is open; closing closes one pool; and a
-- statement opens and closes none.
pub record Documented (out : Outside) : Type 0 where
  pub is_open : ℕ → out.State → Bool
  pub opens :
      {url : Str} {s t : out.State} {p : ℕ}
      → out.connect url s ≡ some (p, t)
      → (is_open p s ≡ false) × (is_open p t ≡ true)
  pub opens_one :
      {url : Str} {s t : out.State} {p : ℕ} (q : ℕ)
      → out.connect url s ≡ some (p, t)
      → q ≢ p
      → is_open q t ≡ is_open q s
  pub closes : (p : ℕ) (s : out.State) → is_open p (out.close_pool p s) ≡ false
  pub closes_one : (p q : ℕ) (s : out.State) → q ≢ p → is_open q (out.close_pool p s) ≡ is_open q s
  pub store_keeps : (p q : ℕ) (s : out.State) → is_open q (out.migrate_store p s).0 ≡ is_open q s
  pub sessions_keep :
      (p q : ℕ) (s : out.State) → is_open q (out.migrate_sessions p s).0 ≡ is_open q s
  pub keys_keep : (p q : ℕ) (s : out.State) → is_open q (out.migrate_keys p s).0 ≡ is_open q s

not_both : {b : Bool} → b ≡ true → b ≡ false → ⊥
not_both h k = cc (h, k)

if-elim {ℓ κ} :
    {A : Type ℓ} (P : A → Type κ) (b : Bool) {x y : A}
    → (b ≡ true → P x)
    → (b ≡ false → P y)
    → P (if b then x else y)
if-elim P true h k = h refl
if-elim P false h k = k refl

module _ (out : Outside) (laws : Documented out) where
  -- The state once the caller is done: after `Close`, where there is a server.
  abbrev pub done_with : out.State × Result SetupError AdminServer → out.State
  done_with (s, err e) = s
  done_with (s, ok server) = close_server out server s

  -- The pools but for `p`, if the server has opened `p` itself.
  record Leaves (cfg : Config) (p : ℕ) (s t : out.State) : Type 0 where
    owned : cfg.own_pool ≡ true → laws.is_open p t ≡ false
    borrowed : cfg.own_pool ≡ false → laws.is_open p t ≡ laws.is_open p s
    others : (q : ℕ) → q ≢ p → laws.is_open q t ≡ laws.is_open q s

  closed_if_own :
      (cfg : Config) (p : ℕ) (s t : out.State)
      → ((q : ℕ) → laws.is_open q t ≡ laws.is_open q s)
      → Leaves cfg p s (if cfg.own_pool then out.close_pool p t else t)
  closed_if_own cfg p s t same =
      if-elim (Leaves cfg p s) cfg.own_pool
        (λ own. record {
          owned = λ _. laws.closes p t;
          borrowed = λ e. absurd (not_both own e);
          others = λ q h. laws.closes_one p q t h ∙ same q;
        })
        (λ lent. record {
          owned = λ e. absurd (not_both e lent);
          borrowed = λ _. same p;
          others = λ q h. same q;
        })

  Same : out.State → out.State → Type 0
  Same s t = (q : ℕ) → laws.is_open q t ≡ laws.is_open q s

  module _ (cfg : Config) (p : ℕ) (has : cfg.pool ≡ some p) (s : out.State) where
    abbrev After : out.State × Result SetupError AdminServer → Type 0
    After r = Leaves cfg p s (done_with r)

    give_up-Leaves : (t : out.State) → Same s t → Leaves cfg p s (done_with (give_up out cfg p t))
    unfolding give_up Same
    give_up-Leaves t same = closed_if_own cfg p s t same

    assemble-Leaves :
        (a b : Source) (c : Option Source) (t : out.State)
        → Same s t
        → Leaves cfg p s (done_with (t, ok (assemble out cfg a b c)))
    unfolding assemble close_server close_own Same
    assemble-Leaves a b c t same =
        subst (λ o. Leaves cfg p s (close_own out cfg.own_pool o t)) (sym has)
          (closed_if_own cfg p s t same)

    setup_keys-Leaves :
        (sessions : Source) (t : out.State)
        → Same s t
        → Leaves cfg p s (done_with (setup_keys out cfg p sessions t))
    unfolding setup_keys Same
    setup_keys-Leaves sessions t same =
        let u = (out.migrate_keys p t).0 in
        let kept : Same s u = λ q. laws.keys_keep p q t ∙ same q in
        if-elim After cfg.has_api_keys
          (λ a. assemble-Leaves (postgres p) sessions (some given) t same)
          (λ a.
            if-elim After (not (out.migrate_keys p t).1) (λ b. give_up-Leaves u kept)
              (λ b. assemble-Leaves (postgres p) sessions (some (postgres p)) u kept))

    setup_sessions-Leaves :
        (t : out.State) → Same s t → Leaves cfg p s (done_with (setup_sessions out cfg p t))
    unfolding setup_sessions Same
    setup_sessions-Leaves t same =
        let u = (out.migrate_sessions p t).0 in
        let kept : Same s u = λ q. laws.sessions_keep p q t ∙ same q in
        if-elim After cfg.has_sessions (λ a. setup_keys-Leaves given t same)
          (λ a.
            if-elim After (not (out.migrate_sessions p t).1) (λ b. give_up-Leaves u kept)
              (λ b. setup_keys-Leaves (postgres p) u kept))

    setup_store-Leaves :
        (t : out.State) → Same s t → Leaves cfg p s (done_with (setup_store out cfg p t))
    unfolding setup_store Same
    setup_store-Leaves t same =
        let u = (out.migrate_store p t).0 in
        let kept : Same s u = λ q. laws.store_keeps p q t ∙ same q in
        if-elim After (not (out.migrate_store p t).1) (λ b. give_up-Leaves u kept)
          (λ b. setup_sessions-Leaves u kept)

  nat_cases : (p q : ℕ) → (p ≡ q) ⊎ (p ≢ q)
  nat_cases p q = elim (Bool-cases (p == q)) [
    | inl t ↦ inl ((nat_beq_iff p q).0 t)
    | inr t ↦ inr (λ e. cc (t, (nat_beq_iff p q).1 e))
  ]

  setup_pool-restores :
      (cfg : Config) (pool : Option ℕ) (s : out.State) (q : ℕ)
      → cfg.own_pool ≡ false
      → cfg.pool ≡ pool
      → laws.is_open q (done_with (setup_pool out cfg pool s)) ≡ laws.is_open q s
  unfolding setup_pool Same
  setup_pool-restores cfg (some p) s q lent has =
      let left = setup_store-Leaves cfg p has s s (λ r. refl) in
      elim (nat_cases q p) [
        | inl same ↦
            ap (λ r. laws.is_open r (done_with (setup_store out cfg p s))) same
            ∙ left.borrowed lent
            ∙ ap (λ r. laws.is_open r s) (sym same)
        | inr apart ↦ left.others q apart
      ]
  setup_pool-restores cfg none s q lent has = elim (Option-cases (out.connect cfg.database_url s)) [
    | inl f ↦ rw (setup_pool, f) refl
    | inr ((p, t), f) ↦
        let own = record cfg { own_pool = true; pool = some p } in
        let left = setup_store-Leaves own p refl t t (λ r. refl) in
        rw (setup_pool, f)
          (elim (nat_cases q p) [
            | inl same ↦
                ap (λ r. laws.is_open r (done_with (setup_store out own p t))) same
                ∙ left.owned refl
                ∙ sym (laws.opens f).0
                ∙ ap (λ r. laws.is_open r s) (sym same)
            | inr apart ↦ left.others q apart ∙ laws.opens_one q f apart
          ])
  ]

  close_lent : (pool : Option ℕ) (s : out.State) → close_own out false pool s ≡ s
  unfolding close_own
  close_lent none s = refl
  close_lent (some p) s = refl

  -- A server that is closed, or that New has refused, leaves each pool open or closed as it was before:
  -- a pool that New opened is closed again, and one of the caller is not.
  pub new_server-restores :
      (cfg : Config) (s : out.State) (q : ℕ)
      → cfg.own_pool ≡ false
      → laws.is_open q (done_with (new_server out cfg s)) ≡ laws.is_open q s
  unfolding new_server setup_given with_defaults close_server
  new_server-restores cfg s q lent =
      let Restored : out.State × Result SetupError AdminServer → Type 0 =
        λ r. laws.is_open q (done_with r) ≡ laws.is_open q s in
      if-elim Restored (not cfg.has_store && (cfg.database_url == [] && is_none out cfg.pool))
        (λ a. refl)
        (λ a.
          if-elim Restored (not (cfg.database_url == []) && not (is_none out cfg.pool)) (λ b. refl)
            (λ b.
              if-elim Restored cfg.has_store
                (λ c.
                  ap (λ b. laws.is_open q (close_own out b cfg.pool s)) lent
                  ∙ ap (laws.is_open q) (close_lent cfg.pool s))
                (λ c. setup_pool-restores (with_defaults out cfg) cfg.pool s q lent refl)))
