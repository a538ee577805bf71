-- ===== src/Migrate/Stopped.antt =====
-- What an `Up` of pkg/migrate/migrate.go that fails leaves.
use gomyadmin.Base.{
  ℕ, ◌≡◌, refl, sym, ap, ◌∙◌, inl, inr, true, some, List, [], ◌∷◌, ◌++◌, Str, ◌==◌, str_eq, arith,
  Bool-cases, Option-cases,
}
use gomyadmin.Base.Result.{ok, err, Result-cases}
use gomyadmin.Dict.{Dict, lookup}
use gomyadmin.Database.{Pool}
use gomyadmin.Migrate.{
  Migration, Runner, MigrateError, create_text, record_text, record_values, applied, apply, up_loop,
  up,
}

module _ (pool : Pool) (r : Runner) where
  open pool use {State, query, exec, begin, commit}

  -- A migration that fails leaves the database as it was.
  apply_error :
      (m : Migration) (clock : ℕ) (s : State) (e : MigrateError)
      → (apply pool r m clock s).1 ≡ err e
      → (apply pool r m clock s).0 ≡ s
  unfolding apply
  apply_error m clock s e h = elim (Option-cases (begin s)) [
    | inl n ↦ ground arith
    | inr (t, e1) ↦ elim (Option-cases (exec m.sql [] t)) [
      | inl n ↦ ground arith
      | inr (t', e2) ↦
          elim (Option-cases (exec (record_text r) (record_values pool r m clock) t')) [
            | inl n ↦ ground arith
            | inr (t'', e3) ↦ elim (Option-cases (commit t'')) [
              | inl n ↦ ground arith
              | inr (u, c) ↦ ground arith
            ]
          ]
    ]
  ]

  up_loop_stopped :
      (known : Dict Str) (clock : Migration → ℕ) (ms : List Migration) (s u : State)
      (e : MigrateError)
      → up_loop pool r known ms clock s ≡ (u, err e)
      → (before : List Migration) × (failing : Migration) × (after : List Migration) × (ms
          ≡ before ++ failing ∷ after)
        × (up_loop pool r known before clock s ≡ (u, ok tt))
  unfolding up_loop
  up_loop_stopped known clock [] s u e h = ground arith
  up_loop_stopped known clock (m ∷ ms) s u e h = elim (Option-cases (lookup m.version known)) [
    | inr (previous, l) ↦ elim (Bool-cases (previous == m.checksum)) [
      | inl t ↦
          let (before, failing, after, parts, ran) =
            up_loop_stopped known clock ms s u e (rw (l, t, up_loop) at h) in
          (m ∷ before, failing, after, ap (λ z. m ∷ z) parts, rw (l, t, up_loop) ran)
      | inr f ↦ ([], m, ms, refl, cc (rw (l, f, up_loop) at h))
    ]
    | inl l ↦
        let now = apply pool r m (clock m) s in
        elim (Result-cases now.1) [
          | inl (x, f) ↦
              let same : now.0 ≡ u = cc (rw (l, f, up_loop) at h) in
              ([], m, ms, refl, ap (λ z. (z, ok tt)) (sym (apply_error m (clock m) s x f) ∙ same))
          | inr (done, f) ↦
              let (before, failing, after, parts, ran) =
                up_loop_stopped known clock ms now.0 u e (rw (l, f, up_loop) at h) in
              (m ∷ before, failing, after, ap (λ z. m ∷ z) parts, rw (l, f, up_loop) ran)
        ]
  ]

  -- An `Up` that fails after it has read the applied migrations leaves exactly the state that an `Up`
  -- of the migrations before the failing one leaves, and that one succeeds.
  up_stopped :
      (ms : List Migration) (clock : Migration → ℕ) (s t u : State) (known : Dict Str)
      (e : MigrateError)
      → exec (create_text r) [] s ≡ some t
      → applied pool r t ≡ some known
      → r.has_db ≡ true
      → up pool r ms clock s ≡ (u, err e)
      → (before : List Migration) × (failing : Migration) × (after : List Migration) × (ms
          ≡ before ++ failing ∷ after)
        × (up pool r before clock s ≡ (u, ok tt))
  unfolding up
  up_stopped ms clock s t u known e c a y h =
      let (before, failing, after, parts, ran) =
        up_loop_stopped known clock ms t u e (ground arith) in
      (before, failing, after, parts, ground (arith, ran))
