-- ===== src/Migrate/Applied.antt =====
-- What `Up` of pkg/migrate/migrate.go has applied when it ends, and what a second `Up` does.
use gomyadmin.Base.{
  ℕ, ◌≡◌, refl, sym, ap, subst, ◌∙◌, ◌⊎◌, inl, inr, none, some, List, [], ◌∷◌, Str, ◌==◌, str_eq,
  arith, Bool-cases, Option-cases, All, In, IsDistinct, str_beq_iff, str_beq_refl,
}
use gomyadmin.Base.Result.{ok, Result-cases}
use gomyadmin.Dict.{Dict, lookup, insert, lookup-insert}
use gomyadmin.Database.{Pool}
use gomyadmin.Migrate.{
  Migration, Runner, create_text, record_text, record_values, applied, apply, up_loop, up,
}

abbrev pub versions : List Migration → List Str
versions [] = []
versions (m ∷ ms) = m.version ∷ versions ms

-- The migration is recorded.
abbrev pub IsRecorded : Dict Str → Migration → Type 0
IsRecorded known m = lookup m.version known ≡ some m.checksum

abbrev Agrees : Dict Str → Dict Str → List Migration → Type 0
Agrees known k [] = Unit
Agrees known k (m ∷ ms) = (lookup m.version k ≡ lookup m.version known) × Agrees known k ms

Agrees-refl : (known : Dict Str) (ms : List Migration) → Agrees known known ms
Agrees-refl known [] = tt
Agrees-refl known (m ∷ ms) = (refl, Agrees-refl known ms)

module _ (pool : Pool) (r : Runner) where
  open pool use {State, query, exec, begin, commit}

  abbrev pub HasTable : State → Type 0
  HasTable s = exec (create_text r) [] s ≡ some s

  -- What the SQL of the runner does: a table that exists is not created again, a transaction begins
  -- with the state of the database and its commit makes its state that of the database, and a recorded
  -- migration is among the applied ones. The SQL of a migration leaves the runner's table alone.
  pub record Laws (ms : List Migration) : Type 0 where
    pub created : (s t : State) → exec (create_text r) [] s ≡ some t → HasTable t
    pub begun : (s t : State) → begin s ≡ some t → t ≡ s
    pub committed : (t u : State) → commit t ≡ some u → u ≡ t
    pub ran :
        (m : Migration) (s t : State)
        → In m ms
        → exec m.sql [] s ≡ some t
        → HasTable s
        → (applied pool r t ≡ applied pool r s) × HasTable t
    pub recorded :
        (m : Migration) (clock : ℕ) (s t : State) (k : Dict Str)
        → exec (record_text r) (record_values pool r m clock) s ≡ some t
        → HasTable s
        → applied pool r s ≡ some k
        → (applied pool r t ≡ some (insert m.version m.checksum k)) × HasTable t

  -- The states of an `apply` that succeeds.
  apply_states :
      (m : Migration) (clock : ℕ) (s : State)
      → (apply pool r m clock s).1 ≡ ok tt
      → (t t' t'' : State) × (begin s ≡ some t)
        × (exec m.sql [] t ≡ some t')
        × (exec (record_text r) (record_values pool r m clock) t' ≡ some t'')
        × (commit t'' ≡ some (apply pool r m clock s).0)
  unfolding apply
  apply_states m clock s h = elim (Option-cases (begin s)) [
    | inl n ↦ ground arith
    | inr (t, e) ↦ elim (Option-cases (exec m.sql [] t)) [
      | inl n ↦ ground arith
      | inr (t', e') ↦
          elim (Option-cases (exec (record_text r) (record_values pool r m clock) t')) [
            | inl n ↦ ground arith
            | inr (t'', e'') ↦ elim (Option-cases (commit t'')) [
              | inl n ↦ ground arith
              | inr (u, c) ↦ (t, t', t'', e, e', e'', rw (e, e', e'', c, apply) refl)
            ]
          ]
    ]
  ]

  apply_ok :
      (ms : List Migration) (laws : Laws ms) (m : Migration) (clock : ℕ) (s : State) (k : Dict Str)
      → In m ms
      → (apply pool r m clock s).1 ≡ ok tt
      → HasTable s
      → applied pool r s ≡ some k
      → (applied pool r (apply pool r m clock s).0 ≡ some (insert m.version m.checksum k))
        × HasTable (apply pool r m clock s).0
  apply_ok ms laws m clock s k i h has e =
      let (t, t', t'', b, x, w, c) = apply_states m clock s h in
      let same : t ≡ s = laws.begun s t b in
      let ran = laws.ran m t t' i x (subst HasTable (sym same) has) in
      let recorded =
        laws.recorded m clock t' t'' k w ran.1 (ran.0 ∙ ap (λ z. applied pool r z) same ∙ e) in
      let last = sym (laws.committed t'' (apply pool r m clock s).0 c) in
      (ap (λ z. applied pool r z) (sym last) ∙ recorded.0, subst HasTable last recorded.1)

  Agrees-insert :
      (known k : Dict Str) (v c : Str) (ms : List Migration)
      → ¬ In v (versions ms)
      → Agrees known k ms
      → Agrees known (insert v c k) ms
  Agrees-insert known k v c [] n h = tt
  Agrees-insert known k v c (m ∷ ms) n (h, hs) = (
    elim (Bool-cases (v == m.version)) [
      | inl e ↦ absurd (n (inl ((str_beq_iff v m.version).0 e)))
      | inr ne ↦ ground (arith, lookup-insert v m.version c k)
    ],
    Agrees-insert known k v c ms (λ i. n (inr i)) hs,
  )

  -- What is recorded stays recorded when a new version is.
  insert-keeps :
      (k : Dict Str) (v c : Str) (w d : Str)
      → lookup v k ≡ none
      → lookup w k ≡ some d
      → lookup w (insert v c k) ≡ some d
  insert-keeps k v c w d n h = elim (Bool-cases (v == w)) [
    | inl e ↦ let same : v ≡ w = (str_beq_iff v w).0 e in absurd (cc (same, n, h))
    | inr ne ↦ ground (arith, lookup-insert v w c k)
  ]

  -- A round of a loop that succeeds: the migration is known, or it is applied.
  up_loop_round :
      (known : Dict Str) (clock : Migration → ℕ) (m : Migration) (ms : List Migration) (s u : State)
      → up_loop pool r known (m ∷ ms) clock s ≡ (u, ok tt)
      → (IsRecorded known m × (up_loop pool r known ms clock s ≡ (u, ok tt)))
        ⊎ ((lookup m.version known ≡ none)
            × ((apply pool r m (clock m) s).1 ≡ ok tt)
            × (up_loop pool r known ms clock (apply pool r m (clock m) s).0 ≡ (u, ok tt)))
  unfolding up_loop
  up_loop_round known clock m ms s u h = elim (Option-cases (lookup m.version known)) [
    | inr (previous, e) ↦ elim (Bool-cases (previous == m.checksum)) [
      | inl t ↦
          let same : previous ≡ m.checksum = (str_beq_iff previous m.checksum).0 t in
          inl (e ∙ ap some same, rw (e, t, up_loop) at h)
      | inr f ↦ absurd (cc (rw (e, f, up_loop) at h))
    ]
    | inl e ↦ elim (Result-cases (apply pool r m (clock m) s).1) [
      | inl (x, f) ↦ absurd (cc (rw (e, f, up_loop) at h))
      | inr (done, f) ↦ inr (e, f, rw (e, f, up_loop) at h)
    ]
  ]

  -- The end of a loop that succeeds.
  record Ended (k : Dict Str) (ms : List Migration) (u : State) : Type 0 where
    last : Dict Str
    seen : applied pool r u ≡ some last
    all : All (IsRecorded last) ms
    kept : (v c : Str) → lookup v k ≡ some c → lookup v last ≡ some c
    table : HasTable u

  up_loop-Ended :
      (whole : List Migration) (laws : Laws whole) (known : Dict Str) (clock : Migration → ℕ)
      (ms : List Migration) (k : Dict Str) (s u : State)
      → All (λ m. In m whole) ms
      → IsDistinct (versions ms)
      → Agrees known k ms
      → applied pool r s ≡ some k
      → HasTable s
      → up_loop pool r known ms clock s ≡ (u, ok tt)
      → Ended k ms u
  unfolding up_loop
  up_loop-Ended whole laws known clock [] k s u w d a e t h =
      let same : s ≡ u = ground arith in
      record {
        last = k;
        seen = ap (λ z. applied pool r z) (sym same) ∙ e;
        all = tt;
        kept = λ v c l. l;
        table = subst HasTable same t;
      }
  up_loop-Ended whole laws known clock (m ∷ ms) k s u (w, ws) (d, ds) (a, ag) e t h =
      elim (up_loop_round known clock m ms s u h) [
        | inl (known_m, rest) ↦
            let ended = up_loop-Ended whole laws known clock ms k s u ws ds ag e t rest in
            record {
              last = ended.last;
              seen = ended.seen;
              all = (ended.kept m.version m.checksum (a ∙ known_m), ended.all);
              kept = ended.kept;
              table = ended.table;
            }
        | inr (new, applied_m, rest) ↦
            let now = apply_ok whole laws m (clock m) s k w applied_m t e in
            let k' = insert m.version m.checksum k in
            let ended =
              up_loop-Ended whole laws known clock ms k' _ u ws ds
                (Agrees-insert known k m.version m.checksum ms d ag) now.0 now.1 rest in
            let here : IsRecorded k' m =
              ground
                (arith, lookup-insert m.version m.version m.checksum k, str_beq_refl m.version) in
            record {
              last = ended.last;
              seen = ended.seen;
              all = (ended.kept m.version m.checksum here, ended.all);
              kept = λ v c l. ended.kept v c (insert-keeps k m.version m.checksum v c (a ∙ new) l);
              table = ended.table;
            }
      ]

  up_loop_known :
      (known : Dict Str) (clock : Migration → ℕ) (ms : List Migration) (s : State)
      → All (IsRecorded known) ms
      → up_loop pool r known ms clock s ≡ (s, ok tt)
  unfolding up_loop
  up_loop_known known clock [] s h = refl
  up_loop_known known clock (m ∷ ms) s (h, hs) =
      ground (arith, h, str_beq_refl m.checksum, up_loop_known known clock ms s hs)

  In-whole :
      (whole ms : List Migration)
      → ((m : Migration) → In m ms → In m whole)
      → All (λ m. In m whole) ms
  In-whole whole [] h = tt
  In-whole whole (m ∷ ms) h = (h m (inl refl), In-whole whole ms (λ x i. h x (inr i)))

  -- After an `Up` that succeeds, every migration of the list is recorded with its checksum, and a
  -- second `Up` of the list, at any time, succeeds and changes nothing. The versions are distinct, and
  -- the SQL does what `Laws` says.
  pub up_idempotent :
      (ms : List Migration) (laws : Laws ms) (clock clock' : Migration → ℕ) (s u : State)
      → IsDistinct (versions ms)
      → up pool r ms clock s ≡ (u, ok tt)
      → (known : Dict Str) × (applied pool r u ≡ some known)
        × All (IsRecorded known) ms
        × (up pool r ms clock' u ≡ (u, ok tt))
  unfolding up
  up_idempotent ms laws clock clock' s u d h = elim (Bool-cases r.has_db) [
    | inr f ↦ ground arith
    | inl y ↦ elim (Option-cases (exec (create_text r) [] s)) [
      | inl n ↦ ground arith
      | inr (t, c) ↦ elim (Option-cases (applied pool r t)) [
        | inl n ↦ ground arith
        | inr (known, a) ↦
            let ran : up_loop pool r known ms clock t ≡ (u, ok tt) = ground arith in
            let ended =
              up_loop-Ended ms laws known clock ms known t u (In-whole ms ms (λ m i. i)) d
                (Agrees-refl known ms) a (laws.created s t c) ran in
            (
              ended.last,
              ended.seen,
              ended.all,
              ground
                  (arith, ended.table, ended.seen, up_loop_known ended.last clock' ms u ended.all),
            )
      ]
    ]
  ]
