-- ===== src/ApiKeys/Keys.antt =====
-- A key of pkg/auth/apikey.go from `Create` through `Authenticate` to `Revoke`.
use gomyadmin.Base.{
  ℕ, ◌≡◌, refl, sym, ap, ◌∙◌, ◌≢◌, inl, inr, Bool, true, false, Option, none, some, [], ◌∷◌, ◌++◌,
  Str, ◌==◌, str_eq, nat_eq, ltb, arith, if◌then◌else◌, Bool-cases, Option-cases, some-injective,
  none≢some, str_beq_iff, str_beq, str_beq_refl,
}
use gomyadmin.Base.Result.{Result, ok, err, ok-injective, err≢ok}
use gomyadmin.Text.{lit, trim_space}
use gomyadmin.Text.Laws.{Lacks, split_byte-last, split_byte-append}
use gomyadmin.Access.{Actor}
use gomyadmin.ApiKeys.{
  ApiKey, CreateInput, KeyRow, KeyTable, KeyError, Draw, with_permissions, database, key_of_row,
  prefix_of, parse_prefix, raw_key, scopes_of, expiry, tenant_scope, is_refused, new_row, create,
  accept, authenticate, revoke_key,
}

prefix_of_lem : (s t : Str) → s ≢ [] → t ≢ [] → prefix_of (lit "gma" ∷ s ∷ t ∷ []) ≡ some s
unfolding str_beq
prefix_of_lem [] t p q = absurd (p refl)
prefix_of_lem (a ∷ s) [] p q = absurd (q refl)
prefix_of_lem (a ∷ s) (b ∷ t) p q = refl

-- The prefix of a key is read from it.
parse_prefix-raw_key :
    (d : Draw)
    → Lacks b'_' d.prefix
    → Lacks b'_' d.secret
    → d.prefix ≢ []
    → d.secret ≢ []
    → parse_prefix (raw_key d) ≡ some d.prefix
unfolding parse_prefix raw_key
parse_prefix-raw_key d p q p' q' =
    let tag =
      split_byte-append b'_' (lit "gma") (d.prefix ++ (lit "_" ++ d.secret))
        ((λ e. ground arith), ((λ e. ground arith), ((λ e. ground arith), tt))) in
    let one = split_byte-append b'_' d.prefix d.secret p in
    let two = split_byte-last b'_' d.secret q in
    rw (tag, one, two) (prefix_of_lem d.prefix d.secret p' q')

-- The random parts are hex, hence without `_`, and not empty.
pub data IsHexDraw (d : Draw) : Type 0 where
  hex : Lacks b'_' d.prefix → Lacks b'_' d.secret → d.prefix ≢ [] → d.secret ≢ [] → IsHexDraw d

-- The time of expiry is over.
abbrev pub is_past : Option ℕ → ℕ → Bool
is_past none now = false
is_past (some t) now = ltb t now

-- A row that is not refused is neither revoked nor expired.
pub is_refused_lem :
    (row : KeyRow) (now : ℕ)
    → is_refused row now ≡ false
    → (row.revoked_at ≡ none) × (is_past row.expires_at now ≡ false)
unfolding is_refused
is_refused_lem row now h = elim (Option-cases row.revoked_at) [
  | inl n ↦ elim (Option-cases row.expires_at) [
    | inl m ↦ (n, rw m refl)
    | inr (t, m) ↦ (n, rw m (ground arith))
  ]
  | inr (t, e) ↦ ground arith
]

refused_lem : (row : KeyRow) (now : ℕ) → row.revoked_at ≢ none → is_refused row now ≡ true
unfolding is_refused
refused_lem row now h = elim (Option-cases row.revoked_at) [
  | inl n ↦ absurd (h n)
  | inr (t, e) ↦ rw e refl
]

module _ (table : KeyTable) (hash : Str → Str) where
  open table use {State, insert, by_prefix, touch, revoke}

  -- What the program relies on of the table: a row that was inserted is found by its prefix, and a
  -- row that a `revoke` changed, with its id, is revoked.
  pub record Laws : Type 0 where
    pub found :
        (row : KeyRow) (s t : State)
        → insert row s ≡ some t
        → by_prefix row.prefix t ≡ some (some row)
    pub revoked :
        (id actor_id : Str) (tenant : Option Str) (n : ℕ) (s t : State) (prefix : Str)
        (row : KeyRow)
        → revoke id actor_id tenant s ≡ some (n, t)
        → n ≢ 0
        → by_prefix prefix t ≡ some (some row)
        → row.id ≡ id
        → row.revoked_at ≢ none

  abbrev Answer : KeyRow → ℕ → Result KeyError (Option (Actor × ApiKey))
  Answer row now' = ok (some (row.actor, key_of_row (record row { last_used_at = some now' })))

  accept_eq :
      (raw : Str) (now now' : ℕ) (row : KeyRow) (s t : State)
      → is_refused row now ≡ false
      → row.secret_hash ≡ hash raw
      → touch row.id now' s ≡ some t
      → accept table hash raw now now' row s ≡ (t, Answer row now')
  unfolding accept key_of_row
  accept_eq raw now now' row s t r e u = rw (r, e, str_beq_refl (hash raw), u) refl

  accept_refused :
      (raw : Str) (now now' : ℕ) (row : KeyRow) (s : State)
      → is_refused row now ≡ true
      → accept table hash raw now now' row s ≡ (s, ok none)
  unfolding accept
  accept_refused raw now now' row s r = rw r refl

  accept_other :
      (raw : Str) (now now' : ℕ) (row : KeyRow) (s : State)
      → is_refused row now ≡ false
      → (row.secret_hash == hash raw) ≡ false
      → accept table hash raw now now' row s ≡ (s, ok none)
  unfolding accept
  accept_other raw now now' row s r n = rw (r, n) refl

  accept_database :
      (raw : Str) (now now' : ℕ) (row : KeyRow) (s : State)
      → is_refused row now ≡ false
      → row.secret_hash ≡ hash raw
      → touch row.id now' s ≡ none
      → accept table hash raw now now' row s ≡ (s, err database)
  unfolding accept
  accept_database raw now now' row s r e u = rw (r, e, str_beq_refl (hash raw), u) refl

  accept_sound :
      (raw : Str) (now now' : ℕ) (row : KeyRow) (s : State) (actor : Actor) (key : ApiKey)
      → (accept table hash raw now now' row s).1 ≡ ok (some (actor, key))
      → (is_refused row now ≡ false)
        × (row.secret_hash ≡ hash raw)
        × (actor ≡ row.actor)
        × (key.id ≡ row.id)
  unfolding key_of_row
  accept_sound raw now now' row s actor key h = elim (Bool-cases (is_refused row now)) [
    | inl r ↦
        absurd
          (none≢some (ok-injective (sym (ap (λ z. z.1) (accept_refused raw now now' row s r)) ∙ h)))
    | inr r ↦ elim (Bool-cases (row.secret_hash == hash raw)) [
      | inr n ↦
          absurd (
            none≢some
              (ok-injective (sym (ap (λ z. z.1) (accept_other raw now now' row s r n)) ∙ h)))
      | inl y ↦
          let same = (str_beq_iff row.secret_hash (hash raw)).0 y in
          elim (Option-cases (touch row.id now' s)) [
            | inl n ↦
                absurd
                  (err≢ok (sym (ap (λ z. z.1) (accept_database raw now now' row s r same n)) ∙ h))
            | inr (t, e) ↦
                let both = some-injective (
                  ok-injective
                    (sym (ap (λ z. z.1) (accept_eq raw now now' row s t r same e)) ∙ h)) in
                (r, same, sym (ap (λ z. z.0) both), sym (ap (λ z. z.1.id) both))
          ]
    ]
  ]

  authenticate_eq :
      (raw : Str) (now now' : ℕ) (s : State) (row : KeyRow) (prefix : Str)
      → parse_prefix raw ≡ some prefix
      → by_prefix prefix s ≡ some (some row)
      → authenticate table hash raw now now' s ≡ accept table hash raw now now' row s
  unfolding authenticate
  authenticate_eq raw now now' s row prefix p f = rw (authenticate, p, f) refl

  -- Whoever is let in by a key: there is a row with the prefix of the key and the hash of the key that
  -- is not refused at this time, and the actor is that of the row.
  pub authenticate_sound :
      (raw : Str) (now now' : ℕ) (s : State) (actor : Actor) (key : ApiKey)
      → (authenticate table hash raw now now' s).1 ≡ ok (some (actor, key))
      → (prefix : Str) × (row : KeyRow) × (parse_prefix raw ≡ some prefix)
        × (by_prefix prefix s ≡ some (some row))
        × (row.secret_hash ≡ hash raw)
        × (is_refused row now ≡ false)
        × (actor ≡ row.actor)
        × (key.id ≡ row.id)
  unfolding authenticate
  authenticate_sound raw now now' s actor key h = elim (Option-cases (parse_prefix raw)) [
    | inl n ↦ ground arith
    | inr (prefix, p) ↦ elim (Option-cases (by_prefix prefix s)) [
      | inl n ↦ ground arith
      | inr (none, f) ↦ ground arith
      | inr (some row, f) ↦
          let inside =
            accept_sound raw now now' row s actor key
              (sym (ap (λ z. z.1) (authenticate_eq raw now now' s row prefix p f)) ∙ h) in
          (prefix, row, p, f, inside.1, inside.0, inside.2, inside.3)
    ]
  ]

  pub create_inserts :
      (input : CreateInput) (d : Draw) (s t : State) (key : ApiKey) (raw : Str)
      → create table hash input d s ≡ (t, ok (key, raw))
      → (insert (new_row table hash input d) s ≡ some t) × (raw ≡ raw_key d)
  unfolding create
  create_inserts input d s t key raw h = elim (Bool-cases (trim_space input.name == [])) [
    | inl b ↦ ground arith
    | inr b ↦ elim (Bool-cases (input.actor.id == [])) [
      | inl c ↦ ground arith
      | inr c ↦ elim (Option-cases (insert (new_row table hash input d) s)) [
        | inl n ↦ ground arith
        | inr (u, e) ↦
            let made : (u, ok (key_of_row (new_row table hash input d), raw_key d))
                ≡ (t, ok (key, raw)) =
              sym (rw (b, c, e) refl) ∙ h in
            (e ∙ ap (λ z. some z.0) made, sym (ap (λ z. z.1) (ok-injective (ap (λ z. z.1) made))))
      ]
    ]
  ]

  new_row_refused :
      (input : CreateInput) (d : Draw) (now : ℕ)
      → is_refused (new_row table hash input d) now ≡ is_past (expiry input.expires_in d.now) now
  unfolding is_refused new_row
  new_row_refused input d now = elim (Option-cases (expiry input.expires_in d.now)) [
    | inl n ↦ rw n refl
    | inr (e, some_e) ↦ rw some_e refl
  ]

  -- The row that a new key is read from.
  found_row :
      (laws : Laws) (input : CreateInput) (d : Draw) (s t : State) (key : ApiKey) (raw : Str)
      (now now' : ℕ)
      → IsHexDraw d
      → create table hash input d s ≡ (t, ok (key, raw))
      → authenticate table hash raw now now' t
        ≡ accept table hash raw now now' (new_row table hash input d) t
  unfolding new_row
  found_row laws input d s t key raw now now' (hex a b a' b') h =
      let made = create_inserts input d s t key raw h in
      let parsed : parse_prefix raw ≡ some d.prefix =
        ap parse_prefix made.1 ∙ parse_prefix-raw_key d a b a' b' in
      authenticate_eq raw now now' t (new_row table hash input d) d.prefix parsed
        (laws.found (new_row table hash input d) s t made.0)

  -- A key that `Create` gave out lets its actor in, with the scopes as permissions, until it expires,
  -- and after that nobody, with the table as it was.
  pub authenticate-create :
      (laws : Laws) (input : CreateInput) (d : Draw) (s t u : State) (key : ApiKey) (raw : Str)
      (now now' : ℕ)
      → IsHexDraw d
      → create table hash input d s ≡ (t, ok (key, raw))
      → touch (lit "key_" ++ d.id) now' t ≡ some u
      → authenticate table hash raw now now' t ≡ (
          if is_past (expiry input.expires_in d.now) now then (t, ok none) else (
            u,
            ok (
                some (
                  with_permissions input.actor (scopes_of input),
                  record (key_of_row (new_row table hash input d)) { last_used_at = some now' },
                )),
          ))
  unfolding new_row key_of_row
  authenticate-create laws input d s t u key raw now now' drawn h touched =
      let run = found_row laws input d s t key raw now now' drawn h in
      let hashed = sym (ap hash (create_inserts input d s t key raw h).1) in
      let refused = new_row_refused input d now in
      elim (Bool-cases (is_past (expiry input.expires_in d.now) now)) [
        | inl past ↦
            rw past
              (run ∙ accept_refused raw now now' (new_row table hash input d) t (refused ∙ past))
        | inr fresh ↦ rw fresh (
            run
            ∙ accept_eq raw now now' (new_row table hash input d) t u (refused ∙ fresh) hashed
                touched)
      ]

  revoke_key_eq :
      (id : Str) (actor : Actor) (s t : State) (n : ℕ)
      → revoke id actor.id (tenant_scope actor) s ≡ some (n, t)
      → (n == 0) ≡ false
      → revoke_key table hash id actor s ≡ (t, ok tt)
  unfolding revoke_key
  revoke_key_eq id actor s t n e z = rw (revoke_key, e, z) refl

  revoke_states :
      (id : Str) (actor : Actor) (s t : State)
      → revoke_key table hash id actor s ≡ (t, ok tt)
      → (n : ℕ) × (revoke id actor.id (tenant_scope actor) s ≡ some (n, t)) × (n ≢ 0)
  unfolding revoke_key
  revoke_states id actor s t h = elim (Option-cases (revoke id actor.id (tenant_scope actor) s)) [
    | inl n ↦ ground arith
    | inr ((n, t'), e) ↦ elim (Bool-cases (n == 0)) [
      | inl z ↦ ground arith
      | inr z ↦
          let made : (t', ok tt) ≡ (t, ok tt) = sym (revoke_key_eq id actor s t' n e z) ∙ h in
          (n, e ∙ ap (λ u. some (n, u.0)) made, λ zero. ground arith)
    ]
  ]

  -- Once `Revoke` has reported no error, a key whose row has this id lets nobody in and changes nothing.
  pub authenticate-revoke :
      (laws : Laws) (id : Str) (actor : Actor) (s t : State) (raw prefix : Str) (row : KeyRow)
      (now now' : ℕ)
      → revoke_key table hash id actor s ≡ (t, ok tt)
      → parse_prefix raw ≡ some prefix
      → by_prefix prefix t ≡ some (some row)
      → row.id ≡ id
      → authenticate table hash raw now now' t ≡ (t, ok none)
  authenticate-revoke laws id actor s t raw prefix row now now' h parsed found same =
      let (n, ran, some_rows) = revoke_states id actor s t h in
      let revoked =
        laws.revoked id actor.id (tenant_scope actor) n s t prefix row ran some_rows found same in
      authenticate_eq raw now now' t row prefix parsed found
      ∙ accept_refused raw now now' row t (refused_lem row now revoked)
