-- ===== src/Server/Setup/Tests.antt =====
-- A server over a few numbered pools.
use gomyadmin.Base.{
  str_beq, ℕ, suc, ◌+◌, ◌≤◌, ◌≡◌, ◌≢◌, ◌∙◌, refl, sym, ap, Bool, true, false, ◌||◌, none, some,
  List, [], ◌∷◌, ◌==◌, nat_eq, str_eq, if◌then◌else◌, arith, some-injective, subst,
}
use gomyadmin.Base.Result.{err}
use gomyadmin.Server.Setup.Pools.{Documented, done_with, new_server-restores}
use gomyadmin.Server.Setup.{Config, Outside, migrate_failed, new_server}
use gomyadmin.Text.{lit}

abbrev has : ℕ → List ℕ → Bool
has q [] = false
has q (p ∷ ps) = p == q || has q ps

abbrev sum : List ℕ → ℕ
sum [] = 0
sum (p ∷ ps) = p + sum ps

abbrev without : ℕ → List ℕ → List ℕ
without q [] = []
without q (p ∷ ps) = let rest = without q ps in if p == q then rest else p ∷ rest

has-above : (k : ℕ) (ps : List ℕ) → sum ps ≤ k → has (suc k) ps ≡ false
has-above k [] h = refl
has-above k (p ∷ ps) h = ground (arith, has-above k ps)

has-without : (q : ℕ) (ps : List ℕ) → has q (without q ps) ≡ false
has-without q [] = refl
has-without q (p ∷ ps) = ground (arith, has-without q ps)

has-without_other : (q r : ℕ) (ps : List ℕ) → r ≢ q → has r (without q ps) ≡ has r ps
has-without_other q r [] h = refl
has-without_other q r (p ∷ ps) h = ground (arith, has-without_other q r ps)

abbrev drawn : List ℕ → ℕ × List ℕ
drawn s = (suc (sum s), suc (sum s) ∷ s)

-- The migration of the sessions fails.
abbrev small : Outside
small = record {
  State = List ℕ;
  getenv = λ key. [];
  connect = λ url s. some (drawn s);
  close_pool = without;
  migrate_store = λ p s. (s, true);
  migrate_sessions = λ p s. (s, false);
  migrate_keys = λ p s. (s, true);
}

has_head : (p : ℕ) (ps : List ℕ) → has p (p ∷ ps) ≡ true
has_head p ps = ground arith

opens_fresh :
    (s : List ℕ) (r : ℕ × List ℕ) → drawn s ≡ r → (has r.0 s ≡ false) × (has r.0 r.1 ≡ true)
opens_fresh s r e =
    subst (λ z. (has z.0 s ≡ false) × (has z.0 z.1 ≡ true)) e
      (has-above (sum s) s (omega arith), has_head (suc (sum s)) s)

has-other : (q p : ℕ) (ps : List ℕ) → q ≢ p → has q (p ∷ ps) ≡ has q ps
has-other q p ps h = ground arith

opens_others : (s : List ℕ) (r : ℕ × List ℕ) (q : ℕ) → drawn s ≡ r → q ≢ r.0 → has q r.1 ≡ has q s
opens_others s r q e h =
    let start : q ≢ (drawn s).0 = λ same. h (same ∙ ap (λ z. z.0) e) in
    ap (λ z. has q z.1) (sym e) ∙ has-other q (suc (sum s)) s start

abbrev small-Documented : Documented small
small-Documented = record {
  is_open = has;
  opens = λ {url} {s} {t} {p} e. opens_fresh s (p, t) (some-injective e);
  opens_one = λ {url} {s} {t} {p} q e h. opens_others s (p, t) q (some-injective e) h;
  closes = has-without;
  closes_one = λ p q s h. has-without_other p q s h;
  store_keeps = λ p q s. refl;
  sessions_keep = λ p q s. refl;
  keys_keep = λ p q s. refl;
}

abbrev by_url : Config
by_url = record {
  database_url = lit "postgres://db";
  pool = none;
  has_store = false;
  has_sessions = false;
  has_api_keys = false;
  has_uploads = false;
  upload_dir = [];
  public_url = [];
  signing_secret = [];
  oauth_success_url = [];
  oauth_failure_url = [];
  own_pool = false;
}

-- The new pool, 4, is closed again.
refused : new_server small by_url (3 ∷ []) ≡ (3 ∷ [], err migrate_failed)
unfolding new_server str_beq
refused = refl

new_server-restores_example :
    has 4 (done_with small small-Documented (new_server small by_url (3 ∷ []))) ≡ has 4 (3 ∷ [])
new_server-restores_example = new_server-restores small small-Documented by_url (3 ∷ []) 4 refl
