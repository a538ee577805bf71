-- ===== src/RateLimit/Window.antt =====
-- The bound that the limiter keeps (pkg/auth/rate_limit.go): no window of time holds more accepted
-- attempts of a key than the limit.
use gomyadmin.Base.{
  ℕ, ◌+◌, ◌≤◌, ◌<◌, ◌≡◌, refl, sym, ap, subst, ◌∙◌, Bool, false, ◌&&◌, List, [], ◌∷◌, ◌++◌, Str,
  ◌==◌, str_eq, arith, leb, if◌then◌else◌, keep, length, length-append, All, All-append, Bool-cases,
  inl, inr, str_beq_iff, str_beq_refl,
}
use gomyadmin.Dict.{lookup, insert, lookup-insert}
use gomyadmin.RateLimit.{RateLimiter, is_recent, attempts_of, allow}

keep-append : (p : ℕ → Bool) (xs ys : List ℕ) → keep p (xs ++ ys) ≡ keep p xs ++ keep p ys
unfolding keep
keep-append p [] ys = refl
keep-append p (x ∷ xs) ys = ground (arith, keep-append p xs ys)

-- A later cut of what an earlier cut has left.
keep-recent-keep :
    (w now later : ℕ) (xs : List ℕ)
    → now ≤ later
    → keep (is_recent w later) (keep (is_recent w now) xs) ≡ keep (is_recent w later) xs
unfolding keep
keep-recent-keep w now later [] h = refl
keep-recent-keep w now later (x ∷ xs) h = ground (arith, keep-recent-keep w now later xs h)

-- An attempt in the window that ends at `t`.
abbrev pub is_within : ℕ → ℕ → ℕ → Bool
is_within window t attempt = leb attempt t && is_recent window t attempt

within-le-recent :
    (w t now : ℕ) (xs : List ℕ)
    → now ≤ t
    → length (keep (is_within w t) xs) ≤ length (keep (is_recent w now) xs)
unfolding keep
within-le-recent w t now [] h = omega arith
within-le-recent w t now (x ∷ xs) h = ground (arith, within-le-recent w t now xs h)

-- What is known of a limiter and the accepted attempts of a key so far, at the time `now`: none is
-- later, those that are recent are those recorded, and no window holds more than the limit.
record IsWatched (key : Str) (l : RateLimiter) (accepted : List ℕ) (now : ℕ) : Type 0 where
  past : All (λ a. a ≤ now) accepted
  recorded :
      keep (is_recent l.window now) (attempts_of key l) ≡ keep (is_recent l.window now) accepted
  bounded : (t : ℕ) → length (keep (is_within l.window t) accepted) ≤ l.limit

pub attempts_of-insert :
    (key other : Str) (ts : List ℕ) (l : RateLimiter)
    → attempts_of key (record l { attempts = insert other ts l.attempts })
      ≡ (if other == key then ts else attempts_of key l)
unfolding attempts_of
attempts_of-insert key other ts l = ground (arith, lookup-insert other key ts l.attempts)

pub past_later :
    {now later : ℕ} (xs : List ℕ) → now ≤ later → All (λ a. a ≤ now) xs → All (λ a. a ≤ later) xs
past_later [] h k = tt
past_later (x ∷ xs) h (k, ks) = (omega arith, past_later xs h ks)

pub window-allow : (key : Str) (now : ℕ) (l : RateLimiter) → (allow key now l).0.window ≡ l.window
unfolding allow
window-allow key now l = ground arith

pub limit-allow : (key : Str) (now : ℕ) (l : RateLimiter) → (allow key now l).0.limit ≡ l.limit
unfolding allow
limit-allow key now l = ground arith

-- What is recorded stays what is accepted when time passes.
recorded_later :
    (w now later : ℕ) (xs ys : List ℕ)
    → now ≤ later
    → keep (is_recent w now) xs ≡ keep (is_recent w now) ys
    → keep (is_recent w later) xs ≡ keep (is_recent w later) ys
recorded_later w now later xs ys h e =
    sym (keep-recent-keep w now later xs h)
    ∙ ap (keep (is_recent w later)) e
    ∙ keep-recent-keep w now later ys h

keep_last : (p : ℕ → Bool) (a : ℕ) → length (keep p (a ∷ [])) ≡ (if p a then 1 else 0)
unfolding keep
keep_last p a = ground arith

-- One more accepted attempt, at a time when fewer than the limit are recent.
bounded_more :
    (w limit now : ℕ) (acc : List ℕ)
    → ((t : ℕ) → length (keep (is_within w t) acc) ≤ limit)
    → length (keep (is_recent w now) acc) < limit
    → (t : ℕ) → length (keep (is_within w t) (acc ++ now ∷ [])) ≤ limit
bounded_more w limit now acc h room t =
    let split : length (keep (is_within w t) (acc ++ now ∷ []))
        ≡ length (keep (is_within w t) acc) + length (keep (is_within w t) (now ∷ [])) =
      ap length (keep-append (is_within w t) acc (now ∷ []))
      ∙ length-append (keep (is_within w t) acc) (keep (is_within w t) (now ∷ [])) in
    elim (Bool-cases (leb now t)) [
      | inl early ↦
          ground (arith, split, keep_last (is_within w t) now, within-le-recent w t now acc)
      | inr late ↦ ground (arith, split, keep_last (is_within w t) now, h t)
    ]

attempts_of-insert_self :
    (key : Str) (ts : List ℕ) (l : RateLimiter)
    → attempts_of key (record l { attempts = insert key ts l.attempts }) ≡ ts
attempts_of-insert_self key ts l = ground (arith, attempts_of-insert key key ts l, str_beq_refl key)

-- A call for the key itself.
IsWatched-allow_self :
    (key : Str) (l : RateLimiter) (acc : List ℕ) (now later : ℕ)
    → IsWatched key l acc now
    → now ≤ later
    → IsWatched key
        (allow key later l).0
        (if (allow key later l).1 then acc ++ later ∷ [] else acc)
        later
unfolding allow
IsWatched-allow_self key l acc now later h le =
    let w = l.window in
    let kept = keep (is_recent w later) (attempts_of key l) in
    let same = recorded_later w now later (attempts_of key l) acc le h.recorded in
    elim (Bool-cases (leb l.limit (length kept))) [
      | inl full ↦ rw full (record {
        past = past_later acc le h.past;
        recorded =
            ap (keep (is_recent w later)) (attempts_of-insert_self key kept l)
            ∙ keep-recent-keep w later later (attempts_of key l) (omega arith)
            ∙ same;
        bounded = h.bounded;
      })
      | inr room ↦ rw room (record {
        past =
            All-append (λ a. a ≤ later) acc (later ∷ []) (past_later acc le h.past)
              (omega arith, tt);
        recorded =
            ap (keep (is_recent w later)) (attempts_of-insert_self key (kept ++ later ∷ []) l)
            ∙ keep-append (is_recent w later) kept (later ∷ [])
            ∙ ap (λ z. z ++ keep (is_recent w later) (later ∷ []))
                (keep-recent-keep w later later (attempts_of key l) (omega arith) ∙ same)
            ∙ sym (keep-append (is_recent w later) acc (later ∷ []));
        bounded = bounded_more w l.limit later acc h.bounded (ground (arith, ap length same));
      })
    ]

-- A call for another key.
IsWatched-allow_ne :
    (key other : Str) (l : RateLimiter) (acc : List ℕ) (now later : ℕ)
    → (other == key) ≡ false
    → IsWatched key l acc now
    → now ≤ later
    → IsWatched key (allow other later l).0 acc later
unfolding allow
IsWatched-allow_ne key other l acc now later ne h le =
    let kept = keep (is_recent l.window later) (attempts_of other l) in
    let kept_same : attempts_of key (record l { attempts = insert other kept l.attempts })
        ≡ attempts_of key l =
      ground (arith, attempts_of-insert key other kept l) in
    let more_same : attempts_of key
          (record l { attempts = insert other (kept ++ later ∷ []) l.attempts })
        ≡ attempts_of key l =
      ground (arith, attempts_of-insert key other (kept ++ later ∷ []) l) in
    let same = recorded_later l.window now later (attempts_of key l) acc le h.recorded in
    elim (Bool-cases (leb l.limit (length kept))) [
      | inl full ↦ rw full (record {
        past = past_later acc le h.past;
        recorded = ap (keep (is_recent l.window later)) kept_same ∙ same;
        bounded = h.bounded;
      })
      | inr room ↦ rw room (record {
        past = past_later acc le h.past;
        recorded = ap (keep (is_recent l.window later)) more_same ∙ same;
        bounded = h.bounded;
      })
    ]

-- The accepted attempts of a key in a row of calls, each with its key and its time.
unfoldable pub accepted_of : Str → RateLimiter → List ℕ → List (Str × ℕ) → List ℕ
accepted_of key l acc [] = acc
accepted_of key l acc ((other, now) ∷ calls) =
    accepted_of key (allow other now l).0
      (if other == key then (if (allow other now l).1 then acc ++ now ∷ [] else acc) else acc) calls

-- The calls come one after the other in time, from `now` on.
abbrev pub IsOrdered : ℕ → List (Str × ℕ) → Type 0
IsOrdered now [] = Unit
IsOrdered now ((_, later) ∷ calls) = (now ≤ later) × IsOrdered later calls

accepted_of-bounded :
    (key : Str) (l : RateLimiter) (acc : List ℕ) (now : ℕ) (calls : List (Str × ℕ)) (w limit : ℕ)
    → l.window ≡ w
    → l.limit ≡ limit
    → IsWatched key l acc now
    → IsOrdered now calls
    → (t : ℕ) → length (keep (is_within w t) (accepted_of key l acc calls)) ≤ limit
unfolding accepted_of
accepted_of-bounded key l acc now [] w limit e e' h o t =
    subst (λ z. length (keep (is_within z t) acc) ≤ limit) e
      (subst (λ z. length (keep (is_within l.window t) acc) ≤ z) e' (h.bounded t))
accepted_of-bounded key l acc now ((other, later) ∷ calls) w limit e e' h (le, o) t =
    let l' = (allow other later l).0 in
    let ew : l'.window ≡ w = window-allow other later l ∙ e in
    let el : l'.limit ≡ limit = limit-allow other later l ∙ e' in
    elim (Bool-cases (other == key)) [
      | inl same ↦
          let k : other ≡ key = (str_beq_iff other key).0 same in
          rw same (
            accepted_of-bounded key l' _ later calls w limit ew el
              (subst
                (λ z.
                  IsWatched key (allow z later l).0
                    (if (allow z later l).1 then acc ++ later ∷ [] else acc) later)
                (sym k) (IsWatched-allow_self key l acc now later h le))
              o t)
      | inr ne ↦ rw ne (
          accepted_of-bounded key l' acc later calls w limit ew el
            (IsWatched-allow_ne key other l acc now later ne h le) o t)
    ]

pub nothing_yet : (key : Str) (l : RateLimiter) → l.attempts ≡ [] → attempts_of key l ≡ []
unfolding attempts_of lookup
nothing_yet key l e = ground arith

-- From a limiter with no attempts, whatever the calls for this and other keys in the order of time,
-- no window of its length holds more accepted attempts of a key than its limit.
pub accepted_of-le-limit :
    (key : Str) (l : RateLimiter) (start : ℕ) (calls : List (Str × ℕ))
    → l.attempts ≡ []
    → IsOrdered start calls
    → (t : ℕ) → length (keep (is_within l.window t) (accepted_of key l [] calls)) ≤ l.limit
accepted_of-le-limit key l start calls e o t =
    accepted_of-bounded key l [] start calls l.window l.limit refl refl
      (record {
        past = tt;
        recorded = ap (keep (is_recent l.window start)) (nothing_yet key l e);
        bounded = λ _. unfold keep in omega arith;
      })
      o t
