-- ===== src/Storage/Local/Under.antt =====
-- The paths of pkg/storage/local.go lie under its root.
use gomyadmin.Base.{
  arith, ◌≡◌, refl, sym, ap, subst, ◌∙◌, ◌≢◌, inl, inr, Bool, true, false, ◌||◌, Bool-cases, List,
  [], ◌∷◌, ◌++◌, Str, ◌==◌, nat_eq, str_eq, str_beq, str_beq-false, All,
}
use gomyadmin.Base.Result.{ok, err, err≢ok, ok-injective}
use gomyadmin.Text.{lit, has_prefix, trim_prefix, split_byte, join}
use gomyadmin.Text.Laws.{split_byte-glue, split_byte-Lacks}
use gomyadmin.Storage.{invalid_key}
use gomyadmin.Storage.Local.{
  step, clean_loop, is_abs, parts_of, path_of, clean, join_path, safe_path,
}
use gomyadmin.Storage.Local.Parts.{
  IsName, clean_loop-append, IsForward, or_false_left, str_neq, clean_loop-IsForward,
  clean_loop-join,
}

-- What `safePath` has accepted: a path of names.
data IsBelow : Str → Type 0 where
  below :
      (name : Str) (names : List Str)
      → All IsName (name ∷ names)
      → IsBelow (join (name ∷ names) (lit "/"))

join-dots : (rest : List Str) → has_prefix (join (lit ".." ∷ rest) (lit "/")) (lit "..") ≡ true
unfolding join has_prefix
join-dots [] = refl
join-dots (part ∷ rest) = refl

path_of-IsForward :
    (parts : List Str)
    → IsForward parts
    → path_of false parts ≢ lit "."
    → has_prefix (path_of false parts) (lit "..") ≡ false
    → IsBelow (path_of false parts)
unfolding path_of
path_of-IsForward [] h n d = absurd (n refl)
path_of-IsForward (part ∷ parts) (inl h) n d = below part parts h
path_of-IsForward (part ∷ parts) (inr (rest, e)) n d =
    let dots : part ≡ lit ".." = cc in
    let begins =
      subst (λ z. has_prefix (join (z ∷ parts) (lit "/")) (lit "..") ≡ true) (sym dots)
        (join-dots parts) in
    ground (arith, begins)

clean-rooted : (key : Str) → is_abs key ≡ true → is_abs (clean key) ≡ true
unfolding clean is_abs path_of has_prefix
clean-rooted key b = rw (clean, b) refl

clean-relative :
    (key : Str)
    → is_abs key ≡ false
    → clean key ≡ path_of false (clean_loop false [] (split_byte key b'/'))
unfolding clean parts_of
clean-relative key b = rw (clean, parts_of, b) refl

clean-IsBelow :
    (key : Str)
    → clean key ≢ lit "."
    → has_prefix (clean key) (lit "..") ≡ false
    → is_abs (clean key) ≡ false
    → IsBelow (clean key)
clean-IsBelow key n d a = elim (Bool-cases (is_abs key)) [
  | inl b ↦ let rooted = clean-rooted key b in ground (arith, rooted)
  | inr b ↦
      let e = clean-relative key b in
      subst IsBelow (sym e) (
        path_of-IsForward (clean_loop false [] (split_byte key b'/'))
          (clean_loop-IsForward [] (split_byte key b'/') (split_byte-Lacks b'/' key) (inl tt))
          (λ z. n (e ∙ z)) (ap (λ z. has_prefix z (lit "..")) (sym e) ∙ d))
]

is_abs-append : (root path : Str) → root ≢ [] → is_abs (root ++ path) ≡ is_abs root
unfolding is_abs has_prefix
is_abs-append [] path h = absurd (h refl)
is_abs-append (c ∷ root) path h = refl

parts_of-eq : (path : Str) → parts_of path ≡ clean_loop (is_abs path) [] (split_byte path b'/')
unfolding parts_of
parts_of-eq path = refl

clean-eq : (path : Str) → clean path ≡ path_of (is_abs path) (parts_of path)
unfolding clean
clean-eq path = refl

-- Names after a root.
parts_of-append :
    (root name : Str) (names : List Str)
    → All IsName (name ∷ names)
    → root ≢ []
    → parts_of (root ++ (lit "/" ++ join (name ∷ names) (lit "/"))) ≡ parts_of root ++ name ∷ names
parts_of-append root name names h filled =
    let rest = join (name ∷ names) (lit "/") in
    let abs = is_abs-append root (lit "/" ++ rest) filled in
    parts_of-eq (root ++ (lit "/" ++ rest))
    ∙ ap (λ b. clean_loop b [] (split_byte (root ++ (lit "/" ++ rest)) b'/')) abs
    ∙ ap (clean_loop (is_abs root) []) (split_byte-glue b'/' root rest)
    ∙ clean_loop-append (is_abs root) [] (split_byte root b'/') (split_byte rest b'/')
    ∙ clean_loop-join (is_abs root) (clean_loop (is_abs root) [] (split_byte root b'/')) name names
        h
    ∙ ap (λ parts. parts ++ name ∷ names) (sym (parts_of-eq root))

parts_of-names :
    (name : Str) (names : List Str)
    → All IsName (name ∷ names)
    → is_abs (join (name ∷ names) (lit "/")) ≡ false
    → parts_of (join (name ∷ names) (lit "/")) ≡ name ∷ names
parts_of-names name names h a =
    let rest = join (name ∷ names) (lit "/") in
    parts_of-eq rest
    ∙ ap (λ b. clean_loop b [] (split_byte rest b'/')) a
    ∙ clean_loop-join false [] name names h

parts_of-nil : parts_of [] ≡ []
unfolding parts_of clean_loop step split_byte str_beq
parts_of-nil = refl

is_abs-nil : is_abs [] ≡ false
unfolding is_abs has_prefix
is_abs-nil = refl

join_path-nil : (path : Str) → join_path [] path ≡ clean path
unfolding join_path str_beq
join_path-nil path = refl

join_path-cons :
    (root path : Str) → root ≢ [] → join_path root path ≡ clean (root ++ (lit "/" ++ path))
unfolding join_path
join_path-cons root path h = rw (join_path, str_beq-false root [] h) refl

-- A path of names that is joined to a root.
join_path-below :
    (root name : Str) (names : List Str)
    → All IsName (name ∷ names)
    → is_abs (join (name ∷ names) (lit "/")) ≡ false
    → join_path root (join (name ∷ names) (lit "/"))
      ≡ path_of (is_abs root) (parts_of root ++ name ∷ names)
join_path-below [] name names h a =
    let rest = join (name ∷ names) (lit "/") in
    join_path-nil rest
    ∙ clean-eq rest
    ∙ ap (λ b. path_of b (parts_of rest)) (a ∙ sym is_abs-nil)
    ∙ ap (path_of (is_abs []))
        (parts_of-names name names h a ∙ ap (λ p. p ++ name ∷ names) (sym parts_of-nil))
join_path-below (c ∷ root) name names h a =
    let rest = join (name ∷ names) (lit "/") in
    let filled : c ∷ root ≢ [] = λ e. cc in
    join_path-cons (c ∷ root) rest filled
    ∙ clean-eq (c ∷ root ++ (lit "/" ++ rest))
    ∙ ap (λ b. path_of b (parts_of (c ∷ root ++ (lit "/" ++ rest))))
        (is_abs-append (c ∷ root) (lit "/" ++ rest) filled)
    ∙ ap (path_of (is_abs (c ∷ root))) (parts_of-append (c ∷ root) name names h filled)

-- A path that goes from the root down by names.
pub data IsUnder (root : Str) : Str → Type 0 where
  under :
      (name : Str) (names : List Str)
      → All IsName (name ∷ names)
      → IsUnder root (path_of (is_abs root) (parts_of root ++ name ∷ names))

join_path-IsBelow :
    (root path : Str) → IsBelow path → is_abs path ≡ false → IsUnder root (join_path root path)
join_path-IsBelow root _ (below name names h) a =
    subst (IsUnder root) (sym (join_path-below root name names h a)) (under name names h)

-- The test of `safePath`.
abbrev is_bad : Str → Bool
is_bad cleaned = cleaned == lit "." || (has_prefix cleaned (lit "..") || is_abs cleaned)

safe_path-bad :
    (root key : Str)
    → is_bad (clean (trim_prefix key (lit "/"))) ≡ true
    → safe_path root key ≡ err invalid_key
unfolding safe_path
safe_path-bad root key h = rw (safe_path, h) refl

safe_path-good :
    (root key : Str)
    → is_bad (clean (trim_prefix key (lit "/"))) ≡ false
    → safe_path root key ≡ ok (join_path root (clean (trim_prefix key (lit "/"))))
unfolding safe_path
safe_path-good root key h = rw (safe_path, h) refl

-- A path that `safePath` accepts lies under the root: its parts are those of the root and after them
-- one or more names, none of which is empty, `.` or `..` or has a `/`.
pub safe_path-IsUnder : (root key path : Str) → safe_path root key ≡ ok path → IsUnder root path
safe_path-IsUnder root key path h =
    let cleaned = clean (trim_prefix key (lit "/")) in
    elim (Bool-cases (is_bad cleaned)) [
      | inl bad ↦ absurd (err≢ok (sym (safe_path-bad root key bad) ∙ h))
      | inr good ↦
          let (dot, rest) =
            or_false_left (cleaned == lit ".") (has_prefix cleaned (lit "..") || is_abs cleaned)
              good in
          let (dots, abs) = or_false_left (has_prefix cleaned (lit "..")) (is_abs cleaned) rest in
          let inside =
            clean-IsBelow (trim_prefix key (lit "/")) (str_neq cleaned (lit ".") dot) dots abs in
          subst (IsUnder root) (ok-injective (sym (safe_path-good root key good) ∙ h))
            (join_path-IsBelow root cleaned inside abs)
    ]
