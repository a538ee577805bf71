-- ===== src/Storage/Local/Parts.antt =====
-- The parts of a path under `filepath.Clean`, as pkg/storage/local.go calls it.
use gomyadmin.Base.{
  arith, ◌≡◌, refl, sym, ap, subst, ◌∙◌, ◌≢◌, ◌⊎◌, inl, inr, Bool, true, false, ◌||◌, Bool-cases,
  List, [], ◌∷◌, ◌++◌, Str, ◌==◌, nat_eq, str_eq, str_beq_iff, str_beq-false, All, All-append,
  append_assoc, append-nil,
}
use gomyadmin.Text.{lit, split_byte, join}
use gomyadmin.Text.Laws.{Lacks, split_byte-last, split_byte-append}
use gomyadmin.Storage.Local.{back, step, clean_loop}

-- The name of a file or a directory, and none of the special parts.
pub data IsName (name : Str) : Type 0 where
  named : Lacks b'/' name → name ≢ [] → name ≢ lit "." → name ≢ lit ".." → IsName name

step-IsName :
    (rooted : Bool) (parts : List Str) (name : Str)
    → IsName name
    → step rooted parts name ≡ parts ++ name ∷ []
unfolding step
step-IsName rooted parts name (named a b c d) =
    rw
      (
        step,
        str_beq-false name [] b,
        str_beq-false name (lit ".") c,
        str_beq-false name (lit "..") d,
      )
      refl

clean_loop-names :
    (rooted : Bool) (parts names : List Str)
    → All IsName names
    → clean_loop rooted parts names ≡ parts ++ names
unfolding clean_loop
clean_loop-names rooted parts [] h = sym (append-nil parts)
clean_loop-names rooted parts (name ∷ names) (h, hs) =
    ap (λ p. clean_loop rooted p names) (step-IsName rooted parts name h)
    ∙ clean_loop-names rooted (parts ++ name ∷ []) names hs
    ∙ append_assoc parts (name ∷ []) names

pub clean_loop-append :
    (rooted : Bool) (parts xs ys : List Str)
    → clean_loop rooted parts (xs ++ ys) ≡ clean_loop rooted (clean_loop rooted parts xs) ys
unfolding clean_loop
clean_loop-append rooted parts [] ys = refl
clean_loop-append rooted parts (x ∷ xs) ys = clean_loop-append rooted (step rooted parts x) xs ys

-- Only names, or `..` first.
abbrev pub IsForward : List Str → Type 0
IsForward parts = All IsName parts ⊎ ((rest : List Str) × (parts ≡ lit ".." ∷ rest))

back-names :
    (rooted : Bool) (x : Str) (parts : List Str)
    → All IsName (x ∷ parts)
    → All IsName (back rooted (x ∷ parts))
unfolding back
back-names rooted x [] (named a b c d, hs) = rw (str_beq-false x (lit "..") d) tt
back-names rooted x (y ∷ parts) (h, hs) = (h, back-names rooted y parts hs)

back-IsForward : (parts : List Str) → IsForward parts → IsForward (back false parts)
unfolding back
back-IsForward [] h = inr ([], refl)
back-IsForward (x ∷ parts) (inl h) = inl (back-names false x parts h)
back-IsForward (x ∷ []) (inr (rest, e)) =
    let dots : x ≡ lit ".." = cc in
    inr (lit ".." ∷ [], rw ((str_beq_iff x (lit "..")).1 dots) (ap (λ z. z ∷ lit ".." ∷ []) dots))
back-IsForward (x ∷ y ∷ parts) (inr (rest, e)) =
    let dots : x ≡ lit ".." = cc in
    inr (back false (y ∷ parts), ap (λ z. z ∷ back false (y ∷ parts)) dots)

step-same :
    (rooted : Bool) (parts : List Str) (part : Str)
    → (part == [] || part == lit ".") ≡ true
    → step rooted parts part ≡ parts
unfolding step
step-same rooted parts part h = rw (step, h) refl

step-up :
    (rooted : Bool) (parts : List Str) (part : Str)
    → (part == [] || part == lit ".") ≡ false
    → (part == lit "..") ≡ true
    → step rooted parts part ≡ back rooted parts
unfolding step
step-up rooted parts part h k = rw (step, h, k) refl

pub or_false_left : (b c : Bool) → (b || c) ≡ false → (b ≡ false) × (c ≡ false)
or_false_left true c h = cc
or_false_left false c h = (refl, h)

pub str_neq : (s t : Str) → (s == t) ≡ false → s ≢ t
str_neq s t h e = ground (arith, str_beq_iff s t)

push-IsForward :
    (parts : List Str) (name : Str) → IsName name → IsForward parts → IsForward (parts ++ name ∷ [])
push-IsForward parts name n (inl h) = inl (All-append IsName parts (name ∷ []) h (n, tt))
push-IsForward parts name n (inr (rest, e)) = inr (rest ++ name ∷ [], ap (λ p. p ++ name ∷ []) e)

step-IsForward :
    (parts : List Str) (part : Str)
    → Lacks b'/' part
    → IsForward parts
    → IsForward (step false parts part)
step-IsForward parts part l h = elim (Bool-cases (part == [] || part == lit ".")) [
  | inl b ↦ subst IsForward (sym (step-same false parts part b)) h
  | inr b ↦ elim (Bool-cases (part == lit "..")) [
    | inl c ↦ subst IsForward (sym (step-up false parts part b c)) (back-IsForward parts h)
    | inr c ↦
        let (e, d) = or_false_left (part == []) (part == lit ".") b in
        let name =
          named l (str_neq part [] e) (str_neq part (lit ".") d) (str_neq part (lit "..") c) in
        subst IsForward (sym (step-IsName false parts part name)) (push-IsForward parts part name h)
  ]
]

pub clean_loop-IsForward :
    (parts rest : List Str)
    → All (Lacks b'/') rest
    → IsForward parts
    → IsForward (clean_loop false parts rest)
unfolding clean_loop
clean_loop-IsForward parts [] l h = h
clean_loop-IsForward parts (part ∷ rest) l h =
    clean_loop-IsForward (step false parts part) rest l.1 (step-IsForward parts part l.0 h)

-- The parts of a joined path.
split_byte-join :
    (name : Str) (names : List Str)
    → All IsName (name ∷ names)
    → split_byte (join (name ∷ names) (lit "/")) b'/' ≡ name ∷ names
unfolding join
split_byte-join name [] (named l a b c, tt) = split_byte-last b'/' name l
split_byte-join name (next ∷ names) (named l a b c, h) =
    split_byte-append b'/' name (join (next ∷ names) (lit "/")) l
    ∙ ap (λ z. name ∷ z) (split_byte-join next names h)

-- A path of names from some parts on.
pub clean_loop-join :
    (rooted : Bool) (parts : List Str) (name : Str) (names : List Str)
    → All IsName (name ∷ names)
    → clean_loop rooted parts (split_byte (join (name ∷ names) (lit "/")) b'/')
      ≡ parts ++ name ∷ names
clean_loop-join rooted parts name names h =
    ap (clean_loop rooted parts) (split_byte-join name names h)
    ∙ clean_loop-names rooted parts (name ∷ names) h
