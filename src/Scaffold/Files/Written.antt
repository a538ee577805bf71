-- ===== src/Scaffold/Files/Written.antt =====
-- What `InitProject` leaves on the disk.
use gomyadmin.Base.{
  ◌≡◌, ◌≢◌, ◌∙◌, refl, sym, ap, true, false, Option, none, some, List, [], ◌∷◌, ◌++◌, Str, ◌==◌,
  str_eq, str_beq_iff, map, All, In, IsDistinct, Bool-cases, inl, inr, ◌⊎◌,
}
use gomyadmin.Base.Result.{ok, err, err≢ok, Result-cases}
use gomyadmin.Dict.{Dict}
use gomyadmin.Scaffold.Files.{
  Disk, is_found, missing, ScaffoldError, write_file, remove_written, write_files,
}
use gomyadmin.Storage.Local.{join_path}

-- What the package `os` documents, where `content` is what the regular file at a path has: a write sets
-- its file and touches no other, a file whose removal succeeds is gone and no other is touched, making directories touches no file and succeeds
-- only where there is none, and `Stat` finds a file that is there.
pub record Documented (disk : Disk) : Type 0 where
  pub content : Str → disk.State → Option Str
  pub written :
      (p c : Str) (s : disk.State)
      → (disk.write p c s).1 ≡ true
      → content p (disk.write p c s).0 ≡ some c
  pub write_others :
      (p c q : Str) (s : disk.State) → q ≢ p → content q (disk.write p c s).0 ≡ content q s
  pub removed :
      (p : Str) (s : disk.State) → (disk.remove p s).1 ≡ true → content p (disk.remove p s).0 ≡ none
  pub remove_others :
      (p q : Str) (s : disk.State) → q ≢ p → content q (disk.remove p s).0 ≡ content q s
  pub dirs_keep : (d q : Str) (s : disk.State) → content q (disk.make_dirs d s).0 ≡ content q s
  pub no_file : (d : Str) (s : disk.State) → (disk.make_dirs d s).1 ≡ true → content d s ≡ none
  pub missing_file : (p : Str) (s : disk.State) → disk.stat p s ≡ missing → content p s ≡ none

str_cases : (p q : Str) → (p ≡ q) ⊎ (p ≢ q)
str_cases p q = elim (Bool-cases (p == q)) [
  | inl t ↦ inl ((str_beq_iff p q).0 t)
  | inr t ↦ inr (λ e. cc (t, (str_beq_iff p q).1 e))
]

module _ (disk : Disk) (laws : Documented disk) where
  -- A file that is written: it has its content, and the others are as they were. If it is not, only its
  -- own path may have changed.
  write_file_others :
      (p c q : Str) (s : disk.State)
      → q ≢ p
      → laws.content q (write_file disk p c false s).0 ≡ laws.content q s
  unfolding write_file
  write_file_others p c q s h =
      let kept = laws.dirs_keep (disk.dir p) q s in
      let later = laws.write_others p c q (disk.make_dirs (disk.dir p) s).0 h ∙ kept in
      elim (Bool-cases (is_found (disk.stat p s))) [
        | inl e ↦ rw (write_file, e) refl
        | inr e ↦ elim (Bool-cases (disk.make_dirs (disk.dir p) s).1) [
          | inr f ↦ rw (write_file, e, f) kept
          | inl f ↦ elim (Bool-cases (disk.write p c (disk.make_dirs (disk.dir p) s).0).1) [
            | inr g ↦ rw (write_file, e, f, g) later
            | inl g ↦ rw (write_file, e, f, g) later
          ]
        ]
      ]

  write_file_ok :
      (p c : Str) (s : disk.State)
      → (write_file disk p c false s).1 ≡ ok tt
      → laws.content p (write_file disk p c false s).0 ≡ some c
  unfolding write_file
  write_file_ok p c s h = elim (Bool-cases (is_found (disk.stat p s))) [
    | inl e ↦ absurd (err≢ok (rw (write_file, e) at h))
    | inr e ↦ elim (Bool-cases (disk.make_dirs (disk.dir p) s).1) [
      | inr f ↦ absurd (err≢ok (rw (write_file, e, f) at h))
      | inl f ↦ elim (Bool-cases (disk.write p c (disk.make_dirs (disk.dir p) s).0).1) [
        | inr g ↦ absurd (err≢ok (rw (write_file, e, f, g) at h))
        | inl g ↦ rw (write_file, e, f, g) (laws.written p c (disk.make_dirs (disk.dir p) s).0 g)
      ]
    ]
  ]

  -- In the removals of some paths and at last of the root, that of `q` fails.
  abbrev pub RemovalFails : Str → Str → List Str → disk.State → Type 0
  RemovalFails root q [] t = (q ≡ root) × ((disk.remove root t).1 ≡ false)
  RemovalFails root q (p ∷ ps) t =
      ((q ≡ p) × ((disk.remove p t).1 ≡ false)) ⊎ RemovalFails root q ps (disk.remove p t).0

  removed_at :
      (q p : Str) (s t : disk.State)
      → q ≡ p
      → (disk.remove p t).1 ≡ true
      → laws.content p s ≡ none
      → laws.content q (disk.remove p t).0 ≡ laws.content q s
  removed_at q p s t e done new =
      ap (λ z. laws.content z (disk.remove p t).0) e
      ∙ laws.removed p t done
      ∙ sym new
      ∙ ap (λ z. laws.content z s) (sym e)

  -- Removing what was written restores a path that had no file before, or its removal fails.
  remove_written_lem :
      (root q : Str) (s : disk.State) (written : List Str) (t : disk.State)
      → laws.content root s ≡ none
      → All (λ p. laws.content p s ≡ none) written
      → (¬ In q written → laws.content q t ≡ laws.content q s)
      → (laws.content q (remove_written disk root written t) ≡ laws.content q s)
        ⊎ RemovalFails root q written t
  unfolding remove_written
  remove_written_lem root q s [] t at_root each others = elim (str_cases q root) [
    | inr e ↦ inl (laws.remove_others root q t e ∙ others (λ i. i))
    | inl e ↦ elim (Bool-cases (disk.remove root t).1) [
      | inl f ↦ inl (removed_at q root s t e f at_root)
      | inr f ↦ inr (e, f)
    ]
  ]
  remove_written_lem root q s (p ∷ written) t at_root each others =
      let go : laws.content q (disk.remove p t).0 ≡ laws.content q s
          → (laws.content q (remove_written disk root written (disk.remove p t).0)
              ≡ laws.content q s)
            ⊎ RemovalFails root q (p ∷ written) t =
        λ same.
          elim (remove_written_lem root q s written (disk.remove p t).0 at_root each.1
            (λ n. same)) [ inl a ↦ inl a | inr a ↦ inr (inr a) ] in
      let later : (¬ In q written → laws.content q (disk.remove p t).0 ≡ laws.content q s)
          → (laws.content q (remove_written disk root written (disk.remove p t).0)
              ≡ laws.content q s)
            ⊎ RemovalFails root q (p ∷ written) t =
        λ h. elim (remove_written_lem root q s written (disk.remove p t).0 at_root each.1 h) [
          | inl a ↦ inl a
          | inr a ↦ inr (inr a)
        ] in
      elim (str_cases q p) [
        | inr e ↦ later (λ n.
            laws.remove_others p q t e
            ∙ others (λ i. elim i [ inl same ↦ e same | inr old ↦ n old ]))
        | inl e ↦ elim (Bool-cases (disk.remove p t).1) [
          | inl f ↦ go (removed_at q p s t e f each.0)
          | inr f ↦ inr (inl (e, f))
        ]
      ]

  -- The paths of some files, the last one first, before some that were written earlier
  abbrev pub paths_onto : Str → Dict Str → List Str → List Str
  paths_onto root [] written = written
  paths_onto root ((name, _) ∷ rest) written = paths_onto root rest (join_path root name ∷ written)

  -- The files before one whose writing failed were written, from the state `start`, and their paths and
  -- all others hold in the state `u` what they held in the state `s`. Excepted are the path of the file
  -- that failed, and paths that could then not be removed.
  pub record UndoneAt (root : Str) (files : Dict Str) (s start u : disk.State) (e : ScaffoldError)
      (written : List Str) : Type 0 where
    pub done : Dict Str
    pub name : Str
    pub content : Str
    pub rest : Dict Str
    pub reached : disk.State
    pub split : files ≡ done ++ (name, content) ∷ rest
    pub ran : write_files disk root done written start ≡ (reached, ok tt)
    pub refused : (write_file disk (join_path root name) content false reached).1 ≡ err e
    pub restored :
        (q : Str)
        → q ≢ join_path root name
        → (laws.content q u ≡ laws.content q s)
          ⊎ RemovalFails root q
              (paths_onto root done written)
              (write_file disk (join_path root name) content false reached).0

  pub write_files_undone :
      (root : Str) (s : disk.State) (files : Dict Str) (written : List Str) (t u : disk.State)
      {e : ScaffoldError}
      → laws.content root s ≡ none
      → All (λ f. laws.content (join_path root f.0) s ≡ none) files
      → All (λ p. laws.content p s ≡ none) written
      → ((q : Str) → ¬ In q written → laws.content q t ≡ laws.content q s)
      → write_files disk root files written t ≡ (u, err e)
      → UndoneAt root files s t u e written
  unfolding write_files
  write_files_undone root s [] written t u at_root new each others run =
      absurd (err≢ok (sym (ap (λ z. z.1) run)))
  write_files_undone root s ((name, c) ∷ rest) written t u {e} at_root new each others run =
      let path = join_path root name in
      let t' = (write_file disk path c false t).0 in
      let kept : (q : Str) → q ≢ path → ¬ In q written → laws.content q t' ≡ laws.content q s =
        λ q h k. write_file_others path c q t h ∙ others q k in
      elim (Result-cases (write_file disk path c false t).1) [
        | inl (f, a) ↦
            let stopped = rw (write_files, a) at run in
            let now : remove_written disk root written t' ≡ u = ap (λ z. z.0) stopped in
            let same : f ≡ e = cc (ap (λ z. z.1) stopped) in
            record {
              done = [];
              name = name;
              content = c;
              rest = rest;
              reached = t;
              split = refl;
              ran = refl;
              refused = a ∙ ap err same;
              restored = λ q h.
                  rw (sym now) (remove_written_lem root q s written t' at_root each (kept q h));
            }
        | inr (tt, a) ↦
            let later =
              write_files_undone root s rest (path ∷ written) t' u at_root new.1 (new.0, each)
                (λ q k. kept q (λ same. k (inl same)) (λ old. k (inr old)))
                (rw (write_files, a) at run) in
            record {
              done = (name, c) ∷ later.done;
              name = later.name;
              content = later.content;
              rest = later.rest;
              reached = later.reached;
              split = ap (λ z. (name, c) ∷ z) later.split;
              ran = rw (write_files, a) later.ran;
              refused = later.refused;
              restored = later.restored;
            }
      ]

  pub write_files_done :
      (root : Str) (files : Dict Str) (written : List Str) (t u : disk.State)
      → IsDistinct (map (λ f. join_path root f.0) files)
      → write_files disk root files written t ≡ (u, ok tt)
      → All (λ f. laws.content (join_path root f.0) u ≡ some f.1) files
        × ((q : Str)
            → ¬ In q (map (λ f. join_path root f.0) files)
            → laws.content q u ≡ laws.content q t)
  unfolding write_files
  write_files_done root [] written t u distinct run =
      (tt, λ q h. ap (laws.content q) (sym (ap (λ z. z.0) run)))
  write_files_done root ((name, c) ∷ rest) written t u distinct run =
      let path = join_path root name in
      let t' = (write_file disk path c false t).0 in
      elim (Result-cases (write_file disk path c false t).1) [
        | inl (f, e) ↦ absurd (err≢ok (ap (λ z. z.1) (rw (write_files, e) at run)))
        | inr (tt, e) ↦
            let (each, others) =
              write_files_done root rest (path ∷ written) t' u distinct.1
                (rw (write_files, e) at run) in
            (
              (others path distinct.0 ∙ write_file_ok path c t e, each),
              λ q h.
                  others q (λ i. h (inr i)) ∙ write_file_others path c q t (λ same. h (inl same)),
            )
      ]
