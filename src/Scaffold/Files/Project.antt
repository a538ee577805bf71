-- ===== src/Scaffold/Files/Project.antt =====
-- What `InitProject` leaves on the disk, when it fails and when it succeeds.
use gomyadmin.Base.{
  ◌≡◌, ◌∙◌, refl, sym, ap, ◌||◌, Option, none, some, [], ◌∷◌, Str, ◌==◌, str_eq, map, All, In,
  IsDistinct, Bool-cases, inl, inr, ◌⊎◌, Option-cases,
}
use gomyadmin.Base.Result.{ok, err, err≢ok, Result-cases}
use gomyadmin.Dict.{Dict}
use gomyadmin.Scaffold.Files.{
  Disk, FileStat, found, missing, failed, ScaffoldError, InitOptions, with_init_defaults,
  check_supported, ensure_no_conflicts, create_project, init_project,
}
use gomyadmin.Scaffold.Files.Written.{Documented, UndoneAt, write_files_undone, write_files_done}
use gomyadmin.Storage.Local.{clean, join_path}
use gomyadmin.Text.{lit, trim_space}

stat_cases : (x : FileStat) → (x ≡ missing) ⊎ ((x ≡ found) ⊎ (x ≡ failed))
stat_cases found = inr (inl refl)
stat_cases missing = inl refl
stat_cases failed = inr (inr refl)

module _ (disk : Disk) (laws : Documented disk) where
  no_conflicts_lem :
      (root : Str) (files : Dict Str) (s : disk.State)
      → ensure_no_conflicts disk root files s ≡ ok tt
      → All (λ f. laws.content (join_path root f.0) s ≡ none) files
  unfolding ensure_no_conflicts
  no_conflicts_lem root [] s h = tt
  no_conflicts_lem root ((name, c) ∷ rest) s h =
      elim (stat_cases (disk.stat (join_path root name) s)) [
        | inl e ↦ (
          laws.missing_file (join_path root name) s e,
          no_conflicts_lem root rest s (rw (ensure_no_conflicts, e) at h),
        )
        | inr other ↦ elim other [
          | inl e ↦ absurd (err≢ok (rw (ensure_no_conflicts, e) at h))
          | inr e ↦ absurd (err≢ok (rw (ensure_no_conflicts, e) at h))
        ]
      ]

  -- Nothing changed, or the files were undone.
  abbrev pub IsUndone : Str → Dict Str → disk.State → disk.State → ScaffoldError → Type 0
  IsUndone root files s u e =
      ((q : Str) → laws.content q u ≡ laws.content q s)
      ⊎ UndoneAt disk laws root files s (disk.make_dirs root s).0 u e []

  create_project-IsUndone :
      (root : Str) (files : Dict Str) (s u : disk.State) {e : ScaffoldError}
      → create_project disk root files s ≡ (u, err e)
      → IsUndone root files s u e
  unfolding create_project
  create_project-IsUndone root files s u h =
      elim (Result-cases (ensure_no_conflicts disk root files s)) [
        | inl (f, e) ↦
            inl (λ q. ap (laws.content q) (sym (ap (λ z. z.0) (rw (create_project, e) at h))))
        | inr (tt, e) ↦ elim (Bool-cases (disk.make_dirs root s).1) [
          | inr g ↦ inl (λ q.
              ap (laws.content q) (sym (ap (λ z. z.0) (rw (create_project, e, g) at h)))
              ∙ laws.dirs_keep root q s)
          | inl g ↦ inr (
              write_files_undone disk laws root s files [] (disk.make_dirs root s).0 u
                (laws.no_file root s g) (no_conflicts_lem root files s e) tt
                (λ q k. laws.dirs_keep root q s) (rw (create_project, e, g) at h))
        ]
      ]

  -- An InitProject that fails leaves every file as it was, or it failed at one file of the project, with
  -- the error of its writing, after it had written the files before it. Then every path but that of this
  -- file holds what it held before, or its removal failed.
  pub init_project_undone :
      (project_files : InitOptions → Option (Dict Str)) (given : InitOptions) (s u : disk.State)
      {e : ScaffoldError}
      → init_project disk project_files given s ≡ (u, err e)
      → ((q : Str) → laws.content q u ≡ laws.content q s)
        ⊎ ((files : Dict Str) × (project_files (with_init_defaults given) ≡ some files)
            × UndoneAt disk laws
                (clean (with_init_defaults given).name)
                files
                s
                (disk.make_dirs (clean (with_init_defaults given).name) s).0
                u
                e
                [])
  unfolding init_project
  init_project_undone project_files given s u {e} h =
      let options = with_init_defaults given in
      let root = clean options.name in
      let unchanged : s ≡ u → (q : Str) → laws.content q u ≡ laws.content q s =
        λ e q. ap (laws.content q) (sym e) in
      elim (Bool-cases (trim_space given.name == [])) [
        | inl a ↦ inl (unchanged (ap (λ z. z.0) (rw (init_project, a) at h)))
        | inr a ↦ elim (Result-cases (check_supported options)) [
          | inl (f, b) ↦ inl (unchanged (ap (λ z. z.0) (rw (init_project, a, b) at h)))
          | inr (tt, b) ↦ elim (Bool-cases (root == lit "." || root == lit "/")) [
            | inl c ↦ inl (unchanged (ap (λ z. z.0) (rw (init_project, a, b, c) at h)))
            | inr c ↦ elim (Option-cases (project_files options)) [
              | inl d ↦ inl (unchanged (ap (λ z. z.0) (rw (init_project, a, b, c, d) at h)))
              | inr (files, d) ↦
                  elim (create_project-IsUndone root files s u
                    (rw (init_project, a, b, c, d) at h)) [
                      | inl k ↦ inl k
                      | inr k ↦ inr (files, d, k)
                    ]
            ]
          ]
        ]
      ]

  create_project_done :
      (root : Str) (files : Dict Str) (s u : disk.State)
      → IsDistinct (map (λ f. join_path root f.0) files)
      → create_project disk root files s ≡ (u, ok tt)
      → All (λ f. laws.content (join_path root f.0) s ≡ none) files
        × All (λ f. laws.content (join_path root f.0) u ≡ some f.1) files
        × ((q : Str)
            → ¬ In q (map (λ f. join_path root f.0) files)
            → laws.content q u ≡ laws.content q s)
  unfolding create_project
  create_project_done root files s u distinct h =
      elim (Result-cases (ensure_no_conflicts disk root files s)) [
        | inl (f, e) ↦ absurd (err≢ok (ap (λ z. z.1) (rw (create_project, e) at h)))
        | inr (tt, e) ↦ elim (Bool-cases (disk.make_dirs root s).1) [
          | inr g ↦ absurd (err≢ok (ap (λ z. z.1) (rw (create_project, e, g) at h)))
          | inl g ↦
              let (each, others) =
                write_files_done disk laws root files [] (disk.make_dirs root s).0 u distinct
                  (rw (create_project, e, g) at h) in
              (no_conflicts_lem root files s e, each, λ q k. others q k ∙ laws.dirs_keep root q s)
        ]
      ]

  -- An InitProject that succeeds has written the files of the project, none of which was there before,
  -- and has touched no other, where the files have different paths.
  pub init_project_done :
      (project_files : InitOptions → Option (Dict Str)) (given : InitOptions) (s u : disk.State)
      → ((files : Dict Str)
          → project_files (with_init_defaults given) ≡ some files
          → IsDistinct (map (λ f. join_path (clean (with_init_defaults given).name) f.0) files))
      → init_project disk project_files given s ≡ (u, ok tt)
      → (files : Dict Str) × (project_files (with_init_defaults given) ≡ some files)
        × All
            (λ f. laws.content (join_path (clean (with_init_defaults given).name) f.0) s ≡ none)
            files
        × All
            (λ f. laws.content (join_path (clean (with_init_defaults given).name) f.0) u ≡ some f.1)
            files
        × ((q : Str)
            → ¬ In q (map (λ f. join_path (clean (with_init_defaults given).name) f.0) files)
            → laws.content q u ≡ laws.content q s)
  unfolding init_project
  init_project_done project_files given s u distinct h =
      let options = with_init_defaults given in
      let root = clean options.name in
      elim (Bool-cases (trim_space given.name == [])) [
        | inl a ↦ absurd (err≢ok (ap (λ z. z.1) (rw (init_project, a) at h)))
        | inr a ↦ elim (Result-cases (check_supported options)) [
          | inl (f, b) ↦ absurd (err≢ok (ap (λ z. z.1) (rw (init_project, a, b) at h)))
          | inr (tt, b) ↦ elim (Bool-cases (root == lit "." || root == lit "/")) [
            | inl c ↦ absurd (err≢ok (ap (λ z. z.1) (rw (init_project, a, b, c) at h)))
            | inr c ↦ elim (Option-cases (project_files options)) [
              | inl d ↦ absurd (err≢ok (ap (λ z. z.1) (rw (init_project, a, b, c, d) at h)))
              | inr (files, d) ↦
                  let (before, each, others) =
                    create_project_done root files s u (distinct files d)
                      (rw (init_project, a, b, c, d) at h) in
                  (files, d, before, each, others)
            ]
          ]
        ]
      ]
