-- ===== src/Extraction/Resolver/Paths.antt =====
-- Where the sources of a run lie.
use mathlib.Core.List.{Memᴰ}
use mathlib.Core.List.Memᴰ
use mathlib.Core.Logic.{⊎_elim}
use bricktrace.Prelude.{
  ℕ, ◌==◌, ◌||◌, Bool, true, false, String, List, [], ◌∷◌, Option, none, some, ◌≡◌, refl,
  if◌then◌else◌, inl, inr, ◌⊎◌,
}
use bricktrace.Prelude.Text.{◌⊕◌, like_prefix}
use mathlib.Core.Path.{subst, sym}
use bricktrace.Build.Graph.{or_text}
use bricktrace.Validators.Url.{truthy}
use bricktrace.Extraction.Resolver.{
  ResolvedTaskSource, git_file, workspace_notebook, SourceFile, RunTask, Run, GitContext, no_git,
  replace, replace_from, python_path, source_at, python_sources, sql_sources, task_sources,
  tasks_sources, git_context, resolve_run_tasks,
}

-- A source is a file of the repository of the run, or a path of the workspace without a repository;
-- in a run with a repository only Python files are looked for in the workspace.
abbrev pub IsLocated : GitContext → ResolvedTaskSource → Type 0
IsLocated git r =
    ((r.source_kind ≡ git_file) × (r.git ≡ git) × (r.workspace_path ≡ none))
    ⊎ ((r.source_kind ≡ workspace_notebook)
        × (r.git ≡ no_git)
        × (r.git_path ≡ none)
        × ((truthy git.git_url ≡ false) ⊎ (r.language ≡ some "python")))

module _ (lower upper : String → String) (run_id : ℕ) (job_id : Option ℕ) (git : GitContext) where
  -- A path below the root of DBFS becomes one that begins with two slashes.
  python_path_below_root :
      (s : String)
      → like_prefix "//" (python_path lower upper run_id job_id git ("dbfs:" ⊕ "/" ⊕ s)) ≡ true
  unfolding python_path replace replace_from like_prefix ◌⊕◌
  python_path_below_root s = refl

  source_at-IsLocated :
      (key source : Option String) (path : String) (language : Option String)
      → IsLocated git (source_at lower upper run_id job_id git key source path language)
  unfolding source_at
  source_at-IsLocated key source path language =
      go (upper (or_text source "WORKSPACE") == "GIT") (truthy git.git_url) refl
    where
      go :
          (named url : Bool)
          → truthy git.git_url ≡ url
          → IsLocated git (
              if named || url
              then record {
                run_id = run_id;
                job_id = job_id;
                task_key = key;
                source_kind = git_file;
                workspace_path = none;
                git = git;
                git_path = some path;
                language = language;
              }
              else record {
                run_id = run_id;
                job_id = job_id;
                task_key = key;
                source_kind = workspace_notebook;
                workspace_path = some path;
                git = no_git;
                git_path = none;
                language = language;
              })
      go true url e = inl (refl, refl, refl)
      go false true e = inl (refl, refl, refl)
      go false false e = inr (refl, refl, refl, inl e)

  one-IsLocated :
      (r : ResolvedTaskSource)
      → IsLocated git r
      → (s : ResolvedTaskSource) → Memᴰ s (r ∷ [])
      → IsLocated git s
  one-IsLocated r h s m = subst (IsLocated git) (sym (Memᴰ.eq_of_singleton m)) h

  if-IsLocated :
      (t : Bool) (r : ResolvedTaskSource)
      → IsLocated git r
      → (s : ResolvedTaskSource) → Memᴰ s (if t then r ∷ [] else [])
      → IsLocated git s
  if-IsLocated true r h s m = one-IsLocated r h s m
  if-IsLocated false r h s m = absurd (Memᴰ.not-nil m)

  task_sources-IsLocated :
      (key : Option String) (nt : Option SourceFile) (spt : Option (Option String))
      (sqt : Option (Option SourceFile)) (s : ResolvedTaskSource)
      → Memᴰ s (task_sources lower upper run_id job_id git key nt spt sqt)
      → IsLocated git s
  unfolding task_sources python_sources sql_sources
  task_sources-IsLocated key (some nt) spt sqt s m =
      one-IsLocated _ (source_at-IsLocated key nt.source _ _) s m
  task_sources-IsLocated key none (some path) sqt s m =
      if-IsLocated _ _ (inr (refl, refl, refl, inr refl)) s m
  task_sources-IsLocated key none none (some (some file)) s m =
      if-IsLocated _ _ (source_at-IsLocated key file.source _ _) s m
  task_sources-IsLocated key none none (some none) s m = absurd (Memᴰ.not-nil m)
  task_sources-IsLocated key none none none s m = absurd (Memᴰ.not-nil m)

  tasks_sources-IsLocated :
      (ts : List RunTask) (s : ResolvedTaskSource)
      → Memᴰ s (tasks_sources lower upper run_id job_id git ts)
      → IsLocated git s
  unfolding tasks_sources
  tasks_sources-IsLocated [] s m = absurd (Memᴰ.not-nil m)
  tasks_sources-IsLocated (t ∷ ts) s m =
      ⊎_elim (task_sources-IsLocated t.task_key t.notebook_task t.spark_python_task t.sql_task s)
        (tasks_sources-IsLocated ts s)
        (Memᴰ.append_cases
          (task_sources lower upper run_id job_id git t.task_key t.notebook_task t.spark_python_task
            t.sql_task)
          m)

-- Every source of a run is a file of the repository that the run or its job names, with no path of the
-- workspace, or a path of the workspace with no coordinates of a repository; where there is a
-- repository's address, a path of the workspace is that of a Python file.
pub resolve_run_tasks-IsLocated :
    (lower upper : String → String) (job_settings : ℕ → Option GitContext) (run_id : ℕ) (run : Run)
    (r : ResolvedTaskSource)
    → Memᴰ r (resolve_run_tasks lower upper job_settings run_id run)
    → IsLocated (git_context job_settings run) r
unfolding resolve_run_tasks
resolve_run_tasks-IsLocated lower upper job_settings run_id run =
    tasks_sources-IsLocated lower upper run_id run.job_id (git_context job_settings run) run.tasks
