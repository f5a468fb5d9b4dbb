-- ===== src/Extraction/Resolver.antt =====
-- transformation_lineage/extraction/resolver.py. What the Jobs and Pipelines APIs return is a parameter,
-- `none` where a call raises or a field is missing; `str.lower` and `str.upper` are parameters.
pub mod Paths
use bricktrace.Prelude.{
  ℕ, zero, suc, ◌-◌, ◌==◌, ◌||◌, ◌&&◌, not, Bool, true, false, String, Char, List, [], ◌∷◌, ◌++◌,
  Option, none, some, if◌then◌else◌, eqb,
}
use bricktrace.Prelude.Text
use bricktrace.Prelude.Text.{◌⊕◌, like_prefix}
use bricktrace.Validators.Url.{truthy}
use bricktrace.Validators.Escape.{text_of}
use bricktrace.Build.Graph.{or_text}

pub data SourceKind : Type 0 where
  git_file workspace_notebook : SourceKind

pub record GitContext : Type 0 where
  pub git_url : Option String
  pub git_provider : Option String
  pub git_branch : Option String
  pub git_commit : Option String

abbrev pub no_git : GitContext
no_git = record { git_url = none; git_provider = none; git_branch = none; git_commit = none }

pub record ResolvedTaskSource : Type 0 where
  pub run_id : ℕ
  pub job_id : Option ℕ
  pub task_key : Option String
  pub source_kind : SourceKind
  pub workspace_path : Option String
  pub git : GitContext
  pub git_path : Option String
  pub language : Option String

-- A notebook task or the file of a SQL task: its path and where it comes from.
pub record SourceFile : Type 0 where
  pub path : Option String
  pub source : Option String

pub record RunTask : Type 0 where
  pub task_key : Option String
  pub notebook_task : Option SourceFile
  -- The python_file of a spark_python_task.
  pub spark_python_task : Option (Option String)
  -- The file of a sql_task.
  pub sql_task : Option (Option SourceFile)

pub record Run : Type 0 where
  pub job_id : Option ℕ
  pub git_snapshot : Option GitContext
  pub tasks : List RunTask

-- s.endswith(suffix)
unfoldable pub ends_with : String → String → Bool
ends_with suffix String.[] = suffix == ""
ends_with suffix (String.◌∷◌ c s) = String.◌∷◌ c s == suffix || ends_with suffix s

-- part in s
unfoldable pub contains : String → String → Bool
unfolding like_prefix
contains part String.[] = part == ""
contains part (String.◌∷◌ c s) = like_prefix part (String.◌∷◌ c s) || contains part s

-- s.replace(old, new) for an `old` that is not empty; the number counts the characters of a match
-- that are still to be passed over.
unfoldable pub replace_from : String → String → ℕ → String → String
unfolding like_prefix ◌⊕◌
replace_from old new n String.[] = String.[]
replace_from old new (suc n) (String.◌∷◌ c s) = replace_from old new n s
replace_from old new zero (String.◌∷◌ c s) =
    let found = like_prefix old (String.◌∷◌ c s) in
    let rest = replace_from old new (if found then Text.length old - 1 else 0) s in
    if found then new ⊕ rest else String.◌∷◌ c rest

unfoldable pub replace : String → String → String → String
unfolding replace_from
replace old new s = replace_from old new 0 s

-- _git_from_run
unfoldable pub git_from_run : Run → GitContext
git_from_run run = elim run.git_snapshot [ none ↦ no_git | some git ↦ git ]

-- {**git_ctx, **_git_from_job_settings(...)}: the settings without a git source change nothing.
unfoldable pub merged : GitContext → Option GitContext → GitContext
merged git none = git
merged git (some settings) = settings

-- job_id and git_ctx.get("git_url") as tests
unfoldable pub is_job : Option ℕ → Bool
is_job none = false
is_job (some n) = not (eqb n 0)

unfoldable pub git_context : (ℕ → Option GitContext) → Run → GitContext
unfolding git_from_run merged is_job truthy
git_context job_settings run =
    let git = git_from_run run in
    if is_job run.job_id && not (truthy git.git_url)
    then merged git (elim run.job_id [ none ↦ none | some job ↦ job_settings job ])
    else git

module _ (lower upper : String → String) where
  -- _infer_language_from_path
  unfoldable pub infer_language_from_path : Option String → Option String
  unfolding truthy text_of ends_with contains
  infer_language_from_path path =
      let low = lower (text_of path) in
      if not (truthy path)
      then none
      else if ends_with ".sql" low
      then some "sql"
      else if ends_with ".py" low
      then some "python"
      else if ends_with ".ipynb" low || contains "/notebooks/" low
      then some "python"
      else none

  module _ (run_id : ℕ) (job_id : Option ℕ) (git : GitContext) where
    -- The source of a notebook or of a SQL file, by the repository where there is one.
    unfoldable pub source_at :
        Option String → Option String → String → Option String → ResolvedTaskSource
    unfolding truthy or_text
    source_at task_key source path language =
        if upper (or_text source "WORKSPACE") == "GIT" || truthy git.git_url
        then record {
          run_id = run_id;
          job_id = job_id;
          task_key = task_key;
          source_kind = git_file;
          workspace_path = none;
          git = git;
          git_path = some path;
          language = language;
        }
        else record {
          run_id = run_id;
          job_id = job_id;
          task_key = task_key;
          source_kind = workspace_notebook;
          workspace_path = some path;
          git = no_git;
          git_path = none;
          language = language;
        }

    unfoldable pub python_path : String → String
    unfolding like_prefix replace
    python_path path = if like_prefix "dbfs:" path then replace "dbfs:" "/" path else path

    unfoldable pub python_sources : Option String → Option String → List ResolvedTaskSource
    unfolding python_path truthy text_of like_prefix
    python_sources task_key path =
        if truthy path && (like_prefix "dbfs:" (text_of path) || like_prefix "/" (text_of path))
        then record {
          run_id = run_id;
          job_id = job_id;
          task_key = task_key;
          source_kind = workspace_notebook;
          workspace_path = some (python_path (text_of path));
          git = no_git;
          git_path = none;
          language = some "python";
        }
          ∷ []
        else []

    unfoldable pub sql_sources : Option String → Option SourceFile → List ResolvedTaskSource
    unfolding source_at truthy text_of
    sql_sources task_key none = []
    sql_sources task_key (some file) =
        if truthy file.path
        then source_at task_key file.source (text_of file.path) (some "sql") ∷ []
        else []

    -- A notebook task comes first, then a Python file, then a SQL file.
    unfoldable pub task_sources :
        Option String
        → Option SourceFile
        → Option (Option String)
        → Option (Option SourceFile)
        → List ResolvedTaskSource
    unfolding source_at infer_language_from_path python_sources sql_sources or_text
    task_sources key (some nt) spt sqt =
        source_at key nt.source (or_text nt.path "")
          (infer_language_from_path (some (or_text nt.path "")))
        ∷ []
    task_sources key none (some path) sqt = python_sources key path
    task_sources key none none (some file) = sql_sources key file
    task_sources key none none none = []

    unfoldable pub tasks_sources : List RunTask → List ResolvedTaskSource
    unfolding task_sources
    tasks_sources [] = []
    tasks_sources (t ∷ ts) =
        task_sources t.task_key t.notebook_task t.spark_python_task t.sql_task ++ tasks_sources ts

  unfoldable pub resolve_run_tasks : (ℕ → Option GitContext) → ℕ → Run → List ResolvedTaskSource
  unfolding tasks_sources git_context
  resolve_run_tasks job_settings run_id run =
      tasks_sources run_id run.job_id (git_context job_settings run) run.tasks

  -- The path of each library of a pipeline, a notebook's before a file's.
  unfoldable pub libraries_sources : String → List (Option String) → List ResolvedTaskSource
  unfolding infer_language_from_path truthy ◌⊕◌
  libraries_sources pipeline_id [] = []
  libraries_sources pipeline_id (path ∷ libs) =
      let rest = libraries_sources pipeline_id libs in
      if truthy path
      then record {
        run_id = 0;
        job_id = none;
        task_key = some ("pipeline:" ⊕ pipeline_id);
        source_kind = workspace_notebook;
        workspace_path = path;
        git = no_git;
        git_path = none;
        language = infer_language_from_path path;
      }
        ∷ rest
      else rest

  unfoldable pub resolve_pipeline_libraries :
      String → Option (List (Option String)) → List ResolvedTaskSource
  unfolding libraries_sources
  resolve_pipeline_libraries pipeline_id none = []
  resolve_pipeline_libraries pipeline_id (some libs) = libraries_sources pipeline_id libs
