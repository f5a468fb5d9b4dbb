-- ===== src/Tests/Extraction.antt =====
-- Tests and examples of Extraction.
use mathlib.Core.List.{Memᴰ}
use bricktrace.Prelude.{ℕ, ◌≡◌, refl, [], ◌∷◌, Option, none, some, String}
use bricktrace.Prelude.Text.{◌⊕◌, like_prefix}
use bricktrace.Validators.Url.{truthy}
use bricktrace.Validators.Escape.{text_of}
use bricktrace.Extraction.Resolver.{
  ResolvedTaskSource, git_file, GitContext, RunTask, Run, replace, replace_from, resolve_run_tasks,
  tasks_sources, task_sources, source_at, git_context, git_from_run, merged, is_job,
  infer_language_from_path, ends_with, contains,
}
use bricktrace.Extraction.Resolver.Paths.{IsLocated, resolve_run_tasks-IsLocated}

replaced : replace "dbfs:" "/" "dbfs:/a/dbfs:b" ≡ "//a//b"
unfolding replace replace_from like_prefix ◌⊕◌
replaced = refl

abbrev git : GitContext
git = record {
  git_url = some "https://g";
  git_provider = none;
  git_branch = some "main";
  git_commit = none;
}

abbrev same : String → String
same s = s

abbrev notebook : RunTask
notebook = record {
  task_key = some "t";
  notebook_task = some (record { path = some "nb.py"; source = none });
  spark_python_task = none;
  sql_task = none;
}

abbrev run : Run
run = record { job_id = some 7; git_snapshot = none; tasks = notebook ∷ [] }

abbrev job_settings : ℕ → Option GitContext
job_settings job = some git

abbrev resolved : ResolvedTaskSource
resolved = record {
  run_id = 1;
  job_id = some 7;
  task_key = some "t";
  source_kind = git_file;
  workspace_path = none;
  git = git;
  git_path = some "nb.py";
  language = some "python";
}

notebook_is_resolved : Memᴰ resolved (resolve_run_tasks same same job_settings 1 run)
unfolding resolve_run_tasks tasks_sources task_sources source_at git_context git_from_run merged
    is_job infer_language_from_path ends_with contains truthy text_of like_prefix
notebook_is_resolved = Memᴰ.head refl

resolve_run_tasks-IsLocated_example : IsLocated (git_context job_settings run) resolved
resolve_run_tasks-IsLocated_example =
    resolve_run_tasks-IsLocated same same job_settings 1 run resolved notebook_is_resolved
