-- ===== src/Sandbox/Client.antt =====
-- `DockerSandboxClient` of src/specode_review/sandbox.py: the commands that it runs.
use Prim.Native.String.{String}
use specode_review.Base.{ℕ, true, false, Option, none, some, List, [], ◌∷◌, ◌++◌, Text, text}
use specode_review.Base.Decimal.{decimal}
use specode_review.Errors.{value_error}
use specode_review.Exec.{Exec, pure, raise, ◌>>=◌, ◌>>◌}
use specode_review.Files.{FilePath, path_text}
use specode_review.Process.{ProcessOptions, Completed}
use specode_review.Publishing.Comment.{split_lines}

-- `SandboxResourceLimits`
pub record SandboxResourceLimits : Type 0 where
  pub cpus : ℕ
  pub memory_mib : ℕ
  pub pids : ℕ

-- `DockerSandboxClient`, with what runs its processes. `decode` reads UTF-8, or not.
pub record DockerSandboxClient (W : Type 0) : Type 0 where
  pub executable : Text
  pub run_process : List Text → ProcessOptions → Exec W Completed
  pub process_output_max_bytes : ℕ
  pub cleanup_timeout : ℕ
  pub decode : Text → Option Text

abbrev workdir_arguments : Option Text → List Text
workdir_arguments none = []
workdir_arguments (some workdir) = text "--workdir" ∷ workdir ∷ []

module _ {W : Type 0} (client : DockerSandboxClient W) where
  -- The options of a command of a review, and of one that cleans up: that has a timeout of its own, and
  -- does not look at the deadline.
  abbrev review_options : String → ProcessOptions
  review_options stage = record {
    output_max_bytes = client.process_output_max_bytes;
    stage = stage;
    timeout = none;
    use_review_deadline = true;
  }

  abbrev cleanup_options : String → ProcessOptions
  cleanup_options stage = record {
    output_max_bytes = client.process_output_max_bytes;
    stage = stage;
    timeout = some client.cleanup_timeout;
    use_review_deadline = false;
  }

  unfoldable pub create_codex :
      Text → (control checkout kit : FilePath) → SandboxResourceLimits → Exec W (Unit {0})
  unfolding path_text
  create_codex sandbox_name control checkout kit resources = do
    client.run_process
        (client.executable
          ∷ text "create"
          ∷ text "--quiet"
          ∷ text "--name"
          ∷ sandbox_name
          ∷ text "--cpus"
          ∷ decimal resources.cpus
          ∷ text "--memory"
          ∷ (decimal resources.memory_mib ++ text "m")
          ∷ text "--kit"
          ∷ path_text kit
          ∷ text "codex"
          ∷ path_text control
          ∷ (path_text checkout ++ text ":ro")
          ∷ [])
        (review_options "sandbox_create")
    pure tt

  unfoldable pub execute : Text → List Text → Option Text → ℕ → Exec W Text
  execute sandbox_name command workdir process_limit = do
    completed ←
        client.run_process
          (client.executable ∷ text "exec" ∷ workdir_arguments workdir
            ++ sandbox_name
              ∷ text "prlimit"
              ∷ (text "--nproc=" ++ decimal process_limit)
              ∷ text "--"
              ∷ command)
          (review_options "sandbox_execute")
    pure completed.stdout

  unfoldable pub remove : Text → Exec W (Unit {0})
  remove sandbox_name = do
    client.run_process (client.executable ∷ text "rm" ∷ text "--force" ∷ sandbox_name ∷ [])
        (cleanup_options "sandbox_cleanup")
    pure tt

  abbrev decoded : Option Text → Exec W Text
  decoded none = raise value_error
  decoded (some s) = pure s

  unfoldable pub list_names : Exec W (List Text)
  unfolding split_lines
  list_names = do
    completed ←
        client.run_process (client.executable ∷ text "ls" ∷ text "--quiet" ∷ [])
          (cleanup_options "sandbox_list")
    names ← decoded (client.decode completed.stdout)
    pure (split_lines false [] names)
