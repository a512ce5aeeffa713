-- ===== src/Provider.antt =====
-- backend/internal/repository/store.go: the execution provider in a plan's configuration and in the
-- payload of a task job.
use specrelay.Prelude.{Bool, false, not, Option, none, some, [], ◌∷◌, ◌==◌, ℕ, Text, text_eq}
use specrelay.Prelude.Words.{trim_space}
use specrelay.Failure.{Result, ok, err, invalid_config}
use specrelay.Store.{
  ProviderMember, no_provider, text_provider, bad_provider, ConfigSnapshot, no_config, config,
  bad_config, JobPayload, task_payload,
}

-- The value that WithExecutionProvider leaves in the context, if any: the provider, and whether it
-- was asked for.
unfoldable pub execution_provider_from_context : Option Text → Text × Bool
execution_provider_from_context none = ([], false)
execution_provider_from_context (some selection) =
    let provider = trim_space selection in (provider, not (provider == []))

abbrev pub member_for : Text → ProviderMember
member_for [] = no_provider
member_for (c ∷ s) = text_provider (c ∷ s)

unfoldable pub plan_config_snapshot_with_provider : ConfigSnapshot → Text → Result ConfigSnapshot
plan_config_snapshot_with_provider no_config p = ok (config (member_for (trim_space p)) [])
plan_config_snapshot_with_provider (config old members) p =
    ok (config (member_for (trim_space p)) members)
plan_config_snapshot_with_provider bad_config p = err invalid_config

unfoldable pub provider_from_plan_config_snapshot : ConfigSnapshot → Result Text
provider_from_plan_config_snapshot no_config = ok []
provider_from_plan_config_snapshot (config no_provider members) = ok []
provider_from_plan_config_snapshot (config (text_provider p) members) = ok (trim_space p)
provider_from_plan_config_snapshot (config bad_provider members) = err invalid_config
provider_from_plan_config_snapshot bad_config = err invalid_config

unfoldable pub task_execution_job_payload : ℕ → ℕ → Text → Bool → JobPayload
task_execution_job_payload task plan provider requested =
    task_payload task plan (trim_space provider) requested
