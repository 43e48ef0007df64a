-- ===== src/Tests/Commands.antt =====
-- Command lines.
use gitd.Serve.Jobs.{stage_delete_job, hand_over}
use gitd.Repo.{realpath_under, valid_name, has_layout, is_bare_repo}
use gitd.Agent.Removal.{IsRemoved}
use gitd.Prelude.{
  cut, str_eq, Option, ◌≡◌, refl, List, [], ◌∷◌, Bytes, codes, true, false, none, some, ◌↔◌, any,
  map, All, fields, fields_from, has_prefix, join, space_width, split,
}
use gitd.Serve.Handlers.{Reply, handle_delete, reply, empty}
use gitd.Cli.{
  list_repos, not_confirmed, Job, client_result, run_repo, replay_each, parse_repo_flags,
}
use gitd.Prelude.Result.{ok, err}
use gitd.Os.{mkdir_all, remove_all, stat}
use gitd.ObjectStore.Memory.{memory_store}
use gitd.Agent.{process_job, delete_repo, finish, perform, restore_repo, verify_bundle_file}
use gitd.Config.{PluginConfig}
use gitd.Agent.Files.{write_job_file}
use gitd.Cli.Flags.{default_flags, parse, parse_loop, parse_all, parse_from, token, effect}
use gitd.Cli.Confirmed.{run_repo-confirmed, is_yes}
use gitd.Cli.Fuel.{parse_from-resume, resume}
use gitd.Cli.Replay.{replay_each-ok}
use gitd.Cli.Delete.{delete-outcome}
use gitd.Tests.Events.{test_plugin}
use gitd.Prelude.Map.{insert, erase, lookup, erase_where}
use gitd.Tests.Jobs.{agent, world}
use gitd.Tests.Staging.{stager, requested, finished_jobs, stager-Agree}
use gitd.Mirror.Header.{bundle_object_format, capabilities}
use gitd.FilePath.{clean, clean_step, join_path}
use gitd.Hooks.{drop_cr, scan_lines, scan_raw}
use gitd.Mirror.Restore.{fetch, install, latest_bundle, repoint, restore, unbundle, update_refs}
use gitd.Mirror.{list_bundles}

-- gitd repo delete a --yes
abbrev delete_args : List Bytes
delete_args = codes "delete" ∷ codes "a" ∷ codes "--yes" ∷ []

deletes : run_repo delete_args ≡ ok (Job.delete_repo (codes "a"))
unfolding run_repo parse_repo_flags parse_all parse_from parse_loop parse token effect cut str_eq
    valid_name
deletes = refl

unconfirmed : run_repo (codes "delete" ∷ codes "a" ∷ []) ≡ err not_confirmed
unfolding run_repo parse_repo_flags parse_all parse_from parse_loop parse token effect str_eq
unconfirmed = refl

-- `--` ends the flags only up to the next other argument, behind which they are read again
behind_dashes : run_repo (codes "--" ∷ codes "list" ∷ codes "--yes" ∷ []) ≡ ok list_repos
unfolding run_repo parse_repo_flags parse_all parse_from parse_loop parse token effect cut str_eq
behind_dashes = refl

run_repo-confirmed_example : (valid_name (codes "a") ≡ true) × (any is_yes delete_args ≡ true)
run_repo-confirmed_example = run_repo-confirmed delete_args (codes "a") deletes

parse_from-resume_example :
    parse_from default_flags delete_args ≡ resume parse_from (some (default_flags, delete_args))
unfolding parse token effect
parse_from-resume_example = parse_from-resume default_flags delete_args

abbrev two_plugins : List PluginConfig
two_plugins = record test_plugin { id = codes "a" } ∷ record test_plugin { id = codes "b" } ∷ []

abbrev all_fine : Bytes → Option Reply
all_fine id = reply 200 empty

replay_each-ok_example :
    ((replay_each all_fine two_plugins).0 ≡ map (λ p. p.id) two_plugins)
    × All (λ p. client_result (all_fine p.id) ≡ ok tt) two_plugins
unfolding replay_each client_result
replay_each-ok_example = replay_each-ok all_fine two_plugins refl

delete-outcome_example :
    ((client_result
          (handle_delete stager
            (some (codes "a"))
            none
            false
            (finished_jobs ∷ [])
            finished_jobs
            []).0
        ≡ ok tt)
      ↔ IsRemoved agent (codes "a") world.fs (record world.fs { nodes = [] }))
unfolding process_job delete_repo valid_name stage_delete_job hand_over write_job_file insert erase
    str_eq realpath_under clean join_path has_prefix is_bare_repo stat lookup finish perform
    remove_all erase_where restore_repo verify_bundle_file clean_step drop_cr scan_lines scan_raw
    bundle_object_format capabilities fetch install latest_bundle repoint restore unbundle
    update_refs list_bundles mkdir_all fields fields_from join space_width split has_layout
delete-outcome_example =
    delete-outcome memory_store delete_args stager agent (codes "a") (codes "1") (codes "1") []
      requested world.fs [] []
      (record { jobs = finished_jobs; fs = record world.fs { nodes = [] }; objects = [] }) deletes
      refl refl stager-Agree refl
