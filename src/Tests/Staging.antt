-- ===== src/Tests/Staging.antt =====
-- Jobs that the server stages for the agent, and the endpoints.
use gitd.Spool.{take_steps}
use gitd.Serve.Handlers.{
  serve_error, handle_deliver, plugin_configured, plugin_not_configured, handle_delete, reply,
  empty,
}
use gitd.Agent.{
  Agent, restore_failed, restore_repo, verify_bundle_file, finish, perform, repo_deleted,
  process_job, delete_repo,
}
use gitd.Serve.Handlers.Delete.{handle_delete-agent}
use gitd.Serve.Handlers.Deliver.{handle_deliver-unknown}
use gitd.Spool.Stored.{IsRewritten}
use gitd.Spool.Retry.{with_state, due, set_state, update}
use gitd.Spool.{dead, read_file, decode_record, write_atomic, sync_dir}
use gitd.Event.{check_version}
use gitd.Tests.Events.{store, one, record_a, test_deliverer, test_unmarshal, read_a}
use gitd.Prelude.Sorted.{insert_sorted, sort_by, str_le, sort_strings, IsSorted}
use gitd.Serve.Jobs.{
  wait_result, restore_request, download_latest, Stager, written, stage_delete_job, hand_over,
  delete_request, sweep_restore_spool, missing_repos, stage_restore_job, stage_verified,
  stage_request_failed, bundle_refused,
}
use gitd.Mirror.Restore.{
  already_exists, fetch, install, repoint, restore, unbundle, update_refs, latest_bundle,
}
use gitd.Serve.Jobs.RestoreExchange.{restore-exchange}
use gitd.Prelude.Map.{erase_where, Map, lookup, insert, erase}
use gitd.FilePath.{clean_step, clean, join_path}
use gitd.Hooks.{drop_cr, scan_raw, scan_lines}
use gitd.Mirror.Header.{capabilities, bundle_object_format}
use gitd.Os.{mkdir_all, stat, remove_all}
use gitd.Agent.Removal.{IsRemoved}
use gitd.Serve.Handlers.{job_failed}
use gitd.Prelude.{
  Bool, not, ◌||◌, ◌&&◌, if◌then◌else◌, fields, fields_from, join, space_width, split, has_prefix,
  has_suffix, ◌≡◌, refl, [], ◌∷◌, Bytes, codes, true, false, none, some, ◌↔◌, In, inl, str_eq,
}
use gitd.Repo.{has_layout, DirEntry, valid_name, realpath_under, is_bare_repo}
use gitd.Mirror.{list_bundles}
use gitd.Prelude.Result.{ok, err}
use gitd.ObjectStore.Memory.{memory_store}
use gitd.Agent.Files.{write_job_file}
use gitd.Serve.Jobs.Exchange.{Agree}
use gitd.Serve.Jobs.Delete.{delete-fsync, is_sync_dir}
use gitd.Serve.Jobs.Restore.{stage_restore_job-Unasked}
use gitd.Serve.Jobs.Cleanup.{sweep_restore_spool-lookup}
use gitd.Serve.Jobs.Missing.{missing_repos_iff}
use gitd.Tests.Jobs.{agent, world}
use gitd.Tests.Bundles.{test_mirror, bucket}

abbrev pub stager : Stager
stager = record {
  mirror = test_mirror;
  new_id = some (codes "1");
  mkdir_fails = false;
  bundle_write = written;
  writer = record { random = codes "7"; fails = λ s. false };
  read_fails = λ name. false;
  remove_fails = λ name. false;
  encode_request = λ req. some req.repo;
  decode_result = λ text. some (true, repo_deleted);
  scratch_verify = λ format text. false;
}

abbrev pub requested : Map Bytes
requested = (codes "1.request", codes "a") ∷ []

abbrev pub finished_jobs : Map Bytes
finished_jobs = (codes "1.result", codes "{}") ∷ []

pub stager-Agree : Agree stager agent (codes "1") (delete_request (codes "a")) true repo_deleted
stager-Agree = record {
  request = λ text e. cc;
  result = refl;
  request_read = refl;
  result_written = λ s. refl;
  result_read = refl;
}

handle_delete-agent_example :
    ((done : Bool) × ((handle_delete stager
          (some (codes "a"))
          none
          false
          (finished_jobs ∷ [])
          finished_jobs
          []).0
        ≡ (if done then reply 200 empty else serve_error (job_failed repo_deleted)))
      × ((done ≡ true) ↔ IsRemoved agent (codes "a") world.fs (record world.fs { nodes = [] })))
    × ((j : Bytes)
        → lookup j
            (handle_delete stager
              (some (codes "a"))
              none
              false
              (finished_jobs ∷ [])
              finished_jobs
              []).1
          ≡ (if (str_eq (codes "1.bundle") j
                  || str_eq (codes "1.request") j
                  || str_eq (codes "1.result") j)
                && not (stager.remove_fails j)
              then none
              else lookup j finished_jobs))
unfolding process_job delete_repo valid_name stage_delete_job hand_over write_job_file insert erase
    str_eq realpath_under clean join_path has_prefix is_bare_repo stat lookup finish perform
    remove_all erase_where restore_repo verify_bundle_file clean_step drop_cr scan_lines scan_raw
    bundle_object_format capabilities fetch install latest_bundle repoint restore unbundle
    update_refs list_bundles mkdir_all fields fields_from join space_width split has_layout
handle_delete-agent_example =
    handle_delete-agent memory_store stager agent (codes "a") (codes "1") (codes "1") [] requested
      world.fs [] []
      (record { jobs = finished_jobs; fs = record world.fs { nodes = [] }; objects = [] }) refl refl
      refl stager-Agree refl

abbrev late : Stager
late = record stager {
  writer = record { random = codes "7"; fails = λ s. elim s [ sync_dir ↦ true | _ ↦ false ] };
}

delete-fsync_example :
    ((stage_delete_job late (codes "a") []).0 ≡ err (stage_request_failed sync_dir))
    × IsRemoved agent
        (codes "a")
        world.fs
        (process_job memory_store agent (codes "1") (record {
          jobs = (stage_delete_job late (codes "a") []).1;
          fs = world.fs;
          objects = [];
        })).fs
unfolding valid_name realpath_under clean join_path has_prefix is_bare_repo stat lookup str_eq
delete-fsync_example =
    delete-fsync memory_store late agent (codes "a") (codes "1") (codes "a") (codes "/srv/a.git") []
      world.fs [] refl refl refl
      (λ st. elim st as (λ s. late.writer.fails s ≡ is_sync_dir s) [ sync_dir ↦ refl | _ ↦ refl ])
      refl refl refl refl refl (λ p u. refl)

stage_restore_job-Unasked_example :
    lookup (codes "1.request") (stage_restore_job memory_store stager (codes "a") bucket []).1
    ≡ none
unfolding stage_restore_job lookup download_latest valid_name latest_bundle list_bundles
    sort_strings has_prefix str_eq stage_verified verify_bundle_file bundle_object_format scan_lines
stage_restore_job-Unasked_example =
    stage_restore_job-Unasked memory_store stager (codes "a") (codes "1") bundle_refused bucket []
      refl refl refl (λ e. cc)

abbrev entry : Bytes → DirEntry
entry name = record { name = name; is_dir = false }

sweep_restore_spool-lookup_example :
    (lookup
        (codes "1.result")
        (sweep_restore_spool stager (ok (entry (codes "1.result") ∷ [])) finished_jobs).1
      ≡ none)
    × (lookup
          (codes "notes")
          (sweep_restore_spool stager (ok (entry (codes "1.result") ∷ [])) finished_jobs).1
        ≡ lookup (codes "notes") finished_jobs)
unfolding lookup has_suffix
sweep_restore_spool-lookup_example =
    sweep_restore_spool-lookup stager (entry (codes "1.result") ∷ []) (entry (codes "1.result"))
      (codes "notes") finished_jobs (λ name. refl) (inl refl) refl refl refl

missing_repos_iff_example :
    IsSorted (λ s. s) (missing_repos (codes "a" ∷ []) ((codes "b", []) ∷ (codes "a", []) ∷ []))
    × (In (codes "b") (missing_repos (codes "a" ∷ []) ((codes "b", []) ∷ (codes "a", []) ∷ []))
        ↔ (In (codes "b") (codes "b" ∷ codes "a" ∷ []) × ¬ (In (codes "b") (codes "a" ∷ []))))
missing_repos_iff_example =
    missing_repos_iff (codes "a" ∷ []) ((codes "b", []) ∷ (codes "a", []) ∷ []) (codes "b")

-- a bundle that git verifies, and a repository that is there already
abbrev header : Bytes
header = codes "# v2 git bundle\n"

abbrev shelf : Map Bytes
shelf = (codes "repos/a/1.bundle", header) ∷ []

abbrev verifying : Stager
verifying = record stager {
  scratch_verify = λ format text. true;
  decode_result = λ text. some (false, restore_failed already_exists);
}

abbrev restorer : Agent
restorer = record agent {
  mirror = test_mirror;
  decode_request = λ text. some (restore_request text (codes "1"));
  scratch_verify = λ format text. true;
}

abbrev staged_restore : Map Bytes
staged_restore = (codes "1.bundle", header) ∷ (codes "1.request", codes "a") ∷ []

restorer-Agree :
    Agree verifying restorer
      (codes "1")
      (restore_request (codes "a") (codes "1"))
      false
      (restore_failed already_exists)
restorer-Agree = record {
  request = λ text e. cc;
  result = refl;
  request_read = refl;
  result_written = λ s. refl;
  result_read = refl;
}

restore-exchange_example :
    (codes "1" ≡ codes "1")
    × (verify_bundle_file (λ format text. true) header ≡ true)
    × (lookup (codes "1.bundle") staged_restore ≡ some header)
    × (wait_result verifying (codes "1") (
          (process_job memory_store restorer
            (codes "1")
            (record { jobs = staged_restore; fs = world.fs; objects = shelf })).jobs
          ∷ [])
        ≡ ok (false, restore_failed already_exists))
    × ((process_job memory_store restorer
          (codes "1")
          (record { jobs = staged_restore; fs = world.fs; objects = shelf })).fs
        ≡ world.fs)
unfolding stage_restore_job str_eq download_latest valid_name latest_bundle list_bundles
    sort_strings has_prefix lookup stage_verified verify_bundle_file bundle_object_format scan_lines
    hand_over write_job_file insert erase restore_repo clean clean_step join_path drop_cr scan_raw
    capabilities fetch install repoint restore unbundle update_refs mkdir_all remove_all stat
    erase_where insert_sorted sort_by str_le fields fields_from join space_width split
restore-exchange_example =
    restore-exchange memory_store verifying restorer (codes "a") (codes "1") (codes "1") header []
      staged_restore world.fs shelf [] refl refl refl refl refl refl restorer-Agree

handle_deliver-unknown_example :
    ((handle_deliver test_deliverer store (some (codes "q", codes "a")) none false one).0
      ≡ reply 404 plugin_not_configured)
    × IsRewritten store
        (codes "a")
        (with_state dead)
        one
        (handle_deliver test_deliverer store (some (codes "q", codes "a")) none false one).1
        (with_state dead record_a)
    × (due store (with_state dead record_a) ≡ false)
unfolding lookup str_eq plugin_configured set_state update read_file decode_record test_unmarshal
    check_version write_atomic perform take_steps
handle_deliver-unknown_example =
    handle_deliver-unknown test_deliverer store (codes "q") (codes "a") none false one
      (with_state dead record_a) refl refl refl
      (record { readable = refl; codec = λ old p. rw (read_a old p) refl; version = λ rec. refl })
      (refl, refl) refl
