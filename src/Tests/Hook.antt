-- ===== src/Tests/Hook.antt =====
-- A run of the post-receive hook.
use gitd.Notify.Calls.{IsSpooled}
use gitd.Spool.{take_steps}
use gitd.Prelude.{
  Bool, none, has_prefix, ℕ, ◌≡◌, refl, List, [], ◌∷◌, Bytes, codes, true, false, All, some, split,
}
use gitd.Config.{PluginConfig}
use gitd.Spool.{write_atomic, write_event, Store}
use gitd.Notify.{
  deliver_sync, deliver_ids, build_event, commit_summaries, Notifier, bundle, notify_repo,
  spool_lines, parse_summaries, newline,
}
use gitd.Prelude.Int.{pos}
use gitd.Hooks.{is_zero_sha, RefLine}
use gitd.Event.{Commit}
use gitd.Notify.Calls.{notify_repo-calls, deliveries}
use gitd.Notify.Summaries.{parse_summaries-format_commits, format_commits, IsPrintable}

abbrev commit_a : Commit
commit_a = record { sha = codes "ab12"; subject = codes "commit it"; author = codes "me <m@x>" }

commit_a-IsPrintable : IsPrintable commit_a
commit_a-IsPrintable = record {
  sha_hex = refl;
  sha_there = refl;
  subject_line = refl;
  subject_zero = refl;
  author_line = refl;
  author_zero = refl;
}

parse_summaries-format_commits_example :
    parse_summaries (split (format_commits (commit_a ∷ commit_a ∷ [])) newline)
    ≡ some (commit_a ∷ commit_a ∷ [])
parse_summaries-format_commits_example =
    parse_summaries-format_commits (commit_a ∷ commit_a ∷ [])
      (commit_a-IsPrintable, (commit_a-IsPrintable, tt))

-- a store whose id is one byte for each write
abbrev store_at : ℕ → Store
store_at k = record {
  now = 1000;
  retention = pos 100;
  new_id = some (k ∷ []);
  random = codes "1";
  fails = λ step. false;
  read_fails = λ name. false;
  remove_fails = λ name. false;
  list_fails = false;
  marshal = λ rec. rec.event.ref;
  unmarshal = λ text. none;
  parse_time = λ text. none;
  format_time = λ t. [];
}

abbrev plugin_named : Bytes → Bool → PluginConfig
plugin_named id sync = record {
  id = id;
  kind = codes "logger";
  url_template = [];
  secret_file = [];
  sync = sync;
  repos = [];
  timeout = pos 1;
  retries = pos 3;
  insecure_skip_verify = false;
}

abbrev test_notifier : Notifier
test_notifier = record {
  stores = store_at;
  rev_list = λ range. some (format_commits (commit_a ∷ []));
  now = codes "then";
  plugins = plugin_named (codes "p") true ∷ plugin_named (codes "q") false ∷ [];
  answers = λ c. true;
}

abbrev update_line : RefLine
update_line = record { old = codes "a"; new = codes "b"; ref = codes "refs/heads/main" }

notify_repo-calls_example :
    (ids : List Bytes) × IsSpooled test_notifier
      (codes "r")
      0
      (update_line ∷ [])
      []
      ids
      (notify_repo test_notifier (codes "r") (update_line ∷ []) []).2
    × ((notify_repo test_notifier (codes "r") (update_line ∷ []) []).1
        ≡ bundle (codes "r") ∷ deliveries test_notifier.plugins ids)
    × All
        (λ c. test_notifier.answers c ≡ true)
        (bundle (codes "r") ∷ deliveries test_notifier.plugins ids)
unfolding notify_repo spool_lines build_event commit_summaries is_zero_sha parse_summaries split
    has_prefix write_event write_atomic deliver_sync deliver_ids take_steps
notify_repo-calls_example = notify_repo-calls test_notifier (codes "r") (update_line ∷ []) [] refl
