-- ===== src/Tests/Jobs.antt =====
-- A deletion job of the agent.
use gitd.Prelude.Map.{lookup, erase_where, Map}
use gitd.Prelude.{str_eq, has_prefix, ◌≡◌, refl, [], ◌∷◌, Bytes, codes, true, false, none, some}
use gitd.Agent.{perform, delete_repo, Agent, World, process_job}
use gitd.Repo.{valid_name, realpath_under, is_bare_repo}
use gitd.FilePath.{clean, join_path}
use gitd.Os.{stat, remove_all, dir, file}
use gitd.ObjectStore.Memory.{memory_store}
use gitd.Mirror.{Mirror}
use gitd.Mirror.Restore.{RestoreGit}
use gitd.Agent.Once.{process_job-again}

abbrev pub no_git : RestoreGit
no_git = record {
  dir_of = λ p. codes "/srv";
  init_bare = λ fs f d. (false, fs);
  verify = λ fs d b. (false, fs);
  unbundle = λ fs d b. (none, fs);
  update_ref = λ fs d r s. (false, fs);
  head_resolves = λ fs d. true;
  symbolic_ref = λ fs d r. (true, fs);
}

abbrev pub mirror : Mirror
mirror = record {
  repos_root = codes "/srv";
  prefix = codes "repos";
  for_each_ref = λ d. none;
  bundle_all = λ d. none;
  verifies = λ d bundle. false;
  format_time = λ t. [];
}

abbrev pub agent : Agent
agent = record {
  mirror = mirror;
  git = no_git;
  repos_root = codes "/srv";
  read_fails = λ name. false;
  remove_fails = λ name. false;
  writer = record { random = codes "7"; fails = λ s. false };
  decode_request = λ text. some (record { kind = codes "delete"; repo = text; bundle = [] });
  encode_result = λ done message. codes "{}";
  absolute = λ p. some p;
  eval_symlinks = λ p. some p;
  scratch_verify = λ format text. false;
}

abbrev pub world : World (Map Bytes)
world = record {
  jobs = (codes "1.request", codes "a") ∷ [];
  fs = record {
    nodes =
        (codes "/srv/a.git", dir)
        ∷ (codes "/srv/a.git/HEAD", file [])
        ∷ (codes "/srv/a.git/objects", dir)
        ∷ (codes "/srv/a.git/refs", dir)
        ∷ [];
    broken = λ p. false;
    stuck = λ p. false;
  };
  objects = [];
}

deleted : (process_job memory_store agent (codes "1") world).fs.nodes ≡ []
unfolding process_job lookup str_eq perform delete_repo valid_name realpath_under clean join_path
    has_prefix is_bare_repo stat remove_all erase_where
deleted = refl

process_job-again_example :
    process_job memory_store agent (codes "1") (process_job memory_store agent (codes "1") world)
    ≡ process_job memory_store agent (codes "1") world
process_job-again_example = process_job-again memory_store agent (codes "1") world refl
