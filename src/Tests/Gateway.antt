-- ===== src/Tests/Gateway.antt =====
-- A session that makes a repository, with a `git init` written out.
use gitd.Prelude.{
  true, trim_space, text_end, trim_left, space_width, cut_prefix, cut_suffix, fields, fields_from,
  join, split, inr, inl, ◌≡◌, refl, List, [], ◌∷◌, Bytes, codes, Option, some, arith, false, str_eq,
  str_eq_refl, ◌⊎◌,
}
use gitd.Sshcmd.Identity.{env_get, complete, client_ip, env_get_prefix, greeting, identity_from_env}
use gitd.Sshcmd.Gateway.{
  serve_parsed, serve_args, serve_git, authorize, check_existing, init_repo, op_of, prepare,
  serve_op, verify_hooks, GatewayConfig, serve, receive_pack, push_to_create, repo_name_from_arg,
}
use gitd.Sshcmd.Tokenize.{parse_command, finish, scan, step}
use gitd.Repo.{normalize, has_layout, strip_dot_git, valid_name, is_bare_repo}
use gitd.FilePath.{base, clean, clean_step, join_path}
use gitd.Disk.{check, free_bytes, Statfs}
use gitd.Os.{mkdir, write_file, stat, FileSystem, dir, file}
use gitd.Prelude.Map.{insert, lookup, lookup-insert}
use gitd.Prelude.Result.{ok}
use gitd.Os.Laws.{IsThere}
use gitd.Sshcmd.Gateway.Gate.{
  serve-IsGranted, serve-changes, IsGranted, IsPush, repo_name_from_arg-append,
}
use gitd.Sshcmd.Gateway.Create.{InitsBare, push_to_create-bare, push_to_create_again}

abbrev empty_disk : FileSystem
empty_disk = record { nodes = []; broken = λ p. false; stuck = λ p. false }

-- the directory and the three entries of a bare repository
abbrev after_init : FileSystem → Bytes → FileSystem
after_init fs d = record {
  nodes = insert d dir (
      insert (join_path d (codes "HEAD")) (file []) (
        insert (join_path d (codes "objects")) dir
          (insert (join_path d (codes "refs")) dir fs.nodes)));
  broken = λ p. false;
  stuck = λ p. false;
}

abbrev test_config : GatewayConfig
test_config = record {
  repos_root = codes "/srv";
  hooks_dir = codes "/hooks";
  headroom = record { min_free = 10; warn_free = 20 };
  git_init = λ fs d. (true, after_init fs d);
}

present :
    (fs : FileSystem) (d p : Bytes)
    → (p ≡ d)
      ⊎ (p ≡ join_path d (codes "HEAD"))
      ⊎ (p ≡ join_path d (codes "objects"))
      ⊎ (p ≡ join_path d (codes "refs"))
    → IsThere (after_init fs d) p
present fs d p h = record {
  readable = refl;
  present = ground (
    arith,
    str_eq_refl p,
    lookup-insert d p dir (
        insert (join_path d (codes "HEAD")) (file []) (
          insert (join_path d (codes "objects")) dir
            (insert (join_path d (codes "refs")) dir fs.nodes))),
    lookup-insert (join_path d (codes "HEAD")) p (file []) (
        insert (join_path d (codes "objects")) dir
          (insert (join_path d (codes "refs")) dir fs.nodes)),
    lookup-insert (join_path d (codes "objects")) p dir
        (insert (join_path d (codes "refs")) dir fs.nodes),
    lookup-insert (join_path d (codes "refs")) p dir fs.nodes,
  );
}

test_init-InitsBare : InitsBare test_config
test_init-InitsBare = record {
  makes = λ fs d e. (
    present fs d d (inl refl),
    present fs d (join_path d (codes "HEAD")) (inr (inl refl)),
    present fs d (join_path d (codes "objects")) (inr (inr (inl refl))),
    present fs d (join_path d (codes "refs")) (inr (inr (inr refl))),
  );
}

abbrev with_hooks : FileSystem
with_hooks = record { nodes = (codes "/hooks", dir) ∷ []; broken = λ p. false; stuck = λ p. false }

abbrev push_env : List Bytes
push_env =
    codes "SSH_AUTH_KEY_FP=SHA256:k"
    ∷ codes "SSH_AUTH_CERT_ID=me"
    ∷ codes "SSH_ORIGINAL_COMMAND=git-receive-pack 'x/a.git'"
    ∷ []

abbrev roomy : Option Statfs
roomy = some (record { bavail = 100; bsize = 4 })

repo_name_from_arg-append_example : repo_name_from_arg (codes "x/a.git") ≡ ok (codes "a")
unfolding valid_name
repo_name_from_arg-append_example = repo_name_from_arg-append (codes "x") (codes "a") refl

serve-IsGranted_example : IsGranted test_config roomy push_env receive_pack (codes "/srv/a.git")
unfolding serve trim_space text_end trim_left env_get space_width serve_parsed parse_command
    serve_args serve_git authorize str_eq valid_name normalize base clean complete check free_bytes
    clean_step join_path mkdir stat write_file insert lookup cut_prefix cut_suffix fields
    fields_from join split has_layout is_bare_repo strip_dot_git check_existing init_repo op_of
    prepare push_to_create repo_name_from_arg serve_op verify_hooks client_ip env_get_prefix
    greeting identity_from_env finish scan step
serve-IsGranted_example =
    serve-IsGranted test_config roomy push_env with_hooks receive_pack (codes "/srv/a.git") refl

serve-changes_example :
    ((serve test_config roomy push_env with_hooks).1 ≡ with_hooks)
    ⊎ IsPush test_config roomy push_env with_hooks (serve test_config roomy push_env with_hooks).1
serve-changes_example = serve-changes test_config roomy push_env with_hooks

push_to_create-bare_example :
    is_bare_repo
      (push_to_create test_config (codes "a") (codes "/srv/a.git") with_hooks).1
      (codes "/srv/a.git")
    ≡ ok true
unfolding push_to_create mkdir lookup str_eq write_file insert join_path verify_hooks stat
push_to_create-bare_example =
    push_to_create-bare test_config (codes "a") (codes "/srv/a.git") with_hooks test_init-InitsBare
      refl

push_to_create_again_example :
    push_to_create test_config
      (codes "a")
      (codes "/srv/a.git")
      (push_to_create test_config (codes "a") (codes "/srv/a.git") empty_disk).1
    ≡ (ok tt, (push_to_create test_config (codes "a") (codes "/srv/a.git") empty_disk).1)
unfolding push_to_create mkdir lookup write_file insert str_eq join_path verify_hooks stat
push_to_create_again_example =
    push_to_create_again test_config (codes "a") (codes "/srv/a.git") empty_disk test_init-InitsBare
      refl
