-- ===== src/Browse/Pages.antt =====
-- internal/browse/pages.go, and what its templates are given. `submitted` is the answer of the channel
-- of the server, with none where it took the action; `gone` says that the client went away first.
pub mod Raw
use gitd.Prelude.{
  ◌-◌, ◌^◌, ◌%◌, ◌*◌, ℕ, ◌≡◌, refl, Bool, true, false, not, ◌&&◌, ◌||◌, List, [], ◌∷◌, ◌++◌, Bytes,
  codes, Option, none, some, if◌then◌else◌, str_eq, is_nil, ltb, length, take, map, ◌==◌,
}
use gitd.Prelude.Int.{ℤ, pos, negsuc, to_int64}
use gitd.Prelude.Result.{Result, ok, err, ◌>>=◌, wrap}
use gitd.Os.{OsError}
use gitd.Serve.Channel.{ServeError}
use gitd.Browse.Paths.{
  Git, GitError, bad_path, git_failed, repo_dir, clean_repo_path, has_ref, list_refs, default_ref,
  commit_log, tree_entries, blob_at, diff_of, max_render_bytes, page_size_commits,
}
use gitd.Browse.Text.{
  CommitItem, TreeEntry, parse_commits, parse_tree, html_escape, file_base, highlight_diff,
}
use gitd.Browse.Views.{
  PageError, not_accepted, git_error, list_failed, canceled, render_failed, error_status, RefBar,
  Readme, BlobView, DiffView, Page, repo_list, empty_repo, home, log_page, tree_page, blob_page,
  diff_page, Response, html, attachment, failed, Query, Handler,
}
use gitd.Browse.Blob.{
  Renderers, is_markdown, lower, resolve_blob_lexer, render_markdown_server, find_readme, shown,
  is_truncated,
}

-- Handler.renderAction
unfoldable pub render_action {ℓ} :
    {A : Type ℓ} → Option ServeError → Bool → Result PageError A → Result PageError A
render_action (some e) gone r = err (not_accepted e)
render_action none gone r = if gone then err canceled else r

abbrev pub respond {ℓ} : {A : Type ℓ} → (A → Response) → Result PageError A → Response
respond answer (ok a) = answer a
respond answer (err e) = failed (error_status e)

abbrev pub from_git {ℓ} : {A : Type ℓ} → Result GitError A → Result PageError A
from_git = wrap git_error

abbrev pub or_render_failed {ℓ} : {A : Type ℓ} → Option A → Result PageError A
or_render_failed none = err render_failed
or_render_failed (some a) = ok a

-- Handler.handleRepoIndex, from the path and from what ListBare gives
unfoldable pub handle_repo_index :
    Bytes → Result OsError (List Bytes) → Option ServeError → Bool → Response
handle_repo_index path names submitted gone =
    if not (str_eq path (codes "/"))
    then failed 404
    else respond (λ l. html (repo_list l)) (render_action submitted gone (wrap list_failed names))

-- the skip of a page of the log, on an int
abbrev pub offset : ℕ → ℤ
offset page = to_int64 (page * page_size_commits)

abbrev pub clamp : ℤ → ℕ
clamp (pos n) = n
clamp (negsuc n) = 0

module _ {Lexer : Type 0} (r : Renderers Lexer) (h : Handler) where
  abbrev pub ref_or_default : Bytes → Bytes → Bytes
  ref_or_default dir ref = if is_nil ref then default_ref h.git dir else ref

  abbrev pub in_repo : Bytes → (Bytes → Response) → Response
  in_repo name answer =
      respond answer (from_git (repo_dir h.absolute h.eval_symlinks h.repos_root name))

  abbrev pub rendered_readme : Bytes → Bytes → Result PageError Bytes
  rendered_readme name s =
      if str_eq h.render (codes "server")
      then (if is_markdown name
          then or_render_failed (render_markdown_server r s)
          else ok (html_escape s))
      else if str_eq h.render (codes "client")
      then ok s
      else ok (html_escape s)

  -- Handler.renderReadme
  unfoldable pub render_readme : Bytes → Bytes → Result PageError (Option Readme)
  render_readme dir ref = do
    found ← from_git (find_readme h.git dir ref)
    elim found [
      | none ↦ ok none
      | some (name, content) ↦ do
        rendered ← rendered_readme name (shown content)
        ok (
            some (record {
              name = name;
              rendered = rendered;
              markdown = is_markdown name;
              truncated = is_truncated content;
            }))
    ]

  abbrev pub home_of : Bytes → Bytes → Bytes → Result PageError Page
  home_of name dir ref = do
    refs ← from_git (list_refs h.git dir)
    commits ← from_git (commit_log h.git dir h.decimal ref (pos 0))
    readme ← render_readme dir ref
    entries ← from_git (tree_entries h.git dir ref [])
    ok (
        home (record { repo = name; ref = ref; refs = refs }) (parse_commits commits) readme
          (parse_tree entries []))

  -- Handler.handleRepoHome
  unfoldable pub handle_repo_home : Bytes → Query → Option ServeError → Bool → Response
  handle_repo_home name q submitted gone = in_repo name (λ dir. respond html (
      render_action submitted gone do
        any_ref ← from_git (has_ref h.git dir)
        if any_ref then home_of name dir (ref_or_default dir q.ref) else ok (empty_repo name)))

  abbrev pub log_of : Bytes → Bytes → Bytes → ℕ → Result PageError Page
  log_of name dir ref page = do
    refs ← from_git (list_refs h.git dir)
    commits ← from_git (commit_log h.git dir h.decimal ref (offset page))
    let items = parse_commits commits in
        ok (
          log_page (record { repo = name; ref = ref; refs = refs }) items page
            (length items == page_size_commits))

  -- Handler.handleLog
  unfoldable pub handle_log : Bytes → Query → Option ServeError → Bool → Response
  handle_log name q submitted gone = in_repo name (λ dir.
      respond html
        (render_action submitted gone (log_of name dir (ref_or_default dir q.ref) (clamp q.page))))

  abbrev pub tree_of : Bytes → Bytes → Bytes → Bytes → Result PageError Page
  tree_of name dir ref path = do
    refs ← from_git (list_refs h.git dir)
    entries ← from_git (tree_entries h.git dir ref path)
    ok (tree_page (record { repo = name; ref = ref; refs = refs }) path (parse_tree entries path))

  -- Handler.handleTree
  unfoldable pub handle_tree : Bytes → Query → Option ServeError → Bool → Response
  handle_tree name q submitted gone = in_repo name (λ dir.
      respond
        (λ path.
          respond html
            (render_action submitted gone (tree_of name dir (ref_or_default dir q.ref) path)))
        (from_git (clean_repo_path q.path)))

  abbrev pub markdown_body : Bytes → Result PageError Bytes
  markdown_body s =
      if str_eq h.render (codes "server")
      then or_render_failed (render_markdown_server r s)
      else ok (html_escape s)

  -- the body of a file that is no markdown, whether it is highlighted, and the hint of its language
  abbrev pub code_body : Option Lexer → Bytes → Result PageError (Bytes × Bool × Bytes)
  code_body none s = ok (html_escape s, false, [])
  code_body (some l) s =
      if str_eq h.render (codes "server")
      then (do body ← or_render_failed (r.highlight l s); ok (body, true, []))
      else if str_eq h.render (codes "client")
      then ok (html_escape s, false, lower (r.lexer_name l))
      else ok (html_escape s, false, [])

  abbrev pub body_of : Bytes → Bytes → Result PageError (Bytes × Bool × Bytes)
  body_of path s =
      if is_markdown path
      then (do body ← markdown_body s; ok (body, false, []))
      else code_body (resolve_blob_lexer r path s) s

  abbrev pub blob_of : Bytes → Bytes → Bytes → Bytes → Result PageError Page
  blob_of name dir ref path = do
    content ← from_git (blob_at h.git dir ref path)
    view ← body_of path (shown content)
    ok (
        blob_page (record {
          repo = name;
          ref = ref;
          path = path;
          raw_markdown = shown content;
          body = view.0;
          markdown = is_markdown path;
          truncated = is_truncated content;
          highlighted = view.1;
          lang = view.2;
        }))

  -- Handler.handleBlob
  unfoldable pub handle_blob : Bytes → Query → Option ServeError → Bool → Response
  handle_blob name q submitted gone = in_repo name (λ dir.
      respond
        (λ path.
          if is_nil path
          then failed (error_status (git_error bad_path))
          else respond html
              (render_action submitted gone (blob_of name dir (ref_or_default dir q.ref) path)))
        (from_git (clean_repo_path q.path)))

  -- Handler.handleRaw
  unfoldable pub handle_raw : Bytes → Query → Option ServeError → Bool → Response
  handle_raw name q submitted gone = in_repo name (λ dir.
      respond
        (λ path. respond (attachment (file_base path)) (
          render_action submitted gone
            (from_git (blob_at h.git dir (ref_or_default dir q.ref) path))))
        (from_git (clean_repo_path q.path)))

  -- what is answered with a diff; the page takes a second action
  abbrev pub diff_response : Bytes → Query → Option ServeError → Bool → Bytes × Bool → Response
  diff_response name q submitted gone (diff, truncated) =
      if str_eq q.raw (codes "1")
      then attachment (q.commit ++ codes ".diff") diff
      else respond html (
          render_action submitted gone (
            ok (
              diff_page (record {
                repo = name;
                commit = q.commit;
                body = highlight_diff (if truncated then take max_render_bytes diff else diff);
                truncated = truncated;
              }))))

  -- Handler.handleDiff
  unfoldable pub handle_diff :
      Bytes → Query → Option ServeError → Bool → Option ServeError → Bool → Response
  handle_diff name q submitted gone submitted' gone' = in_repo name (λ dir.
      if is_nil q.commit
      then failed (error_status (git_error bad_path))
      else respond (diff_response name q submitted' gone')
          (render_action submitted gone (from_git (diff_of h.git dir q.commit))))
