-- ===== src/Tests/Web.antt =====
-- The web pages.
use gitd.Browse.Paths.{log_args}
use gitd.Prelude.Int.{ℤ}
use gitd.Prelude.{Option}
use gitd.Prelude.{ℕ}
use gitd.Browse.Paths.{
  repo_dir, blob_at, run_in, default_ref, list_refs, contains, Git, clean_repo_path, bad_path,
}
use gitd.Repo.{valid_name, realpath_under}
use gitd.FilePath.{join_path, base, slash, clean, clean_step}
use gitd.Prelude.{
  suc, zero, ◌++◌, none, if◌then◌else◌, has_suffix, join, text_end, trim_left, trim_space,
  cut_prefix, has_prefix, fields_from, space_width, cut, fields, if◌then◌else◌, ◌≡◌, refl, [], ◌∷◌,
  Bytes, codes, true, false, none, some, ◌↔◌, All, split, inl, map, str_eq,
}
use gitd.Browse.Blob.{
  resolve_blob_lexer, is_binary, has_pathological_line, rune_count, render_markdown_server,
  rune_width, Renderers,
}
use gitd.Browse.Views.{error_status, Handler, Query, BlobView, attachment, html, blob_page}
use gitd.Browse.Pages.{render_action, handle_raw, handle_blob}
use gitd.Browse.Tls.{
  config_for_client, load_client_cas, load_revoked, load_server_cert, parse_leaf, require_p256,
  verify_client_cert, revoked_serial, X509, Certificate, TlsPaths, Files, ecdsa,
}
use gitd.Browse.Text.{
  cut_last, trim_newlines, CommitItem, TreeEntry, parse_commits, parse_tree, parent_path, file_base,
  highlight_diff, html_escape,
}
use gitd.Prelude.Int.{pos}
use gitd.Prelude.Result.{ok, err}
use gitd.Browse.Paths.Inside.{NotUp, clean_repo_path-inside}
use gitd.Browse.Text.Escape.{without_tags, highlight_diff-text}
use gitd.Browse.Text.Listing.{IsPretty, format_in, parse_commits-line, parse_tree-parent}
use gitd.Browse.Tls.Accept.{IsSetUp, IsAdmitted, verify_client_cert-IsAdmitted}
use gitd.Browse.Pages.Raw.{IsViewOf, handle_blob-raw}

inside : clean_repo_path (codes "/a/../b") ≡ ok (codes "b")
unfolding clean_repo_path clean split cut_prefix has_prefix contains
inside = refl

outside : clean_repo_path (codes "a/../../b") ≡ err bad_path
unfolding clean_repo_path clean split cut_prefix has_prefix
outside = refl

clean_repo_path-inside_example : All NotUp (split (codes "b") slash)
clean_repo_path-inside_example = clean_repo_path-inside (codes "/a/../b") (codes "b") inside

highlight_diff-text_example :
    without_tags false (highlight_diff (codes "+a<b\n")) ≡ html_escape (codes "+a<b\n")
unfolding trim_newlines
highlight_diff-text_example = highlight_diff-text (codes "+a<b\n")

abbrev commit : CommitItem
commit = record {
  hash = codes "c0ffee";
  short = codes "c0";
  author = codes "A";
  date = codes "2024-01-02";
  msg = codes "";
}

-- git's printer, on the placeholders that the log uses
abbrev placeholder_at : CommitItem → Bytes → Option (Bytes × ℕ)
placeholder_at i s =
    if has_prefix s (codes "%H")
    then some (i.hash, 1)
    else if has_prefix s (codes "%h")
    then some (i.short, 1)
    else if has_prefix s (codes "%an")
    then some (i.author, 2)
    else if has_prefix s (codes "%ad")
    then some (i.date, 2)
    else if has_prefix s (codes "%s")
    then some (i.msg, 1)
    else if has_prefix s (codes "%x00")
    then some (0 ∷ [], 3)
    else none

abbrev expand : ℕ → Bytes → CommitItem → Bytes
expand skip [] i = []
expand (suc k) (c ∷ s) i = expand k s i
expand zero (c ∷ s) i = elim (placeholder_at i (c ∷ s)) [
  | none ↦ c ∷ expand 0 s i
  | some (value, width) ↦ value ++ expand width s i
]

expand-IsPretty : IsPretty (expand 0)
unfolding has_prefix
expand-IsPretty = record {
  finished = λ i. refl;
  hash = λ f i. refl;
  short = λ f i. refl;
  author = λ f i. refl;
  date = λ f i. refl;
  subject = λ f i. refl;
  nul = λ f i. refl;
}

abbrev no_decimal : ℤ → Bytes
no_decimal z = codes "0"

parse_commits-line_example :
    parse_commits
      (map (expand 0 (format_in (log_args no_decimal (codes "main") (pos 0)))) (commit ∷ []))
    ≡ commit ∷ []
parse_commits-line_example =
    parse_commits-line (expand 0) expand-IsPretty no_decimal (codes "main") (pos 0) (commit ∷ [])
      (record { hash = refl; short = refl; author = refl; date = refl; msg = refl }, tt)

abbrev entry : TreeEntry
entry = record { kind = codes "blob"; name = codes "b"; path = codes "a/b" }

parse_tree-parent_example :
    (parent_path (codes "a/b") ≡ codes "a") × (file_base (codes "a/b") ≡ codes "b")
unfolding parse_tree fields cut fields_from space_width
parse_tree-parent_example =
    parse_tree-parent (codes "100644 blob c0ffee\tb" ∷ []) (codes "a") entry (inl refl) refl

abbrev leaf : Certificate
leaf = record { key = ecdsa true; serial = codes "7" }

-- the list of revoked serials stands in the file as one serial
abbrev x509 : X509
x509 = record {
  key_pair = λ cert key. some (cert ∷ []);
  parse_certificate = λ der. some leaf;
  pool_of = λ text. some (leaf ∷ []);
  parse_revocation_list = λ text. some (text ∷ []);
  pem_block = λ text. none;
}

abbrev tls_paths : TlsPaths
tls_paths = record {
  cert = codes "cert";
  key = codes "key";
  client_ca = codes "ca";
  revocation_list = codes "crl";
}

abbrev files_with : Bytes → Files
files_with crl path = if str_eq path (codes "crl") then some crl else some (codes "x")

verify_client_cert-IsAdmitted_example :
    IsSetUp x509 (files_with (codes "8")) tls_paths (leaf ∷ []) (codes "8" ∷ []) (codes "x" ∷ [])
    × ((verify_client_cert x509 (codes "der" ∷ []) (codes "8" ∷ []) ≡ ok tt)
        ↔ IsAdmitted x509 (codes "der" ∷ []) (codes "8" ∷ []))
unfolding config_for_client load_client_cas str_eq load_revoked load_server_cert parse_leaf
    require_p256
verify_client_cert-IsAdmitted_example =
    verify_client_cert-IsAdmitted x509 (files_with (codes "8")) tls_paths (leaf ∷ [])
      (codes "8" ∷ []) (codes "x" ∷ []) (codes "der" ∷ []) refl refl

-- a serial put on the list between two handshakes is in the second one's configuration
revoked_first : config_for_client x509 (files_with []) tls_paths ≡ ok (leaf ∷ [], [])
unfolding config_for_client load_client_cas str_eq load_revoked
revoked_first = refl

revoked_then :
    config_for_client x509 (files_with (codes "7")) tls_paths ≡ ok (leaf ∷ [], codes "7" ∷ [])
unfolding config_for_client load_client_cas str_eq load_revoked
revoked_then = refl

refused_then :
    verify_client_cert x509 (codes "der" ∷ []) (codes "7" ∷ []) ≡ err (revoked_serial (codes "7"))
unfolding verify_client_cert str_eq require_p256
refused_then = refl

abbrev no_renderers : Renderers (Unit {0})
no_renderers = record {
  markdown = λ s. none;
  lexer_for = λ name. none;
  analyse = λ s. none;
  highlight = λ l s. none;
  lexer_name = λ l. [];
}

abbrev git : Git
git dir args = some (codes "a<b")

abbrev handler : Handler
handler = record {
  repos_root = codes "/srv";
  render = codes "server";
  git = git;
  absolute = some;
  eval_symlinks = some;
  decimal = λ n. [];
}

abbrev query : Query
query = record { ref = codes "main"; path = codes "d/x.txt"; commit = []; raw = []; page = pos 0 }

abbrev view : BlobView
view = record {
  repo = codes "a";
  ref = codes "main";
  path = codes "d/x.txt";
  raw_markdown = codes "a<b";
  body = codes "a&lt;b";
  markdown = false;
  truncated = false;
  highlighted = false;
  lang = [];
}

shows : handle_blob no_renderers handler (codes "a") query none false ≡ html (blob_page view)
unfolding handle_blob render_action repo_dir valid_name realpath_under str_eq clean join_path
    has_prefix clean_repo_path cut_prefix contains blob_at run_in has_suffix resolve_blob_lexer
    is_binary has_pathological_line rune_count render_markdown_server rune_width error_status
    default_ref list_refs html_escape base clean_step join space_width split text_end trim_left
    trim_space
shows = refl

handle_blob-raw_example :
    (content : Bytes) × (handle_raw no_renderers handler (codes "a") query none false
      ≡ attachment (codes "x.txt") content)
    × IsViewOf no_renderers content view
unfolding file_base cut_last
handle_blob-raw_example = handle_blob-raw no_renderers handler (codes "a") query view shows
