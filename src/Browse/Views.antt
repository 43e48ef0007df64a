-- ===== src/Browse/Views.antt =====
-- internal/browse/pages.go and fragments.go: requests, answers, and the data of the pages' fragments.
use gitd.Prelude.{ℕ, Bool, List, Bytes, Option}
use gitd.Prelude.Int.{ℤ}
use gitd.Os.{OsError}
use gitd.Serve.Channel.{ServeError}
use gitd.Browse.Paths.{Git, GitError, bad_path}
use gitd.Browse.Text.{CommitItem, TreeEntry}

pub data PageError : Type 0 where
  not_accepted : ServeError → PageError
  git_error : GitError → PageError
  list_failed : OsError → PageError
  canceled render_failed : PageError

-- writeErr: the status
unfoldable pub error_status : PageError → ℕ
error_status (not_accepted e) = 503
error_status (git_error bad_path) = 404
error_status e = 500

-- refbarData
pub record RefBar : Type 0 where
  pub repo : Bytes
  pub ref : Bytes
  pub refs : List Bytes

-- readmeData
pub record Readme : Type 0 where
  pub name : Bytes
  pub rendered : Bytes
  pub markdown : Bool
  pub truncated : Bool

-- blobData
pub record BlobView : Type 0 where
  pub repo : Bytes
  pub ref : Bytes
  pub path : Bytes
  pub raw_markdown : Bytes
  pub body : Bytes
  pub markdown : Bool
  pub truncated : Bool
  pub highlighted : Bool
  pub lang : Bytes

-- diffData
pub record DiffView : Type 0 where
  pub repo : Bytes
  pub commit : Bytes
  pub body : Bytes
  pub truncated : Bool

-- what a page is made of: the data of its fragments
pub data Page : Type 0 where
  repo_list : List Bytes → Page
  empty_repo : Bytes → Page
  home : RefBar → List CommitItem → Option Readme → List TreeEntry → Page
  log_page : RefBar → List CommitItem → ℕ → Bool → Page
  tree_page : RefBar → Bytes → List TreeEntry → Page
  blob_page : BlobView → Page
  diff_page : DiffView → Page

pub data Response : Type 0 where
  html : Page → Response
  attachment : Bytes → Bytes → Response
  failed : ℕ → Response

-- the query of a request: a missing value is empty, and `page` is what Atoi makes of it
pub record Query : Type 0 where
  pub ref : Bytes
  pub path : Bytes
  pub commit : Bytes
  pub raw : Bytes
  pub page : ℤ

-- Handler
pub record Handler : Type 0 where
  pub repos_root : Bytes
  pub render : Bytes
  pub git : Git
  pub absolute : Bytes → Option Bytes
  pub eval_symlinks : Bytes → Option Bytes
  pub decimal : ℤ → Bytes
