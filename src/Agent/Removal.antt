-- ===== src/Agent/Removal.antt =====
-- deleteRepo of internal/mirror/agent.go: what a deletion that succeeds has removed.
use gitd.Prelude.{
  ◌≡◌, ◌≢◌, ◌↔◌, refl, sym, ap, ◌∙◌, Bool, true, false, not, ◌&&◌, ◌||◌, [], ◌∷◌, ◌++◌, Bytes, none,
  any, arith, str_eq, str_eq_refl, str_eq_eq, Bool-cases, inl, inr,
}
use gitd.Prelude.Map.{Map, lookup, lookup-erase_where}
use gitd.Prelude.Result.{Result, ok, err}
use gitd.FilePath.{join_path}
use gitd.Os.{FileSystem, Node, OsError, is_under, remove_all}
use gitd.Repo.{PathError, valid_name, dot_git, realpath_under, is_bare_repo}
use gitd.Agent.{Agent, JobRequest, Outcome, delete_repo, remove_bare, remove_resolved, removed}

-- The repository is gone: its name led to a bare repository under the root, nothing is left at that
-- path or below it, and every other path is as it was.
pub record IsRemoved (a : Agent) (name : Bytes) (fs fs' : FileSystem) : Type 0 where
  pub resolved : Bytes
  pub inside :
      realpath_under
        (a.absolute a.repos_root)
        (a.eval_symlinks (join_path a.repos_root (name ++ dot_git)))
      ≡ ok resolved
  pub bare : is_bare_repo fs resolved ≡ ok true
  pub gone : (p : Bytes) → is_under resolved p ≡ true → lookup p fs'.nodes ≡ none
  pub kept : (p : Bytes) → is_under resolved p ≡ false → lookup p fs'.nodes ≡ lookup p fs.nodes

any-false :
    {V : Type 0} (q : Bytes → Bool) (m : Map V) (p : Bytes)
    → any (λ (e : Bytes × V). q e.0) m ≡ false
    → q p ≡ true
    → lookup p m ≡ none
unfolding lookup
any-false q [] p h t = refl
any-false q ((k, v) ∷ m) p h t = elim (Bool-cases (str_eq k p)) [
  | inl e ↦ cc (rw (ap q (str_eq_eq k p e), t) at h)
  | inr e ↦ rw e (any-false q m p (second (q k) _ h) t)
]
  where
    second : (a b : Bool) → (a || b) ≡ false → b ≡ false
    second a b e = ground arith

any-true :
    {V : Type 0} (q : Bytes → Bool) (m : Map V)
    → any (λ (e : Bytes × V). q e.0) m ≡ true
    → (p : Bytes) × (q p ≡ true) × (lookup p m ≢ none)
unfolding lookup
any-true q [] h = cc
any-true q ((k, v) ∷ m) h = elim (Bool-cases (q k)) [
  | inl e ↦ (k, e, λ z. cc (rw (str_eq_refl k) at z))
  | inr e ↦
      let (p, t, there) = any-true q m (rw e at h) in
      (
        p,
        t,
        λ z. elim (Bool-cases (str_eq k p)) [ inl f ↦ cc (rw f at z) | inr f ↦ there (rw f at z) ],
      )
]

abbrev stays : FileSystem → Bytes → Bytes → Bool
stays fs d p = is_under d p && fs.stuck p

remove_all-gone :
    (fs : FileSystem) (d p : Bytes)
    → (remove_all fs d).0 ≡ ok tt
    → is_under d p ≡ true
    → lookup p (remove_all fs d).1.nodes ≡ none
unfolding remove_all
remove_all-gone fs d p h u =
    let none_stays : any (λ (e : Bytes × Node). stays fs d e.0) fs.nodes ≡ false =
      ground (arith, h) in
    lookup-erase_where (λ x. is_under d x && not (fs.stuck x)) p fs.nodes
    ∙ elim (Bool-cases (fs.stuck p)) [
      | inl b ↦ rw (u, b) (any-false (stays fs d) fs.nodes p none_stays (rw (u, b) refl))
      | inr b ↦ rw (u, b) refl
    ]

remove_all-kept :
    (fs : FileSystem) (d p : Bytes)
    → is_under d p ≡ false
    → lookup p (remove_all fs d).1.nodes ≡ lookup p fs.nodes
unfolding remove_all
remove_all-kept fs d p u =
    lookup-erase_where (λ x. is_under d x && not (fs.stuck x)) p fs.nodes ∙ rw u refl

remove_all-done :
    (fs : FileSystem) (d : Bytes)
    → ((p : Bytes) → is_under d p ≡ true → lookup p (remove_all fs d).1.nodes ≡ none)
    → (remove_all fs d).0 ≡ ok tt
unfolding remove_all
remove_all-done fs d g = elim (Bool-cases (any (λ (e : Bytes × Node). stays fs d e.0) fs.nodes)) [
  | inr b ↦ rw b refl
  | inl b ↦
      let (p, t, there) = any-true (stays fs d) fs.nodes b in
      let u : is_under d p ≡ true = ground (arith, t) in
      let k : fs.stuck p ≡ true = ground (arith, t) in
      absurd (
        there (
          sym
            (lookup-erase_where (λ x. is_under d x && not (fs.stuck x)) p fs.nodes ∙ rw (u, k) refl)
          ∙ g p u))
]

removed-done : (o : Result OsError (Unit {0}) × FileSystem) → (removed o).0 ≡ true → o.0 ≡ ok tt
removed-done (ok u, fs) h = refl
removed-done (err e, fs) h = cc

done-removed : (o : Result OsError (Unit {0}) × FileSystem) → o.0 ≡ ok tt → (removed o).0 ≡ true
done-removed (ok u, fs) h = refl
done-removed (err e, fs) h = cc

removed-fs : (o : Result OsError (Unit {0}) × FileSystem) → (removed o).2 ≡ o.1
removed-fs (ok u, fs) = refl
removed-fs (err e, fs) = refl

bare-ok :
    (a : Agent) (name resolved : Bytes) (fs : FileSystem) (o : Result OsError Bool)
    → (remove_bare a name resolved fs o).0 ≡ true
    → o ≡ ok true
bare-ok a name resolved fs (err e) h = cc
bare-ok a name resolved fs (ok true) h = refl
bare-ok a name resolved fs (ok false) h = cc

resolved-ok :
    (a : Agent) (name : Bytes) (fs : FileSystem) (o : Result PathError Bytes)
    → (remove_resolved a name fs o).0 ≡ true
    → (d : Bytes) × (o ≡ ok d)
resolved-ok a name fs (err e) h = cc
resolved-ok a name fs (ok d) h = (d, refl)

module _ (a : Agent) (req : JobRequest) (fs : FileSystem) (v : valid_name req.repo ≡ true) where
  abbrev found : Result PathError Bytes
  found =
      realpath_under (a.absolute a.repos_root)
        (a.eval_symlinks (join_path a.repos_root (req.repo ++ dot_git)))

  delete-resolved : delete_repo a req fs ≡ remove_resolved a req.repo fs found
  unfolding delete_repo
  delete-resolved = rw v refl

  delete-bare :
      (d : Bytes)
      → found ≡ ok d
      → is_bare_repo fs d ≡ ok true
      → delete_repo a req fs ≡ removed (remove_all fs d)
  delete-bare d r b = delete-resolved ∙ rw (r, b) refl

  delete-IsRemoved :
      (delete_repo a req fs).0 ≡ true → IsRemoved a req.repo fs (delete_repo a req fs).2
  delete-IsRemoved h =
      let h' = ap (λ (o : Outcome). o.0) (sym delete-resolved) ∙ h in
      let (d, r) = resolved-ok a req.repo fs found h' in
      let b = bare-ok a req.repo d fs (is_bare_repo fs d) (rw r at h') in
      let same = delete-bare d r b in
      let out = ap (λ (o : Outcome). o.2) same ∙ removed-fs (remove_all fs d) in
      let done = removed-done (remove_all fs d) (ap (λ (o : Outcome). o.0) (sym same) ∙ h) in
      record {
        resolved = d;
        inside = r;
        bare = b;
        gone = λ p u. ap (λ (f : FileSystem). lookup p f.nodes) out ∙ remove_all-gone fs d p done u;
        kept = λ p u. ap (λ (f : FileSystem). lookup p f.nodes) out ∙ remove_all-kept fs d p u;
      }

  IsRemoved-delete :
      IsRemoved a req.repo fs (delete_repo a req fs).2 → (delete_repo a req fs).0 ≡ true
  IsRemoved-delete x =
      let d = x.resolved in
      let same = delete-bare d x.inside x.bare in
      let out = ap (λ (o : Outcome). o.2) same ∙ removed-fs (remove_all fs d) in
      ap (λ (o : Outcome). o.0) same
      ∙ done-removed (remove_all fs d) (
          remove_all-done fs d
            (λ p u. ap (λ (f : FileSystem). lookup p f.nodes) (sym out) ∙ x.gone p u))

  -- A deletion is done exactly when the repository is gone afterwards.
  pub delete_repo_iff :
      ((delete_repo a req fs).0 ≡ true) ↔ IsRemoved a req.repo fs (delete_repo a req fs).2
  delete_repo_iff = (delete-IsRemoved, IsRemoved-delete)

  -- a bare repository of which everything can be removed is gone after its deletion
  pub unstuck-IsRemoved :
      (d : Bytes)
      → found ≡ ok d
      → is_bare_repo fs d ≡ ok true
      → ((p : Bytes) → is_under d p ≡ true → fs.stuck p ≡ false)
      → IsRemoved a req.repo fs (delete_repo a req fs).2
  unfolding remove_all
  unstuck-IsRemoved d r b k =
      let out = ap (λ (o : Outcome). o.2) (delete-bare d r b) ∙ removed-fs (remove_all fs d) in
      record {
        resolved = d;
        inside = r;
        bare = b;
        gone = λ p u.
            ap (λ (f : FileSystem). lookup p f.nodes) out
            ∙ lookup-erase_where (λ x. is_under d x && not (fs.stuck x)) p fs.nodes
            ∙ rw (u, k p u) refl;
        kept = λ p u. ap (λ (f : FileSystem). lookup p f.nodes) out ∙ remove_all-kept fs d p u;
      }
