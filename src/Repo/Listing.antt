-- ===== src/Repo/Listing.antt =====
-- ListBare of internal/repo/repo.go.
use gitd.Prelude.{
  ◌≡◌, refl, sym, ap, ◌∙◌, true, List, [], ◌∷◌, Bytes, Option, none, some, arith, All, inl, inr, In,
  has_suffix,
}
use gitd.Prelude.Result.{Result, ok, err, >>=-eq-ok}
use gitd.Prelude.Sorted.{
  In-sort_by, IsSorted, sort_strings, sort_by-IsSorted, sort_by-All, sort_by, In-sort_by,
}
use gitd.Os.{FileSystem, OsError}
use gitd.FilePath.{join_path}
use gitd.Repo.{valid_name, normalize, is_bare_repo, DirEntry, inspect, collect, list_bare, dot_git}

-- A repository of the listing: a valid name, of a directory entry with ".git" and the bare layout.
pub record IsListed (fs : FileSystem) (root : Bytes) (n : Bytes) : Type 0 where
  pub entry : Bytes
  pub named : n ≡ normalize entry
  pub valid : valid_name n ≡ true
  pub suffixed : has_suffix entry dot_git ≡ true
  pub bare : is_bare_repo fs (join_path root entry) ≡ ok true

inspect-IsListed :
    (fs : FileSystem) (root : Bytes) (e : DirEntry) (n : Bytes)
    → inspect fs root e ≡ ok (some n)
    → IsListed fs root n
unfolding inspect
inspect-IsListed fs root e n h = record {
  entry = e.name;
  named = ground arith;
  valid = ground arith;
  suffixed = ground arith;
  bare = ground arith;
}

abbrev prepend : Option Bytes → List Bytes → List Bytes
prepend none ns = ns
prepend (some n) ns = n ∷ ns

All-prepend :
    (P : Bytes → Type 0) (o : Option Bytes) (ns : List Bytes)
    → ((n : Bytes) → o ≡ some n → P n)
    → All P ns
    → All P (prepend o ns)
All-prepend P none ns h hs = hs
All-prepend P (some n) ns h hs = (h n refl, hs)

collect-cons :
    (fs : FileSystem) (root : Bytes) (e : DirEntry) (es : List DirEntry) (ns : List Bytes)
    → collect fs root (e ∷ es) ≡ ok ns
    → (o : Option Bytes) × (rest : List Bytes) × (inspect fs root e ≡ ok o)
      × (collect fs root es ≡ ok rest)
      × (ns ≡ prepend o rest)
unfolding collect
collect-cons fs root e es ns h = ground arith

collect-IsListed :
    (fs : FileSystem) (root : Bytes) (es : List DirEntry) (ns : List Bytes)
    → collect fs root es ≡ ok ns
    → All (IsListed fs root) ns
collect-IsListed fs root [] ns h = rw (nothing h) tt
  where
    nothing : collect fs root [] ≡ ok ns → ns ≡ []
    nothing p = unfold collect in cc p
collect-IsListed fs root (e ∷ es) ns h =
    let (o, rest, p, q, r) = collect-cons fs root e es ns h in
    rw r (
      All-prepend (IsListed fs root) o rest (λ n s. inspect-IsListed fs root e n (p ∙ ap ok s))
        (collect-IsListed fs root es rest q))

In-prepend : (n : Bytes) (o : Option Bytes) (ns : List Bytes) → In n ns → In n (prepend o ns)
In-prepend n none ns m = m
In-prepend n (some k) ns m = inr m

In-prepend_self :
    (n : Bytes) (o : Option Bytes) (ns : List Bytes) → o ≡ some n → In n (prepend o ns)
In-prepend_self n none ns p = cc
In-prepend_self n (some k) ns p = inl (cc p)

ok-injective : {A E : Type 0} (a b : A) → ◌≡◌ {A = Result E A} (ok a) (ok b) → a ≡ b
ok-injective a b p = cc

collect_complete :
    (fs : FileSystem) (root : Bytes) (es : List DirEntry) (e : DirEntry) (n : Bytes)
    (ns : List Bytes)
    → collect fs root es ≡ ok ns
    → In e es
    → inspect fs root e ≡ ok (some n)
    → In n ns
collect_complete fs root [] e n ns h m i = absurd m
collect_complete fs root (x ∷ es) e n ns h (inl p) i =
    let (o, rest, q, r, t) = collect-cons fs root x es ns h in
    rw t (
      In-prepend_self n o rest
        (ok-injective {E = OsError} o (some n) (sym q ∙ ap (inspect fs root) (sym p) ∙ i)))
collect_complete fs root (x ∷ es) e n ns h (inr m) i =
    let (o, rest, q, r, t) = collect-cons fs root x es ns h in
    rw t (In-prepend n o rest (collect_complete fs root es e n rest r m i))

list_bare-collect :
    (fs : FileSystem) (root : Bytes) (es : List DirEntry) (ns : List Bytes)
    → list_bare fs root (ok es) ≡ ok ns
    → (names : List Bytes) × (collect fs root es ≡ ok names) × (ns ≡ sort_by (λ s. s) names)
unfolding list_bare sort_strings
list_bare-collect fs root es ns h =
    let (names, p, q) = >>=-eq-ok (collect fs root es) (λ ns'. ok (sort_strings ns')) h in
    (names, p, cc q)

-- The names that ListBare returns are sorted, and each is the valid name of a bare repository: of
-- an entry that ends in ".git" and has HEAD, objects and refs.
pub list_bare_sound :
    (fs : FileSystem) (root : Bytes) (read_dir : Result OsError (List DirEntry)) (ns : List Bytes)
    → list_bare fs root read_dir ≡ ok ns
    → IsSorted (λ s. s) ns × All (IsListed fs root) ns
unfolding list_bare
list_bare_sound fs root (err e) ns h = cc
list_bare_sound fs root (ok es) ns h =
    let (names, p, q) = list_bare-collect fs root es ns h in
    rw q (
      sort_by-IsSorted (λ s. s) names,
      sort_by-All (λ s. s) (IsListed fs root) names (collect-IsListed fs root es names p),
    )

-- No repository is missed: an entry that passes the inspection is in the listing.
pub list_bare_complete :
    (fs : FileSystem) (root : Bytes) (es : List DirEntry) (e : DirEntry) (n : Bytes)
    (ns : List Bytes)
    → list_bare fs root (ok es) ≡ ok ns
    → In e es
    → inspect fs root e ≡ ok (some n)
    → In n ns
list_bare_complete fs root es e n ns h m i =
    let (names, p, q) = list_bare-collect fs root es ns h in
    rw q (In-sort_by (λ s. s) n names (collect_complete fs root es e n names p m i))
