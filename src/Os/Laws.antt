-- ===== src/Os/Laws.antt =====
-- What stands at a path when a directory is made or a file is written elsewhere.
use gitd.Prelude.{
  refl, sym, ap, ◌∙◌, Bool-cases, str_eq, str_eq_eq, ◌⊎◌, inl, inr, In, List, [], ◌∷◌, Option, some,
  ◌≡◌, ◌≢◌, false, none, arith, Bytes,
}
use gitd.Prelude.Map.{lookup, lookup-insert, insert}
use gitd.Prelude.Result.{Result, ok, err}
use gitd.Os.{
  FileSystem, Node, OsError, io_error, dir, stat, or_there, make_dir, make_dirs, mkdir_all, parents,
  file, mkdir, write_file, exist,
}

-- A node is at the path, and the system can read it.
pub record IsThere (fs : FileSystem) (p : Bytes) : Type 0 where
  pub readable : fs.broken p ≡ false
  pub present : lookup p fs.nodes ≢ none

pub mkdir-IsThere : (fs : FileSystem) (p : Bytes) → IsThere fs p → mkdir fs p ≡ err exist
unfolding mkdir
mkdir-IsThere fs p h = ground arith

pub write_file-IsThere :
    (fs fs' : FileSystem) (p text q : Bytes)
    → write_file fs p text ≡ ok fs'
    → IsThere fs q
    → IsThere fs' q
unfolding write_file
write_file-IsThere fs fs' p text q h t = record {
  readable = ground (arith, t.readable);
  present = ground (arith, t.present, lookup-insert p q (file text) fs.nodes);
}

-- the path is as it was, or it is one of the given ones and a new directory
abbrev pub IsNewParent : FileSystem → List Bytes → FileSystem → Bytes → Type 0
IsNewParent fs ps fs' p =
    (lookup p fs'.nodes ≡ lookup p fs.nodes)
    ⊎ (In p ps × (lookup p fs.nodes ≡ none) × (lookup p fs'.nodes ≡ some dir))

-- at most missing directories among the given paths were made
pub record IsMade (fs : FileSystem) (ps : List Bytes) (fs' : FileSystem) : Type 0 where
  pub nodes : (p : Bytes) → IsNewParent fs ps fs' p
  pub stuck : fs'.stuck ≡ fs.stuck

nothing-IsMade : (fs : FileSystem) (ps : List Bytes) → IsMade fs ps fs
nothing-IsMade fs ps = record { nodes = λ p. inl refl; stuck = refl }

wider : (fs t : FileSystem) (q : Bytes) (ps : List Bytes) → IsMade fs ps t → IsMade fs (q ∷ ps) t
wider fs t q ps m = record {
  nodes = λ p. elim (m.nodes p) [ inl e ↦ inl e | inr (x, y, z) ↦ inr (inr x, y, z) ];
  stuck = m.stuck;
}

or_there-same : (fs : FileSystem) (p : Bytes) (e : OsError) → (or_there fs p (err e)).1 ≡ fs
or_there-same fs p e = on_stat (stat fs p) refl
  where
    on_stat : (r : Result OsError Node) → stat fs p ≡ r → (or_there fs p (err e)).1 ≡ fs
    on_stat (ok dir) h = rw (h, or_there) refl
    on_stat (ok (file t)) h = rw (h, or_there) refl
    on_stat (err x) h = rw (h, or_there) refl

insert-IsMade :
    (fs t : FileSystem) (q : Bytes) (ps : List Bytes)
    → IsMade fs ps t
    → lookup q t.nodes ≡ none
    → IsMade fs (q ∷ ps) (record t { nodes = insert q dir t.nodes })
insert-IsMade fs t q ps m n = record {
  nodes = λ p. elim (Bool-cases (str_eq q p)) [
    | inr e ↦ rw (lookup-insert q p dir t.nodes, e) ((wider fs t q ps m).nodes p)
    | inl e ↦
        let same = str_eq_eq q p e in
        let now : lookup p (insert q dir t.nodes) ≡ some dir =
          lookup-insert q p dir t.nodes ∙ rw e refl in
        elim (m.nodes p) [
          | inl k ↦ inr (inl (sym same), sym k ∙ ap (λ x. lookup x t.nodes) (sym same) ∙ n, now)
          | inr (x, y, z) ↦ inr (inl (sym same), y, now)
        ]
  ];
  stuck = m.stuck;
}

mkdir-IsMade :
    (fs t : FileSystem) (q : Bytes) (ps : List Bytes)
    → IsMade fs ps t
    → IsMade fs (q ∷ ps) (or_there t q (mkdir t q)).1
unfolding mkdir
mkdir-IsMade fs t q ps m = elim (Bool-cases (t.broken q)) [
  | inl b ↦ rw b (rw (or_there-same t q io_error) (wider fs t q ps m))
  | inr b ↦ rw b (on_node (lookup q t.nodes) refl)
]
  where
    on_node :
        (o : Option Node)
        → lookup q t.nodes ≡ o
        → IsMade fs
            (q ∷ ps)
            (or_there t q (elim (lookup q t.nodes) [
              | none ↦ ok (record t { nodes = insert q dir t.nodes })
              | some n ↦ err exist
            ])).1
    on_node none e = rw e (insert-IsMade fs t q ps m e)
    on_node (some n) e = rw e (rw (or_there-same t q exist) (wider fs t q ps m))

make_dir-IsMade :
    (fs : FileSystem) (q : Bytes) (ps : List Bytes) (r : Result OsError (Unit {0}) × FileSystem)
    → IsMade fs ps r.1
    → IsMade fs (q ∷ ps) (make_dir q r).1
make_dir-IsMade fs q ps (err e, t) m = wider fs t q ps m
make_dir-IsMade fs q ps (ok u, t) m = mkdir-IsMade fs t q ps m

make_dirs-IsMade : (fs : FileSystem) (ps : List Bytes) → IsMade fs ps (make_dirs fs ps).1
unfolding make_dirs
make_dirs-IsMade fs [] = nothing-IsMade fs []
make_dirs-IsMade fs (p ∷ ps) = on_stat (stat fs p) refl (make_dirs-IsMade fs ps)
  where
    on_stat :
        (r : Result OsError Node)
        → stat fs p ≡ r
        → IsMade fs ps (make_dirs fs ps).1
        → IsMade fs (p ∷ ps) (make_dirs fs (p ∷ ps)).1
    on_stat (ok dir) h ih = rw (h, make_dirs) (nothing-IsMade fs (p ∷ ps))
    on_stat (ok (file t)) h ih = rw (h, make_dirs) (nothing-IsMade fs (p ∷ ps))
    on_stat (err e) h ih = rw (h, make_dirs) (make_dir-IsMade fs p ps (make_dirs fs ps) ih)

-- MkdirAll makes at most the missing ones of the path and its parents.
pub mkdir_all-IsMade :
    (fs : FileSystem) (p : Bytes) → IsMade fs (parents [] [] p) (mkdir_all fs p).1
unfolding mkdir_all
mkdir_all-IsMade fs p = make_dirs-IsMade fs (parents [] [] p)
