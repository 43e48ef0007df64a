-- ===== src/FilePath.antt =====
-- What the program uses of Go's package filepath, on a Unix system.
pub mod Laws
use gitd.Prelude.{
  ℕ, ◌≡◌, refl, Bool, true, false, not, ◌||◌, ◌&&◌, List, [], ◌∷◌, ◌++◌, foldl, Bytes, codes, ◌==◌,
  if◌then◌else◌, str_eq, split, join, is_nil, select, last?, Option, none, some,
}
use mathlib.Core.List.{reverse}

abbrev pub slash : ℕ
slash = b'/'

abbrev pub is_rooted : Bytes → Bool
is_rooted [] = false
is_rooted (c ∷ p) = c == slash

-- One element of the path onto the elements kept, the last kept first. `..` takes one away, is
-- dropped at the root, and is kept where nothing is left to take away.
abbrev up : Bool → List Bytes → List Bytes
up rooted [] = if rooted then [] else codes ".." ∷ []
up rooted (w ∷ ws) = if str_eq w (codes "..") then codes ".." ∷ w ∷ ws else ws

unfoldable pub clean_step : Bool → List Bytes → Bytes → List Bytes
unfolding str_eq
clean_step rooted kept w =
    if is_nil w || str_eq w (codes ".")
    then kept
    else if str_eq w (codes "..")
    then up rooted kept
    else w ∷ kept

abbrev pub or_dot : Bytes → Bytes
or_dot [] = codes "."
or_dot (c ∷ p) = c ∷ p

abbrev pub rejoin : Bool → List Bytes → Bytes
rejoin rooted kept =
    let body = join slash (reverse kept) in if rooted then slash ∷ body else or_dot body

-- filepath.Clean
unfoldable pub clean : Bytes → Bytes
unfolding clean_step join split
clean p = rejoin (is_rooted p) (foldl (clean_step (is_rooted p)) [] (split p slash))

abbrev pub or_slash : Option Bytes → Bytes
or_slash none = codes "/"
or_slash (some w) = w

-- filepath.Base
unfoldable pub base : Bytes → Bytes
unfolding split
base [] = codes "."
base (c ∷ p) = or_slash (last? (select (λ w. not (is_nil w)) (split (c ∷ p) slash)))

-- filepath.Join of two elements: empty ones are ignored
unfoldable pub join_path : Bytes → Bytes → Bytes
unfolding clean
join_path [] [] = []
join_path [] (c ∷ q) = clean (c ∷ q)
join_path (c ∷ p) q = clean ((c ∷ p) ++ (slash ∷ q))

clean_example : clean (codes "/srv//git/./a/../b/") ≡ codes "/srv/git/b"
unfolding clean
clean_example = refl

base_example : base (codes "/srv/git/b.git/") ≡ codes "b.git"
unfolding base
base_example = refl

join_path_example : join_path (codes "/srv/git") (codes "b.git") ≡ codes "/srv/git/b.git"
unfolding join_path
join_path_example = refl
