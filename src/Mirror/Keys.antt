-- ===== src/Mirror/Keys.antt =====
-- bundleKey and repoNameFromKey of internal/mirror/mirror.go: the names in the keys, and their
-- order.
use gitd.Prelude.{
  ℕ, ◌≡◌, refl, sym, ◌∙◌, true, false, [], ◌∷◌, ◌++◌, Bytes, some, has_prefix, contains_byte, arith,
  is_nil, codes,
}
use gitd.Prelude.Split.{cut_prefix-append, cut-append}
use gitd.FilePath.{slash}
use gitd.Repo.{valid_name}
use gitd.Repo.Names.{valid_name-IsSafe}
use gitd.Mirror.{Mirror, bundle_key, repo_name_from_key, repo_prefix, stamp}
use mathlib.Core.List.{append_assoc}

has_prefix-append_both : (p x y : Bytes) → has_prefix (p ++ x) (p ++ y) ≡ has_prefix x y
unfolding has_prefix
has_prefix-append_both [] x y = refl
has_prefix-append_both (c ∷ p) x y = ground (arith, has_prefix-append_both p x y)

-- an element and its slash start a path only if the path's first element is the same
has_prefix-element :
    (n k rest : Bytes)
    → contains_byte slash n ≡ false
    → contains_byte slash k ≡ false
    → has_prefix (k ++ (slash ∷ rest)) (n ++ (slash ∷ [])) ≡ true
    → n ≡ k
unfolding has_prefix
has_prefix-element [] [] rest h g p = refl
has_prefix-element [] (d ∷ k) rest h g p = ground arith
has_prefix-element (c ∷ n) [] rest h g p = ground arith
has_prefix-element (c ∷ n) (d ∷ k) rest h g p = ground (arith, has_prefix-element n k rest)

no_slash : (n : Bytes) → valid_name n ≡ true → contains_byte slash n ≡ false
no_slash n h = (valid_name-IsSafe n h).plain.no_slash

-- A bundle's key is below the prefix of its repository.
pub bundle_key-prefix :
    (m : Mirror) (n : Bytes) (t : ℕ) → has_prefix (bundle_key m n t) (repo_prefix m n) ≡ true
unfolding bundle_key has_prefix
bundle_key-prefix m n t =
    has_prefix-append_both m.prefix (slash ∷ (n ++ (slash ∷ (stamp m t ++ codes ".bundle"))))
      (slash ∷ (n ++ (slash ∷ [])))
    ∙ has_prefix-append_both (slash ∷ n) (slash ∷ (stamp m t ++ codes ".bundle")) (slash ∷ [])

-- A bundle's key is below the prefix of no other valid repository.
pub bundle_key-own_prefix :
    (m : Mirror) (n k : Bytes) (t : ℕ)
    → valid_name n ≡ true
    → valid_name k ≡ true
    → has_prefix (bundle_key m k t) (repo_prefix m n) ≡ true
    → n ≡ k
unfolding bundle_key has_prefix
bundle_key-own_prefix m n k t h g p =
    has_prefix-element n k (stamp m t ++ codes ".bundle") (no_slash n h) (no_slash k g) (
      sym (
        has_prefix-append_both m.prefix (slash ∷ (k ++ (slash ∷ (stamp m t ++ codes ".bundle"))))
          (slash ∷ (n ++ (slash ∷ []))))
      ∙ p)

valid_name-not_nil : (n : Bytes) → valid_name n ≡ true → is_nil n ≡ false
unfolding valid_name
valid_name-not_nil [] h = cc h
valid_name-not_nil (c ∷ n) h = refl

-- The key of a bundle of a valid repository gives the repository back.
pub repo_name_from_key-bundle_key :
    (m : Mirror) (n : Bytes) (t : ℕ)
    → valid_name n ≡ true
    → repo_name_from_key m (bundle_key m n t) ≡ some n
unfolding repo_name_from_key bundle_key
repo_name_from_key-bundle_key m n t h =
    let tail = stamp m t ++ codes ".bundle" in
    rw
      (
        sym (append_assoc m.prefix (slash ∷ []) (n ++ (slash ∷ tail))),
        cut_prefix-append (m.prefix ++ (slash ∷ [])) (n ++ (slash ∷ tail)),
        repo_name_from_key,
      )
      (rw (cut-append n tail slash (no_slash n h), valid_name-not_nil n h, h))
