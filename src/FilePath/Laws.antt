-- ===== src/FilePath/Laws.antt =====
-- filepath.Clean, Join and Base on a path with a plain last element.
use gitd.Prelude.{
  str_eq_refl, ◌≡◌, refl, ap, ◌∙◌, Bool, true, false, not, List, [], ◌∷◌, ◌++◌, foldl, Bytes, codes,
  str_eq, split, join, is_nil, select, last?, some, contains_byte, select-append,
}
use gitd.Prelude.Split.{split-plain, split-append}
use mathlib.Core.Path.{subst}
use mathlib.Core.List.{reverse, foldl-append, reverse-append, append_assoc}
use gitd.FilePath.{slash, clean, clean_step, base, join_path, is_rooted, rejoin, or_dot, or_slash}

-- A path element that is neither empty nor special.
pub record IsPlain (w : Bytes) : Type 0 where
  pub no_slash : contains_byte slash w ≡ false
  pub non_empty : is_nil w ≡ false
  pub not_dot : str_eq w (codes ".") ≡ false
  pub not_dot_dot : str_eq w (codes "..") ≡ false

abbrev non_empty_parts : Bytes → List Bytes
non_empty_parts p = select (λ w. not (is_nil w)) (split p slash)

last?-snoc {ℓ} : {A : Type ℓ} (xs : List A) (a : A) → last? (xs ++ (a ∷ [])) ≡ some a
last?-snoc [] a = refl
last?-snoc (x ∷ []) a = refl
last?-snoc (x ∷ y ∷ xs) a = last?-snoc (y ∷ xs) a

parts-plain : (w : Bytes) → IsPlain w → non_empty_parts w ≡ w ∷ []
parts-plain w h = rw (split-plain w slash h.no_slash, h.non_empty)

parts-append :
    (u w : Bytes) → IsPlain w → non_empty_parts (u ++ (slash ∷ w)) ≡ non_empty_parts u ++ (w ∷ [])
parts-append u w h =
    ap (select (λ v. not (is_nil v))) (split-append u w slash)
    ∙ select-append (λ v. not (is_nil v)) (split u slash) (split w slash)
    ∙ ap (λ ws. non_empty_parts u ++ ws) (parts-plain w h)

base-parts : (p w : Bytes) (ws : List Bytes) → non_empty_parts p ≡ ws ++ (w ∷ []) → base p ≡ w
unfolding base
base-parts [] w [] e = cc
base-parts [] w (v ∷ ws) e = cc
base-parts (c ∷ p) w ws e = ap (λ l. or_slash (last? l)) e ∙ ap or_slash (last?-snoc ws w)

pub base-plain : (w : Bytes) → IsPlain w → base w ≡ w
base-plain w h = base-parts w w [] (parts-plain w h)

pub base-append : (u w : Bytes) → IsPlain w → base (u ++ (slash ∷ w)) ≡ w
base-append u w h = base-parts (u ++ (slash ∷ w)) w (non_empty_parts u) (parts-append u w h)

clean_step-Plain :
    (rooted : Bool) (kept : List Bytes) (w : Bytes)
    → IsPlain w
    → clean_step rooted kept w ≡ w ∷ kept
unfolding clean_step
clean_step-Plain rooted kept w h = rw (h.non_empty, h.not_dot, h.not_dot_dot)

-- a text that is `w`, or ends in a slash and `w`
data EndsIn (w : Bytes) : Bytes → Type 0 where
  alone : EndsIn w w
  behind : (u : Bytes) → EndsIn w (u ++ (slash ∷ w))

EndsIn-prepend : (v : Bytes) {w s : Bytes} → EndsIn w s → EndsIn w (v ++ (slash ∷ s))
EndsIn-prepend v alone = behind v
EndsIn-prepend v {w} (behind u) =
    subst (EndsIn w) (append_assoc v (slash ∷ u) (slash ∷ w)) (behind (v ++ (slash ∷ u)))

EndsIn-join : (ws : List Bytes) (w : Bytes) → EndsIn w (join slash (ws ++ (w ∷ [])))
unfolding join
EndsIn-join [] w = alone
EndsIn-join (v ∷ []) w = behind v
EndsIn-join (v ∷ x ∷ ws) w = EndsIn-prepend v (EndsIn-join (x ∷ ws) w)

base-EndsIn : {w s : Bytes} → IsPlain w → EndsIn w s → base s ≡ w
base-EndsIn {w} h alone = base-plain w h
base-EndsIn {w} h (behind u) = base-append u w h

base-slash-EndsIn : {w s : Bytes} → IsPlain w → EndsIn w s → base (slash ∷ s) ≡ w
base-slash-EndsIn h e = base-EndsIn h (EndsIn-prepend [] e)

or_dot-EndsIn : {w s : Bytes} → IsPlain w → EndsIn w s → or_dot s ≡ s
unfolding base
or_dot-EndsIn {w} {s} h e = same s (base-EndsIn h e)
  where
    same : (t : Bytes) → base t ≡ w → or_dot t ≡ t
    same [] p = cc (p, h.not_dot, str_eq_refl (codes "."))
    same (c ∷ t) p = refl

base-rejoin :
    (rooted : Bool) (kept : List Bytes) (w : Bytes)
    → IsPlain w
    → base (rejoin rooted (w ∷ kept)) ≡ w
base-rejoin true kept w h =
    rw (reverse-append (w ∷ []) kept) (base-slash-EndsIn h (EndsIn-join (reverse kept) w))
base-rejoin false kept w h =
    rw (reverse-append (w ∷ []) kept, or_dot-EndsIn h (EndsIn-join (reverse kept) w))
      (base-EndsIn h (EndsIn-join (reverse kept) w))

base-clean :
    (p w : Bytes) (ws : List Bytes)
    → IsPlain w
    → split p slash ≡ ws ++ (w ∷ [])
    → base (clean p) ≡ w
unfolding clean
base-clean p w ws h e =
    rw
      (e, foldl-append, clean_step-Plain (is_rooted p) (foldl (clean_step (is_rooted p)) [] ws) w h)
      (base-rejoin (is_rooted p) (foldl (clean_step (is_rooted p)) [] ws) w h)

-- Cleaning a path keeps its plain last element.
pub base-clean-append : (u w : Bytes) → IsPlain w → base (clean (u ++ (slash ∷ w))) ≡ w
base-clean-append u w h =
    base-clean (u ++ (slash ∷ w)) w (split u slash) h
      (split-append u w slash ∙ ap (λ ws. split u slash ++ ws) (split-plain w slash h.no_slash))

pub base-clean-plain : (w : Bytes) → IsPlain w → base (clean w) ≡ w
base-clean-plain w h = base-clean w w [] h (split-plain w slash h.no_slash)

pub base-join_path : (p w : Bytes) → IsPlain w → base (join_path p w) ≡ w
unfolding join_path
base-join_path [] [] h = cc (h.non_empty)
base-join_path [] (c ∷ w) h = base-clean-plain (c ∷ w) h
base-join_path (c ∷ p) w h = base-clean-append (c ∷ p) w h
