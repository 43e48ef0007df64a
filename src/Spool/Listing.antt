-- ===== src/Spool/Listing.antt =====
-- List of internal/spool/spool.go: the files it reads.
use gitd.Prelude.Result.{>>=-eq-ok, ◌>>=◌, ok, err}
use gitd.Prelude.{
  ◌≡◌, ◌≢◌, refl, sym, true, false, List, [], ◌∷◌, Bytes, none, str_eq, arith, In, All, inl, inr,
  Bool-cases, str_eq_eq, str_eq_refl,
}
use gitd.Prelude.Map.{lookup}
use gitd.Prelude.Sorted.{sort_by, sort_strings, In-sort_by, sort_by-All, sort_by-IsSorted, IsSorted}
use gitd.Spool.{
  Store, Record, Files, SpoolError, read_file, read_all, list, ext, file_ext, names_of, id_of,
}

-- the record was read from a file of the directory
pub record IsRead (st : Store) (d : Files) (rec : Record) : Type 0 where
  pub name : Bytes
  pub suffixed : ext name ≡ file_ext
  pub from : read_file st name d ≡ ok rec

In-names : (d : Files) (name : Bytes) → lookup name d ≢ none → In name (names_of d)
unfolding lookup
In-names [] name h = absurd (h refl)
In-names ((k, v) ∷ d) name h = elim (Bool-cases (str_eq k name)) [
  | inl e ↦ inl (sym (str_eq_eq k name e))
  | inr e ↦ inr (In-names d name (rw e at h))
]

read_file-there :
    (st : Store) (d : Files) (name : Bytes) (rec : Record)
    → read_file st name d ≡ ok rec
    → lookup name d ≢ none
unfolding read_file
read_file-there st d name rec h = ground arith

read_all-skip :
    (st : Store) (d : Files) (n : Bytes) (names : List Bytes)
    → str_eq (ext n) file_ext ≡ false
    → read_all st d (n ∷ names) ≡ read_all st d names
unfolding read_all
read_all-skip st d n names e = rw e

read_all-cons :
    (st : Store) (d : Files) (n : Bytes) (names : List Bytes) (recs : List Record)
    → str_eq (ext n) file_ext ≡ true
    → read_all st d (n ∷ names) ≡ ok recs
    → (r : Record) × (rest : List Record) × (read_file st n d ≡ ok r)
      × (read_all st d names ≡ ok rest)
      × (recs ≡ r ∷ rest)
unfolding read_all
read_all-cons st d n names recs e h =
    let (r, p, h1) =
      >>=-eq-ok (read_file st n d) (λ r. read_all st d names >>= λ rs. ok (r ∷ rs)) (rw e at h) in
    let (rest, q, h2) = >>=-eq-ok (read_all st d names) (λ rs. ok (r ∷ rs)) h1 in
    (r, rest, p, q, cc h2)

read_all-IsRead :
    (st : Store) (d : Files) (names : List Bytes) (recs : List Record)
    → read_all st d names ≡ ok recs
    → All (IsRead st d) recs
read_all-IsRead st d [] recs h = rw (nothing h) tt
  where
    nothing : read_all st d [] ≡ ok recs → recs ≡ []
    nothing p = unfold read_all in cc p
read_all-IsRead st d (n ∷ names) recs h = elim (Bool-cases (str_eq (ext n) file_ext)) [
  | inr e ↦ read_all-IsRead st d names recs (rw (read_all-skip st d n names e) at h)
  | inl e ↦
      let (r, rest, p, q, t) = read_all-cons st d n names recs e h in
      rw t (
        record { name = n; suffixed = str_eq_eq (ext n) file_ext e; from = p },
        read_all-IsRead st d names rest q,
      )
]

read_all-In :
    (st : Store) (d : Files) (names : List Bytes) (recs : List Record) (name : Bytes) (rec : Record)
    → read_all st d names ≡ ok recs
    → In name names
    → ext name ≡ file_ext
    → read_file st name d ≡ ok rec
    → In rec recs
read_all-In st d [] recs name rec h m x f = absurd m
read_all-In st d (n ∷ names) recs name rec h (inl i) x f =
    let (r, rest, p, q, t) =
      read_all-cons st d n names recs (rw (sym i, x) (str_eq_refl file_ext)) h in
    rw t (inl (cc (f, p, i)))
read_all-In st d (n ∷ names) recs name rec h (inr m) x f =
    elim (Bool-cases (str_eq (ext n) file_ext)) [
      | inr e ↦ read_all-In st d names recs name rec (rw (read_all-skip st d n names e) at h) m x f
      | inl e ↦
          let (r, rest, p, q, t) = read_all-cons st d n names recs e h in
          rw t (inr (read_all-In st d names rest name rec q m x f))
    ]

-- one file that cannot be read stops the loop
read_all-err :
    (st : Store) (d : Files) (names : List Bytes) (name : Bytes) (e : SpoolError)
    → In name names
    → ext name ≡ file_ext
    → read_file st name d ≡ err e
    → (recs : List Record) → read_all st d names ≢ ok recs
read_all-err st d [] name e m x f recs h = m
read_all-err st d (n ∷ names) name e (inl i) x f recs h =
    let (r, rest, p, q, t) =
      read_all-cons st d n names recs (rw (sym i, x) (str_eq_refl file_ext)) h in
    cc (f, p, i)
read_all-err st d (n ∷ names) name e (inr m) x f recs h =
    elim (Bool-cases (str_eq (ext n) file_ext)) [
      | inr b ↦ read_all-err st d names name e m x f recs (rw (read_all-skip st d n names b) at h)
      | inl b ↦
          let (r, rest, p, q, t) = read_all-cons st d n names recs b h in
          read_all-err st d names name e m x f rest q
    ]

list-read_all :
    (st : Store) (d : Files) (recs : List Record)
    → list st d ≡ ok recs
    → (all : List Record) × (read_all st d (sort_strings (names_of d)) ≡ ok all)
      × (recs ≡ sort_by id_of all)
unfolding list
list-read_all st d recs h = ground arith

In-sorted_names :
    (d : Files) (name : Bytes) → lookup name d ≢ none → In name (sort_strings (names_of d))
unfolding sort_strings
In-sorted_names d name h = In-sort_by (λ s. s) name (names_of d) (In-names d name h)

-- The records that List returns are sorted by id, and each was read from a file with the extension.
pub list_sound :
    (st : Store) (d : Files) (recs : List Record)
    → list st d ≡ ok recs
    → IsSorted id_of recs × All (IsRead st d) recs
list_sound st d recs h =
    let (all, p, q) = list-read_all st d recs h in
    rw q (
      sort_by-IsSorted id_of all,
      sort_by-All id_of (IsRead st d) all (read_all-IsRead st d (sort_strings (names_of d)) all p),
    )

-- No record is missed: what a file with the extension holds is listed.
pub list_complete :
    (st : Store) (d : Files) (recs : List Record) (name : Bytes) (rec : Record)
    → list st d ≡ ok recs
    → ext name ≡ file_ext
    → read_file st name d ≡ ok rec
    → In rec recs
list_complete st d recs name rec h x f =
    let (all, p, q) = list-read_all st d recs h in
    rw q (
      In-sort_by id_of rec all (
        read_all-In st d (sort_strings (names_of d)) all name rec p
          (In-sorted_names d name (read_file-there st d name rec f)) x f))

-- A file with the extension that is there and cannot be read makes List fail.
pub list-err :
    (st : Store) (d : Files) (name : Bytes) (e : SpoolError) (recs : List Record)
    → lookup name d ≢ none
    → ext name ≡ file_ext
    → read_file st name d ≡ err e
    → list st d ≢ ok recs
list-err st d name e recs t x f h =
    let (all, p, q) = list-read_all st d recs h in
    read_all-err st d (sort_strings (names_of d)) name e (In-sorted_names d name t) x f all p
