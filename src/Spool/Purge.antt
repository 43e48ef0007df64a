-- ===== src/Spool/Purge.antt =====
-- Purge of internal/spool/spool.go: the records it removes.
use gitd.Prelude.{
  ℕ, ◌+◌, ◌≡◌, refl, sym, Bool, true, ◌&&◌, List, [], ◌∷◌, Bytes, none, if◌then◌else◌, str_eq,
  arith, In, All, inl, inr, any, Bool-cases, str_eq_eq, str_eq_refl,
}
use gitd.Prelude.Map.{lookup, lookup-erase}
use gitd.Prelude.Result.{Result, ok, err}
use gitd.Spool.{
  Store, Record, Files, SpoolError, read_file, list, ext, file_ext, file_name, id_of, expired,
  delete, purge_one, purge_loop, purge,
}
use gitd.Spool.Listing.{IsRead, list_sound, list_complete}

-- one of the records is expired and has the file name
abbrev removes : Store → List Record → Bytes → Bool
removes st recs j = any (λ r. expired st r && str_eq (file_name (id_of r)) j) recs

purge_one-lookup :
    (st : Store) (r : Record) (d d' : Files) (k : ℕ) (j : Bytes)
    → purge_one st r d ≡ ok (k, d')
    → lookup j d' ≡ (if expired st r && str_eq (file_name (id_of r)) j then none else lookup j d)
unfolding purge_one delete
purge_one-lookup st r d d' k j h = ground (arith, lookup-erase (file_name (id_of r)) j d)

purge_loop-cons :
    (st : Store) (r : Record) (rs : List Record) (n m : ℕ) (d : Files)
    → (purge_loop st (r ∷ rs) n d).0 ≡ ok m
    → (k : ℕ) × (d' : Files) × (purge_one st r d ≡ ok (k, d'))
      × (purge_loop st (r ∷ rs) n d ≡ purge_loop st rs (n + k) d')
unfolding purge_loop
purge_loop-cons st r rs n m d h = on_one (purge_one st r d) refl h
  where
    on_one :
        (x : Result SpoolError (ℕ × Files))
        → purge_one st r d ≡ x
        → (purge_loop st (r ∷ rs) n d).0 ≡ ok m
        → (k : ℕ) × (d' : Files) × (purge_one st r d ≡ ok (k, d'))
          × (purge_loop st (r ∷ rs) n d ≡ purge_loop st rs (n + k) d')
    on_one (err e) p q = cc (rw (p, purge_loop) at q)
    on_one (ok (k, d')) p q = (k, d', p, rw (p, purge_loop))

purge_loop-lookup :
    (st : Store) (recs : List Record) (n m : ℕ) (d : Files) (j : Bytes)
    → (purge_loop st recs n d).0 ≡ ok m
    → lookup j (purge_loop st recs n d).1 ≡ (if removes st recs j then none else lookup j d)
purge_loop-lookup st [] n m d j h = unfold purge_loop in refl
purge_loop-lookup st (r ∷ rs) n m d j h =
    let (k, d', p, q) = purge_loop-cons st r rs n m d h in
    rw q (
      ground (
        arith,
        purge_loop-lookup st rs (n + k) m d' j (rw q at h),
        purge_one-lookup st r d d' k j p,
      ))

-- Each file is named after the event that it holds.
abbrev pub WellNamed : Store → Files → Type 0
WellNamed st d =
    (name : Bytes) (rec : Record) → read_file st name d ≡ ok rec → name ≡ file_name (id_of rec)

same_file :
    (st : Store) (d : Files) (r : Record) (j : Bytes) (rec : Record)
    → WellNamed st d
    → IsRead st d r
    → read_file st j d ≡ ok rec
    → expired st r ≡ true
    → str_eq (file_name (id_of r)) j ≡ true
    → expired st rec ≡ true
same_file st d r j rec w a f x e =
    let p : j ≡ a.name = cc (w a.name r a.from, str_eq_eq (file_name (id_of r)) j e) in
    let q : rec ≡ r = cc (f, a.from, p) in rw q x

removes-expired :
    (st : Store) (d : Files) (recs : List Record) (j : Bytes) (rec : Record)
    → WellNamed st d
    → All (IsRead st d) recs
    → read_file st j d ≡ ok rec
    → removes st recs j ≡ true
    → expired st rec ≡ true
removes-expired st d [] j rec w a f h = cc h
removes-expired st d (r ∷ rs) j rec w (a, bs) f h =
    elim (Bool-cases (expired st r && str_eq (file_name (id_of r)) j)) [
      | inl e ↦ same_file st d r j rec w a f (ground arith) (ground arith)
      | inr e ↦ removes-expired st d rs j rec w bs f (rw e at h)
    ]

In-removes :
    (st : Store) (recs : List Record) (rec : Record)
    → In rec recs
    → expired st rec ≡ true
    → removes st recs (file_name (id_of rec)) ≡ true
In-removes st [] rec m e = absurd m
In-removes st (r ∷ rs) rec (inl i) e = rw (sym i, e, str_eq_refl (file_name (id_of rec)))
In-removes st (r ∷ rs) rec (inr m) e = ground (arith, In-removes st rs rec m e)

pub purge-list :
    (st : Store) (d : Files) (m : ℕ)
    → (purge st d).0 ≡ ok m
    → (recs : List Record) × (list st d ≡ ok recs) × (purge st d ≡ purge_loop st recs 0 d)
unfolding purge
purge-list st d m h = on_list (list st d) refl h
  where
    on_list :
        (x : Result SpoolError (List Record))
        → list st d ≡ x
        → (purge st d).0 ≡ ok m
        → (recs : List Record) × (list st d ≡ ok recs) × (purge st d ≡ purge_loop st recs 0 d)
    on_list (err e) p q = cc (rw (p, purge) at q)
    on_list (ok recs) p q = (recs, p, rw (p, purge))

-- In a directory where each file is named after its event, a purge that succeeds removes a file
-- of the extension whose record can be read exactly if the record is expired, and otherwise
-- keeps it.
pub purge_exact :
    (st : Store) (d : Files) (m : ℕ) (j : Bytes) (rec : Record)
    → WellNamed st d
    → (purge st d).0 ≡ ok m
    → ext j ≡ file_ext
    → read_file st j d ≡ ok rec
    → lookup j (purge st d).1 ≡ (if expired st rec then none else lookup j d)
purge_exact st d m j rec w h x f =
    let (recs, p, q) = purge-list st d m h in
    let s = list_sound st d recs p in
    let here : removes st recs j ≡ expired st rec = elim (Bool-cases (expired st rec)) [
      | inl e ↦ rw (e, w j rec f) (In-removes st recs rec (list_complete st d recs j rec p x f) e)
      | inr e ↦ elim (Bool-cases (removes st recs j)) [
        | inl b ↦ cc (b, removes-expired st d recs j rec w s.1 f b)
        | inr b ↦ rw (e, b)
      ]
    ] in
    rw (q, sym here) (purge_loop-lookup st recs 0 m d j (rw q at h))
