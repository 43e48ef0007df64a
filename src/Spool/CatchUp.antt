-- ===== src/Spool/CatchUp.antt =====
-- CatchUp of internal/spool/retry.go: the events it queues again.
use gitd.Spool.{step_effects}
use gitd.Spool.{step_effect}
use gitd.Prelude.{
  ◌≡◌, ◌≢◌, ◌↔◌, refl, sym, true, List, [], ◌∷◌, ◌++◌, Bytes, none, arith, In, All, inl, inr,
  Bool-cases, codes, ℕ,
}
use gitd.Prelude.Map.{lookup, lookup-insert_self}
use gitd.Prelude.Sorted.{IsSorted, str_le}
use gitd.Prelude.Result.{ok, err, >>=-eq-ok}
use gitd.Spool.{
  Store, Record, Files, SpoolError, read_failed, undecodable, read_file, list, ext, file_ext, id_of,
  decode_record, temp_name, crash, step_effects, step_effect, purge,
}
use gitd.Spool.Listing.{IsRead, list_sound, list_complete, list-err}
use gitd.Spool.Purge.{purge-list}
use gitd.Spool.Retry.{due, due_ids, catch_up}

-- the id of a due record that was read
pub record IsDueId (st : Store) (d : Files) (id : Bytes) : Type 0 where
  pub rec : Record
  pub is_read : IsRead st d rec
  pub is_due : due st rec ≡ true
  pub same : id ≡ id_of rec

due_ids-after :
    (st : Store) (x : Bytes) (recs : List Record)
    → All (λ r. str_le x (id_of r) ≡ true) recs
    → All (λ id. str_le x id ≡ true) (due_ids st recs)
unfolding due_ids
due_ids-after st x [] h = tt
due_ids-after st x (r ∷ rs) (h, hs) = elim (Bool-cases (due st r)) [
  | inl e ↦ rw e (h, due_ids-after st x rs hs)
  | inr e ↦ rw e (due_ids-after st x rs hs)
]

due_ids-IsSorted :
    (st : Store) (recs : List Record) → IsSorted id_of recs → IsSorted (λ s. s) (due_ids st recs)
unfolding due_ids
due_ids-IsSorted st [] h = tt
due_ids-IsSorted st (r ∷ rs) (h, hs) = elim (Bool-cases (due st r)) [
  | inl e ↦ rw e (due_ids-after st (id_of r) rs h, due_ids-IsSorted st rs hs)
  | inr e ↦ rw e (due_ids-IsSorted st rs hs)
]

due_ids-IsDueId :
    (st : Store) (d : Files) (recs : List Record)
    → All (IsRead st d) recs
    → All (IsDueId st d) (due_ids st recs)
unfolding due_ids
due_ids-IsDueId st d [] h = tt
due_ids-IsDueId st d (r ∷ rs) (h, hs) = elim (Bool-cases (due st r)) [
  | inl e ↦
      rw e (record { rec = r; is_read = h; is_due = e; same = refl }, due_ids-IsDueId st d rs hs)
  | inr e ↦ rw e (due_ids-IsDueId st d rs hs)
]

In-due_ids :
    (st : Store) (recs : List Record) (rec : Record)
    → In rec recs
    → due st rec ≡ true
    → In (id_of rec) (due_ids st recs)
unfolding due_ids
In-due_ids st [] rec m e = absurd m
In-due_ids st (r ∷ rs) rec (inl i) e = rw (sym i, e) (inl refl)
In-due_ids st (r ∷ rs) rec (inr m) e = elim (Bool-cases (due st r)) [
  | inl b ↦ rw b (inr (In-due_ids st rs rec m e))
  | inr b ↦ rw b (In-due_ids st rs rec m e)
]

catch_up-list :
    (st : Store) (d : Files) (ids : List Bytes)
    → catch_up st d ≡ ok ids
    → (recs : List Record) × (list st d ≡ ok recs) × (ids ≡ due_ids st recs)
unfolding catch_up
catch_up-list st d ids h =
    let (recs, p, q) = >>=-eq-ok (list st d) (λ recs. ok (due_ids st recs)) h in (recs, p, cc q)

-- The ids that CatchUp queues are sorted, and each is that of a record in the directory that is
-- pending and whose retry time has come.
pub catch_up_sound :
    (st : Store) (d : Files) (ids : List Bytes)
    → catch_up st d ≡ ok ids
    → IsSorted (λ s. s) ids × All (IsDueId st d) ids
catch_up_sound st d ids h =
    let (recs, p, q) = catch_up-list st d ids h in
    let s = list_sound st d recs p in
    rw q (due_ids-IsSorted st recs s.0, due_ids-IsDueId st d recs s.1)

-- No due record is missed by a CatchUp that succeeds.
pub catch_up_complete :
    (st : Store) (d : Files) (ids : List Bytes) (name : Bytes) (rec : Record)
    → catch_up st d ≡ ok ids
    → ext name ≡ file_ext
    → read_file st name d ≡ ok rec
    → due st rec ≡ true
    → In (id_of rec) ids
catch_up_complete st d ids name rec h x f e =
    let (recs, p, q) = catch_up-list st d ids h in
    rw q (In-due_ids st recs rec (list_complete st d recs name rec p x f) e)

IsDueId-In :
    (st : Store) (d : Files) (ids : List Bytes) (id : Bytes)
    → All (IsDueId st d) ids
    → In id ids
    → IsDueId st d id
IsDueId-In st d [] id h m = absurd m
IsDueId-In st d (x ∷ ids) id (h, hs) (inl e) = rw e h
IsDueId-In st d (x ∷ ids) id (h, hs) (inr m) = IsDueId-In st d ids id hs m

-- A CatchUp that succeeds queues the id of exactly the due records.
pub catch_up_iff :
    (st : Store) (d : Files) (ids : List Bytes)
    → catch_up st d ≡ ok ids
    → (id : Bytes) → In id ids ↔ IsDueId st d id
catch_up_iff st d ids h id = (
  λ m. IsDueId-In st d ids id (catch_up_sound st d ids h).1 m,
  λ x.
      let r = x.is_read in
      rw x.same (catch_up_complete st d ids r.name x.rec h r.suffixed r.from x.is_due),
)

ext-append : (x : Bytes) → ext (x ++ file_ext) ≡ file_ext
unfolding ext
ext-append [] = refl
ext-append (c ∷ x) = rw (ext-append x) (ground arith)

temp_unreadable :
    (st : Store) (name : Bytes) (rec : Record) (d : Files)
    → st.unmarshal [] ≡ none
    → (e : SpoolError) × (read_file st (temp_name st) (crash st name rec d 1 0) ≡ err e)
unfolding read_file crash step_effects step_effect decode_record lookup
temp_unreadable st name rec d u = elim (Bool-cases (st.read_fails (temp_name st))) [
  | inl e ↦ (read_failed, rw e)
  | inr e ↦ (undecodable, rw (e, lookup-insert_self (temp_name st) [] d) (rw (u, decode_record)))
]

temp_there :
    (st : Store) (name : Bytes) (rec : Record) (d : Files)
    → lookup (temp_name st) (crash st name rec d 1 0) ≢ none
unfolding crash step_effects step_effect
temp_there st name rec d h = cc (lookup-insert_self (temp_name st) [] d, h)

-- A crash right after CreateTemp leaves a file that is taken for an event, since its name ends in
-- ".json": no CatchUp and no Purge succeeds in that directory. JSON does not decode the empty text.
pub catch_up-leftover :
    (st : Store) (name : Bytes) (rec : Record) (d : Files)
    → st.unmarshal [] ≡ none
    → ((ids : List Bytes) → catch_up st (crash st name rec d 1 0) ≢ ok ids)
      × ((m : ℕ) → (purge st (crash st name rec d 1 0)).0 ≢ ok m)
catch_up-leftover st name rec d u =
    let dir = crash st name rec d 1 0 in
    let (e, f) = temp_unreadable st name rec d u in
    let x = ext-append (codes ".spool-" ++ st.random) in
    (
      λ ids h.
          let (recs, p, q) = catch_up-list st dir ids h in
          list-err st dir (temp_name st) e recs (temp_there st name rec d) x f p,
      λ m h.
          let (recs, p, q) = purge-list st dir m h in
          list-err st dir (temp_name st) e recs (temp_there st name rec d) x f p,
    )
