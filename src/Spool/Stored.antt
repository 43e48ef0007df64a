-- ===== src/Spool/Stored.antt =====
-- Write, Read and RecordFailure of internal/spool: a record that is read behind its writing.
use gitd.Spool.Retry.{set_state, with_state, or_dead, update, given, record_failure, fail_record}
use gitd.Spool.{
  dead_lettered, SpoolError, named, id_or_new, fresh_record, file_name, read, write_event, Store,
  Record, Files, read_file, decode_record, write_atomic, take_steps,
}
use gitd.Prelude.{
  refl, ◌⊎◌, inl, inr, ◌≢◌, true, str_eq, arith, ◌≡◌, ◌∙◌, false, Bytes, none, some, str_eq_refl,
}
use gitd.Prelude.Result.{err, Result, ok}
use gitd.Event.{Event, check_version}
use gitd.Prelude.Map.{lookup}
use gitd.Spool.Write.{IsFresh, renamed, write_atomic-lookup}

-- the JSON of the record is decoded to the record
abbrev pub ReadsBack : Store → Record → Type 0
ReadsBack st rec = st.unmarshal (st.marshal rec) ≡ some rec

decode_record-marshal :
    (st : Store) (rec : Record)
    → ReadsBack st rec
    → check_version rec.event.schema_version ≡ none
    → decode_record st (st.marshal rec) ≡ ok rec
unfolding decode_record
decode_record-marshal st rec c v = rw (c, decode_record) (rw v)

read_file-written :
    (st : Store) (name : Bytes) (rec : Record) (d : Files)
    → IsFresh st name d
    → st.read_fails name ≡ false
    → ReadsBack st rec
    → check_version rec.event.schema_version ≡ none
    → renamed (write_atomic st name rec d).0 ≡ true
    → read_file st name (write_atomic st name rec d).1 ≡ ok rec
unfolding read_file
read_file-written st name rec d f r c v w =
    let there : lookup name (write_atomic st name rec d).1 ≡ some (st.marshal rec) =
      write_atomic-lookup st name rec d f name ∙ rw (w, str_eq_refl name) in
    rw (r, there) (decode_record-marshal st rec c v)

named-ok :
    (id i : Bytes) (r : Result SpoolError (Unit {0}))
    → named i r ≡ ok id
    → (i ≡ id) × (renamed r ≡ true)
named-ok id i (ok u) h = (cc h, refl)
named-ok id i (err e) h = cc h

-- An event that was written reads back as a pending record of that id with no attempts, if the
-- temporary name is new, the file can be read, JSON gives back the record and its schema version
-- is supported.
pub write_event-read :
    (st : Store) (ev : Event) (d : Files) (id : Bytes)
    → (write_event st ev d).0 ≡ ok id
    → IsFresh st (file_name id) d
    → st.read_fails (file_name id) ≡ false
    → ReadsBack st (fresh_record ev id)
    → check_version (fresh_record ev id).event.schema_version ≡ none
    → read st id (write_event st ev d).1 ≡ ok (fresh_record ev id)
unfolding write_event
write_event-read st ev d id h f r c v = on_id (id_or_new st ev.event_id) refl h
  where
    on_id :
        (x : Result SpoolError Bytes)
        → id_or_new st ev.event_id ≡ x
        → (write_event st ev d).0 ≡ ok id
        → read st id (write_event st ev d).1 ≡ ok (fresh_record ev id)
    on_id (err e) p k = cc (rw (p, write_event) at k)
    on_id (ok i) p k =
        let (e, w) =
          named-ok id i (write_atomic st (file_name i) (fresh_record ev i) d).0
            (rw (p, write_event) at k) in
        rw (p, write_event, e)
          (unfold read in
            read_file-written st (file_name id) (fresh_record ev id) d f r c v (rw e at w))

-- A rewrite that succeeds read a record, wrote what it made of it, and kept every other file.
pub record IsRewritten (st : Store) (id : Bytes) (mutate : Record → Record) (d d' : Files)
    (rec : Record) : Type 0 where
  pub old : Record
  pub was : read st id d ≡ ok old
  pub made : rec ≡ mutate old
  pub now_read : read st id d' ≡ ok rec
  pub kept : (j : Bytes) → str_eq (file_name id) j ≡ false → lookup j d' ≡ lookup j d

-- The store takes back what it writes, and the rewrite keeps the version of the event.
pub record IsSafeRewrite (st : Store) (id : Bytes) (mutate : Record → Record) (d : Files)
    : Type 0 where
  pub readable : st.read_fails (file_name id) ≡ false
  pub codec : (old : Record) → read st id d ≡ ok old → ReadsBack st (mutate old)
  pub version : (rec : Record) → (mutate rec).event.schema_version ≡ rec.event.schema_version

given-ok :
    (a b : Record) (r : Result SpoolError (Unit {0}))
    → given a r ≡ ok b
    → (b ≡ a) × (renamed r ≡ true)
given-ok a b (ok u) h = (cc h, refl)
given-ok a b (err e) h = cc h

read_file-version :
    (st : Store) (name : Bytes) (d : Files) (rec : Record)
    → read_file st name d ≡ ok rec
    → check_version rec.event.schema_version ≡ none
unfolding read_file decode_record
read_file-version st name d rec h = ground arith

update-IsRewritten :
    (st : Store) (id : Bytes) (mutate : Record → Record) (d : Files) (rec : Record)
    → IsSafeRewrite st id mutate d
    → IsFresh st (file_name id) d
    → (update st id mutate d).0 ≡ ok rec
    → IsRewritten st id mutate d (update st id mutate d).1 rec
unfolding update
update-IsRewritten st id mutate d rec s f h = on_old (read_file st (file_name id) d) refl h
  where
    on_old :
        (x : Result SpoolError Record)
        → read_file st (file_name id) d ≡ x
        → (update st id mutate d).0 ≡ ok rec
        → IsRewritten st id mutate d (update st id mutate d).1 rec
    on_old (err e) p k = cc (rw (p, update) at k)
    on_old (ok old) p k =
        let (e, w) =
          given-ok (mutate old) rec (write_atomic st (file_name id) (mutate old) d).0
            (rw (p, update) at k) in
        rw (p, update)
          (record {
            old = old;
            was = unfold read in p;
            made = e;
            now_read = rw e (
                unfold read in
                read_file-written st (file_name id) (mutate old) d f s.readable
                  (s.codec old (unfold read in p))
                  (rw (s.version old) (read_file-version st (file_name id) d old p)) w);
            kept = λ j n. write_atomic-lookup st (file_name id) (mutate old) d f j ∙ rw (n, w);
          })

or_dead-dead :
    (r : Result SpoolError Record) (rec : Record)
    → or_dead r ≡ err (dead_lettered rec)
    → (r ≡ ok rec) ⊎ (r ≡ err (dead_lettered rec))
or_dead-dead (err e) rec h = inr h
or_dead-dead (ok a) rec h = inl (ground (arith, h))

or_dead-ok : (r : Result SpoolError Record) (rec : Record) → or_dead r ≡ ok rec → r ≡ ok rec
or_dead-ok (err e) rec h = cc h
or_dead-ok (ok a) rec h = ground (arith, h)

read_file-not_dead :
    (st : Store) (name : Bytes) (d : Files) (rec : Record)
    → read_file st name d ≢ err (dead_lettered rec)
unfolding read_file decode_record
read_file-not_dead st name d rec h = ground arith

write_atomic-not_dead :
    (st : Store) (name : Bytes) (r : Record) (d : Files) (rec : Record)
    → (write_atomic st name r d).0 ≢ err (dead_lettered rec)
unfolding write_atomic take_steps
write_atomic-not_dead st name r d rec h = ground arith

given-err :
    (a : Record) (r : Result SpoolError (Unit {0})) (e : SpoolError) → given a r ≡ err e → r ≡ err e
given-err a (ok u) e h = cc h
given-err a (err x) e h = cc h

update-not_dead :
    (st : Store) (id : Bytes) (mutate : Record → Record) (d : Files) (rec : Record)
    → (update st id mutate d).0 ≢ err (dead_lettered rec)
unfolding update
update-not_dead st id mutate d rec = on_old (read_file st (file_name id) d) refl
  where
    on_old :
        (x : Result SpoolError Record)
        → read_file st (file_name id) d ≡ x
        → (update st id mutate d).0 ≢ err (dead_lettered rec)
    on_old (err e) p = rw (p, update) (λ k. read_file-not_dead st (file_name id) d rec (cc (p, k)))
    on_old (ok old) p =
        rw (p, update)
          (λ k. write_atomic-not_dead st (file_name id) (mutate old) d rec (
            given-err (mutate old) (write_atomic st (file_name id) (mutate old) d).0
              (dead_lettered rec) k))

-- A failure that was recorded, whether a retry is left or the event is dead-lettered, is the
-- failure of the record that was read: it reads back and no other file changed, if the temporary
-- name is new, the file can be read, and JSON gives back the new record.
pub record_failure-IsRewritten :
    (st : Store) (id : Bytes) (d : Files) (rec : Record)
    → IsSafeRewrite st id (fail_record st) d
    → IsFresh st (file_name id) d
    → ((record_failure st id d).0 ≡ ok rec) ⊎ ((record_failure st id d).0 ≡ err (dead_lettered rec))
    → IsRewritten st id (fail_record st) d (record_failure st id d).1 rec
unfolding record_failure
record_failure-IsRewritten st id d rec s f (inl h) =
    update-IsRewritten st id (fail_record st) d rec s f
      (or_dead-ok (update st id (fail_record st) d).0 rec h)
record_failure-IsRewritten st id d rec s f (inr h) =
    elim (or_dead-dead (update st id (fail_record st) d).0 rec h) [
      | inl p ↦ update-IsRewritten st id (fail_record st) d rec s f p
      | inr p ↦ absurd (update-not_dead st id (fail_record st) d rec p)
    ]

pub set_state-IsRewritten :
    (st : Store) (id state : Bytes) (d : Files) (rec : Record)
    → IsSafeRewrite st id (with_state state) d
    → IsFresh st (file_name id) d
    → (set_state st id state d).0 ≡ ok rec
    → IsRewritten st id (with_state state) d (set_state st id state d).1 rec
unfolding set_state
set_state-IsRewritten st id state d rec s f h =
    update-IsRewritten st id (with_state state) d rec s f h
