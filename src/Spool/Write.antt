-- ===== src/Spool/Write.antt =====
-- writeAtomic of internal/spool/spool.go, when it returns and when it is cut off.
use gitd.Spool.{
  temp_name, Store, Record, Files, SpoolError, write_failed, rename, sync_dir, write_atomic,
  take_steps, step_effect, undo,
}
use gitd.Prelude.{
  ◌≡◌, Bool, true, false, ◌&&◌, [], Bytes, none, some, if◌then◌else◌, str_eq, arith, str_eq_iff,
}
use gitd.Prelude.Map.{lookup, insert, erase, lookup-insert, lookup-insert_self, lookup-erase}
use gitd.Prelude.Result.{Result, ok, err}

-- the result of a write that got past the rename
abbrev pub renamed : Result SpoolError (Unit {0}) → Bool
renamed (ok u) = true
renamed (err (write_failed sync_dir)) = true
renamed (err e) = false

-- the temporary name is new, and is not the name that is written
abbrev pub IsFresh : Store → Bytes → Files → Type 0
IsFresh st name d = (lookup (temp_name st) d ≡ none) × (str_eq (temp_name st) name ≡ false)

erased :
    (t j text : Bytes) (d : Files)
    → lookup t d ≡ none
    → lookup j (erase t (insert t text d)) ≡ lookup j d
erased t j text d h =
    rw (lookup-erase t j (insert t text d), lookup-insert t j text d)
      (ground (arith, str_eq_iff t j, h))

erased_twice :
    (t j text : Bytes) (d : Files)
    → lookup t d ≡ none
    → lookup j (erase t (insert t text (insert t [] d))) ≡ lookup j d
erased_twice t j text d h =
    rw
      (
        lookup-erase t j (insert t text (insert t [] d)),
        lookup-insert t j text (insert t [] d),
        lookup-insert t j [] d,
      )
      (ground (arith, str_eq_iff t j, h))

renamed_text :
    (st : Store) (name text : Bytes) (d : Files)
    → step_effect st name text rename (insert (temp_name st) text d)
      ≡ insert name text (erase (temp_name st) (insert (temp_name st) text d))
unfolding step_effect
renamed_text st name text d = rw (lookup-insert_self (temp_name st) text d)

moved_lookup :
    (st : Store) (name text j : Bytes) (d : Files)
    → lookup (temp_name st) d ≡ none
    → lookup j
        (step_effect st name text rename (insert (temp_name st) text (insert (temp_name st) [] d)))
      ≡ (if str_eq name j then some text else lookup j d)
moved_lookup st name text j d h =
    let made = insert (temp_name st) [] d in
    rw (
      renamed_text st name text made,
      lookup-insert name j text (erase (temp_name st) (insert (temp_name st) text made)),
      erased_twice (temp_name st) j text d h,
    )

-- The write is all or nothing, if the temporary name is new and not the name that is written: if
-- it returns no error, or only the last fsync failed, the named file holds the record and every
-- other file is as it was; after any other error every file is.
pub write_atomic-lookup :
    (st : Store) (name : Bytes) (rec : Record) (d : Files)
    → IsFresh st name d
    → (j : Bytes)
    → lookup j (write_atomic st name rec d).1 ≡ (
        if renamed (write_atomic st name rec d).0 && str_eq name j
        then some (st.marshal rec)
        else lookup j d)
unfolding write_atomic take_steps undo step_effect
write_atomic-lookup st name rec d (h, k) j = ground (
  arith,
  erased (temp_name st) j [] d h,
  erased_twice (temp_name st) j (st.marshal rec) d h,
  moved_lookup st name (st.marshal rec) j d h,
)
