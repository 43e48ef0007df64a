-- ===== src/Agent/Files.antt =====
-- internal/mirror/agent.go: WriteJobFile, which writes the requests and the results of jobs.
use gitd.Prelude.{
  ◌≡◌, Bool, true, false, [], ◌++◌, Bytes, codes, none, some, if◌then◌else◌, str_eq, str_eq_iff,
  arith,
}
use gitd.Prelude.Map.{Map, lookup, insert, erase, lookup-insert, lookup-erase}
use gitd.Prelude.Result.{Result, ok, err}
use gitd.Spool.{WriteStep, create_temp, chmod, write, sync, close, rename, sync_dir}

-- What a call meets: the text that CreateTemp picks, and the calls to the system that fail.
pub record JobWriter : Type 0 where
  pub random : Bytes
  pub fails : WriteStep → Bool

abbrev pub job_temp : JobWriter → Bytes → Bytes
job_temp w name = codes "." ++ (name ++ (codes ".tmp-" ++ w.random))

-- WriteJobFile: a failing step removes the temporary file, except that the rename cannot be taken
-- back.
unfoldable pub write_job_file :
    JobWriter → Bytes → Bytes → Map Bytes → Result WriteStep (Unit {0}) × Map Bytes
write_job_file w name text d =
    let tmp = job_temp w name in
    if w.fails create_temp
    then (err create_temp, d)
    else let made = insert tmp [] d in
      if w.fails chmod
      then (err chmod, erase tmp made)
      else if w.fails write
      then (err write, erase tmp made)
      else let full = insert tmp text made in
        if w.fails sync
        then (err sync, erase tmp full)
        else if w.fails close
        then (err close, erase tmp full)
        else if w.fails rename
        then (err rename, erase tmp full)
        else let moved = insert name text (erase tmp full) in
          if w.fails sync_dir then (err sync_dir, moved) else (ok tt, moved)

-- the result of a call that got past the rename
abbrev pub placed : Result WriteStep (Unit {0}) → Bool
placed (ok u) = true
placed (err sync_dir) = true
placed (err e) = false

-- a name that is not there stays so, unless it is the one that is written
pub write_job_file-none :
    (w : JobWriter) (name text j : Bytes) (d : Map Bytes)
    → str_eq name j ≡ false
    → lookup j d ≡ none
    → lookup j (write_job_file w name text d).1 ≡ none
unfolding write_job_file
write_job_file-none w name text j d n h =
    let tmp = job_temp w name in
    let full = insert tmp text (insert tmp [] d) in
    ground (
      arith,
      lookup-erase tmp j (insert tmp [] d),
      lookup-erase tmp j full,
      lookup-insert tmp j [] d,
      lookup-insert tmp j text (insert tmp [] d),
      lookup-insert name j text (erase tmp full),
    )

-- What was written is there.
pub write_job_file_self :
    (w : JobWriter) (name text : Bytes) (d : Map Bytes)
    → placed (write_job_file w name text d).0 ≡ true
    → lookup name (write_job_file w name text d).1 ≡ some text
unfolding write_job_file
write_job_file_self w name text d h =
    let tmp = job_temp w name in
    let full = insert tmp text (insert tmp [] d) in
    ground (arith, str_eq_iff name name, lookup-insert name name text (erase tmp full))

-- Another name than the temporary one keeps its file.
pub write_job_file-other :
    (w : JobWriter) (name text j : Bytes) (d : Map Bytes)
    → str_eq name j ≡ false
    → str_eq (job_temp w name) j ≡ false
    → lookup j (write_job_file w name text d).1 ≡ lookup j d
unfolding write_job_file
write_job_file-other w name text j d n t =
    let tmp = job_temp w name in
    let full = insert tmp text (insert tmp [] d) in
    ground (
      arith,
      lookup-erase tmp j (insert tmp [] d),
      lookup-erase tmp j full,
      lookup-insert tmp j [] d,
      lookup-insert tmp j text (insert tmp [] d),
      lookup-insert name j text (erase tmp full),
    )

-- A call that fails before the rename leaves a name that is not there so.
pub write_job_file-unplaced :
    (w : JobWriter) (name text j : Bytes) (d : Map Bytes)
    → placed (write_job_file w name text d).0 ≡ false
    → lookup j d ≡ none
    → lookup j (write_job_file w name text d).1 ≡ none
unfolding write_job_file
write_job_file-unplaced w name text j d n h =
    let tmp = job_temp w name in
    let full = insert tmp text (insert tmp [] d) in
    ground (
      arith,
      lookup-erase tmp j (insert tmp [] d),
      lookup-erase tmp j full,
      lookup-insert tmp j [] d,
      lookup-insert tmp j text (insert tmp [] d),
    )
