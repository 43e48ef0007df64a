-- ===== src/Serve/Jobs/Cleanup.antt =====
-- cleanupRestoreJob and sweepRestoreSpool of internal/serve/serve.go.
use gitd.Prelude.{
  ◌≡◌, refl, sym, ap, ◌∙◌, Bool, true, false, not, ◌&&◌, ◌||◌, List, [], ◌∷◌, ◌++◌, Bytes, none,
  arith, In, inl, inr, Bool-cases, str_eq, str_eq_refl, str_eq_eq, if◌then◌else◌,
}
use gitd.Prelude.Map.{Map, lookup, erase, lookup-erase}
use gitd.Prelude.Result.{ok}
use gitd.Repo.{DirEntry}
use gitd.Agent.{bundle_ext, request_ext, result_ext}
use gitd.Serve.Jobs.{
  Stager, remove_job, cleanup_job, is_job_file, sweep_entries, sweep_restore_spool,
}

remove_job-lookup :
    (srv : Stager) (name j : Bytes) (jobs : Map Bytes)
    → lookup j (remove_job srv name jobs)
      ≡ (if str_eq name j && not (srv.remove_fails j) then none else lookup j jobs)
remove_job-lookup srv name j jobs = elim (Bool-cases (str_eq name j)) [
  | inl e ↦
      let same = ap srv.remove_fails (str_eq_eq name j e) in
      rw (e, same) (ground (arith, lookup-erase name j jobs, e))
  | inr e ↦ rw e (ground (arith, lookup-erase name j jobs, e))
]

-- Cleaning up after a job removes its bundle, its request and its result where they can be removed,
-- and no other file.
pub cleanup_job-lookup :
    (srv : Stager) (id j : Bytes) (jobs : Map Bytes)
    → lookup j (cleanup_job srv id jobs) ≡ (
        if (str_eq (id ++ bundle_ext) j
            || str_eq (id ++ request_ext) j
            || str_eq (id ++ result_ext) j)
          && not (srv.remove_fails j)
        then none
        else lookup j jobs)
unfolding cleanup_job
cleanup_job-lookup srv id j jobs =
    let a = remove_job srv (id ++ bundle_ext) jobs in
    let b = remove_job srv (id ++ request_ext) a in
    rw
      (
        remove_job-lookup srv (id ++ result_ext) j b,
        remove_job-lookup srv (id ++ request_ext) j a,
        remove_job-lookup srv (id ++ bundle_ext) j jobs,
      )
      (ground arith)

-- the entry is a file of a job
abbrev goes : Stager → DirEntry → Bool
goes srv e = not e.is_dir && is_job_file e.name && not (srv.remove_fails e.name)

goes-other :
    (srv : Stager) (e : DirEntry) (j : Bytes)
    → goes srv e ≡ true
    → is_job_file j ≡ false
    → str_eq e.name j ≡ false
goes-other srv e j g h = elim (Bool-cases (str_eq e.name j)) [
  | inl q ↦ absurd (clash (is_job_file e.name) (ap is_job_file (str_eq_eq e.name j q) ∙ h) g)
  | inr q ↦ q
]
  where
    clash : (b : Bool) → b ≡ false → (not e.is_dir && b && not (srv.remove_fails e.name)) ≡ true → ⊥
    clash b p q = ground arith

sweep_entries-other :
    (srv : Stager) (es : List DirEntry) (j : Bytes) (jobs : Map Bytes)
    → is_job_file j ≡ false
    → lookup j (sweep_entries srv es jobs).1 ≡ lookup j jobs
unfolding sweep_entries
sweep_entries-other srv [] j jobs h = refl
sweep_entries-other srv (e ∷ es) j jobs h = elim (Bool-cases (goes srv e)) [
  | inl g ↦ rw g (
      sweep_entries-other srv es j (erase e.name jobs) h
      ∙ lookup-erase e.name j jobs
      ∙ rw (goes-other srv e j g h) refl)
  | inr g ↦ rw g (sweep_entries-other srv es j jobs h)
]

sweep_entries-gone :
    (srv : Stager) (es : List DirEntry) (j : Bytes) (jobs : Map Bytes)
    → lookup j jobs ≡ none
    → lookup j (sweep_entries srv es jobs).1 ≡ none
unfolding sweep_entries
sweep_entries-gone srv [] j jobs h = h
sweep_entries-gone srv (e ∷ es) j jobs h = elim (Bool-cases (goes srv e)) [
  | inl g ↦
      rw g (
        sweep_entries-gone srv es j (erase e.name jobs)
          (ground (arith, lookup-erase e.name j jobs)))
  | inr g ↦ rw g (sweep_entries-gone srv es j jobs h)
]

sweep_entries-job :
    (srv : Stager) (es : List DirEntry) (e : DirEntry) (jobs : Map Bytes)
    → In e es
    → goes srv e ≡ true
    → lookup e.name (sweep_entries srv es jobs).1 ≡ none
unfolding sweep_entries
sweep_entries-job srv [] e jobs m g = absurd m
sweep_entries-job srv (x ∷ es) e jobs (inl q) g =
    let gx = ap (goes srv) (sym q) ∙ g in
    rw gx (
      sweep_entries-gone srv es e.name (erase x.name jobs)
        (lookup-erase x.name e.name jobs ∙ rw (sym q, str_eq_refl e.name) refl))
sweep_entries-job srv (x ∷ es) e jobs (inr m) g = sweep_entries-job srv es e _ m g

-- The sweep at the start leaves no file of a job that it saw, and touches no other file, if the
-- files can be removed.
pub sweep_restore_spool-lookup :
    (srv : Stager) (es : List DirEntry) (e : DirEntry) (j : Bytes) (jobs : Map Bytes)
    → ((name : Bytes) → srv.remove_fails name ≡ false)
    → In e es
    → e.is_dir ≡ false
    → is_job_file e.name ≡ true
    → is_job_file j ≡ false
    → (lookup e.name (sweep_restore_spool srv (ok es) jobs).1 ≡ none)
      × (lookup j (sweep_restore_spool srv (ok es) jobs).1 ≡ lookup j jobs)
unfolding sweep_restore_spool
sweep_restore_spool-lookup srv es e j jobs h m d f n = (
  sweep_entries-job srv es e jobs m (rw (d, f, h e.name) refl),
  sweep_entries-other srv es j jobs n,
)
