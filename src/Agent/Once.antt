-- ===== src/Agent/Once.antt =====
-- processJob of internal/mirror/agent.go, called again for the same job.
use gitd.Agent.{
  unreadable, Agent, World, Message, Outcome, finish, process_job, request_ext, result_ext,
  bundle_ext, finished, perform,
}
use gitd.Prelude.{
  ◌≡◌, refl, Bool, false, [], ◌∷◌, ◌++◌, Bytes, Option, none, some, str_eq, str_eq_refl, arith,
  Bool-cases, inl, inr,
}
use gitd.Prelude.Map.{Map, lookup, erase, lookup-erase}
use gitd.Agent.Files.{write_job_file-none}
use gitd.ObjectStore.{ObjectStore}

pub str_eq-append_both : (p x y : Bytes) → str_eq (p ++ x) (p ++ y) ≡ str_eq x y
unfolding str_eq
str_eq-append_both [] x y = refl
str_eq-append_both (c ∷ p) x y = ground (arith, str_eq-append_both p x y)

result_not_request : (id : Bytes) → str_eq (id ++ result_ext) (id ++ request_ext) ≡ false
unfolding str_eq
result_not_request id = str_eq-append_both id result_ext request_ext

finish-consumes :
    (a : Agent) (id : Bytes) (done : Bool) (message : Message) (jobs : Map Bytes)
    → a.remove_fails (id ++ request_ext) ≡ false
    → lookup (id ++ request_ext) (finish a id done message jobs) ≡ none
unfolding finish
finish-consumes a id done message jobs h =
    let req = id ++ request_ext in
    let bun = id ++ bundle_ext in
    let taken = erase req jobs in
    write_job_file-none a.writer (id ++ result_ext) (a.encode_result done message) req _
      (result_not_request id)
      (rw h
        (ground (arith, str_eq_refl req, lookup-erase req req jobs, lookup-erase bun req taken)))

module _ {S : Type 0} (store : ObjectStore S) where
  process_job-none :
      (a : Agent) (id : Bytes) (w : World S)
      → lookup (id ++ request_ext) w.jobs ≡ none
      → process_job store a id w ≡ w
  unfolding process_job
  process_job-none a id w h = rw (h, process_job)

  process_job-consumes :
      (a : Agent) (id : Bytes) (w : World S)
      → a.remove_fails (id ++ request_ext) ≡ false
      → lookup (id ++ request_ext) (process_job store a id w).jobs ≡ none
  unfolding process_job
  process_job-consumes a id w h = on_request (lookup (id ++ request_ext) w.jobs) refl
    where
      finished-consumes :
          (o : Outcome) → lookup (id ++ request_ext) (finished store a id w o).jobs ≡ none
      finished-consumes (done, message, fs) = finish-consumes a id done message w.jobs h

      on_request :
          (o : Option Bytes)
          → lookup (id ++ request_ext) w.jobs ≡ o
          → lookup (id ++ request_ext) (process_job store a id w).jobs ≡ none
      on_request none e = rw (e, process_job) e
      on_request (some text) e = elim (Bool-cases (a.read_fails (id ++ request_ext))) [
        | inl r ↦ rw (e, process_job) (rw r (finished-consumes (false, unreadable, w.fs)))
        | inr r ↦
            rw (e, process_job)
              (rw r (finished-consumes (perform store a id (a.decode_request text) w)))
      ]

  -- If the request can be removed, processing a job a second time changes nothing: neither the
  -- repositories nor the result of the first time.
  pub process_job-again :
      (a : Agent) (id : Bytes) (w : World S)
      → a.remove_fails (id ++ request_ext) ≡ false
      → process_job store a id (process_job store a id w) ≡ process_job store a id w
  process_job-again a id w h =
      process_job-none a id (process_job store a id w) (process_job-consumes a id w h)
