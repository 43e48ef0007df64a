-- ===== src/Serve/Jobs/Exchange.antt =====
-- A job of internal/serve/serve.go that internal/mirror/agent.go runs, and the result that the
-- server reads.
use gitd.Prelude.{
  ◌≡◌, refl, sym, ap, ◌∙◌, Bool, true, false, List, ◌∷◌, ◌++◌, Bytes, Option, none, some, arith,
}
use gitd.Prelude.Map.{Map, lookup}
use gitd.Prelude.Result.{Result, ok, err}
use gitd.ObjectStore.{ObjectStore}
use gitd.Spool.{WriteStep, sync_dir}
use gitd.Agent.{
  Agent, World, Outcome, Message, JobRequest, process_job, finish, finished, perform, request_ext,
  result_ext,
}
use gitd.Agent.Files.{JobWriter, write_job_file, write_job_file_self, placed}
use gitd.Serve.Jobs.{Stager, hand_over, staged, wait_result}

-- What both programs rely on for a job with an outcome: they agree on the JSON of the request and of
-- that result, the agent can read the request and write the result, and the server can read it.
pub record Agree (srv : Stager) (a : Agent) (id : Bytes) (req : JobRequest) (done : Bool)
    (m : Message) : Type 0 where
  pub request :
      (text : Bytes) → srv.encode_request req ≡ some text → a.decode_request text ≡ some req
  pub result : srv.decode_result (a.encode_result done m) ≡ some (done, m)
  pub request_read : a.read_fails (id ++ request_ext) ≡ false
  pub result_written : (s : WriteStep) → a.writer.fails s ≡ false
  pub result_read : srv.read_fails (id ++ result_ext) ≡ false

writes :
    (w : JobWriter) (name text : Bytes) (d : Map Bytes)
    → ((s : WriteStep) → w.fails s ≡ false)
    → placed (write_job_file w name text d).0 ≡ true
unfolding write_job_file
writes w name text d h = ground (
  arith,
  h WriteStep.create_temp,
  h WriteStep.chmod,
  h WriteStep.write,
  h WriteStep.sync,
  h WriteStep.close,
  h WriteStep.rename,
  h sync_dir,
)

module _ (srv : Stager) (a : Agent) (id : Bytes) (req : JobRequest) where
  finish-waits :
      (done : Bool) (m : Message) (jobs : Map Bytes) (later : List (Map Bytes))
      → Agree srv a id req done m
      → wait_result srv id (finish a id done m jobs ∷ later) ≡ ok (done, m)
  unfolding wait_result finish
  finish-waits done m jobs later ag =
      rw
        (
          write_job_file_self a.writer (id ++ result_ext) (a.encode_result done m) _
              (writes _ _ _ _ ag.result_written),
          wait_result,
        )
        (rw (ag.result_read, ag.result) refl)

  module _ {S : Type 0} (store : ObjectStore S) where
    -- the server reads what the agent's job came to
    pub job-waits :
        (text : Bytes) (w : World S) (later : List (Map Bytes))
        → Agree srv a id req (perform store a id (some req) w).0 (perform store a id (some req) w).1
        → srv.encode_request req ≡ some text
        → lookup (id ++ request_ext) w.jobs ≡ some text
        → wait_result srv id ((process_job store a id w).jobs ∷ later)
          ≡ ok ((perform store a id (some req) w).0, (perform store a id (some req) w).1)
    unfolding process_job
    job-waits text w later ag e h =
        rw (h, process_job)
          (rw (ag.request_read, ag.request text e)
            (by_outcome (perform store a id (some req) w) ag))
      where
        by_outcome :
            (o : Outcome)
            → Agree srv a id req o.0 o.1
            → wait_result srv id ((finished store a id w o).jobs ∷ later) ≡ ok (o.0, o.1)
        by_outcome (done, m, fs) x = finish-waits done m w.jobs later x

    -- and the file system is what the job left
    pub job-fs :
        (text : Bytes) (w : World S) {done : Bool} {m : Message}
        → Agree srv a id req done m
        → srv.encode_request req ≡ some text
        → lookup (id ++ request_ext) w.jobs ≡ some text
        → (process_job store a id w).fs ≡ (perform store a id (some req) w).2
    unfolding process_job
    job-fs text w ag e h =
        rw (h, process_job)
          (rw (ag.request_read, ag.request text e) (by_outcome (perform store a id (some req) w)))
      where
        by_outcome : (o : Outcome) → (finished store a id w o).fs ≡ o.2
        by_outcome (done, m, fs) = refl

-- the same, from what the agent needs
pub agent-fs :
    {S : Type 0} (store : ObjectStore S) (a : Agent) (id text : Bytes) (req : JobRequest)
    (w : World S)
    → lookup (id ++ request_ext) w.jobs ≡ some text
    → a.read_fails (id ++ request_ext) ≡ false
    → a.decode_request text ≡ some req
    → (process_job store a id w).fs ≡ (perform store a id (some req) w).2
unfolding process_job
agent-fs store a id text req w h r d =
    rw (h, process_job) (rw (r, d) (by_outcome (perform store a id (some req) w)))
  where
    by_outcome : (o : Outcome) → (finished store a id w o).fs ≡ o.2
    by_outcome (done, m, fs) = refl

-- a request that was handed over is in the spool
pub record IsHandedOver (srv : Stager) (id : Bytes) (req : JobRequest) (i : Bytes)
    (d d' : Map Bytes) : Type 0 where
  pub same : i ≡ id
  pub text : Bytes
  pub encoded : srv.encode_request req ≡ some text
  pub there : lookup (id ++ request_ext) d' ≡ some text
  pub written : d' ≡ (write_job_file srv.writer (id ++ request_ext) text d).1

pub hand_over-ok :
    (srv : Stager) (id : Bytes) (req : JobRequest) (i : Bytes) (d d' : Map Bytes)
    → hand_over srv id req d ≡ (ok i, d')
    → IsHandedOver srv id req i d d'
unfolding hand_over
hand_over-ok srv id req i d d' h = on_text (srv.encode_request req) refl
  where
    on_written :
        (text : Bytes) (o : Result WriteStep (Unit {0}) × Map Bytes)
        → srv.encode_request req ≡ some text
        → write_job_file srv.writer (id ++ request_ext) text d ≡ o
        → staged id o ≡ (ok i, d')
        → IsHandedOver srv id req i d d'
    on_written text (err e, m) p q k = cc
    on_written text (ok u, m) p q k =
        let at : m ≡ d' = ap (λ x. x.1) k in
        record {
          same = cc (ap (λ x. x.0) k);
          text = text;
          encoded = p;
          there =
              ap (λ x. lookup (id ++ request_ext) x) (sym at ∙ sym (ap (λ x. x.1) q))
              ∙ write_job_file_self srv.writer (id ++ request_ext) text d (rw q refl);
          written = sym at ∙ sym (ap (λ x. x.1) q);
        }

    on_text : (o : Option Bytes) → srv.encode_request req ≡ o → IsHandedOver srv id req i d d'
    on_text none p = cc (rw (p, hand_over) at h)
    on_text (some text) p = on_written text _ p refl (rw (p, hand_over) at h)

pub hand_over-staged :
    (srv : Stager) (id text : Bytes) (req : JobRequest) (d : Map Bytes)
    → srv.encode_request req ≡ some text
    → hand_over srv id req d ≡ staged id (write_job_file srv.writer (id ++ request_ext) text d)
unfolding hand_over
hand_over-staged srv id text req d e = rw (e, hand_over) refl
