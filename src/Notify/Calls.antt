-- ===== src/Notify/Calls.antt =====
-- Notify of internal/cli/notify.go: its calls to the server, in order.
use gitd.Prelude.{
  ℕ, ◌+◌, Option, none, some, ◌≡◌, refl, ap, Bool, true, false, List, [], ◌∷◌, ◌++◌, Bytes,
  Bool-cases, inl, inr, All, map, if◌then◌else◌,
}
use gitd.Prelude.Result.{Result, ok, err, >>=-eq-ok}
use gitd.Event.{Event}
use gitd.Spool.{Files, SpoolError, write_event}
use gitd.Config.{PluginConfig}
use gitd.Hooks.{RefLine}
use gitd.Notify.{
  Notifier, build_event, Call, Calls, bundle, deliver, call, deliver_ids, deliver_sync, spool_lines,
  notify_repo,
}

-- every event to every sync plugin, plugin by plugin
abbrev pub deliveries : List PluginConfig → List Bytes → List Call
deliveries [] ids = []
deliveries (p ∷ ps) ids =
    let rest = deliveries ps ids in if p.sync then map (deliver p.id) ids ++ rest else rest

-- Calls that succeeded were all answered, and are the given ones.
abbrev AllAnswered : (Call → Bool) → Calls → List Call → Type 0
AllAnswered answers c want = c.0 ≡ ok tt → (c.1 ≡ want) × All (λ x. answers x ≡ true) want

call-AllAnswered :
    (answers : Call → Bool) (c : Call) (rest : Calls) (want : List Call)
    → AllAnswered answers rest want
    → AllAnswered answers (call answers c rest) (c ∷ want)
call-AllAnswered answers c rest want ih = elim (Bool-cases (answers c)) [
  | inl e ↦ rw e (λ h. (ap (λ l. c ∷ l) (ih h).0, (refl, (ih h).1)))
  | inr e ↦ rw e (λ h. cc h)
]

deliver_ids-AllAnswered :
    (answers : Call → Bool) (p : Bytes) (ids : List Bytes) (rest : Calls) (want : List Call)
    → AllAnswered answers rest want
    → AllAnswered answers (deliver_ids answers p ids rest) (map (deliver p) ids ++ want)
unfolding deliver_ids
deliver_ids-AllAnswered answers p [] rest want h = h
deliver_ids-AllAnswered answers p (id ∷ ids) rest want h =
    call-AllAnswered answers (deliver p id) (deliver_ids answers p ids rest)
      (map (deliver p) ids ++ want) (deliver_ids-AllAnswered answers p ids rest want h)

deliver_sync-AllAnswered :
    (answers : Call → Bool) (ps : List PluginConfig) (ids : List Bytes)
    → AllAnswered answers (deliver_sync answers ps ids) (deliveries ps ids)
unfolding deliver_sync
deliver_sync-AllAnswered answers [] ids = λ h. (refl, tt)
deliver_sync-AllAnswered answers (p ∷ ps) ids =
    on_sync p.sync refl (deliver_sync-AllAnswered answers ps ids)
  where
    on_sync :
        (b : Bool)
        → p.sync ≡ b
        → AllAnswered answers (deliver_sync answers ps ids) (deliveries ps ids)
        → AllAnswered answers (deliver_sync answers (p ∷ ps) ids) (deliveries (p ∷ ps) ids)
    on_sync true e ih = rw e (
        deliver_ids-AllAnswered answers p.id ids (deliver_sync answers ps ids) (deliveries ps ids)
          ih)
    on_sync false e ih = rw e ih

-- The writes of a loop that failed nowhere: from the k-th line on, in the directory d, they spool
-- the events with these ids and leave d'. The write of each event succeeded, and the next line meets the
-- directory as that write left it.
pub data IsSpooled (n : Notifier) (repo : Bytes)
    : ℕ → List RefLine → Files → List Bytes → Files → Type 0 where
  no_lines : (k : ℕ) (d : Files) → IsSpooled n repo k [] d [] d
  no_event :
      (k : ℕ) (r : RefLine) (rs : List RefLine) (d : Files) (ids : List Bytes) (d' : Files)
      → build_event n.rev_list n.now repo r ≡ none
      → IsSpooled n repo k rs d ids d'
      → IsSpooled n repo k (r ∷ rs) d ids d'
  spooled :
      (k : ℕ) (r : RefLine) (rs : List RefLine) (d : Files) (ids : List Bytes) (d' : Files)
      → (ev : Event) (id : Bytes) → build_event n.rev_list n.now repo r ≡ some ev
      → (write_event (n.stores k) ev d).0 ≡ ok id
      → IsSpooled n repo (k + 1) rs (write_event (n.stores k) ev d).1 ids d'
      → IsSpooled n repo k (r ∷ rs) d (id ∷ ids) d'

spool_lines-IsSpooled :
    (n : Notifier) (repo : Bytes) (k : ℕ) (lines : List RefLine) (d : Files) (ids : List Bytes)
    → (spool_lines n repo k lines d).0 ≡ ok ids
    → IsSpooled n repo k lines d ids (spool_lines n repo k lines d).1
unfolding spool_lines
spool_lines-IsSpooled n repo k [] d ids h =
    let none_left : ids ≡ [] = cc h in rw none_left (no_lines k d)
spool_lines-IsSpooled n repo k (r ∷ rs) d ids h =
    on_event (λ k d ids q. spool_lines-IsSpooled n repo k rs d ids q)
      (build_event n.rev_list n.now repo r) refl h
  where
    on_event :
        ((k : ℕ) (d : Files) (ids : List Bytes)
          → (spool_lines n repo k rs d).0 ≡ ok ids
          → IsSpooled n repo k rs d ids (spool_lines n repo k rs d).1)
        → (o : Option Event) → build_event n.rev_list n.now repo r ≡ o
        → (spool_lines n repo k (r ∷ rs) d).0 ≡ ok ids
        → IsSpooled n repo k (r ∷ rs) d ids (spool_lines n repo k (r ∷ rs) d).1
    on_event ih none e q =
        let rest = ih k d ids (rw (e, spool_lines) at q) in
        rw (e, spool_lines) (no_event k r rs d ids (spool_lines n repo k rs d).1 e rest)
    on_event ih (some ev) e q = on_write ih (write_event (n.stores k) ev d).0 refl q
      where
        on_write :
            ((k : ℕ) (d : Files) (ids : List Bytes)
              → (spool_lines n repo k rs d).0 ≡ ok ids
              → IsSpooled n repo k rs d ids (spool_lines n repo k rs d).1)
            → (w : Result SpoolError Bytes) → (write_event (n.stores k) ev d).0 ≡ w
            → (spool_lines n repo k (r ∷ rs) d).0 ≡ ok ids
            → IsSpooled n repo k (r ∷ rs) d ids (spool_lines n repo k (r ∷ rs) d).1
        on_write ih (err x) p z = cc (rw (e, p, spool_lines) at z)
        on_write ih (ok id) p z =
            let d1 = (write_event (n.stores k) ev d).1 in
            let (ids', y, same) =
              >>=-eq-ok (spool_lines n repo (k + 1) rs d1).0 (λ l. ok (id ∷ l))
                (rw (e, p, spool_lines) at z) in
            let rest = ih (k + 1) d1 ids' y in
            let all : ids ≡ id ∷ ids' = cc same in
            rw (all, e, p, spool_lines)
              (spooled k r rs d ids' (spool_lines n repo (k + 1) rs d1).1 ev id e p rest)

-- If the hook succeeds for a repository, every write to the spool succeeded: each line with an event
-- has one, written to the directory that the writes before it left, and the spool is as the last
-- one left it. The hook's calls were one bundle upload and then, plugin by plugin, the delivery of
-- every spooled event to each sync plugin, and the server answered each of them.
pub notify_repo-calls :
    (n : Notifier) (name : Bytes) (lines : List RefLine) (d : Files)
    → (notify_repo n name lines d).0 ≡ ok tt
    → (ids : List Bytes) × IsSpooled n name 0 lines d ids (notify_repo n name lines d).2
      × ((notify_repo n name lines d).1 ≡ bundle name ∷ deliveries n.plugins ids)
      × All (λ c. n.answers c ≡ true) (bundle name ∷ deliveries n.plugins ids)
unfolding notify_repo
notify_repo-calls n name lines d h = on_spool (spool_lines n name 0 lines d).0 refl h
  where
    on_spool :
        (r : Result SpoolError (List Bytes))
        → (spool_lines n name 0 lines d).0 ≡ r
        → (notify_repo n name lines d).0 ≡ ok tt
        → (ids : List Bytes) × IsSpooled n name 0 lines d ids (notify_repo n name lines d).2
          × ((notify_repo n name lines d).1 ≡ bundle name ∷ deliveries n.plugins ids)
          × All (λ c. n.answers c ≡ true) (bundle name ∷ deliveries n.plugins ids)
    on_spool (err e) p k = cc (rw (p, notify_repo) at k)
    on_spool (ok ids) p k =
        let (a, b) =
          call-AllAnswered n.answers (bundle name) (deliver_sync n.answers n.plugins ids)
            (deliveries n.plugins ids) (deliver_sync-AllAnswered n.answers n.plugins ids)
            (rw (p, notify_repo) at k) in
        (
          ids,
          rw (p, notify_repo) (spool_lines-IsSpooled n name 0 lines d ids p),
          rw (p, notify_repo) a,
          b,
        )
