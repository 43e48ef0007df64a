-- ===== src/Tests/Events.antt =====
-- A spool of one event, with a small codec written out, and a delivery from it.
use gitd.Spool.{take_steps}
use gitd.Config.{load_webhooks, validate, plugin_errors, type_errors, PluginConfig, with_defaults}
use gitd.Config.Valid.{IsValid, DistinctIds, load_webhooks-IsValid}
use gitd.Prelude.{
  ◌∙◌, ℕ, ◌==◌, ◌≡◌, ◌≢◌, refl, sym, List, [], ◌∷◌, ◌++◌, Bytes, codes, true, false, All, In,
  Option, none, some, str_eq, inl, inr, if◌then◌else◌, cut, Bool-cases, str_eq_eq, ◌&&◌, ap,
}
use gitd.Spool.Retry.Budget.{fail_record-event, fail_all, fail_all-budget, fail_all-not_due}
use gitd.Spool.{
  decode_record, read_all, purge_loop, purge_one, delete, Store, Record, Files, delivered, dead,
  write_atomic, crash, write_event, read, fresh_record, purge, file_name, expired, list, id_of,
  read_file,
}
use gitd.Spool.Retry.{
  update, next_retry_at, due_ids, set_state, due, catch_up, record_failure, fail_record, with_state,
}
use gitd.Deliverer.{plugin_config, build_plugin, attempt, after_attempt, Deliverer, deliver}
use gitd.Prelude.Int.{ℤ, pos, negsuc}
use gitd.Prelude.Map.{lookup}
use gitd.Prelude.Sorted.{IsSorted}
use gitd.Prelude.Result.{ok}
use gitd.Event.{Event, check_version}
use gitd.Spool.Write.{write_atomic-lookup, renamed}
use gitd.Spool.Stored.{IsRewritten, write_event-read, record_failure-IsRewritten}
use gitd.Spool.Listing.{IsRead, list_sound}
use gitd.Spool.Purge.{WellNamed, purge_exact}
use gitd.Spool.CatchUp.{IsDueId, catch_up_sound, catch_up_complete, catch_up-leftover}
use gitd.Deliverer.Outcome.{IsDelivered, deliver-IsDelivered}

abbrev pub event_of : Bytes → Event
event_of id = record {
  schema_version = pos 1;
  event_id = id;
  created_at = codes "then";
  repo = codes "r";
  ref = codes "refs/heads/main";
  kind = codes "push";
  commits = [];
}

-- the attempts, the state and the id
abbrev pub attempts_code : ℤ → ℕ
attempts_code (pos n) = n
attempts_code (negsuc n) = 0

abbrev pub test_marshal : Record → Bytes
test_marshal rec = attempts_code rec.attempts ∷ (rec.state ++ (0 ∷ rec.event.event_id))

abbrev pub record_of : ℕ → Option (Bytes × Bytes) → Option Record
record_of n none = none
record_of n (some (state, id)) = some (record {
  event = event_of id;
  state = state;
  attempts = pos n;
  next_retry_at = if n == 0 then [] else codes "later";
})

unfoldable pub test_unmarshal : Bytes → Option Record
unfolding cut
test_unmarshal [] = none
test_unmarshal (n ∷ s) = record_of n (cut s 0)

abbrev pub test_time : Bytes → Option ℕ
test_time [] = none
test_time (c ∷ s) = some 50

abbrev pub store : Store
store = record {
  now = 1000;
  retention = pos 100;
  new_id = none;
  random = codes "1";
  fails = λ step. false;
  read_fails = λ name. false;
  remove_fails = λ name. false;
  list_fails = false;
  marshal = test_marshal;
  unmarshal = test_unmarshal;
  parse_time = test_time;
  format_time = λ t. codes "later";
}

abbrev pub one : Files
one = (codes "a.json", test_marshal (fresh_record (event_of (codes "a")) (codes "a"))) ∷ []

abbrev pub record_a : Record
record_a = fresh_record (event_of (codes "a")) (codes "a")

abbrev record_b : Record
record_b = fresh_record (event_of (codes "b")) (codes "b")

write_atomic-lookup_example :
    lookup (codes "b.json") (write_atomic store (codes "b.json") record_b one).1 ≡ (
      if renamed (write_atomic store (codes "b.json") record_b one).0
        && str_eq (codes "b.json") (codes "b.json")
      then some (test_marshal record_b)
      else lookup (codes "b.json") one)
unfolding lookup str_eq
write_atomic-lookup_example =
    write_atomic-lookup store (codes "b.json") record_b one (refl, refl) (codes "b.json")

write_event-read_example :
    read store (codes "b") (write_event store (event_of (codes "b")) one).1 ≡ ok record_b
unfolding write_event write_atomic lookup str_eq test_unmarshal check_version take_steps
write_event-read_example =
    write_event-read store (event_of (codes "b")) one (codes "b") refl (refl, refl) refl refl refl

pub read_a : (old : Record) → read store (codes "a") one ≡ ok old → old ≡ record_a
unfolding read read_file lookup str_eq decode_record test_unmarshal check_version
read_a old p = cc p

record_failure-IsRewritten_example :
    IsRewritten store
      (codes "a")
      (fail_record store)
      one
      (record_failure store (codes "a") one).1
      (fail_record store record_a)
unfolding lookup str_eq record_failure update read_file decode_record test_unmarshal check_version
    write_atomic fail_record next_retry_at take_steps
record_failure-IsRewritten_example =
    record_failure-IsRewritten store (codes "a") one (fail_record store record_a)
      (record {
        readable = refl;
        codec = λ old p. rw (read_a old p) refl;
        version = λ rec. ap (λ ev. ev.schema_version) (fail_record-event store rec);
      })
      (refl, refl) (inl refl)

fail_all-budget_example :
    str_eq (fail_all (store ∷ store ∷ store ∷ store ∷ []) record_a).state dead ≡ true
fail_all-budget_example = fail_all-budget (store ∷ store ∷ store ∷ store ∷ []) record_a refl refl

abbrev done_a : Record
done_a = with_state delivered record_a

fail_all-not_due_example : due store (fail_all (store ∷ store ∷ []) done_a) ≡ false
fail_all-not_due_example = fail_all-not_due (store ∷ store ∷ []) store done_a refl

list_sound_example : IsSorted id_of (record_a ∷ []) × All (IsRead store one) (record_a ∷ [])
unfolding list read_all str_eq read_file lookup decode_record test_unmarshal check_version
list_sound_example = list_sound store one (record_a ∷ []) refl

abbrev old_one : Files
old_one = (codes "a.json", test_marshal done_a) ∷ []

old_one-WellNamed : WellNamed store old_one
unfolding read_file lookup decode_record test_unmarshal check_version
old_one-WellNamed name rec h = elim (Bool-cases (str_eq (codes "a.json") name)) [
  | inl e ↦
      let q : done_a ≡ rec = cc (rw e at h) in
      sym (str_eq_eq (codes "a.json") name e) ∙ ap (λ r. file_name (id_of r)) q
  | inr e ↦ cc (rw e at h)
]

purge_exact_example :
    lookup (codes "a.json") (purge store old_one).1
    ≡ (if expired store done_a then none else lookup (codes "a.json") old_one)
unfolding purge list read_all str_eq read_file lookup decode_record test_unmarshal check_version
    purge_loop purge_one expired delete
purge_exact_example =
    purge_exact store old_one 1 (codes "a.json") done_a old_one-WellNamed refl refl refl

catch_up_sound_example :
    IsSorted (λ s. s) (codes "a" ∷ []) × All (IsDueId store one) (codes "a" ∷ [])
unfolding catch_up list read_all str_eq read_file lookup decode_record test_unmarshal check_version
    due_ids due
catch_up_sound_example = catch_up_sound store one (codes "a" ∷ []) refl

catch_up_complete_example : In (codes "a") (codes "a" ∷ [])
unfolding catch_up list read_all str_eq read_file lookup decode_record test_unmarshal check_version
    due_ids due
catch_up_complete_example =
    catch_up_complete store one (codes "a" ∷ []) (codes "a.json") record_a refl refl refl refl

catch_up-leftover_example :
    ((ids : List Bytes) → catch_up store (crash store (codes "b.json") record_b one 1 0) ≢ ok ids)
    × ((m : ℕ) → (purge store (crash store (codes "b.json") record_b one 1 0)).0 ≢ ok m)
unfolding test_unmarshal
catch_up-leftover_example = catch_up-leftover store (codes "b.json") record_b one refl

abbrev pub test_plugin : PluginConfig
test_plugin = record {
  id = codes "p";
  kind = codes "logger";
  url_template = [];
  secret_file = [];
  sync = true;
  repos = [];
  timeout = pos 0;
  retries = pos 0;
  insecure_skip_verify = false;
}

load_webhooks-IsValid_example :
    All IsValid (with_defaults test_plugin ∷ []) × DistinctIds [] (with_defaults test_plugin ∷ [])
unfolding load_webhooks validate plugin_errors with_defaults type_errors str_eq
load_webhooks-IsValid_example =
    load_webhooks-IsValid (λ text. some (test_plugin ∷ [])) (some [])
      (with_defaults test_plugin ∷ []) refl

abbrev pub test_deliverer : Deliverer
test_deliverer = record {
  plugins = test_plugin ∷ [];
  registry = (codes "logger", λ cfg. some (λ timeout ev. true)) ∷ [];
}

deliver-IsDelivered_example :
    IsDelivered test_deliverer store (codes "p") (codes "a") one
    × ((rec : Record) × IsRewritten store
          (codes "a")
          (with_state delivered)
          one
          (deliver test_deliverer store (codes "p") (codes "a") one).1
          rec)
unfolding lookup str_eq deliver plugin_config build_plugin attempt read decode_record test_unmarshal
    check_version after_attempt set_state update write_atomic take_steps
deliver-IsDelivered_example =
    deliver-IsDelivered test_deliverer store (codes "p") (codes "a") one
      (record { readable = refl; codec = λ old p. rw (read_a old p) refl; version = λ rec. refl })
      (refl, refl) refl
