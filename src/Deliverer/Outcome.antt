-- ===== src/Deliverer/Outcome.antt =====
-- Deliver of internal/webhook/deliverer.go: its result, the plugin and the record.
use gitd.Config.{PluginConfig}
use gitd.Prelude.{
  Bool-cases, ◌≡◌, ◌≢◌, refl, true, false, Bytes, Option, none, some, arith, inl, inr, ℕ,
}
use gitd.Deliverer.{
  failure_error, Deliverer, Plugin, plugin_config, build_plugin, effective_timeout, deliver,
  attempt, after_attempt, dead_letter_event, marked, Cause, not_configured, build_failed,
}
use gitd.Spool.Retry.{record_failure, set_state, with_state}
use gitd.Prelude.Result.{Result, ok, err}
use gitd.Spool.{Store, Record, Files, SpoolError, read, delivered, file_name}
use gitd.Spool.Write.{IsFresh}
use gitd.Spool.Stored.{IsRewritten, IsSafeRewrite, set_state-IsRewritten}

-- The plugin of the id is configured and built, and delivered the event of the record.
pub record IsDelivered (s : Deliverer) (st : Store) (plugin_id event_id : Bytes) (d : Files)
    : Type 0 where
  pub cfg : PluginConfig
  pub configured : plugin_config s.plugins plugin_id ≡ some cfg
  pub plugin : Plugin
  pub built : build_plugin s.registry cfg ≡ some plugin
  pub rec : Record
  pub was : read st event_id d ≡ ok rec
  pub accepted : plugin (effective_timeout cfg) rec.event ≡ true

marked-ok : (r : Result SpoolError Record) → marked r ≡ ok tt → (rec : Record) × (r ≡ ok rec)
marked-ok (err e) h = cc h
marked-ok (ok rec) h = (rec, refl)

failure_error-not_ok : (r : Result SpoolError Record) → failure_error r ≢ ok tt
failure_error-not_ok (ok rec) h = cc h
failure_error-not_ok (err e) h = ground (arith, h)

after_attempt-failed :
    (st : Store) (event_id : Bytes) (d : Files) → (after_attempt st event_id false d).0 ≢ ok tt
unfolding after_attempt
after_attempt-failed st event_id d h = failure_error-not_ok (record_failure st event_id d).0 h

attempt-ok :
    (st : Store) (event_id : Bytes) (timeout : ℕ) (plugin : Plugin) (d : Files)
    → (attempt st event_id timeout plugin d).0 ≡ ok tt
    → (rec : Record) × (read st event_id d ≡ ok rec)
      × (plugin timeout rec.event ≡ true)
      × (attempt st event_id timeout plugin d ≡ after_attempt st event_id true d)
unfolding attempt
attempt-ok st event_id timeout plugin d h = on_read (read st event_id d) refl h
  where
    on_read :
        (x : Result SpoolError Record)
        → read st event_id d ≡ x
        → (attempt st event_id timeout plugin d).0 ≡ ok tt
        → (rec : Record) × (read st event_id d ≡ ok rec)
          × (plugin timeout rec.event ≡ true)
          × (attempt st event_id timeout plugin d ≡ after_attempt st event_id true d)
    on_read (err e) p k = cc (rw (p, attempt) at k)
    on_read (ok rec) p k = elim (Bool-cases (plugin timeout rec.event)) [
      | inl e ↦ (rec, p, e, rw (p, attempt) (rw e))
      | inr e ↦ absurd (after_attempt-failed st event_id d (rw e at (rw (p, attempt) at k)))
    ]

dead_letter_event-not_ok :
    (st : Store) (event_id : Bytes) (cause : Cause) (d : Files)
    → (dead_letter_event st event_id cause d).0 ≢ ok tt
unfolding dead_letter_event
dead_letter_event-not_ok st event_id cause d h = ground arith

deliver-attempt :
    (s : Deliverer) (st : Store) (plugin_id event_id : Bytes) (d : Files)
    → (deliver s st plugin_id event_id d).0 ≡ ok tt
    → (cfg : PluginConfig) × (plugin : Plugin) × (plugin_config s.plugins plugin_id ≡ some cfg)
      × (build_plugin s.registry cfg ≡ some plugin)
      × (deliver s st plugin_id event_id d ≡ attempt st event_id (effective_timeout cfg) plugin d)
unfolding deliver
deliver-attempt s st plugin_id event_id d h = on_config (plugin_config s.plugins plugin_id) refl h
  where
    on_build :
        (cfg : PluginConfig) (o : Option Plugin)
        → plugin_config s.plugins plugin_id ≡ some cfg
        → build_plugin s.registry cfg ≡ o
        → (deliver s st plugin_id event_id d).0 ≡ ok tt
        → (cfg : PluginConfig) × (plugin : Plugin) × (plugin_config s.plugins plugin_id ≡ some cfg)
          × (build_plugin s.registry cfg ≡ some plugin)
          × (deliver s st plugin_id event_id d
              ≡ attempt st event_id (effective_timeout cfg) plugin d)
    on_build cfg none p q k =
        absurd (dead_letter_event-not_ok st event_id build_failed d (rw (p, deliver, q) at k))
    on_build cfg (some plugin) p q k = (cfg, plugin, p, q, rw (p, deliver, q))

    on_config :
        (o : Option PluginConfig)
        → plugin_config s.plugins plugin_id ≡ o
        → (deliver s st plugin_id event_id d).0 ≡ ok tt
        → (cfg : PluginConfig) × (plugin : Plugin) × (plugin_config s.plugins plugin_id ≡ some cfg)
          × (build_plugin s.registry cfg ≡ some plugin)
          × (deliver s st plugin_id event_id d
              ≡ attempt st event_id (effective_timeout cfg) plugin d)
    on_config none p k =
        absurd (dead_letter_event-not_ok st event_id not_configured d (rw (p, deliver) at k))
    on_config (some cfg) p k = on_build cfg (build_plugin s.registry cfg) p refl k

-- A delivery that reports success ran the configured plugin on the stored event, the plugin
-- delivered it, and the record reads back marked delivered, with no other file changed; if the
-- temporary name is new, the file can be read, and JSON gives back the new record.
pub deliver-IsDelivered :
    (s : Deliverer) (st : Store) (plugin_id event_id : Bytes) (d : Files)
    → IsSafeRewrite st event_id (with_state delivered) d
    → IsFresh st (file_name event_id) d
    → (deliver s st plugin_id event_id d).0 ≡ ok tt
    → IsDelivered s st plugin_id event_id d
      × ((rec : Record) × IsRewritten st event_id
            (with_state delivered)
            d
            (deliver s st plugin_id event_id d).1
            rec)
unfolding after_attempt
deliver-IsDelivered s st plugin_id event_id d safe f h =
    let (cfg, plugin, p, q, e) = deliver-attempt s st plugin_id event_id d h in
    let (rec, r, a, g) = attempt-ok st event_id (effective_timeout cfg) plugin d (rw e at h) in
    let (new, m) = marked-ok (set_state st event_id delivered d).0 (rw (e, g) at h) in
    (
      record {
        cfg = cfg;
        configured = p;
        plugin = plugin;
        built = q;
        rec = rec;
        was = r;
        accepted = a;
      },
      (new, rw (e, g) (set_state-IsRewritten st event_id delivered d new safe f m)),
    )
