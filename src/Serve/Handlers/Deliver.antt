-- ===== src/Serve/Handlers/Deliver.antt =====
-- handleDeliver of internal/serve/serve.go for a plugin that is not configured.
use gitd.Prelude.{◌≡◌, refl, Bool, false, Bytes, Option, some, is_nil, str_eq}
use gitd.Prelude.Result.{ok}
use gitd.Spool.{Store, Record, Files, dead, file_name}
use gitd.Spool.Write.{IsFresh}
use gitd.Spool.Stored.{IsRewritten, IsSafeRewrite, set_state-IsRewritten}
use gitd.Spool.Retry.{set_state, with_state, due}
use gitd.Deliverer.{Deliverer}
use gitd.Serve.Channel.{ServeError}
use gitd.Serve.Handlers.{handle_deliver, plugin_configured, reply, plugin_not_configured}

dead-not_due : (st : Store) (rec : Record) → rec.state ≡ dead → due st rec ≡ false
unfolding due str_eq
dead-not_due st rec h = rw h refl

-- A delivery to a plugin that is not configured is answered 404 whatever the channel says, and the
-- event, if it can be rewritten, is dead: it reads back with all else as it was, and is not due.
pub handle_deliver-unknown :
    (s : Deliverer) (st : Store) (plugin_id event_id : Bytes) (submitted : Option ServeError)
    (gone : Bool) (d : Files) (rec : Record)
    → is_nil plugin_id ≡ false
    → is_nil event_id ≡ false
    → plugin_configured s.plugins plugin_id ≡ false
    → IsSafeRewrite st event_id (with_state dead) d
    → IsFresh st (file_name event_id) d
    → (set_state st event_id dead d).0 ≡ ok rec
    → ((handle_deliver s st (some (plugin_id, event_id)) submitted gone d).0
        ≡ reply 404 plugin_not_configured)
      × IsRewritten st event_id
          (with_state dead)
          d
          (handle_deliver s st (some (plugin_id, event_id)) submitted gone d).1
          rec
      × (due st rec ≡ false)
unfolding handle_deliver
handle_deliver-unknown s st plugin_id event_id submitted gone d rec p e u safe fresh h =
    let w = set_state-IsRewritten st event_id dead d rec safe fresh h in
    rw (p, e, u) (refl, w, dead-not_due st rec (rw w.made refl))
