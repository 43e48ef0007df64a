-- ===== src/Cli/Replay.antt =====
-- The loop of spoolReplay in internal/cli/spool.go.
use gitd.Prelude.{◌≡◌, refl, ap, List, [], ◌∷◌, Bytes, Option, map, All}
use gitd.Prelude.Result.{Result, ok, err}
use gitd.Config.{PluginConfig}
use gitd.Serve.Handlers.{Reply}
use gitd.Cli.{ClientError, client_result, replay_each}

-- A replay that succeeds has called every plugin, in order, and each was answered 200; one that fails
-- has stopped at a plugin that was not.
pub replay_each-ok :
    (call : Bytes → Option Reply) (ps : List PluginConfig)
    → (replay_each call ps).1 ≡ ok tt
    → ((replay_each call ps).0 ≡ map (λ p. p.id) ps)
      × All (λ p. client_result (call p.id) ≡ ok tt) ps
unfolding replay_each
replay_each-ok call [] h = (refl, tt)
replay_each-ok call (p ∷ ps) h = on_reply (client_result (call p.id)) refl (replay_each-ok call ps)
  where
    on_reply :
        (r : Result ClientError (Unit {0}))
        → client_result (call p.id) ≡ r
        → ((replay_each call ps).1 ≡ ok tt
            → ((replay_each call ps).0 ≡ map (λ p. p.id) ps)
              × All (λ p. client_result (call p.id) ≡ ok tt) ps)
        → ((replay_each call (p ∷ ps)).0 ≡ map (λ p. p.id) (p ∷ ps))
          × All (λ p. client_result (call p.id) ≡ ok tt) (p ∷ ps)
    on_reply (err e) q ih = cc (rw (q, replay_each) at h)
    on_reply (ok u) q ih =
        let (a, b) = ih (rw (q, replay_each) at h) in
        (rw (q, replay_each) (ap (λ l. p.id ∷ l) a), (q, b))
