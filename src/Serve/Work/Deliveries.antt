-- ===== src/Serve/Work/Deliveries.antt =====
-- deliverAllAction of internal/serve/serve.go: the files of the spool behind it.
use gitd.Prelude.{
  suc, str_eq_iff, ℕ, ◌≡◌, refl, ◌∙◌, Bool, true, false, List, [], ◌∷◌, Bytes, Option, none, some,
  str_eq, arith,
}
use gitd.Prelude.Map.{lookup}
use gitd.Prelude.Result.{Result, ok, err}
use gitd.Config.{PluginConfig}
use gitd.Spool.{Store, Record, Files, SpoolError, file_name, read, read_file, temp_name}
use gitd.Spool.Write.{IsFresh, write_atomic-lookup}
use gitd.Spool.Retry.{update, set_state, record_failure}
use gitd.Deliverer.{
  Deliverer, Plugin, deliver, attempt, after_attempt, dead_letter_event, plugin_config,
  build_plugin,
}
use gitd.Serve.Work.{deliver_each, deliver_all_action}

module _ (st : Store) (id : Bytes) where
  -- every file but that of the event is as it was
  abbrev pub Keeps : Files → Files → Type 0
  Keeps d d' = (j : Bytes) → str_eq (file_name id) j ≡ false → lookup j d' ≡ lookup j d

  update-Keeps :
      (mutate : Record → Record) (d : Files)
      → IsFresh st (file_name id) d
      → Keeps d (update st id mutate d).1
  unfolding update
  update-Keeps mutate d f j n = on_old (read_file st (file_name id) d) refl
    where
      on_old :
          (x : Result SpoolError Record)
          → read_file st (file_name id) d ≡ x
          → lookup j (update st id mutate d).1 ≡ lookup j d
      on_old (err e) p = rw (p, update) refl
      on_old (ok old) p =
          rw (p, update)
            (write_atomic-lookup st (file_name id) (mutate old) d f j ∙ ground (arith, n))

  attempt-Keeps :
      (timeout : ℕ) (plugin : Plugin) (d : Files)
      → IsFresh st (file_name id) d
      → Keeps d (attempt st id timeout plugin d).1
  unfolding attempt after_attempt set_state record_failure
  attempt-Keeps timeout plugin d f j n = on_read (read st id d) refl
    where
      after : (b : Bool) → lookup j (after_attempt st id b d).1 ≡ lookup j d
      after true = update-Keeps _ d f j n
      after false = update-Keeps _ d f j n

      on_read :
          (x : Result SpoolError Record)
          → read st id d ≡ x
          → lookup j (attempt st id timeout plugin d).1 ≡ lookup j d
      on_read (err e) p = rw (p, attempt) refl
      on_read (ok rec) p = rw (p, attempt) (after (plugin timeout rec.event))

  deliver-Keeps :
      (s : Deliverer) (plugin_id : Bytes) (d : Files)
      → IsFresh st (file_name id) d
      → Keeps d (deliver s st plugin_id id d).1
  unfolding deliver dead_letter_event set_state
  deliver-Keeps s plugin_id d f j n = on_config (plugin_config s.plugins plugin_id) refl
    where
      on_build :
          (cfg : PluginConfig) (o : Option Plugin)
          → plugin_config s.plugins plugin_id ≡ some cfg
          → build_plugin s.registry cfg ≡ o
          → lookup j (deliver s st plugin_id id d).1 ≡ lookup j d
      on_build cfg none p q = rw (p, deliver, q) (update-Keeps _ d f j n)
      on_build cfg (some plugin) p q = rw (p, deliver, q) (attempt-Keeps _ plugin d f j n)

      on_config :
          (o : Option PluginConfig)
          → plugin_config s.plugins plugin_id ≡ o
          → lookup j (deliver s st plugin_id id d).1 ≡ lookup j d
      on_config none p = rw (p, deliver) (update-Keeps _ d f j n)
      on_config (some cfg) p = on_build cfg (build_plugin s.registry cfg) p refl

str_eq-flip : (x y : Bytes) → str_eq x y ≡ false → str_eq y x ≡ false
str_eq-flip x y h = ground (arith, str_eq_iff x y, str_eq_iff y x)

module _ (env : ℕ → Store) (id : Bytes) where
  -- no temporary name is taken
  abbrev pub AreFresh : Files → Type 0
  AreFresh d = (i : ℕ) → IsFresh (env i) (file_name id) d

  deliver_each-Keeps :
      (s : Deliverer) (i : ℕ) (ps : List PluginConfig) (d : Files)
      → AreFresh d
      → (j : Bytes) → str_eq (file_name id) j ≡ false
      → lookup j (deliver_each s env i id ps d).1 ≡ lookup j d
  unfolding deliver_each
  deliver_each-Keeps s i [] d f j n = refl
  deliver_each-Keeps s i (p ∷ ps) d f j n =
      let k = deliver-Keeps (env i) id s p.id d (f i) in
      let d' = (deliver s (env i) p.id id d).1 in
      let fresh : AreFresh d' = λ m. (
        k (temp_name (env m)) (str_eq-flip (temp_name (env m)) (file_name id) (f m).1) ∙ (f m).0,
        (f m).1,
      ) in
      deliver_each-Keeps s (suc i) ps d' fresh j n ∙ k j n

  -- Delivering an event to every configured plugin, one after the other, changes no file of the spool
  -- but that of the event, whatever the plugins answer and whichever writes fail at each of them, if
  -- the temporary names are new.
  pub deliver_all_action-Keeps :
      (s : Deliverer) (d : Files) (j : Bytes)
      → AreFresh d
      → str_eq (file_name id) j ≡ false
      → lookup j (deliver_all_action s env id d).1 ≡ lookup j d
  unfolding deliver_all_action
  deliver_all_action-Keeps s d j f n = deliver_each-Keeps s 0 s.plugins d f j n
