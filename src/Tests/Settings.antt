-- ===== src/Tests/Settings.antt =====
-- A reload of both configuration files.
use gitd.Prelude.{◌≡◌}
use gitd.Config.Duration.{parse_duration, parse_int, day, parse_duration-exact}
use gitd.Prelude.{◌≤◌, ◌*◌, ◌↔◌, cut_suffix, str_eq, none, codes, refl, [], some}
use gitd.Prelude.Int.{pos}
use gitd.Prelude.Result.{ok}
use gitd.Config.Gitd.{gitd_errors, default_config, ConfigFiles, Runtime, reload}
use gitd.Config.Gitd.Reload.{IsLive, reload-IsLive}

abbrev live : Runtime
live = record { gitd = default_config; webhooks = [] }

-- a new gitd.yaml with an unknown object format, and a valid webhooks.yaml
abbrev files : ConfigFiles
files = record {
  gitd_file = some (codes "sha512");
  webhooks_file = some [];
  decode_gitd = λ text c. some (record c { object_format = text });
  decode_webhooks = λ text. some [];
}

live-IsLive : IsLive live
unfolding gitd_errors str_eq default_config
live-IsLive = record { gitd_valid = refl; plugins_valid = tt; ids_distinct = tt }

reload-IsLive_example : IsLive (reload files live).1
reload-IsLive_example = reload-IsLive files live live-IsLive

parse_duration-exact_example :
    (parse_duration (λ s. none) (codes "90d") ≡ ok (pos (90 * day))) ↔ (90 ≤ 106751)
unfolding parse_int cut_suffix str_eq
parse_duration-exact_example =
    parse_duration-exact (λ s. none) (codes "90d") (codes "90") 90 refl refl
