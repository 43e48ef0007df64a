-- ===== src/Deliverer.antt =====
-- internal/webhook/deliverer.go and registry.go: one delivery of an event to a plugin.
pub mod HttpPlugin
pub mod Outcome
use gitd.Prelude.{
  ℕ, ◌*◌, ◌≡◌, refl, Bool, true, false, List, [], ◌∷◌, Bytes, Option, none, some, if◌then◌else◌,
  str_eq,
}
use gitd.Prelude.Int.{ℤ, pos, negsuc, is_nonpos}
use gitd.Prelude.Map.{Map, lookup, insert}
use gitd.Prelude.Result.{Result, ok, err}
use gitd.Config.{PluginConfig}
use gitd.Event.{Event}
use gitd.Spool.{Store, Record, Files, SpoolError, dead_lettered, read, delivered, dead}
use gitd.Spool.Retry.{set_state, record_failure, second}

-- A plugin says whether it delivered the event within the timeout, in nanoseconds.
abbrev pub Plugin : Type 0
Plugin = ℕ → Event → Bool

-- A constructor may refuse the configuration.
abbrev pub Constructor : Type 0
Constructor = PluginConfig → Option Plugin

-- Registry.Register: `none` is the panic on a second registration
unfoldable pub register : Bytes → Constructor → Map Constructor → Option (Map Constructor)
register name c registry = elim (lookup name registry) [
  | none ↦ some (insert name c registry)
  | some other ↦ none
]

-- Registry.Build: an unknown type is refused as well
unfoldable pub build_plugin : Map Constructor → PluginConfig → Option Plugin
build_plugin registry cfg = elim (lookup cfg.kind registry) [ none ↦ none | some c ↦ c cfg ]

-- the live configuration and the registered constructors
pub record Deliverer : Type 0 where
  pub plugins : List PluginConfig
  pub registry : Map Constructor

unfoldable pub plugin_config : List PluginConfig → Bytes → Option PluginConfig
plugin_config [] id = none
plugin_config (p ∷ ps) id = if str_eq p.id id then some p else plugin_config ps id

pub data Cause : Type 0 where
  not_configured build_failed : Cause

pub data DeliverError : Type 0 where
  dead_letter : Cause → DeliverError
  dead_letter_failed read_event mark_failed record_failed : SpoolError → DeliverError
  out_of_retries : Record → DeliverError
  retry_later : ℤ → DeliverError

abbrev magnitude : ℤ → ℕ
magnitude (pos n) = n
magnitude (negsuc n) = 0

-- a missing timeout is 30 seconds
abbrev pub effective_timeout : PluginConfig → ℕ
effective_timeout cfg = if is_nonpos cfg.timeout then 30 * second else magnitude cfg.timeout

abbrev pub dead_lettered_by : Cause → Result SpoolError Record → Result DeliverError (Unit {0})
dead_lettered_by cause (err e) = err (dead_letter_failed e)
dead_lettered_by cause (ok rec) = err (dead_letter cause)

-- Deliverer.deadLetter
unfoldable pub dead_letter_event :
    Store → Bytes → Cause → Files → Result DeliverError (Unit {0}) × Files
dead_letter_event st event_id cause d =
    let (r, d') = set_state st event_id dead d in (dead_lettered_by cause r, d')

abbrev pub failure_error : Result SpoolError Record → Result DeliverError (Unit {0})
failure_error (err (dead_lettered rec)) = err (out_of_retries rec)
failure_error (err e) = err (record_failed e)
failure_error (ok rec) = err (retry_later rec.attempts)

abbrev pub marked : Result SpoolError Record → Result DeliverError (Unit {0})
marked (err e) = err (mark_failed e)
marked (ok rec) = ok tt

-- what follows the attempt: Deliverer.recordFailure, or the mark
unfoldable pub after_attempt : Store → Bytes → Bool → Files → Result DeliverError (Unit {0}) × Files
after_attempt st event_id false d =
    let (r, d') = record_failure st event_id d in (failure_error r, d')
after_attempt st event_id true d = let (r, d') = set_state st event_id delivered d in (marked r, d')

unfoldable pub attempt : Store → Bytes → ℕ → Plugin → Files → Result DeliverError (Unit {0}) × Files
attempt st event_id timeout plugin d = elim (read st event_id d) [
  | err e ↦ (err (read_event e), d)
  | ok rec ↦ after_attempt st event_id (plugin timeout rec.event) d
]

-- Deliverer.Deliver
unfoldable pub deliver :
    Deliverer → Store → Bytes → Bytes → Files → Result DeliverError (Unit {0}) × Files
deliver s st plugin_id event_id d = elim (plugin_config s.plugins plugin_id) [
  | none ↦ dead_letter_event st event_id not_configured d
  | some cfg ↦ elim (build_plugin s.registry cfg) [
    | none ↦ dead_letter_event st event_id build_failed d
    | some plugin ↦ attempt st event_id (effective_timeout cfg) plugin d
  ]
]
