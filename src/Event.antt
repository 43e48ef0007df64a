-- ===== src/Event.antt =====
-- internal/event/event.go: the envelope of an event, and its strict decoding.
use gitd.Prelude.{ℕ, Bool, not, ◌||◌, List, Bytes, codes, Option, none, some, if◌then◌else◌, str_eq}
use gitd.Prelude.Int.{ℤ, pos, is_zero, gtz}
use gitd.Prelude.Result.{Result, ok, err}

-- SchemaVersion
abbrev pub current_version : ℤ
current_version = pos 1

pub record Commit : Type 0 where
  pub sha : Bytes
  pub subject : Bytes
  pub author : Bytes

pub record Event : Type 0 where
  pub schema_version : ℤ
  pub event_id : Bytes
  pub created_at : Bytes
  pub repo : Bytes
  pub ref : Bytes
  pub kind : Bytes
  pub commits : List Commit

pub data VersionError : Type 0 where
  missing_version newer_version : VersionError

-- the two tests of a decoded schema-version
unfoldable pub check_version : ℤ → Option VersionError
check_version v =
    if is_zero v then some missing_version else if gtz v 1 then some newer_version else none

pub data DecodeError : Type 0 where
  bad_json : DecodeError
  bad_version : VersionError → DecodeError
  unknown_type : Bytes → DecodeError
  bad_created_at : DecodeError

abbrev pub is_known_type : Bytes → Bool
is_known_type t =
    str_eq t (codes "push") || str_eq t (codes "ref-created") || str_eq t (codes "ref-deleted")

abbrev check_created : Option ℕ → Event → Result DecodeError Event
check_created none ev = err bad_created_at
check_created (some t) ev = ok ev

-- what follows the strict JSON decoding in Decode; `parse_time` is time.Parse of RFC 3339
unfoldable pub decode_checked : (Bytes → Option ℕ) → Event → Result DecodeError Event
decode_checked parse_time ev = elim (check_version ev.schema_version) [
  | some e ↦ err (bad_version e)
  | none ↦
      if not (is_known_type ev.kind)
      then err (unknown_type ev.kind)
      else check_created (parse_time ev.created_at) ev
]

-- Decode: `unmarshal` is the JSON decoder that refuses unknown fields
unfoldable pub decode :
    (Bytes → Option Event) → (Bytes → Option ℕ) → Bytes → Result DecodeError Event
decode unmarshal parse_time text = elim (unmarshal text) [
  | none ↦ err bad_json
  | some ev ↦ decode_checked parse_time ev
]
