-- ===== src/Spool.antt =====
-- internal/spool/spool.go: the durable store of events, one JSON file for each.
pub mod Write
pub mod Retry
pub mod Listing
pub mod Purge
pub mod Stored
pub mod CatchUp
use gitd.Prelude.{
  ℕ, ◌+◌, ◌≡◌, refl, Bool, true, false, not, ◌&&◌, ◌||◌, List, [], ◌∷◌, ◌++◌, Bytes, codes, Option,
  none, some, if◌then◌else◌, str_eq, is_nil, leb, take, ◌==◌, map,
}
use gitd.Prelude.Int.{ℤ, pos, negsuc, is_zero, is_nonpos}
use gitd.Prelude.Map.{Map, lookup, insert, erase}
use gitd.Prelude.Sorted.{sort_by, sort_strings}
use gitd.Prelude.Result.{Result, ok, err, ◌>>=◌}
use gitd.Event.{Event, current_version, VersionError, check_version}

-- the states of the internal block
abbrev pub pending : Bytes
pending = codes "pending"

abbrev pub delivered : Bytes
delivered = codes "delivered"

abbrev pub dead : Bytes
dead = codes "dead"

abbrev pub file_ext : Bytes
file_ext = codes ".json"

pub record Record : Type 0 where
  pub event : Event
  pub state : Bytes
  pub attempts : ℤ
  pub next_retry_at : Bytes

-- The calls of writeAtomic, in order.
pub data WriteStep : Type 0 where
  create_temp chmod write sync close rename sync_dir : WriteStep

pub data SpoolError : Type 0 where
  no_id not_found read_failed undecodable list_failed remove_failed : SpoolError
  bad_version : VersionError → SpoolError
  write_failed : WriteStep → SpoolError
  dead_lettered : Record → SpoolError

-- A store, with what one call of it meets: the clock and the retention in nanoseconds, the text
-- that CreateTemp picks, the calls to the system that fail, and the JSON and time codecs. Times count
-- from the start of the year 0.
pub record Store : Type 0 where
  pub now : ℕ
  pub retention : ℤ
  pub new_id : Option Bytes
  pub random : Bytes
  pub fails : WriteStep → Bool
  pub read_fails : Bytes → Bool
  pub remove_fails : Bytes → Bool
  pub list_fails : Bool
  pub marshal : Record → Bytes
  pub unmarshal : Bytes → Option Record
  pub parse_time : Bytes → Option ℕ
  pub format_time : ℕ → Bytes

-- the name of the temporary file
abbrev pub temp_name : Store → Bytes
temp_name st = codes ".spool-" ++ (st.random ++ file_ext)

-- The files of the spool directory by name. Ids are file names: none holds a slash.
abbrev pub Files : Type 0
Files = Map Bytes

-- the base of Store.path
abbrev pub file_name : Bytes → Bytes
file_name id = id ++ file_ext

abbrev with_version : Record → Option VersionError → Result SpoolError Record
with_version rec none = ok rec
with_version rec (some e) = err (bad_version e)

unfoldable pub decode_record : Store → Bytes → Result SpoolError Record
decode_record st text = elim (st.unmarshal text) [
  | none ↦ err undecodable
  | some rec ↦ with_version rec (check_version rec.event.schema_version)
]

unfoldable pub read_file : Store → Bytes → Files → Result SpoolError Record
read_file st name d =
    if st.read_fails name
    then err read_failed
    else elim (lookup name d) [ none ↦ err not_found | some text ↦ decode_record st text ]

-- Store.Read
unfoldable pub read : Store → Bytes → Files → Result SpoolError Record
unfolding read_file
read st id d = read_file st (file_name id) d

abbrev pub steps : List WriteStep
steps = create_temp ∷ chmod ∷ write ∷ sync ∷ close ∷ rename ∷ sync_dir ∷ []

abbrev moved_to : Store → Bytes → Option Bytes → Files → Files
moved_to st name none d = d
moved_to st name (some text) d = insert name text (erase (temp_name st) d)

-- what a step does to the directory, where the temporary file is given `text`
unfoldable pub step_effect : Store → Bytes → Bytes → WriteStep → Files → Files
step_effect st name text create_temp d = insert (temp_name st) [] d
step_effect st name text write d = insert (temp_name st) text d
step_effect st name text rename d = moved_to st name (lookup (temp_name st) d) d
step_effect st name text s d = d

-- what the failure of a step leaves: the temporary file is removed, where there is one
unfoldable pub undo : Store → WriteStep → Files → Files
undo st create_temp d = d
undo st sync_dir d = d
undo st s d = erase (temp_name st) d

unfoldable pub take_steps :
    Store → Bytes → Bytes → List WriteStep → Files → Result SpoolError (Unit {0}) × Files
take_steps st name text [] d = (ok tt, d)
take_steps st name text (s ∷ rest) d =
    if st.fails s
    then (err (write_failed s), undo st s d)
    else take_steps st name text rest (step_effect st name text s d)

unfoldable pub write_atomic : Store → Bytes → Record → Files → Result SpoolError (Unit {0}) × Files
write_atomic st name rec d = take_steps st name (st.marshal rec) steps d

abbrev is_synced : List WriteStep → Bool
is_synced [] = false
is_synced (sync ∷ ss) = true
is_synced (s ∷ ss) = is_synced ss

unfoldable pub step_effects : Store → Bytes → Bytes → List WriteStep → Files → Files
step_effects st name text [] d = d
step_effects st name text (s ∷ rest) d =
    step_effects st name text rest (step_effect st name text s d)

-- the text on the disk after some steps: no more than the first k bytes are sure before the fsync
abbrev pub on_disk : Store → Record → List WriteStep → ℕ → Bytes
on_disk st rec ss k = if is_synced ss then st.marshal rec else take k (st.marshal rec)

-- The directory after a crash that lets writeAtomic take its first n steps.
unfoldable pub crash : Store → Bytes → Record → Files → ℕ → ℕ → Files
crash st name rec d n k = step_effects st name (on_disk st rec (take n steps) k) (take n steps) d

abbrev pub id_or_new : Store → Bytes → Result SpoolError Bytes
id_or_new st (c ∷ id) = ok (c ∷ id)
id_or_new st [] = elim st.new_id [ none ↦ err no_id | some id ↦ ok id ]

abbrev pub fresh_record : Event → Bytes → Record
fresh_record ev id = record {
  event = record ev {
    event_id = id;
    schema_version = if is_zero ev.schema_version then current_version else ev.schema_version;
  };
  state = pending;
  attempts = pos 0;
  next_retry_at = [];
}

abbrev pub named : Bytes → Result SpoolError (Unit {0}) → Result SpoolError Bytes
named id (ok u) = ok id
named id (err e) = err e

-- Store.Write
unfoldable pub write_event : Store → Event → Files → Result SpoolError Bytes × Files
write_event st ev d = elim (id_or_new st ev.event_id) [
  | err e ↦ (err e, d)
  | ok id ↦ let (r, d') = write_atomic st (file_name id) (fresh_record ev id) d in (named id r, d')
]

-- filepath.Ext of a file name
unfoldable pub ext : Bytes → Bytes
ext [] = []
ext (c ∷ s) = let e = ext s in if c == b'.' && is_nil e then c ∷ s else e

-- the loop of List over the names of the directory
unfoldable pub read_all : Store → Files → List Bytes → Result SpoolError (List Record)
unfolding ext
read_all st d [] = ok []
read_all st d (name ∷ names) =
    let rest = read_all st d names in
    if not (str_eq (ext name) file_ext)
    then rest
    else do rec ← read_file st name d; recs ← rest; ok (rec ∷ recs)

abbrev pub id_of : Record → Bytes
id_of rec = rec.event.event_id

abbrev pub names_of : Files → List Bytes
names_of d = map (λ e. e.0) d

-- Store.List: os.ReadDir gives the names in order
unfoldable pub list : Store → Files → Result SpoolError (List Record)
unfolding sort_by sort_strings
list st d =
    if st.list_fails
    then err list_failed
    else do recs ← read_all st d (sort_strings (names_of d)); ok (sort_by id_of recs)

-- Store.Delete
unfoldable pub delete : Store → Bytes → Files → Result SpoolError Files
delete st id d =
    if st.remove_fails (file_name id) then err remove_failed else ok (erase (file_name id) d)

abbrev magnitude : ℤ → ℕ
magnitude (pos n) = n
magnitude (negsuc n) = n + 1

-- now.Sub(created) >= retention, for a retention above 0
unfoldable pub expired : Store → Record → Bool
expired st rec =
    if not (str_eq rec.state delivered) || is_nonpos st.retention
    then false
    else elim (st.parse_time rec.event.created_at) [
      | none ↦ false
      | some created ↦ leb (created + magnitude st.retention) st.now
    ]

-- the body of the loop of Purge: how many files it removed, and what is left
unfoldable pub purge_one : Store → Record → Files → Result SpoolError (ℕ × Files)
purge_one st rec d =
    if not (expired st rec) then ok (0, d) else do d' ← delete st (id_of rec) d; ok (1, d')

-- the count of the loop, its error if there is one, and the directory
unfoldable pub purge_loop : Store → List Record → ℕ → Files → Result (SpoolError × ℕ) ℕ × Files
purge_loop st [] n d = (ok n, d)
purge_loop st (rec ∷ recs) n d = elim (purge_one st rec d) [
  | err e ↦ (err (e, n), d)
  | ok (k, d') ↦ purge_loop st recs (n + k) d'
]

-- Store.Purge
unfoldable pub purge : Store → Files → Result (SpoolError × ℕ) ℕ × Files
purge st d = elim (list st d) [ err e ↦ (err (e, 0), d) | ok recs ↦ purge_loop st recs 0 d ]
