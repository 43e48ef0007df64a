-- ===== src/Spool/Retry.antt =====
-- internal/spool/retry.go: the retries of a failed delivery.
pub mod Budget
use gitd.Prelude.{
  ℕ, ◌+◌, ◌*◌, ◌≡◌, refl, Bool, true, false, not, List, [], ◌∷◌, Bytes, Option, none, some,
  if◌then◌else◌, str_eq, is_nil, leb, ◌==◌,
}
use gitd.Prelude.Int.{ℤ, pos, negsuc, incr}
use gitd.Prelude.Result.{Result, ok, err, ◌>>=◌}
use gitd.Spool.{
  Store, Record, Files, SpoolError, dead_lettered, pending, dead, read_file, write_atomic,
  file_name, list, id_of,
}

abbrev pub second : ℕ
second = 1000000000

-- backoffSchedule and NextRetryAt; `none` is the false result
unfoldable pub next_retry_at : ℤ → ℕ → Option ℕ
next_retry_at (negsuc n) now = none
next_retry_at (pos n) now =
    if n == 1
    then some (now + 30 * second)
    else if n == 2
    then some (now + 300 * second)
    else if n == 3
    then some (now + 1800 * second)
    else none

unfoldable pub due : Store → Record → Bool
due st rec =
    if not (str_eq rec.state pending)
    then false
    else if is_nil rec.next_retry_at
    then true
    else elim (st.parse_time rec.next_retry_at) [ none ↦ false | some next ↦ leb next st.now ]

abbrev pub given : Record → Result SpoolError (Unit {0}) → Result SpoolError Record
given rec (ok u) = ok rec
given rec (err e) = err e

unfoldable pub update : Store → Bytes → (Record → Record) → Files → Result SpoolError Record × Files
update st id mutate d = elim (read_file st (file_name id) d) [
  | err e ↦ (err e, d)
  | ok rec ↦
      let (r, d') = write_atomic st (file_name id) (mutate rec) d in (given (mutate rec) r, d')
]

abbrev pub with_state : Bytes → Record → Record
with_state state rec = record rec { state = state }

-- Store.SetState
unfoldable pub set_state : Store → Bytes → Bytes → Files → Result SpoolError Record × Files
set_state st id state d = update st id (with_state state) d

abbrev scheduled : Store → ℤ → Record → Option ℕ → Record
scheduled st attempts rec none = record rec {
  attempts = attempts;
  state = dead;
  next_retry_at = [];
}
scheduled st attempts rec (some next) = record rec {
  attempts = attempts;
  next_retry_at = st.format_time next;
}

-- what RecordFailure does to the record
unfoldable pub fail_record : Store → Record → Record
fail_record st rec =
    let attempts = incr rec.attempts in scheduled st attempts rec (next_retry_at attempts st.now)

abbrev pub or_dead : Result SpoolError Record → Result SpoolError Record
or_dead (err e) = err e
or_dead (ok rec) = if str_eq rec.state dead then err (dead_lettered rec) else ok rec

-- Store.RecordFailure: ErrDead carries the record
unfoldable pub record_failure : Store → Bytes → Files → Result SpoolError Record × Files
record_failure st id d = let (r, d') = update st id (fail_record st) d in (or_dead r, d')

unfoldable pub due_ids : Store → List Record → List Bytes
due_ids st [] = []
due_ids st (rec ∷ recs) =
    let rest = due_ids st recs in if due st rec then id_of rec ∷ rest else rest

-- Store.CatchUp
unfoldable pub catch_up : Store → Files → Result SpoolError (List Bytes)
catch_up st d = do recs ← list st d; ok (due_ids st recs)
