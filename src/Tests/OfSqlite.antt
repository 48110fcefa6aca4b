-- ===== src/Tests/OfSqlite.antt =====
-- Examples of sessions in rows.
use Prim.Native.Char.{code}
use korai_sdk_go.Prelude.{
  ℕ, zero, suc, String, ◌≡◌, refl, ap, sym, ◌∙◌, true, Option, none, some, List, [], ◌∷◌, nat_eq,
  eq_iff, arith, if◌then◌else◌,
}
use korai_sdk_go.Prelude.Sorting.{str_less}
use korai_sdk_go.Session.{Session}
use korai_sdk_go.Session.FileStore.{Bytes, plain_codec}
use korai_sdk_go.Session.SqliteStore.{
  Row, Engine, RowLibrary, Database, codec_for, save, load, latest,
}
use korai_sdk_go.Session.SqliteStore.Rows.{ReadsBack, IsReadable}
use korai_sdk_go.Session.SqliteStore.Refined.{
  IsAtomic, IsOpen, Op, save_op, delete_op, SavesReadBack, replay, run_ops, run_ops-refines,
}
use korai_sdk_go.Session.SqliteStore.Stale.{latest_stale}
use korai_sdk_go.Tests.Fixtures.{session}
use korai_sdk_go.Tests.MessageJson.{hi, marshal_parts, marshal_messages, read_messages, reads_back}

-- A table in memory.
abbrev pub table : Engine
table = record { State = List Row; exec = λ st f. (true, f st); query = λ st. some st }

pub table-IsAtomic : IsAtomic table
table-IsAtomic = record {
  query-exec = λ st f rows q ok. ap (λ o. mapped f o) q;
  query-exec_failed = λ st f failed. absurd (ground (arith, failed));
}
  where
    mapped : (List Row → List Row) → Option (List Row) → Option (List Row)
    mapped f none = none
    mapped f (some rows) = some (f rows)

-- Two seconds of the clock, the fraction of the second one being half of a second.
fraction_comes_first : str_less "2026-01-01T12:00:00.5Z" "2026-01-01T12:00:00Z" ≡ true
unfolding str_less
fraction_comes_first = refl

-- A time text that comes earlier the later the time is.
unfoldable pub format_time : ℕ → String
format_time zero = "b"
format_time (suc n) = String.◌∷◌ "a" (format_time n)

abbrev pub next : Option ℕ → Option ℕ
next none = none
next (some n) = some (suc n)

unfoldable pub parse_time : String → Option ℕ
parse_time String.[] = none
parse_time (String.◌∷◌ c s) =
    let rest = next (parse_time s) in if nat_eq (code c) 0x61 then rest else some 0

parse_time-format_time : (t : ℕ) → parse_time (format_time t) ≡ some t
unfolding format_time parse_time
parse_time-format_time zero = refl
parse_time-format_time (suc n) = ap next (parse_time-format_time n)

abbrev pub rows_json : RowLibrary
rows_json = record {
  marshal_messages = marshal_messages;
  unmarshal_messages = λ b. some (read_messages b);
  format_time = format_time;
  parse_time = parse_time;
}

pub rows_json-IsReadable : IsReadable rows_json plain_codec
unfolding codec_for
rows_json-IsReadable = record { decode-encode = λ n b c q. sym q; codec_for-name = refl }

-- A session whose messages have this JSON.
pub of_json :
    (x : Session) (c : Bytes)
    → marshal_messages x.messages ≡ some c
    → read_messages c ≡ x.messages
    → ReadsBack rows_json x
of_json x c written read = record {
  messages = λ b q.
      reads_back rows_json.unmarshal_messages x.messages c b (ap (λ ms. some ms) read)
        (sym written ∙ q);
  created = parse_time-format_time x.created;
  updated = parse_time-format_time x.updated;
}

abbrev nothing : Database table
nothing = record { db = []; nonces = 0 }

nothing-IsOpen : IsOpen rows_json plain_codec table nothing.db
nothing-IsOpen = record { rows = []; answers = refl; scanned = tt }

abbrev changes : List Op
changes =
    save_op (session "a" (hi ∷ []))
    ∷ save_op (session "b" [])
    ∷ save_op (record (session "a" (hi ∷ hi ∷ [])) { created = 9 })
    ∷ delete_op "b"
    ∷ []

changes-ReadBack : SavesReadBack rows_json changes
unfolding marshal_messages marshal_parts
changes-ReadBack = (
  of_json (session "a" (hi ∷ [])) (2 ∷ 4 ∷ 6 ∷ []) refl refl,
  (
    of_json (session "b" []) [] refl refl,
    (
      of_json (record (session "a" (hi ∷ hi ∷ [])) { created = 9 }) (2 ∷ 4 ∷ 6 ∷ 2 ∷ 4 ∷ 6 ∷ [])
          refl refl,
      tt,
    ),
  ),
)

run_ops-refines_example :
    load rows_json plain_codec table (run_ops rows_json plain_codec table changes nothing).1 "a"
    ≡ replay changes
        (run_ops rows_json plain_codec table changes nothing).0
        (load rows_json plain_codec table nothing)
        "a"
run_ops-refines_example =
    run_ops-refines rows_json plain_codec table rows_json-IsReadable table-IsAtomic changes nothing
      changes-ReadBack nothing-IsOpen "a"

-- The second save of a session keeps its time of creation.
kept_created :
    replay changes (true ∷ true ∷ true ∷ true ∷ []) (λ id. none) "a"
    ≡ some (session "a" (hi ∷ hi ∷ []))
unfolding replay
kept_created = refl

abbrev older : Session
older = record (session "a" []) { updated = 5 }

abbrev newer : Session
newer = session "b" (hi ∷ [])

latest_stale_example :
    latest rows_json plain_codec table
      (save rows_json plain_codec table newer (save rows_json plain_codec table older nothing).1).1
      "/work"
    ≡ some (some older)
unfolding str_less save marshal_messages marshal_parts format_time
latest_stale_example =
    latest_stale rows_json plain_codec table rows_json-IsReadable table-IsAtomic older newer nothing
      (of_json older [] refl refl) refl refl (ground (arith, eq_iff "a" "b")) (omega arith) refl
      refl refl
