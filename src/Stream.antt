-- ===== src/Stream.antt =====
-- stream.go: server-sent events. A text is the list of its code points; the lines are those that
-- `bufio.Scanner` gives. The channel is a record of operations over the state of its reader.
pub mod Frames
pub mod Collect
use Prim.Native.Char.{code}
use korai_sdk_go.Prelude.{
  ℕ, zero, suc, ◌+◌, String, Bool, true, false, Option, none, some, List, [], ◌∷◌, ◌++◌, not, ◌&&◌,
  ◌||◌, ltb, leb, nat_eq, ◌==◌, if◌then◌else◌, length, drop,
}

abbrev pub Text : Type 0
Text = List ℕ

abbrev pub chars : String → Text
chars String.[] = []
chars (String.◌∷◌ c s) = code c ∷ chars s

pub record Usage : Type 0 where
  pub prompt_tokens : ℕ
  pub completion_tokens : ℕ
  pub total_tokens : ℕ

-- `raw` is the decoded map, of an abstract type.
pub record StreamEvent (Raw : Type 0) : Type 0 where
  pub type : String
  pub delta : Text
  pub usage : Option Usage
  pub error : Text
  pub done : Bool
  pub raw : Option Raw

pub record ChunkChoice : Type 0 where
  pub content : Text
  pub finish_reason : Option String

-- The envelope struct of `decodeChunk`; the fields that are decoded and not read are left out.
pub record Envelope : Type 0 where
  pub status : Text
  pub choices : List ChunkChoice
  pub error : Option Text
  pub usage : Option Usage

-- `json.Unmarshal` into the envelope, `none` for an error with the text of that error, and into a
-- map.
pub record ChunkLibrary (Raw : Type 0) : Type 0 where
  pub unmarshal_envelope : Text → Option Envelope
  pub unmarshal_error : Text → Text
  pub unmarshal_map : Text → Raw

abbrev pub is_blank : Text → Bool
is_blank [] = true
is_blank (c ∷ cs) = false

unfoldable pub text_eq : Text → Text → Bool
text_eq [] [] = true
text_eq [] (d ∷ ds) = false
text_eq (c ∷ cs) [] = false
text_eq (c ∷ cs) (d ∷ ds) = nat_eq c d && text_eq cs ds

unfoldable pub has_prefix : Text → Text → Bool
has_prefix cs [] = true
has_prefix [] (d ∷ ds) = false
has_prefix (c ∷ cs) (d ∷ ds) = nat_eq c d && has_prefix cs ds

-- `strings.TrimPrefix`
unfoldable pub trim_prefix : Text → Text → Text
unfolding has_prefix
trim_prefix cs p = if has_prefix cs p then drop (length p) cs else cs

-- `unicode.IsSpace`
unfoldable pub is_space : ℕ → Bool
is_space c =
    (leb 9 c && leb c 13)
    || nat_eq c 32
    || nat_eq c 133
    || nat_eq c 160
    || nat_eq c 5760
    || (leb 8192 c && leb c 8202)
    || nat_eq c 8232
    || nat_eq c 8233
    || nat_eq c 8239
    || nat_eq c 8287
    || nat_eq c 12288

unfoldable pub trim_left : Text → Text
unfolding is_space
trim_left [] = []
trim_left (c ∷ cs) = let rest = trim_left cs in if is_space c then rest else c ∷ cs

unfoldable pub trim_right : Text → Text
unfolding is_space
trim_right [] = []
trim_right (c ∷ cs) =
    let rest = trim_right cs in if is_blank rest && is_space c then [] else c ∷ rest

-- `strings.TrimSpace`
unfoldable pub trim_space : Text → Text
unfolding trim_left trim_right
trim_space cs = trim_right (trim_left cs)

abbrev done_event : {Raw : Type 0} → StreamEvent Raw
done_event = record { type = "done"; delta = []; usage = none; error = []; done = true; raw = none }

abbrev pub error_event : {Raw : Type 0} → Text → Option Raw → StreamEvent Raw
error_event message raw = record {
  type = "error";
  delta = [];
  usage = none;
  error = message;
  done = false;
  raw = raw;
}

-- The loop over the choices: the appended texts, and whether one has a finish reason.
unfoldable pub deltas : List ChunkChoice → Text
deltas [] = []
deltas (ch ∷ chs) = ch.content ++ deltas chs

abbrev pub is_given : Option String → Bool
is_given none = false
is_given (some r) = true

unfoldable pub any_finished : List ChunkChoice → Bool
any_finished [] = false
any_finished (ch ∷ chs) = is_given ch.finish_reason || any_finished chs

module _ {Raw : Type 0} (L : ChunkLibrary Raw) where
  content_event : Envelope → Raw → StreamEvent Raw
  content_event env raw = record {
    type = "content";
    delta = deltas env.choices;
    usage = env.usage;
    error = [];
    done = any_finished env.choices;
    raw = some raw;
  }

  status_or_content : Envelope → List ChunkChoice → Raw → StreamEvent Raw
  status_or_content env [] raw =
      if not (is_blank env.status)
      then record {
        type = "status";
        delta = env.status;
        usage = none;
        error = [];
        done = false;
        raw = some raw;
      }
      else content_event env raw
  status_or_content env (ch ∷ chs) raw = content_event env raw

  event_of : Envelope → Option Text → Raw → StreamEvent Raw
  event_of env (some message) raw = error_event message (some raw)
  event_of env none raw = status_or_content env env.choices raw

  -- `none` is a decoding error.
  unfoldable pub decode_chunk : Text → Option (StreamEvent Raw)
  unfolding deltas any_finished content_event status_or_content event_of
  decode_chunk raw = elim (L.unmarshal_envelope raw) [
    | none ↦ none
    | some env ↦ some (event_of env env.error (L.unmarshal_map raw))
  ]

  -- The event that `flush` sends for a trimmed payload that is not empty.
  unfoldable pub payload_event : Text → StreamEvent Raw
  payload_event raw = if text_eq raw (chars "[DONE]") then done_event else elim (decode_chunk raw) [
    | none ↦ error_event (L.unmarshal_error raw) none
    | some ev ↦ ev
  ]

-- The reader of the channel: whether the context has ended, and a send, `false` when the context
-- ends first.
pub record Reader (Raw : Type 0) : Type 1 where
  pub State : Type 0
  pub cancelled : State → Bool
  pub send : State → StreamEvent Raw → Bool × State

pub data StreamEnd : Type 0 where
  ended context_ended scan_failed : StreamEnd

module _ {Raw : Type 0} (L : ChunkLibrary Raw) (R : Reader Raw) where
  -- `flush`; the buffer is empty afterwards in every case.
  unfoldable pub flush : Text → R.State → Bool × R.State
  unfolding trim_space payload_event text_eq
  flush [] s = (true, s)
  flush (c ∷ cs) s =
      let raw = trim_space (c ∷ cs) in
      if is_blank raw then (true, s) else R.send s (payload_event L raw)

  -- A data line at the end of the buffer.
  unfoldable pub buffered : Text → Text → Text
  unfolding trim_prefix has_prefix
  buffered [] line = trim_prefix (trim_prefix line (chars "data:")) (chars " ")
  buffered (c ∷ cs) line =
      (c ∷ cs) ++ (0x0a ∷ trim_prefix (trim_prefix line (chars "data:")) (chars " "))

  finish : Bool → Bool × R.State → StreamEnd × R.State
  finish scan_error (done, s) =
      if not done then (context_ended, s) else (if scan_error then scan_failed else ended, s)

  -- The loop over the lines; `scan_error` says whether the scanner reports an error at the end.
  unfoldable pub parse_lines : Bool → List Text → Text → R.State → StreamEnd × R.State
  unfolding flush buffered finish
  parse_lines scan_error [] buf s = finish scan_error (flush buf s)
  parse_lines scan_error ([] ∷ lines) buf s =
      let (done, s') = flush buf s in
      let rest = parse_lines scan_error lines [] s' in
      if R.cancelled s then (context_ended, s) else if not done then (context_ended, s') else rest
  parse_lines scan_error ((c ∷ cs) ∷ lines) buf s =
      let skipped = parse_lines scan_error lines buf s in
      let added = parse_lines scan_error lines (buffered buf (c ∷ cs)) s in
      if R.cancelled s
      then (context_ended, s)
      else if has_prefix (c ∷ cs) (chars ":")
      then skipped
      else if not (has_prefix (c ∷ cs) (chars "data:"))
      then skipped
      else added

  unfoldable pub parse_sse_stream : Bool → List Text → R.State → StreamEnd × R.State
  unfolding parse_lines
  parse_sse_stream scan_error lines s = parse_lines scan_error lines [] s
