-- ===== src/Api/Chat/Streamed.antt =====
-- llm.go: `ChatStream`, and `ChatStreamComplete` which collects what it delivers. The body of a
-- response is read as lines; the goroutine that parses them and its reader share a channel, whose
-- operations are a parameter.
pub mod Completed
use korai_sdk_go.Prelude.{
  ℕ, String, Bool, true, false, Option, none, some, List, [], length, nat_eq, if◌then◌else◌,
}
use korai_sdk_go.Stream.{
  Text, ChunkLibrary, Reader, StreamEvent, StreamEnd, ended, context_ended, scan_failed,
  error_event, parse_sse_stream,
}
use korai_sdk_go.Stream.Collect.{Collection, collect_stream}
use korai_sdk_go.Api.Errors.{ErrorLibrary, SdkError, invalid_config}
use korai_sdk_go.Api.Options.{Client}
use korai_sdk_go.Api.Exchange.{
  ApiTransport, Reply, ApiResult, answered, failed, payload, do_raw_request,
}
use korai_sdk_go.Api.Chat.{ChatRequest, model_or_auto}

pub data StreamOpening (Raw : Type 0) : Type 0 where
  opened : Reply → StreamOpening Raw
  not_opened : SdkError Raw → StreamOpening Raw
  unexpected_status : ℕ → StreamOpening Raw

opened_by : {Raw : Type 0} → ApiResult Raw Reply → StreamOpening Raw
opened_by (failed e) = not_opened e
opened_by (answered r) =
    if nat_eq r.response.status_code 200 then opened r else unexpected_status r.response.status_code

-- The body as the scanner sees it: its lines, whether it ends in an error, and the error that the
-- parser then returns, as whether it is `context.Canceled` and its text.
pub record StreamBody : Type 0 where
  pub lines : List Text
  pub scan_error : Bool
  pub is_cancelled : Bool
  pub error_text : Text

-- What the goroutine does: it parses, and surfaces an error other than the cancellation.
module _ {Raw : Type 0} (L : ChunkLibrary Raw) (R : Reader Raw) where
  surfaced : StreamBody → StreamEnd × R.State → R.State
  surfaced b (ended, s) = s
  surfaced b (context_ended, s) =
      if b.is_cancelled then s else (R.send s (error_event b.error_text none)).1
  surfaced b (scan_failed, s) =
      if b.is_cancelled then s else (R.send s (error_event b.error_text none)).1

  unfoldable pub deliver : StreamBody → R.State → R.State
  unfolding surfaced
  deliver b s = surfaced b (parse_sse_stream L R b.scan_error b.lines s)

module _ {Raw Rest Args Store : Type 0} (L : ErrorLibrary Raw) (is_valid : String → String → Bool)
    (T : ApiTransport) (c : Client Store) (marshal : ChatRequest Rest Args → Option Text) where
  unfoldable pub open_stream : ChatRequest Rest Args → T.State → StreamOpening Raw × T.State
  unfolding opened_by
  open_stream req st =
      if nat_eq (length req.messages) 0
      then (not_opened invalid_config, st)
      else let (r, st') =
          do_raw_request L is_valid T c "POST" "/v1/chat/completions"
            (payload (marshal (record req { stream = true; model = model_or_auto req.model })))
            st in
        (opened_by r, st')

  -- `ChatStream` with its reader, which is nil if the stream is not opened.
  module _ (chunks : ChunkLibrary Raw) (R : Reader Raw) (body : Reply → StreamBody) where
    delivered_by : R.State → StreamOpening Raw → StreamOpening Raw × Option R.State
    delivered_by s (opened r) = (opened r, some (deliver chunks R (body r) s))
    delivered_by s (not_opened e) = (not_opened e, none)
    delivered_by s (unexpected_status n) = (unexpected_status n, none)

    unfoldable pub chat_stream :
        ChatRequest Rest Args → R.State → T.State → (StreamOpening Raw × Option R.State) × T.State
    unfolding open_stream delivered_by
    chat_stream req s st = let (o, st') = open_stream req st in (delivered_by s o, st')

    -- With the events that the reader has taken from the channel, `none` for the error of opening.
    unfoldable pub chat_stream_complete :
        (R.State → List (StreamEvent Raw))
        → ChatRequest Rest Args
        → R.State
        → T.State
        → Option Collection × T.State
    unfolding chat_stream
    chat_stream_complete taken req s st =
        let ((o, delivered), st') = chat_stream req s st in
        (elim delivered [ none ↦ none | some s' ↦ some (collect_stream (taken s')) ], st')
