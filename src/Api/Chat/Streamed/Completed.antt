-- ===== src/Api/Chat/Streamed/Completed.antt =====
-- llm.go: what `ChatStreamComplete` returns for a stream of frames.
use korai_sdk_go.Prelude.{
  String, ◌≡◌, refl, ap, ◌∙◌, Bool, true, false, Option, none, some, List, [], ◌∷◌, ◌++◌,
  append-nil, Bool-cases, inl, inr,
}
use korai_sdk_go.Stream.{Text, ChunkLibrary, StreamEvent, error_event, parse_sse_stream}
use korai_sdk_go.Stream.Frames.{
  keeps_all, stream_lines, stream_events, end_of, parse_sse_stream-frames,
}
use korai_sdk_go.Stream.Collect.{
  Collection, collect_stream_lem, contents_of, errors_of, last_usage, no_usage, failure_of,
}
use korai_sdk_go.Api.Errors.{ErrorLibrary}
use korai_sdk_go.Api.Options.{Client}
use korai_sdk_go.Api.Exchange.{ApiTransport, Reply}
use korai_sdk_go.Api.Chat.{ChatRequest}
use korai_sdk_go.Api.Chat.Streamed.{
  opened, StreamBody, surfaced, deliver, open_stream, delivered_by, chat_stream,
  chat_stream_complete,
}

-- The event that a broken body adds.
abbrev pub broken_by : {Raw : Type 0} → Bool → Text → List (StreamEvent Raw)
broken_by false e = []
broken_by true e = error_event e none ∷ []

module _ {Raw : Type 0} (chunks : ChunkLibrary Raw) where
  surfaced-end_of :
      (b : StreamBody) (evs : List (StreamEvent Raw))
      → b.is_cancelled ≡ false
      → surfaced chunks keeps_all b (end_of b.scan_error, evs)
        ≡ evs ++ broken_by b.scan_error b.error_text
  unfolding surfaced
  surfaced-end_of b evs live = elim (Bool-cases b.scan_error) [
    | inl e ↦ rw (e, live, surfaced) refl
    | inr e ↦ rw (e, append-nil evs) refl
  ]

  deliver-frames :
      (b : StreamBody) (fs : List (List Text))
      → b.lines ≡ stream_lines fs
      → b.is_cancelled ≡ false
      → deliver chunks keeps_all b []
        ≡ stream_events chunks fs ++ broken_by b.scan_error b.error_text
  unfolding deliver
  deliver-frames b fs framed live =
      ap (λ ls. surfaced chunks keeps_all b (parse_sse_stream chunks keeps_all b.scan_error ls []))
        framed
      ∙ ap (surfaced chunks keeps_all b) (parse_sse_stream-frames chunks b.scan_error fs [])
      ∙ surfaced-end_of b (stream_events chunks fs) live

  -- What `CollectStream` returns for these events.
  abbrev pub summary : List (StreamEvent Raw) → Collection
  summary events = record {
    content = contents_of events;
    usage = last_usage no_usage events;
    failure = failure_of (errors_of events);
  }

  module _ {Rest Args Store : Type 0} (L : ErrorLibrary Raw) (is_valid : String → String → Bool)
      (T : ApiTransport) (c : Client Store) (marshal : ChatRequest Rest Args → Option Text)
      (body : Reply → StreamBody) where
    -- If the stream opens, its body is a sequence of frames, and the context does not end, then
    -- `ChatStreamComplete` returns the deltas of the content events of the frames in order, their
    -- last usage, and a failure exactly if there is an error event; a body that breaks off adds one
    -- with the text of its error.
    pub chat_stream_complete-frames :
        (req : ChatRequest Rest Args) (st st' : T.State) (r : Reply) (fs : List (List Text))
        → open_stream L is_valid T c marshal req st ≡ (opened r, st')
        → (body r).lines ≡ stream_lines fs
        → (body r).is_cancelled ≡ false
        → chat_stream_complete L is_valid T c marshal chunks keeps_all body (λ evs. evs) req [] st
          ≡ (
            some (
                summary
                  (stream_events chunks fs ++ broken_by (body r).scan_error (body r).error_text)),
            st',
          )
    unfolding chat_stream_complete chat_stream delivered_by
    chat_stream_complete-frames req st st' r fs opens framed live =
        rw (opens, delivered_by)
          (ap (λ c. (some c, st'))
            (collect_stream_lem (deliver chunks keeps_all (body r) [])
              ∙ ap summary (deliver-frames (body r) fs framed live)))
