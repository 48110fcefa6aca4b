-- ===== src/Stream/Collect.antt =====
-- stream.go: `CollectStream`, and what it returns.
use korai_sdk_go.Prelude.{
  ◌≡◌, refl, ap, false, Option, none, some, List, [], ◌∷◌, ◌++◌, append-nil, append_assoc, ◌==◌,
  if◌then◌else◌, eq_iff, Bool-cases, inl, inr,
}
use korai_sdk_go.Stream.{Text, chars, Usage, StreamEvent}

-- The builder, the errors and the usage of the loop.
pub record Collected : Type 0 where
  pub content : Text
  pub errs : List Text
  pub usage : Usage

abbrev pub no_usage : Usage
no_usage = record { prompt_tokens = 0; completion_tokens = 0; total_tokens = 0 }

abbrev pub reported : Option Usage → Usage → Usage
reported none u = u
reported (some v) u = v

-- `strings.Join(errs, "; ")`
unfoldable pub join_errors : List Text → Text
join_errors [] = []
join_errors (e ∷ []) = e
join_errors (e ∷ f ∷ fs) = e ++ (chars "; " ++ join_errors (f ∷ fs))

-- The response: its only choice has this content, role "assistant" and finish reason "stop".
pub record Collection : Type 0 where
  pub content : Text
  pub usage : Usage
  pub failure : Option Text

abbrev pub failure_of : List Text → Option Text
failure_of [] = none
failure_of (e ∷ es) = some (chars "korai: stream error: " ++ join_errors (e ∷ es))

module _ {Raw : Type 0} where
  collect_one : StreamEvent Raw → Collected → Collected
  collect_one ev acc =
      if ev.type == "content"
      then record acc { content = acc.content ++ ev.delta; usage = reported ev.usage acc.usage }
      else if ev.type == "error"
      then record acc { errs = acc.errs ++ ev.error ∷ [] }
      else acc

  collect_all : List (StreamEvent Raw) → Collected → Collected
  collect_all [] acc = acc
  collect_all (ev ∷ evs) acc = collect_all evs (collect_one ev acc)

  unfoldable pub collect_stream : List (StreamEvent Raw) → Collection
  unfolding collect_one collect_all join_errors
  collect_stream events =
      let acc = collect_all events (record { content = []; errs = []; usage = no_usage }) in
      record { content = acc.content; usage = acc.usage; failure = failure_of acc.errs }

  -- The deltas of the content events, in order, the texts of the error events, and the last usage
  -- on a content event.
  unfoldable pub contents_of : List (StreamEvent Raw) → Text
  contents_of [] = []
  contents_of (ev ∷ evs) =
      let rest = contents_of evs in if ev.type == "content" then ev.delta ++ rest else rest

  unfoldable pub errors_of : List (StreamEvent Raw) → List Text
  errors_of [] = []
  errors_of (ev ∷ evs) =
      let rest = errors_of evs in if ev.type == "error" then ev.error ∷ rest else rest

  unfoldable pub last_usage : Usage → List (StreamEvent Raw) → Usage
  last_usage u [] = u
  last_usage u (ev ∷ evs) = last_usage (if ev.type == "content" then reported ev.usage u else u) evs

  collect_all-eq :
      (evs : List (StreamEvent Raw)) (acc : Collected)
      → collect_all evs acc ≡ record {
        content = acc.content ++ contents_of evs;
        errs = acc.errs ++ errors_of evs;
        usage = last_usage acc.usage evs;
      }
  unfolding collect_all collect_one contents_of errors_of last_usage
  collect_all-eq [] acc = rw (append-nil acc.content, append-nil acc.errs) refl
  collect_all-eq (ev ∷ evs) acc = elim (Bool-cases (ev.type == "content")) [
    | inl e ↦
        let f : (ev.type == "error") ≡ false =
          ap (λ t. t == "error") ((eq_iff ev.type "content").0 e) in
        rw (e, f, collect_all-eq evs _, append_assoc acc.content ev.delta (contents_of evs)) refl
    | inr e ↦ elim (Bool-cases (ev.type == "error")) [
      | inl f ↦
          rw (e, f, collect_all-eq evs _, append_assoc acc.errs (ev.error ∷ []) (errors_of evs))
            refl
      | inr f ↦ rw (e, f, collect_all-eq evs acc) refl
    ]
  ]

  -- `CollectStream` returns the deltas of the content events in order, the last usage that a
  -- content event carries, zero without one, and a failure with all error texts if there is an
  -- error event, none otherwise.
  pub collect_stream_lem :
      (events : List (StreamEvent Raw))
      → collect_stream events ≡ record {
        content = contents_of events;
        usage = last_usage no_usage events;
        failure = failure_of (errors_of events);
      }
  unfolding collect_stream
  collect_stream_lem events =
      rw (collect_all-eq events (record { content = []; errs = []; usage = no_usage })) refl
