-- ===== src/Stream/Frames.antt =====
-- stream.go: what a well-formed event stream delivers to a reader that takes everything.
use korai_sdk_go.Prelude.{
  ℕ, ◌≡◌, refl, ap, sym, ◌∙◌, Bool, true, false, List, [], ◌∷◌, ◌++◌, append-nil, append_assoc,
  if◌then◌else◌, Bool-cases, inl, inr,
}
use korai_sdk_go.Stream.{
  Text, chars, StreamEvent, ChunkLibrary, is_blank, has_prefix, trim_prefix, trim_space,
  payload_event, Reader, StreamEnd, ended, scan_failed, flush, buffered, finish, parse_lines,
  parse_sse_stream,
}

-- A reader that keeps every event, and whose context does not end.
abbrev pub keeps_all : {Raw : Type 0} → Reader Raw
keeps_all {Raw} = record {
  State = List (StreamEvent Raw);
  cancelled = λ s. false;
  send = λ s ev. (true, s ++ ev ∷ []);
}

-- The lines of a frame: its data lines, and the blank line that ends it.
abbrev pub frame_lines : List Text → List Text
frame_lines [] = [] ∷ []
frame_lines (l ∷ ls) = (chars "data: " ++ l) ∷ frame_lines ls

abbrev pub stream_lines : List (List Text) → List Text
stream_lines [] = []
stream_lines (f ∷ fs) = frame_lines f ++ stream_lines fs

-- The data lines of a frame, joined by line feeds. An empty line in front leaves no trace.
abbrev pub joined : Text → List Text → Text
joined buf [] = buf
joined [] (l ∷ ls) = joined l ls
joined (c ∷ cs) (l ∷ ls) = joined ((c ∷ cs) ++ (0x0a ∷ l)) ls

abbrev pub end_of : Bool → StreamEnd
end_of scan_error = if scan_error then scan_failed else ended

module _ {Raw : Type 0} (L : ChunkLibrary Raw) where
  -- A frame whose data is white space gives no event; any other gives one.
  abbrev pub frame_event : Text → List (StreamEvent Raw)
  frame_event data' =
      if is_blank (trim_space data') then [] else payload_event L (trim_space data') ∷ []

  abbrev pub stream_events : List (List Text) → List (StreamEvent Raw)
  stream_events [] = []
  stream_events (f ∷ fs) = frame_event (joined [] f) ++ stream_events fs

  flush-keeps_all :
      (buf : Text) (s : List (StreamEvent Raw))
      → flush L keeps_all buf s ≡ (true, s ++ frame_event buf)
  unfolding flush trim_space
  flush-keeps_all [] s = ap (λ t. (true, t)) (sym (append-nil s))
  flush-keeps_all (c ∷ cs) s = elim (Bool-cases (is_blank (trim_space (c ∷ cs)))) [
    | inl e ↦ rw (e, append-nil s) refl
    | inr e ↦ rw e refl
  ]

  buffered-data :
      (buf l : Text) (ls : List Text)
      → joined (buffered L keeps_all buf (chars "data: " ++ l)) ls ≡ joined buf (l ∷ ls)
  unfolding buffered trim_prefix has_prefix
  buffered-data [] l ls = refl
  buffered-data (c ∷ cs) l ls = refl

  parse_lines-data :
      (scan_error : Bool) (l : Text) (lines : List Text) (buf : Text) (s : List (StreamEvent Raw))
      → parse_lines L keeps_all scan_error ((chars "data: " ++ l) ∷ lines) buf s
        ≡ parse_lines L keeps_all scan_error lines
            (buffered L keeps_all buf (chars "data: " ++ l))
            s
  unfolding parse_lines has_prefix
  parse_lines-data scan_error l lines buf s = refl

  parse_lines-frame :
      (scan_error : Bool) (ls : List Text) (lines : List Text) (buf : Text)
      (s : List (StreamEvent Raw))
      → parse_lines L keeps_all scan_error (frame_lines ls ++ lines) buf s
        ≡ parse_lines L keeps_all scan_error lines [] (s ++ frame_event (joined buf ls))
  unfolding parse_lines
  parse_lines-frame scan_error [] lines buf s = rw (flush-keeps_all buf s) refl
  parse_lines-frame scan_error (l ∷ ls) lines buf s =
      parse_lines-data scan_error l (frame_lines ls ++ lines) buf s
      ∙ parse_lines-frame scan_error ls lines (buffered L keeps_all buf (chars "data: " ++ l)) s
      ∙ ap (λ t. parse_lines L keeps_all scan_error lines [] (s ++ frame_event t))
          (buffered-data buf l ls)

  parse_lines-end :
      (scan_error : Bool) (s : List (StreamEvent Raw))
      → parse_lines L keeps_all scan_error [] [] s ≡ (end_of scan_error, s)
  unfolding parse_lines finish flush
  parse_lines-end scan_error s = refl

  -- To a reader that keeps every event, a stream of frames delivers, in order, one event for each
  -- frame whose data is not white space, also behind the terminator, and then ends as the scanner
  -- does.
  pub parse_sse_stream-frames :
      (scan_error : Bool) (fs : List (List Text)) (s : List (StreamEvent Raw))
      → parse_sse_stream L keeps_all scan_error (stream_lines fs) s
        ≡ (end_of scan_error, s ++ stream_events fs)
  unfolding parse_sse_stream
  parse_sse_stream-frames scan_error [] s =
      parse_lines-end scan_error s ∙ ap (λ t. (end_of scan_error, t)) (sym (append-nil s))
  parse_sse_stream-frames scan_error (f ∷ fs) s =
      parse_lines-frame scan_error f (stream_lines fs) [] s
      ∙ parse_sse_stream-frames scan_error fs (s ++ frame_event (joined [] f))
      ∙ ap (λ t. (end_of scan_error, t))
          (append_assoc s (frame_event (joined [] f)) (stream_events fs))

  -- For a reader that keeps every event, a line that is neither blank nor a data line, such as a
  -- comment or another field, changes nothing wherever it stands.
  pub parse_lines-ignored :
      (scan_error : Bool) (before after : List Text) (c : ℕ) (cs buf : Text)
      (s : List (StreamEvent Raw))
      → has_prefix (c ∷ cs) (chars "data:") ≡ false
      → parse_lines L keeps_all scan_error (before ++ (c ∷ cs) ∷ after) buf s
        ≡ parse_lines L keeps_all scan_error (before ++ after) buf s
  unfolding parse_lines
  parse_lines-ignored scan_error [] after c cs buf s h =
      elim (Bool-cases (has_prefix (c ∷ cs) (chars ":"))) [
        | inl e ↦ rw (e, parse_lines) refl
        | inr e ↦ rw (e, h, parse_lines) refl
      ]
  parse_lines-ignored scan_error ([] ∷ before) after c cs buf s h =
      rw
        (
          parse_lines-ignored scan_error before after c cs [] (flush L keeps_all buf s).1 h,
          parse_lines,
        )
        refl
  parse_lines-ignored scan_error ((d ∷ ds) ∷ before) after c cs buf s h =
      rw
        (
          parse_lines-ignored scan_error before after c cs buf s h,
          parse_lines-ignored scan_error before after c cs (buffered L keeps_all buf (d ∷ ds)) s h,
          parse_lines,
        )
        refl
