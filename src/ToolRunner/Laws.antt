-- ===== src/ToolRunner/Laws.antt =====
-- toolrunner.go: what a run of the tool loop returns.
use mathlib.Core.Path.{subst}
use korai_sdk_go.Prelude.{
  ℕ, zero, suc, ◌+◌, ◌≤◌, ◌≡◌, refl, ap, sym, ◌∙◌, true, false, Option, none, some, List, [], ◌∷◌,
  ◌++◌, map, append-nil, append_assoc, ◌⊎◌, inl, inr, ◌==◌, if◌then◌else◌, arith, Option-cases,
}
use korai_sdk_go.Session.{ToolCall, Message}
use korai_sdk_go.Tools.{ToolRegistry}
use korai_sdk_go.ToolRunner.{
  RunToolsOptions, ToolRunResult, ChatResponse, RunToolsResult, RunnerLibrary, turn_limit,
  assistant_message, tool_message, first_content, first_calls, Running, run_call, run_calls,
  request, answered, run_turns, run_tools,
}

module _ {Args : Type 0} where
  -- The messages with role "tool".
  unfoldable pub tool_messages : List (Message Args) → List (Message Args)
  tool_messages [] = []
  tool_messages (m ∷ ms) =
      let rest = tool_messages ms in if m.role == "tool" then m ∷ rest else rest

  tool_messages-append :
      (ms ns : List (Message Args))
      → tool_messages (ms ++ ns) ≡ tool_messages ms ++ tool_messages ns
  unfolding tool_messages
  tool_messages-append [] ns = refl
  tool_messages-append (m ∷ ms) ns = ground (arith, tool_messages-append ms ns)

  -- The conversation and the tool runs have grown, and the new tool messages are those of the new
  -- runs.
  pub record Extends (msgs msgs' : List (Message Args)) (runs runs' : List ToolRunResult)
      : Type 0 where
    pub added : List (Message Args)
    pub new_runs : List ToolRunResult
    pub messages : msgs' ≡ msgs ++ added
    pub tool_runs : runs' ≡ runs ++ new_runs
    pub matched : tool_messages added ≡ map tool_message new_runs

  Extends-refl :
      (msgs : List (Message Args)) (runs : List ToolRunResult) → Extends msgs msgs runs runs
  unfolding tool_messages
  Extends-refl msgs runs = record {
    added = [];
    new_runs = [];
    messages = sym (append-nil msgs);
    tool_runs = sym (append-nil runs);
    matched = refl;
  }

  map-append :
      (xs ys : List ToolRunResult)
      → map (tool_message {Args = Args}) (xs ++ ys) ≡ map tool_message xs ++ map tool_message ys
  map-append [] ys = refl
  map-append (x ∷ xs) ys = ap (λ t. tool_message x ∷ t) (map-append xs ys)

  Extends-trans :
      (m₀ m₁ m₂ : List (Message Args)) (r₀ r₁ r₂ : List ToolRunResult)
      → Extends m₀ m₁ r₀ r₁
      → Extends m₁ m₂ r₁ r₂
      → Extends m₀ m₂ r₀ r₂
  Extends-trans m₀ m₁ m₂ r₀ r₁ r₂ a b = record {
    added = a.added ++ b.added;
    new_runs = a.new_runs ++ b.new_runs;
    messages = b.messages ∙ ap (λ t. t ++ b.added) a.messages ∙ append_assoc m₀ a.added b.added;
    tool_runs =
        b.tool_runs ∙ ap (λ t. t ++ b.new_runs) a.tool_runs ∙ append_assoc r₀ a.new_runs b.new_runs;
    matched =
        tool_messages-append a.added b.added
        ∙ ap (λ t. t ++ tool_messages b.added) a.matched
        ∙ ap (λ t. map tool_message a.new_runs ++ t) b.matched
        ∙ sym (map-append a.new_runs b.new_runs);
  }

calls-cases :
    {Args : Type 0} (cs : List (ToolCall Args))
    → (cs ≡ []) ⊎ ((c : ToolCall Args) × (rest : List (ToolCall Args)) × (cs ≡ c ∷ rest))
calls-cases [] = inl refl
calls-cases (c ∷ rest) = inr (c, rest, refl)

module _ {Args Temperature Schema Result World : Type 0}
    (L : RunnerLibrary Args Temperature Schema Result World)
    (tools : ToolRegistry Schema Result World) where
  abbrev Grows : Running Args World → Running Args World → Type 0
  Grows s t = Extends s.msgs t.msgs s.runs t.runs

  run_calls-Grows :
      (calls : List (ToolCall Args)) (s : Running Args World) → Grows s (run_calls L tools calls s)
  unfolding run_calls run_call tool_messages
  run_calls-Grows [] s = Extends-refl s.msgs s.runs
  run_calls-Grows (call ∷ calls) s =
      Extends-trans _ _ _ _ _ _
        (record { added = _; new_runs = _; messages = refl; tool_runs = refl; matched = refl })
        (run_calls-Grows calls (run_call L tools call s))

  module _ (opts : RunToolsOptions Args Temperature) where
    answered-Grows :
        (r : ChatResponse Args) (s : Running Args World) (w : World)
        → Grows s (answered L tools opts r s w)
    unfolding tool_messages
    answered-Grows r s w = record {
      added = assistant_message (first_content r) (first_calls r) ∷ [];
      new_runs = [];
      messages = refl;
      tool_runs = sym (append-nil s.runs);
      matched = refl;
    }

    -- How a run ends: with an answer that asks for no tool, or after the last turn.
    abbrev pub Ending : ℕ → RunToolsResult Args → Type 0
    Ending limit r =
        ((r.stopped_at_max_turns ≡ false)
          × (r.turns ≤ limit)
          × ((answer : ChatResponse Args) × (r.final ≡ some answer) × (first_calls answer ≡ [])))
        ⊎ ((r.stopped_at_max_turns ≡ true) × (r.turns ≡ limit))

    Returned : ℕ → Running Args World → Option (RunToolsResult Args) → Type 0
    Returned limit s none = Unit
    Returned limit s (some r) = Extends s.msgs r.messages s.runs r.tool_runs × Ending limit r

    Returned-trans :
        (limit : ℕ) (s t : Running Args World) (r : Option (RunToolsResult Args))
        → Grows s t
        → Returned limit t r
        → Returned limit s r
    unfolding Returned
    Returned-trans limit s t none g h = tt
    Returned-trans limit s t (some r) g (e, ending) = (Extends-trans _ _ _ _ _ _ g e, ending)

    run_turns-Returned :
        (limit left turn : ℕ) (final : Option (ChatResponse Args)) (s : Running Args World)
        → turn + left ≡ limit
        → Returned limit s (run_turns L tools opts left turn final s).0
    unfolding run_turns Returned
    run_turns-Returned limit zero turn final s n =
        (Extends-refl s.msgs s.runs, inr (refl, omega (arith, n)))
    run_turns-Returned limit (suc left) turn final s n =
        let asked = L.chat_complete (request L tools opts turn s.msgs) s.world in
        elim (Option-cases asked.0) [
          | inl e ↦ rw (e, run_turns) tt
          | inr (r, e) ↦
              let t = answered L tools opts r s asked.1 in
              elim (calls-cases (first_calls r)) [
                | inl q ↦
                    rw (e, q, run_turns)
                      (answered-Grows r s asked.1, inl (refl, omega (arith, n), (r, refl, q)))
                | inr (call, calls, q) ↦
                    let next = run_calls L tools (call ∷ calls) t in
                    let later =
                      run_turns-Returned limit left (turn + 1) (some r) next (omega (arith, n)) in
                    let grown =
                      Extends-trans _ _ _ _ _ _ (answered-Grows r s asked.1)
                        (run_calls-Grows (call ∷ calls) t) in
                    rw (e, q, run_turns) (Returned-trans limit s next _ grown later)
              ]
        ]

    -- If `RunTools` returns a result, the conversation it returns extends the one it was given, the
    -- new messages with role "tool" are exactly those of the tool runs, in order, and the last
    -- answer asks for no tool after at most the limit of turns, or the limit is reached and the
    -- result says so.
    pub run_tools_lem :
        (w w' : World) (r : RunToolsResult Args)
        → run_tools L tools opts w ≡ (some r, w')
        → Extends opts.messages r.messages [] r.tool_runs × Ending (turn_limit opts.max_turns) r
    unfolding run_tools Returned
    run_tools_lem w w' r h =
        let limit = turn_limit opts.max_turns in
        let s : Running Args World = record { msgs = opts.messages; runs = []; world = w } in
        subst (Returned limit s) (ap (λ p. p.0) h)
          (run_turns-Returned limit limit 0 none s (omega arith))
