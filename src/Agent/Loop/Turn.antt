-- ===== src/Agent/Loop/Turn.antt =====
-- What the parts of a turn add to the queue, and what they leave alone.
use factorial.Prelude.{
  ℕ, ◌+◌, String, ◌≡◌, refl, ◌∙◌, inl, inr, Bool, true, false, Option, none, some, List, [], ◌∷◌,
  map, arith, str_eq, Bool-cases, All, All-append,
}
use factorial.Agent.Interception.{pre_dispatch, post_dispatch}
use factorial.Agent.Tools.{
  ToolResult, value, error, type_error_raised, is_local_tool, execute_tool_call,
}
use factorial.Agent.Loop.{
  ToolUse, StreamEvent, text_delta, other_event, ResultBlock, Event, streaming, done, token,
  calling_tool, tool_start, tool_result, error_event, unavailable_event, State, put, put_unless,
  announce, settle, add_result, World, run_tool, run_tools, stream, error_json,
}

-- Neither the end of the stream nor an event that ends it.
abbrev pub is_progress : Option Event → Bool
is_progress none = false
is_progress (some done) = false
is_progress (some (error_event message)) = false
is_progress (some (unavailable_event message detail)) = false
is_progress (some _) = true

abbrev pub InProgress : State → Type 0
InProgress s = All (λ i. is_progress i ≡ true) s.queue

pub put-InProgress :
    (e : Event) (s : State) → is_progress (some e) ≡ true → InProgress s → InProgress (put e s)
put-InProgress e s p h = All-append (λ i. is_progress i ≡ true) s.queue (some e ∷ []) h (p, tt)

put_unless-InProgress :
    (b : Bool) (e : Event) (s : State)
    → is_progress (some e) ≡ true
    → InProgress s
    → InProgress (put_unless b e s)
put_unless-InProgress true e s p h = h
put_unless-InProgress false e s p h = put-InProgress e s p h

put_unless-keeps :
    (b : Bool) (e : Event) (s : State) → (put_unless b e s).new_messages ≡ s.new_messages
put_unless-keeps true e s = refl
put_unless-keeps false e s = refl

announce-InProgress :
    (turn : ℕ) (plan_id : String) (t : ToolUse) (s : State)
    → InProgress s
    → InProgress (announce turn plan_id t s)
unfolding announce
announce-InProgress turn plan_id t s h = elim (Bool-cases (is_local_tool t.name)) [
  | inl here ↦ elim (Bool-cases (str_eq t.name "record_plan")) [
    | inl records ↦
        rw (here, records) (put-InProgress _ (record s { current_plan_id = some plan_id }) refl h)
    | inr no_record ↦ elim (Bool-cases (str_eq t.name "update_plan")) [
      | inl updates ↦ rw (here, no_record, updates) (put-InProgress _ s refl h)
      | inr neither ↦ rw (here, no_record, neither) h
    ]
  ]
  | inr remote ↦ rw remote (
      put-InProgress (tool_start t.name t.input) (put (calling_tool t.name turn) s) refl
        (put-InProgress (calling_tool t.name turn) s refl h))
]

settle-InProgress :
    (t : ToolUse) (turn order : ℕ) (r : ToolResult) (s : State)
    → InProgress s
    → InProgress (settle t turn order r s).1
unfolding settle
settle-InProgress t turn order (value json) s h =
    let shown = post_dispatch t.name json s.stash in
    put_unless-InProgress (is_local_tool t.name) (tool_result t.name shown.0)
      (record s { stash = shown.1 }) refl h
settle-InProgress t turn order (error e) s h =
    put_unless-InProgress (is_local_tool t.name) (tool_result t.name (error_json e.message)) s refl
      h
settle-InProgress t turn order type_error_raised s h = h

-- A result is under the id of the call.
abbrev Under : String → Option ResultBlock → Type 0
Under id none = Unit
Under id (some r) = r.tool_use_id ≡ id

-- The messages that are recorded are appended by the loop itself.
announce-keeps :
    (turn : ℕ) (plan_id : String) (t : ToolUse) (s : State)
    → (announce turn plan_id t s).new_messages ≡ s.new_messages
unfolding announce
announce-keeps turn plan_id t s = ground arith

settle-keeps :
    (t : ToolUse) (turn order : ℕ) (r : ToolResult) (s : State)
    → ((settle t turn order r s).1.new_messages ≡ s.new_messages)
      × Under t.id (settle t turn order r s).0
unfolding settle
settle-keeps t turn order (value json) s = (ground arith, refl)
settle-keeps t turn order (error e) s = (ground arith, refl)
settle-keeps t turn order type_error_raised s = (refl, tt)

abbrev pub ids : List ToolUse → List String
ids = map (λ t. t.id)

abbrev pub result_ids : List ResultBlock → List String
result_ids = map (λ r. r.tool_use_id)

-- The results of the calls with these ids, where all of them give one.
abbrev pub Answers : List String → Option (List ResultBlock) → Type 0
Answers ids none = Unit
Answers ids (some results) = result_ids results ≡ ids

add-InProgress :
    (r : ResultBlock) (out : Option (List ResultBlock) × State)
    → InProgress out.1
    → InProgress (add_result r out).1
add-InProgress r (none, s) h = h
add-InProgress r (some results, s) h = h

add-Answers :
    (id : String) (rest : List String) (r : ResultBlock) (out : Option (List ResultBlock) × State)
    → r.tool_use_id ≡ id
    → Answers rest out.0
    → Answers (id ∷ rest) (add_result r out).0
add-Answers id rest r (none, s) h k = tt
add-Answers id rest r (some results, s) h k = rw (h, k) refl

add-keeps :
    (r : ResultBlock) (out : Option (List ResultBlock) × State)
    → (add_result r out).1.new_messages ≡ out.1.new_messages
add-keeps r (none, s) = refl
add-keeps r (some results, s) = refl

module _ (w : World) (turn : ℕ) where
  run_tool-InProgress :
      (order : ℕ) (t : ToolUse) (s : State)
      → InProgress s
      → InProgress (run_tool w turn order t s).1
  unfolding run_tool
  run_tool-InProgress order t s h =
      settle-InProgress t turn order _ _ (announce-InProgress turn (w.plan_id turn order) t s h)

  run_tool-keeps :
      (order : ℕ) (t : ToolUse) (s : State)
      → ((run_tool w turn order t s).1.new_messages ≡ s.new_messages)
        × Under t.id (run_tool w turn order t s).0
  unfolding run_tool
  run_tool-keeps order t s =
      let s1 = announce turn (w.plan_id turn order) t s in
      let effective = pre_dispatch t.name t.input s1.stash.states s1.reveal_counts w.force_reveal in
      let kept =
        settle-keeps t turn order
          (execute_tool_call w.settings w.process_improve w.is_space t.name effective.0)
          (record s1 { reveal_counts = effective.1 }) in
      (kept.0 ∙ announce-keeps turn (w.plan_id turn order) t s, kept.1)

  pub run_tools-InProgress :
      (order : ℕ) (ts : List ToolUse) (s : State)
      → InProgress s
      → InProgress (run_tools w turn order ts s).1
  unfolding run_tools
  run_tools-InProgress order [] s h = h
  run_tools-InProgress order (t ∷ ts) s h =
      let (result, s1) = run_tool w turn order t s in
      let first : InProgress s1 = run_tool-InProgress order t s h in
      elim result
        as (λ o.
          InProgress
            (elim o as (λ x. Option (List ResultBlock) × State) [
              | none ↦ (none, s1)
              | some r ↦ add_result r (run_tools w turn (order + 1) ts s1)
            ]).1) [
              | none ↦ first
              | some r ↦
                  add-InProgress r (run_tools w turn (order + 1) ts s1)
                    (run_tools-InProgress (order + 1) ts s1 first)
            ]

  -- Every tool that the model calls gets one result, in the order of the calls and under its id.
  pub run_tools-Answers :
      (order : ℕ) (ts : List ToolUse) (s : State)
      → ((run_tools w turn order ts s).1.new_messages ≡ s.new_messages)
        × Answers (ids ts) (run_tools w turn order ts s).0
  unfolding run_tools
  run_tools-Answers order [] s = (refl, refl)
  run_tools-Answers order (t ∷ ts) s =
      let (result, s1) = run_tool w turn order t s in
      let first : (s1.new_messages ≡ s.new_messages) × Under t.id result =
        run_tool-keeps order t s in
      let rest = run_tools w turn (order + 1) ts s1 in
      let after = run_tools-Answers (order + 1) ts s1 in
      (elim result
          as (λ o.
            Under t.id o
            → ((elim o as (λ x. Option (List ResultBlock) × State) [
              | none ↦ (none, s1)
              | some r ↦ add_result r rest
            ]).1.new_messages
                ≡ s.new_messages)
              × Answers (t.id ∷ ids ts)
                  (elim o as (λ x. Option (List ResultBlock) × State) [
                    | none ↦ (none, s1)
                    | some r ↦ add_result r rest
                  ]).0) [
                    | none ↦ λ under. (first.0, tt)
                    | some r ↦ λ under. (
                      add-keeps r rest ∙ after.0 ∙ first.0,
                      add-Answers t.id (ids ts) r rest under after.1,
                    )
                  ])
        first.1

  pub stream-InProgress :
      (emitted : Bool) (events : List StreamEvent) (s : State)
      → InProgress s
      → InProgress (stream w turn emitted events s)
  unfolding stream
  stream-InProgress emitted [] s h = h
  stream-InProgress emitted (other_event ∷ events) s h = stream-InProgress emitted events s h
  stream-InProgress emitted (text_delta x ∷ events) s h =
      stream-InProgress true events (put (token x) (put_unless emitted (streaming turn) s)) (
        put-InProgress (token x) (put_unless emitted (streaming turn) s) refl
          (put_unless-InProgress emitted (streaming turn) s refl h))

  pub stream-keeps :
      (emitted : Bool) (events : List StreamEvent) (s : State)
      → (stream w turn emitted events s).new_messages ≡ s.new_messages
  unfolding stream
  stream-keeps emitted [] s = refl
  stream-keeps emitted (other_event ∷ events) s = stream-keeps emitted events s
  stream-keeps emitted (text_delta x ∷ events) s =
      stream-keeps true events (put (token x) (put_unless emitted (streaming turn) s))
      ∙ put_unless-keeps emitted (streaming turn) s
