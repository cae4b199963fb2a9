-- ===== src/Agent/Loop/Pairing.antt =====
-- The record of the conversation: each call of a tool is answered, and the turns are bounded.
use factorial.Prelude.{
  Option, none, some, Bool, true, ◌<◌, ℕ, zero, suc, ◌+◌, ◌*◌, ◌≤◌, ◌≡◌, refl, sym, ap, ◌∙◌, inl,
  inr, false, not, ◌||◌, List, [], ◌∷◌, ◌++◌, arith, str_eq, Bool-cases, length, length-append,
}
use mathlib.Core.List.{append_assoc, append-nil}
use factorial.Agent.Interception.{RevealCounts, Stash}
use factorial.Agent.Loop.{
  ToolUse, ApiError, authentication, rate_limit, unavailable, unexpected, Block, text, tool_use,
  other_block, Response, Ending, final_message, raises, Message, NewMessage, assistant_message,
  tool_results, Meta, ResultBlock, thinking, State, put, World, TurnEnd, finished, again, failed,
  append_response, after_response, after_stream, take_turn, handle, turns, run_agent_loop, start,
  max_agent_turns, append_results, run_tools, tool_uses, content_dicts, stream, no_tools, meta,
}
use factorial.Agent.Loop.Turn.{ids, result_ids, Answers, run_tools-Answers, stream-keeps}

-- The model's message calls some tool, has blocks of the two types only, and the results are those of its calls, in order and by id.
abbrev pub IsReply : List Block → List ResultBlock → Type 0
IsReply blocks results =
    (result_ids results ≡ ids (tool_uses blocks))
    × ((0 < length (tool_uses blocks)) × (content_dicts blocks ≡ blocks))

-- Each message of the model is followed by the results of the tools that it calls.
abbrev pub IsPaired : List NewMessage → Type 0
IsPaired [] = Unit
IsPaired (assistant_message blocks meta ∷ tool_results results ∷ rest) =
    IsReply blocks results × IsPaired rest
IsPaired (_ ∷ _) = ⊥

-- At most one message more, the model's last, of the same blocks.
abbrev pub IsLast : List NewMessage → Type 0
IsLast [] = Unit
IsLast (assistant_message blocks meta ∷ []) = content_dicts blocks ≡ blocks
IsLast (_ ∷ _) = ⊥

IsPaired-append : (xs ys : List NewMessage) → IsPaired xs → IsPaired ys → IsPaired (xs ++ ys)
IsPaired-append [] ys h k = k
IsPaired-append (assistant_message blocks meta ∷ tool_results results ∷ rest) ys h k =
    (h.0, IsPaired-append rest ys h.1 k)
IsPaired-append (assistant_message blocks meta ∷ []) ys h k = absurd h
IsPaired-append (assistant_message blocks meta ∷ assistant_message b m ∷ rest) ys h k = absurd h
IsPaired-append (tool_results results ∷ rest) ys h k = absurd h

tool_uses-content_dicts :
    (blocks : List Block) → tool_uses (content_dicts blocks) ≡ tool_uses blocks
tool_uses-content_dicts [] = refl
tool_uses-content_dicts (text s ∷ blocks) = tool_uses-content_dicts blocks
tool_uses-content_dicts (tool_use t ∷ blocks) = rw (tool_uses-content_dicts blocks)
tool_uses-content_dicts (other_block ∷ blocks) = tool_uses-content_dicts blocks

content_dicts_idem :
    (blocks : List Block) → content_dicts (content_dicts blocks) ≡ content_dicts blocks
content_dicts_idem [] = refl
content_dicts_idem (text s ∷ blocks) = ap (λ bs. text s ∷ bs) (content_dicts_idem blocks)
content_dicts_idem (tool_use t ∷ blocks) = ap (λ bs. tool_use t ∷ bs) (content_dicts_idem blocks)
content_dicts_idem (other_block ∷ blocks) = content_dicts_idem blocks

-- Pairs, of a number of turns.
abbrev Pairs : ℕ → List NewMessage → Type 0
Pairs n ms = IsPaired ms × (length ms ≡ 2 * n)

pair_up :
    (n : ℕ) (ms : List NewMessage) (blocks : List Block) (m : Meta) (results : List ResultBlock)
    → Pairs n ms
    → IsReply blocks results
    → Pairs (n + 1) ((ms ++ assistant_message blocks m ∷ []) ++ tool_results results ∷ [])
pair_up n ms blocks m results h same =
    rw (append_assoc ms (assistant_message blocks m ∷ []) (tool_results results ∷ [])) (
      IsPaired-append ms (assistant_message blocks m ∷ tool_results results ∷ []) h.0 (same, tt),
      omega (arith, h.1, length-append ms (assistant_message blocks m ∷ tool_results results ∷ [])),
    )

pub record IsAnswered (bound : ℕ) (ms : List NewMessage) : Type 0 where
  pub pairs : List NewMessage
  pub last : List NewMessage
  pub split : ms ≡ pairs ++ last
  pub paired : IsPaired pairs
  pub at_end : IsLast last
  pub bounded : length ms ≤ bound

abbrev TurnRecords : ℕ → TurnEnd → Type 0
TurnRecords n (finished s) = IsAnswered (2 * n + 1) s.new_messages
TurnRecords n (again s) = Pairs (n + 1) s.new_messages
TurnRecords n (failed e s) = IsAnswered (2 * n + 1) s.new_messages

or-false : (a b : Bool) → (a || b) ≡ false → b ≡ false
or-false true b h = cc
or-false false b h = h

module _ (w : World) (n : ℕ) where
  last_message :
      (r : Response) (s : State)
      → Pairs n s.new_messages
      → IsAnswered (2 * n + 1) (append_response w r s).new_messages
  last_message r s h = record {
    pairs = s.new_messages;
    last = assistant_message (content_dicts r.content) (meta w r) ∷ [];
    split = refl;
    paired = h.0;
    at_end = content_dicts_idem r.content;
    bounded = omega (
      arith,
      h.1,
      length-append s.new_messages (assistant_message (content_dicts r.content) (meta w r) ∷ []),
    );
  }

  calls_some : (ts : List ToolUse) → no_tools w ts ≡ false → 0 < length ts
  calls_some [] h = cc
  calls_some (t ∷ ts) h = omega arith

  -- After the tools: a pair more, or, if one of them failed the turn, the model's message last.
  results-record :
      (r : Response) (s : State)
      → Pairs n s.new_messages
      → 0 < length (tool_uses r.content)
      → (out : Option (List ResultBlock) × State)
      → out.1.new_messages ≡ (append_response w r s).new_messages
      → Answers (ids (tool_uses r.content)) out.0
      → TurnRecords n (append_results w out)
  results-record r s h some_calls (none, s') kept answers = rw kept (last_message r s h)
  results-record r s h some_calls (some results, s') kept answers = rw kept (
      pair_up n s.new_messages (content_dicts r.content) (meta w r) results h (
        answers ∙ ap ids (sym (tool_uses-content_dicts r.content)),
        (rw (tool_uses-content_dicts r.content) some_calls, content_dicts_idem r.content),
      ))

  after_response-records :
      (turn : ℕ) (r : Response) (s : State)
      → Pairs n s.new_messages
      → TurnRecords n (after_response w turn r (append_response w r s))
  unfolding after_response
  after_response-records turn r s h =
      elim (Bool-cases
        (not (str_eq r.stop_reason "tool_use") || no_tools w (tool_uses r.content))) [
          | inl over ↦ rw over (last_message r s h)
          | inr on ↦ rw on (
              let answers =
                run_tools-Answers w turn 1 (tool_uses r.content) (append_response w r s) in
              results-record r s h (calls_some (tool_uses r.content) (or-false _ _ on))
                (run_tools w turn 1 (tool_uses r.content) (append_response w r s)) answers.0
                answers.1)
        ]

  all-IsAnswered :
      (bound : ℕ) (ms : List NewMessage) → 2 * n ≤ bound → Pairs n ms → IsAnswered bound ms
  all-IsAnswered bound ms room h = record {
    pairs = ms;
    last = [];
    split = sym (append-nil ms);
    paired = h.0;
    at_end = tt;
    bounded = omega (arith, h.1);
  }

  ending-records :
      (turn : ℕ) (ending : Ending) (s : State)
      → Pairs n s.new_messages
      → TurnRecords n (after_stream w turn ending s)
  unfolding after_stream
  ending-records turn (final_message r) s h = after_response-records turn r s h
  ending-records turn (raises e) s h = all-IsAnswered (2 * n + 1) s.new_messages (omega arith) h

  take_turn-records :
      (turn : ℕ) (s : State) → Pairs n s.new_messages → TurnRecords n (take_turn w turn s)
  unfolding take_turn
  take_turn-records turn s h =
      let call = w.client s.messages in
      let s1 = put (thinking turn) s in
      ending-records turn call.ending (stream w turn false call.events s1)
        (rw (stream-keeps w turn false call.events s1) h)

  handle-keeps : (e : ApiError) (s : State) → (handle w e s).new_messages ≡ s.new_messages
  unfolding handle
  handle-keeps authentication s = refl
  handle-keeps rate_limit s = refl
  handle-keeps (unavailable name detail) s = refl
  handle-keeps unexpected s = refl

widen : {a b : ℕ} {ms : List NewMessage} → a ≤ b → IsAnswered a ms → IsAnswered b ms
widen le h = record {
  pairs = h.pairs;
  last = h.last;
  split = h.split;
  paired = h.paired;
  at_end = h.at_end;
  bounded = omega (arith, h.bounded);
}

module _ (w : World) where
  turns-IsAnswered :
      (left n turn : ℕ) (s : State)
      → Pairs n s.new_messages
      → IsAnswered (2 * (n + left)) (turns w left turn s).new_messages
  unfolding turns
  turns-IsAnswered zero n turn s h = all-IsAnswered w n (2 * (n + 0)) s.new_messages (omega arith) h
  turns-IsAnswered (suc left) n turn s h =
      (elim (take_turn w turn s)
          as (λ e.
            TurnRecords n e
            → IsAnswered (2 * (n + suc left))
                (elim e as (λ x. State) [
                  | finished s' ↦ s'
                  | again s' ↦ turns w left (turn + 1) s'
                  | failed x s' ↦ handle w x s'
                ]).new_messages) [
                  | finished s' ↦ λ answered. widen (omega arith) answered
                  | again s' ↦
                      λ more. widen (omega arith) (turns-IsAnswered left (n + 1) (turn + 1) s' more)
                  | failed x s' ↦
                      λ answered. rw (handle-keeps w n x s') (widen (omega arith) answered)
                ])
        (take_turn-records w n turn s h)

  -- The messages that the loop hands back are pairs, one of the model and one with a result for each tool that it
  -- calls, by id and in order, and after them at most one message of the model; there are at most 20.
  pub run_agent_loop-IsAnswered :
      (messages : List Message) (counts : RevealCounts) (stash : Stash)
      → IsAnswered (2 * max_agent_turns) (run_agent_loop w messages counts stash).new_messages
  unfolding run_agent_loop
  run_agent_loop-IsAnswered messages counts stash =
      turns-IsAnswered max_agent_turns 0 1 (start w messages counts stash) (tt, refl)
