-- ===== src/Runtime/Loop.antt =====
-- The `for` loop of `executeRun`: model turns, tool calls, and the final answer.
use nastroyka_claude.Base.{
  ℕ, zero, suc, ◌+◌, Bool, true, false, not, ◌||◌, Option, none, some, List, [], ◌∷◌, ◌++◌, Text,
  text, mem_text, is_blank, Map, if◌then◌else◌,
}
use nastroyka_claude.Domain.Json.{end, field, obj, Json, str, stringify}
use nastroyka_claude.Domain.Types
use nastroyka_claude.Domain.Types.{
  RunStatus, running, succeeded, Agent, Step, ToolCall, ModelTurn, episodic, assistant,
}
use nastroyka_claude.Domain.Errors.{empty_model_output, tool_not_allowed, max_iterations}
use nastroyka_claude.Domain.Errors.Human.{is_placeholder_text}
use nastroyka_claude.Domain.StateMachine.{transition}
use nastroyka_claude.Repo.{Patch}
use nastroyka_claude.Exec.{Exec, pure, throw, lift, ◌>>=◌, ◌>>◌}
use nastroyka_claude.Tools.{schemas, run_tool}
use nastroyka_claude.System.{
  System, nat_json, meta1, meta2, write_audit, emit, run_succeeded, step_appended, run_needs_human,
  set_status, add_step,
}
use nastroyka_claude.Runtime.Deps
use nastroyka_claude.Runtime.Deps.{
  RuntimeDeps, ModelMessage, ModelRequest, limit_of, call_model, remember, mask_text, unmask_text,
  mask_messages,
}
use nastroyka_claude.Runtime.Prompt.{truncate}

-- The variables of the loop.
pub record Progress : Type 0 where
  pub step_index : ℕ
  pub tokens_in : ℕ
  pub tokens_out : ℕ
  pub messages : List ModelMessage
  pub pii_map : Map Text

unfoldable pub first_progress : Text → Progress
first_progress task = record {
  step_index = 0;
  tokens_in = 0;
  tokens_out = 0;
  messages = record { role = Deps.MessageRole.user; content = task; tool_call_id = none } ∷ [];
  pii_map = [];
}

abbrev text_or_empty : Option Text → Text
text_or_empty none = []
text_or_empty (some t) = t

-- An absent or empty allowlist allows every tool.
unfoldable pub is_tool_allowed : Option (List Text) → Text → Bool
is_tool_allowed none name = true
is_tool_allowed (some []) name = true
is_tool_allowed (some (t ∷ ts)) name = mem_text name (t ∷ ts)

abbrev includes_tool : Option (List Text) → Text → Bool
includes_tool none name = false
includes_tool (some ts) name = mem_text name ts

abbrev pub output_patch : Json → Patch
output_patch output = record { output = some output; error = none; attempts = none }

module _ (deps : RuntimeDeps) (run_id org_id : Text) (agent : Agent) where
  -- `tools.run`: the run counts whether or not the tool throws.
  unfoldable pub invoke_tool : ToolCall → Exec System Json
  invoke_tool call s = (
    run_tool deps.tools s.tool_runs call.name call.input deps.allowlist_domains,
    record s { tool_runs = s.tool_runs + 1 },
  )

  unfoldable pub run_call : ToolCall → Progress → Exec System Progress
  run_call call p =
      if not (is_tool_allowed agent.allowed_tools call.name)
      then throw (tool_not_allowed agent.id call.name)
      else (do
        result ← invoke_tool call
        add_step (record {
          run_id = run_id;
          index = p.step_index;
          role = Types.StepRole.tool;
          tool_name = some call.name;
          tool_call_id = some call.id;
          input = some call.input;
          output = some result;
          tokens_in = none;
          tokens_out = none;
        })
        emit deps.has_events step_appended run_id org_id
            (meta2 (text "index") (nat_json p.step_index) (text "toolName") (str call.name))
        pure (record p {
          step_index = p.step_index + 1;
          messages =
              p.messages
              ++ record {
                role = Deps.MessageRole.tool;
                content = stringify result;
                tool_call_id = some call.id;
              }
                ∷ [];
        }))

  unfoldable pub run_calls : List ToolCall → Progress → Exec System Progress
  run_calls [] p = pure p
  run_calls (call ∷ calls) p = do p' ← run_call call p; run_calls calls p'

  -- The answer is stored, announced and remembered.
  unfoldable pub succeed : (task answer : Text) → Progress → RunStatus → Exec System (Unit {0})
  succeed task answer p next = do
    set_status run_id next (output_patch (str answer))
    write_audit org_id run_id (text "runtime") (text "run.succeeded") (
        some (
          meta2 (text "tokensIn") (nat_json p.tokens_in) (text "tokensOut")
            (nat_json p.tokens_out)))
    emit deps.has_events run_succeeded run_id org_id
        (meta2 (text "tokensIn") (nat_json p.tokens_in) (text "tokensOut") (nat_json p.tokens_out))
    remember deps (record {
      agent_id = agent.id;
      kind = episodic;
      content = meta2 (text "task") (str task) (text "summary") (str (truncate answer 500));
      run_id = some run_id;
      created_at = none;
    })

  -- No tools requested: the final answer, which must not be empty or a placeholder.
  unfoldable pub finish : (task answer : Text) → Progress → Exec System (Unit {0})
  finish task answer p =
      if is_blank answer || is_placeholder_text answer
      then throw empty_model_output
      else (do next ← lift (transition running succeeded); succeed task answer p next)

  abbrev prompt_preview : ℕ → (system task : Text) → Option Json
  prompt_preview zero system task =
      some (
        meta2 (text "system") (str (truncate system 2000)) (text "task") (str (truncate task 2000)))
  prompt_preview (suc iter) system task = none

  -- One turn of the model, masked on the way out and unmasked on the way back, and its step.
  unfoldable pub take_turn :
      (task system : Text) → ℕ → Progress → Exec System (ModelTurn × Text × Progress)
  take_turn task system iter p = do
    let sys = mask_text deps.pii system p.pii_map
    let out = mask_messages deps.pii p.messages sys.1
    turn ← call_model deps (record {
      system = sys.0;
      messages = out.0;
      tools = schemas deps.tools;
      web_search = includes_tool agent.allowed_tools (text "web_search");
    })
    let answer = unmask_text deps.pii (text_or_empty turn.text) out.1
    add_step (record {
      run_id = run_id;
      index = p.step_index;
      role = assistant;
      tool_name = none;
      tool_call_id = none;
      input = prompt_preview iter sys.0 task;
      output = some (str answer);
      tokens_in = some turn.tokens_in;
      tokens_out = some turn.tokens_out;
    })
    emit deps.has_events step_appended run_id org_id (
        obj (
          field (text "index") (nat_json p.step_index) (
            field (text "role") (str (text "assistant")) (
              field (text "tokensIn") (nat_json turn.tokens_in)
                (field (text "tokensOut") (nat_json turn.tokens_out) end)))))
    pure (
      turn,
      answer,
      record p {
        step_index = p.step_index + 1;
        tokens_in = p.tokens_in + turn.tokens_in;
        tokens_out = p.tokens_out + turn.tokens_out;
        pii_map = out.1;
      },
    )

  -- if (text) messages.push({ role: 'assistant', content: text })
  abbrev push_answer : Text → Progress → Progress
  push_answer [] p = p
  push_answer (c ∷ t) p = record p {
    messages =
        p.messages
        ++ record { role = Deps.MessageRole.assistant; content = c ∷ t; tool_call_id = none } ∷ [];
  }

  -- No tool calls end the run; others are run, and the next round follows.
  unfoldable pub after_turn :
      (task : Text)
      → (Progress → Exec System (Unit {0}))
      → List ToolCall
      → (answer : Text) → Progress
      → Exec System (Unit {0})
  after_turn task next [] answer p = finish task answer p
  after_turn task next (call ∷ calls) answer p = do
    p' ← run_calls (call ∷ calls) (push_answer answer p)
    next p'

  -- The rounds left bound the loop; at none left the run is flagged for a human.
  unfoldable pub iterate :
      (task system : Text) → (left iter : ℕ) → Progress → Exec System (Unit {0})
  iterate task system zero iter p = do
    emit deps.has_events run_needs_human run_id org_id
        (meta1 (text "maxIterations") (nat_json (limit_of deps)))
    throw (max_iterations (limit_of deps))
  iterate task system (suc left) iter p = do
    (turn, answer, p') ← take_turn task system iter p
    after_turn task (iterate task system left (iter + 1)) turn.tool_calls answer p'
