-- ===== src/Models/Fixed.antt =====
-- agent-os/src/adapters: the models without a language model (model.mock.ts, model.offline.ts,
-- model.echo.ts).
use nastroyka_claude.Base.{
  ℕ, zero, suc, ◌-◌, min, some, List, [], ◌∷◌, ◌++◌, keep, length, take, Text, text, Bool, true,
  false, if◌then◌else◌,
}
use nastroyka_claude.Domain.Json.{Json}
use nastroyka_claude.Domain.Types.{ModelTurn}
use nastroyka_claude.Domain.Errors.{Result, ok, err, thrown}
use nastroyka_claude.Runtime.Deps.{MessageRole, user, tool, ModelMessage}
use nastroyka_claude.Runtime.Prompt.{truncate}
use nastroyka_claude.Models.{ModelProvider}

abbrev is_tool_role : MessageRole → Bool
is_tool_role tool = true
is_tool_role _ = false

abbrev is_user_role : MessageRole → Bool
is_user_role user = true
is_user_role _ = false

-- turns[idx], for an index within the turns
abbrev turn_at : ModelTurn → List ModelTurn → ℕ → ModelTurn
turn_at t ts zero = t
turn_at t [] (suc i) = t
turn_at t (u ∷ us) (suc i) = turn_at u us i

-- ScriptedModelProvider: the constructor refuses an empty script.
unfoldable pub scripted_model : List ModelTurn → Result ModelProvider
scripted_model [] = err (thrown (text "ScriptedModelProvider needs >= 1 turn"))
scripted_model (t ∷ ts) = ok (λ calls request.
    let completed = length (keep (λ (m : ModelMessage). is_tool_role m.role) request.messages) in
    ok (turn_at t ts (min completed (length (t ∷ ts) - 1))))

unfoldable pub tool_call_turn : Text → Json → Text → ModelTurn
tool_call_turn name input id = record {
  text = some (text "Calling " ++ name);
  tool_calls = record { id = id; name = name; input = input } ∷ [];
  tokens_in = 20;
  tokens_out = 8;
}

unfoldable pub final_turn : Text → ModelTurn
final_turn t = record { text = some t; tool_calls = []; tokens_in = 10; tokens_out = 5 }

unfoldable pub failing_model : Text → ModelProvider
failing_model reason calls request = err (thrown reason)

-- [...messages].reverse().find((m) => m.role === 'user')?.content ?? ''
last_user_from : Text → List ModelMessage → Text
last_user_from best [] = best
last_user_from best (m ∷ ms) = last_user_from (if is_user_role m.role then m.content else best) ms

unfoldable pub last_user : List ModelMessage → Text
unfolding last_user_from
last_user ms = last_user_from [] ms

unfoldable pub offline_model : ModelProvider
offline_model calls request = ok (record {
  text = some (
      text
        "Офлайн-режим: языковая модель не подключена, поэтому это служебный ответ, а не работа специалиста. Запрос принят: «"
      ++ (take 300 (last_user request.messages)
          ++ text
              "». Подключите подписку (CLAUDE_CODE_OAUTH_TOKEN) или API-ключ, чтобы получать настоящие профессиональные ответы."));
  tool_calls = [];
  tokens_in = 0;
  tokens_out = 0;
})

-- DelayedEchoModel, without its delay.
unfoldable pub echo_model : ModelProvider
echo_model calls request = ok (record {
  text = some (text "✓ " ++ truncate (last_user request.messages) 140);
  tool_calls = [];
  tokens_in = 20;
  tokens_out = 12;
})
