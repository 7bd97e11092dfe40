-- ===== src/Domain/Errors/Human.antt =====
-- agent-os/src/domain/errors.ts: what the user is told about a run. Text that is matched with the
-- case ignored is lowered first, as in the source.
use nastroyka_claude.Base.{
  ℕ, zero, suc, ◌+◌, ◌/◌, ◌≡◌, ◌<◌, Bool, true, false, ◌&&◌, ◌||◌, Option, none, some, List, [],
  ◌∷◌, ◌++◌, map, arith, take, leb, ltb, ◌==◌, Text, text, starts_with, includes, is_space, lower,
  decimal, if◌then◌else◌,
}
use nastroyka_claude.Domain.Types.{RunStatus, queued, running, paused, succeeded, failed, canceled}
use nastroyka_claude.Domain.Errors.{empty_output_error, status_text}

-- The class [\s.…·], and the whole text made of it.
unfoldable pub is_filler : ℕ → Bool
is_filler c = is_space c || c == 46 || c == 0x2026 || c == 0xb7

unfoldable pub is_placeholder_text : Text → Bool
unfolding is_filler
is_placeholder_text [] = true
is_placeholder_text (c ∷ s) = is_filler c && is_placeholder_text s

abbrev pub is_digit : ℕ → Bool
is_digit c = leb 48 c && leb c 57

-- The digits at the head of a text.
leading_digits : Text → Text
leading_digits [] = []
leading_digits (c ∷ s) = let rest = c ∷ leading_digits s in if is_digit c then rest else []

abbrev exit_marker : Text
exit_marker = text "claude cli exited "

-- /claude CLI exited (\d+)/i.exec(e), and its first group: the leftmost match on the lowered text
-- (digits are the same in both).
exit_code_here : Text → Option Text
unfolding leading_digits
exit_code_here s =
    if starts_with exit_marker s
    then (elim (leading_digits (drop_marker s)) [ [] ↦ none | d ∷ ds ↦ some (d ∷ ds) ])
    else none
  where
    drop_marker : Text → Text
    drop_marker t =
        nastroyka_claude.Base.Lists.drop (nastroyka_claude.Base.Lists.length exit_marker) t

or_else : Option Text → Option Text → Option Text
or_else none b = b
or_else (some a) b = some a

unfoldable pub exit_code : Text → Option Text
unfolding exit_code_here or_else
exit_code [] = none
exit_code (c ∷ s) = or_else (exit_code_here (c ∷ s)) (exit_code s)

-- The answers behind the first two tests, in their order.
provider_reason : Text → Text → Option Text
provider_reason e low =
    if includes (text "enoent") low || includes (text "spawn claude") low
    then some (text "Провайдер модели недоступен на сервере (Claude CLI не найден).")
    else if includes (text "exceeded max iterations") low
    then some (text "Агент не уложился в лимит шагов — нужно ваше решение.")
    else if includes empty_output_error low
    then some (text "Модель вернула пустой ответ несколько раз подряд. Нажмите «Повторить».")
    else none

work_reason : Text → Text → Text
work_reason e low =
    if includes (text "not allowed for agent") low
    then text "Агенту запрещён инструмент, который ему понадобился, — обновите его allowlist."
    else if includes (text "no agent of type") low
    then text "В команде нет агента нужного типа — наймите его во вкладке «Команда»."
    else if includes (text "econnrefused") low || includes (text "redis") low
    then text "Очередь задач недоступна — повторите позже."
    else if includes (text "did not succeed") low
    then text "Подзадача команды не выполнилась — откройте журнал задачи."
    else text "Внутренняя ошибка: " ++ take 140 e

reason_after_exit : Text → Text → Text
unfolding provider_reason work_reason
reason_after_exit e low = elim (provider_reason e low) [ some t ↦ t | none ↦ work_reason e low ]

known_reason : Text → Text
unfolding reason_after_exit
known_reason e =
    let low = map lower e in
    if includes (text "claude cli timed out") low
    then text "Модель не ответила вовремя (таймаут LLM, 3 мин). Нажмите «Повторить»."
    else elim (exit_code low) [
      | some n ↦
          text "Сбой провайдера модели (CLI завершился с кодом "
          ++ (n ++ text "). Нажмите «Повторить».")
      | none ↦ reason_after_exit e low
    ]

abbrev is_paused : Option RunStatus → Bool
is_paused (some paused) = true
is_paused _ = false

-- An empty error text counts as no error.
unfoldable pub humanize_run_error : Option Text → Option RunStatus → Option Text
unfolding known_reason
humanize_run_error (some (c ∷ e)) status = some (known_reason (c ∷ e))
humanize_run_error _ status =
    if is_paused status
    then some (text "Агент ждёт вашего решения (достигнут лимит шагов).")
    else none

unfoldable pub describe_run_status : RunStatus → Option ℕ → Text
unfolding status_text
describe_run_status queued elapsed = text "в очереди…"
describe_run_status running elapsed =
    let min = minutes elapsed in
    if leb 1 min then text "думает… (" ++ (decimal min ++ text " мин)") else text "думает…"
  where
    minutes : Option ℕ → ℕ
    minutes (some ms) = ms / 60000
    minutes none = 0
describe_run_status paused elapsed = text "нужно ваше решение"
describe_run_status succeeded elapsed = status_text succeeded
describe_run_status failed elapsed = status_text failed
describe_run_status canceled elapsed = status_text canceled
