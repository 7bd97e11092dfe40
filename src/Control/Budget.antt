-- ===== src/Control/Budget.antt =====
-- agent-os/src/agent/chatPrompt.ts: the loop over the history of a chat prompt.
use nastroyka_claude.Base.{ℕ, ◌+◌, ◌≤◌, ◌≡◌, refl, List, [], ◌∷◌, length, Text, arith, tests}
use nastroyka_claude.Domain.Types.{ChatMessageRecord}
use nastroyka_claude.Repo.Chat.{slice_last}
use nastroyka_claude.Control.Prompt.{
  ChatPromptOptions, Budget, line_of, add_line, budget_of, history_lines,
}

abbrev pub total_length : List Text → ℕ
total_length [] = 0
total_length (l ∷ ls) = length l + total_length ls

abbrev IsWithin : ChatPromptOptions → Budget → Type 0
IsWithin cfg b = (total_length b.lines ≡ b.total) × (b.total ≤ cfg.max_total_chars)

add_line-IsWithin :
    (cfg : ChatPromptOptions) (line : Text) (b : Budget)
    → IsWithin cfg b
    → IsWithin cfg (add_line cfg line b)
unfolding add_line
add_line-IsWithin cfg line b h = grind (tests, h.0, h.1)

budget_of-IsWithin :
    (cfg : ChatPromptOptions) (ms : List ChatMessageRecord) → IsWithin cfg (budget_of cfg ms)
unfolding budget_of
budget_of-IsWithin cfg [] = (refl, omega arith)
budget_of-IsWithin cfg (m ∷ ms) =
    add_line-IsWithin cfg (line_of cfg m) (budget_of cfg ms) (budget_of-IsWithin cfg ms)

-- The lines of the history in a chat prompt have together at most the budget's characters.
pub history_lines_bounded :
    (cfg : ChatPromptOptions) (history : List ChatMessageRecord)
    → total_length (history_lines cfg history) ≤ cfg.max_total_chars
unfolding history_lines
history_lines_bounded cfg history =
    let h = budget_of-IsWithin cfg (slice_last cfg.max_messages history) in omega (arith, h.0, h.1)
