-- ===== src/Runtime/Prompt.antt =====
-- The texts that the runtime sends to the model: `toPrompt`, `truncate`, the chat directive and the
-- recalled memory (with `memoryText` of agent-os/src/ports/memory.ts).
use nastroyka_claude.Base.{
  ℕ, Bool, true, false, not, Option, none, some, List, [], ◌∷◌, ◌++◌, map, length, take, leb, Text,
  text, eq_text, trim, join, if◌then◌else◌,
}
use nastroyka_claude.Domain.Json.{Json, null, bool, num, str, prop, is_true, stringify, to_text}
use nastroyka_claude.Domain.Types.{MemoryKind, short_term, long_term, episodic, MemoryRecord}

unfoldable pub string_or_json : Json → Text
string_or_json (str t) = t
string_or_json v = stringify v

unfoldable pub to_prompt : Json → Text
unfolding string_or_json
to_prompt input = elim (prop (text "prompt") input) [
  | some p ↦ to_text p
  | none ↦ string_or_json input
]

unfoldable pub truncate : Text → ℕ → Text
truncate t max = if leb (length t) max then t else take max t ++ text "…"

-- The run's input has `chat: true`.
unfoldable pub is_personal_chat : Json → Bool
is_personal_chat input = is_true (prop (text "chat") input)

unfoldable pub chat_system : Text → Text
chat_system system =
    text "РЕЖИМ ЖИВОГО ЛИЧНОГО ЧАТА (1:1 с пользователем). Отвечай НАПРЯМУЮ и по существу на его "
    ++ (text
          "сообщение, как собеседник. НЕ оркеструй, НЕ декомпозируй на подзадачи, НЕ распределяй роли, "
        ++ (text
              "НЕ подтверждай получение словами «Принято» или «Ответ команды» — сразу давай содержательный "
            ++ (text
                  "ответ. Если просят ответить кратко/одним словом/в заданном формате — выполни это буквально. "
                ++ (text
                      "ВАЖНО: даже если в истории этой переписки твои прошлые ответы были сухими/формальными "
                    ++ (text
                          "(«Принято», «Ответ команды»), НЕ повторяй этот стиль — это был сбой, отвечай живо и по сути. "
                        ++ (text
                              "Подключай команду или подзадачи ТОЛЬКО если пользователь явно просит запустить работу команды.\n\n"
                            ++ system))))))

abbrev is_truthy : Json → Bool
is_truthy null = false
is_truthy (bool b) = b
is_truthy (num n) = not (eq_text n (text "0"))
is_truthy (str []) = false
is_truthy _ = true

abbrev task_part : Option Json → Text
task_part none = []
task_part (some t) = if is_truthy t then to_text t ++ text " " else []

unfoldable pub memory_text : Json → Text
unfolding string_or_json
memory_text content = elim (prop (text "summary") content) [
  | some summary ↦ trim (task_part (prop (text "task") content) ++ to_text summary)
  | none ↦ string_or_json content
]

kind_text : MemoryKind → Text
kind_text short_term = text "short_term"
kind_text long_term = text "long_term"
kind_text episodic = text "episodic"

memory_line : MemoryRecord → Text
unfolding kind_text memory_text
memory_line m = text "- (" ++ (kind_text m.kind ++ (text ") " ++ memory_text m.content))

-- Nothing is added when nothing was recalled.
unfoldable pub memory_section : List MemoryRecord → Text
unfolding memory_line
memory_section [] = []
memory_section (m ∷ ms) =
    text "\n\n# Relevant memory\n" ++ join (text "\n") (map memory_line (m ∷ ms))
