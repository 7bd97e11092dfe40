-- ===== src/Control/Prompt.antt =====
-- agent-os/src/agent/chatPrompt.ts: the prompt of a chat message, and the readable reply of a run.
use nastroyka_claude.Base.{
  ℕ, ◌+◌, Bool, true, false, Option, none, some, List, [], ◌∷◌, ◌++◌, length, take, ltb, Text, text,
  eq_text, is_blank, join, if◌then◌else◌,
}
use nastroyka_claude.Domain.Json.{
  Json, null, bool, num, str, arr, obj, Fields, field, end, prop, stringify,
}
use nastroyka_claude.Domain.Types.{ChatMessageRecord, ChatRole, user, agent}
use nastroyka_claude.Repo.Chat.{slice_last}

pub record ChatPromptOptions : Type 0 where
  pub max_messages : ℕ
  pub max_chars_per_message : ℕ
  pub max_total_chars : ℕ

-- DEFAULTS
abbrev pub default_options : ChatPromptOptions
default_options = record { max_messages = 12; max_chars_per_message = 600; max_total_chars = 4000 }

abbrev pub chat_guide : Text
chat_guide = join (text "\n") (
    text "Ты сейчас в режиме ЖИВОГО личного чата с пользователем — отвечай как собеседник,"
    ∷ text "напрямую и по существу на его сообщение. НЕ подтверждай получение, НЕ говори «Принято»,"
    ∷ text "НЕ превращай сообщение в задачу для делегирования — сразу давай содержательный ответ."
    ∷ text "Если просят ответить кратко/одним словом/в заданном формате — выполни это буквально."
    ∷ [])

abbrev speaker : ChatRole → Text
speaker user = text "Пользователь"
speaker agent = text "Ты"

abbrev body : ChatPromptOptions → Text → Text
body cfg t =
    if ltb cfg.max_chars_per_message (length t)
    then take cfg.max_chars_per_message t ++ text "…"
    else t

unfoldable pub line_of : ChatPromptOptions → ChatMessageRecord → Text
line_of cfg m = speaker m.role ++ (text ": " ++ body cfg m.text)

-- The lines kept so far with their total length, and whether a line has overrun the budget.
pub record Budget : Type 0 where
  pub total : ℕ
  pub lines : List Text
  pub full : Bool

unfoldable pub add_line : ChatPromptOptions → Text → Budget → Budget
add_line cfg line b =
    if b.full
    then b
    else if ltb cfg.max_total_chars (b.total + length line)
    then record b { full = true }
    else record { total = b.total + length line; lines = line ∷ b.lines; full = false }

-- The loop goes from the newest message, the last of the list, to the oldest.
unfoldable pub budget_of : ChatPromptOptions → List ChatMessageRecord → Budget
budget_of cfg [] = record { total = 0; lines = []; full = false }
budget_of cfg (m ∷ ms) = add_line cfg (line_of cfg m) (budget_of cfg ms)

unfoldable pub history_lines : ChatPromptOptions → List ChatMessageRecord → List Text
history_lines cfg history = (budget_of cfg (slice_last cfg.max_messages history)).lines

abbrev framed : List Text → Text → Text
framed [] new_text =
    join (text "\n") (chat_guide ∷ [] ∷ text "Сообщение пользователя:" ∷ new_text ∷ [])
framed (l ∷ ls) new_text = join (text "\n") (
    chat_guide
    ∷ []
    ∷ text "Контекст переписки (старые выше, новые ниже):"
    ∷ []
    ∷ join (text "\n") (l ∷ ls)
    ∷ []
    ∷ text "Новое сообщение пользователя:"
    ∷ new_text
    ∷ []
    ∷ text "Ответь только на новое сообщение, учитывая контекст. Не пересказывай историю."
    ∷ [])

unfoldable pub assemble_chat_prompt : List ChatMessageRecord → Text → ChatPromptOptions → Text
assemble_chat_prompt history new_text cfg = framed (history_lines cfg history) new_text

-- The first of the fields that is a text and not blank.
abbrev readable : Option Json → Option Text → Option Text
readable (some (str t)) later = if is_blank t then later else some t
readable _ later = later

unfoldable mutual
  pub reply_of : Json → Text
  reply_of (str t) = t
  reply_of null = stringify (str [])
  reply_of (bool b) = stringify (bool b)
  reply_of (num n) = stringify (num n)
  reply_of (arr xs) = stringify (arr xs)
  reply_of (obj fs) =
      let nested = reply_of_summary (obj fs) fs in
      elim (readable (prop (text "report") (obj fs))
        (readable (prop (text "text") (obj fs)) (readable (prop (text "summary") (obj fs)) none))) [
          | some t ↦ t
          | none ↦ nested
        ]

  pub reply_of_summary : Json → Fields → Text
  reply_of_summary whole end = stringify whole
  reply_of_summary whole (field k v fs) =
      let here = reply_of v in
      let later = reply_of_summary whole fs in if eq_text k (text "summary") then here else later

-- outputToReplyText: an absent output is JSON.stringify('').
unfoldable pub output_to_reply_text : Option Json → Text
output_to_reply_text none = stringify (str [])
output_to_reply_text (some v) = reply_of v
