-- ===== src/Control/Chat.antt =====
-- The personal chat of controlPlane.ts: sending a message, the lazy backfill of replies and the
-- history of a thread.
use nastroyka_claude.Base.{
  ℕ, Bool, true, false, not, ◌&&◌, ◌||◌, Option, none, some, List, [], ◌∷◌, ◌++◌, take, Text, text,
  eq_text, mem_text, trim, is_blank, is_space, ◌==◌, if◌then◌else◌,
}
use nastroyka_claude.Domain.Json.{Json, bool, str, obj, field, end}
use nastroyka_claude.Domain.Types.{
  RunStatus, succeeded, Run, ChatMessageRecord, ChatRole, user, agent, eq_status, eq_role,
}
use nastroyka_claude.Domain.Errors.{ok}
use nastroyka_claude.Domain.Errors.Human.{humanize_run_error}
use nastroyka_claude.Repo.Chat.{
  append_chat_message, append_chat_reply_if_absent, list_chat_messages,
}
use nastroyka_claude.Exec.{Exec, pure, gets, ◌>>=◌, ◌>>◌}
use nastroyka_claude.System.{System, find_run}
use nastroyka_claude.Worker.{WorkerDeps}
use nastroyka_claude.Control.{require_org, require_member, refuse_if, create_run}
use nastroyka_claude.Control.Prompt.{assemble_chat_prompt, default_options, output_to_reply_text}

pub record Pending : Type 0 where
  pub run_id : Text
  pub status : RunStatus
  pub error_human : Option Text

-- The runs of the agent's messages in the history.
replied_runs : List ChatMessageRecord → List Text
replied_runs [] = []
replied_runs (m ∷ ms) = add (eq_role m.role agent) m.run_id (replied_runs ms)
  where
    add : Bool → Option Text → List Text → List Text
    add true (some (c ∷ r)) rs = (c ∷ r) ∷ rs
    add _ _ rs = rs

abbrev reply_to : (org_id agent_id : Text) → Run → ChatMessageRecord
reply_to org_id agent_id run = record {
  id = none;
  org_id = org_id;
  agent_id = agent_id;
  role = agent;
  text = output_to_reply_text run.output;
  run_id = none;
  reactions = none;
  created_at = none;
}

unfoldable pub append_reply :
    (now : ℕ) (uuid run_id : Text) → ChatMessageRecord → Exec System (Unit {0})
append_reply now uuid run_id m s =
    (ok tt, record s { repo = (append_chat_reply_if_absent now uuid run_id m s.repo).1 })

abbrev pending_of : Text → Run → Pending
pending_of run_id run = record {
  run_id = run_id;
  status = run.status;
  error_human = humanize_run_error run.error (some run.status);
}

-- A user's message without an answer: its run, where it is stored, is answered or pending. The last
-- argument is the rest of the loop.
abbrev backfill_run :
    (now : ℕ) (uuid org_id agent_id run_id : Text) (replied : List Text)
    → (List Text → Exec System (List Pending))
    → Option Run
    → Exec System (List Pending)
backfill_run now uuid org_id agent_id run_id replied later none = later replied
backfill_run now uuid org_id agent_id run_id replied later (some run) =
    if eq_status run.status succeeded
    then (do append_reply now uuid run_id (reply_to org_id agent_id run); later (run_id ∷ replied))
    else (do rest ← later replied; pure (pending_of run_id run ∷ rest))

abbrev unanswered : ChatMessageRecord → List Text → Option Text
unanswered m replied = elim m.run_id [
  | none ↦ none
  | some r ↦
      if not (eq_role m.role user) || eq_text r [] || mem_text r replied then none else some r
]

-- `uuid` names the reply of a run.
backfill_loop :
    (now : ℕ) (uuid : Text → Text) (org_id agent_id : Text)
    → List ChatMessageRecord
    → List Text
    → Exec System (List Pending)
backfill_loop now uuid org_id agent_id [] replied = pure []
backfill_loop now uuid org_id agent_id (m ∷ ms) replied =
    let later = backfill_loop now uuid org_id agent_id ms in
    elim (unanswered m replied) [
      | none ↦ later replied
      | some r ↦ (do
        found ← find_run r
        backfill_run now (uuid r) org_id agent_id r replied later found)
    ]

unfoldable pub backfill_chat_replies :
    (now : ℕ) (uuid : Text → Text) (org_id agent_id : Text)
    → List ChatMessageRecord
    → Exec System (List Pending)
unfolding backfill_loop replied_runs
backfill_chat_replies now uuid org_id agent_id history =
    backfill_loop now uuid org_id agent_id history (replied_runs history)

unfoldable pub thread : (org_id agent_id : Text) → ℕ → Exec System (List ChatMessageRecord)
unfolding list_chat_messages
thread org_id agent_id limit = gets λ s. list_chat_messages org_id agent_id limit s.repo

abbrev limit_or_100 : Option ℕ → ℕ
limit_or_100 none = 100
limit_or_100 (some n) = n

unfoldable pub get_chat_history :
    (now : ℕ) (uuid : Text → Text) (org_id agent_id : Text)
    → Option ℕ
    → Exec System (List ChatMessageRecord × List Pending)
get_chat_history now uuid org_id agent_id limit = do
  require_member org_id agent_id
  history ← thread org_id agent_id (limit_or_100 limit)
  pending ← backfill_chat_replies now uuid org_id agent_id history
  messages ← thread org_id agent_id (limit_or_100 limit)
  pure (messages, pending)

pub record Attachment : Type 0 where
  pub filename : Text
  pub text : Text

pub record Quote : Type 0 where
  pub role : ChatRole
  pub text : Text

pub record ChatMessage : Type 0 where
  pub org_id : Text
  pub agent_id : Text
  pub text : Text
  pub attachment : Option Attachment
  pub reply_to : Option Quote

abbrev or_study : Text → Text
or_study [] = nastroyka_claude.Base.text "Изучи приложенный файл и дай краткие выводы."
or_study (c ∷ t) = c ∷ t

abbrev fence : Text
fence = nastroyka_claude.Base.text "\n\"\"\"\n"

abbrev with_file : Option Attachment → Text → Text
with_file none t = t
with_file (some a) t =
    text "Файл \""
    ++ (a.filename ++ (text "\":" ++ (fence ++ (a.text ++ (fence ++ (text "\n" ++ t))))))

-- ' 📎 ' in UTF-16
abbrev shown_file : Option Attachment → Text → Text
shown_file none t = t
shown_file (some a) t = t ++ (32 ∷ 0xd83d ∷ 0xdcce ∷ 32 ∷ a.filename)

abbrev flush : Text → Bool → Text
flush run true = 32 ∷ []
flush run false = run

-- s.replace(/\s*\n\s*/g, ' '): a maximal run of white space that has a line break is one space. The
-- first arguments are the run read so far and whether it has one.
flatten_lines : Text → Bool → Text → Text
flatten_lines run broken [] = flush run broken
flatten_lines run broken (c ∷ s) =
    let space = is_space c in
    let rest =
      flatten_lines (if space then run ++ c ∷ [] else []) (space && (broken || c == 10)) s in
    if space then rest else flush run broken ++ (c ∷ rest)

abbrev whose : ChatRole → Text
whose agent = nastroyka_claude.Base.text "твоё сообщение"
whose user = nastroyka_claude.Base.text "своё более раннее сообщение"

-- The quote of a reply, where it is not blank: in the prompt and in the stored text.
abbrev with_quote : Option Quote → Text → Text
with_quote none t = t
with_quote (some q) t =
    if is_blank q.text
    then t
    else text "Пользователь отвечает на "
      ++ (whose q.role
          ++ (text ":" ++ (fence ++ (take 400 (trim q.text) ++ (fence ++ (text "\n" ++ t))))))

shown_quote : Option Quote → Text → Text
unfolding flatten_lines
shown_quote none t = t
shown_quote (some q) t =
    if is_blank q.text
    then t
    else text "↪ " ++ (flatten_lines [] false (take 120 (trim q.text)) ++ (text "\n" ++ t))

unfoldable pub display_text : ChatMessage → Text
unfolding shown_quote
display_text m = shown_quote m.reply_to (shown_file m.attachment (or_study (trim m.text)))

unfoldable pub prompt_part : ChatMessage → Text
prompt_part m = with_quote m.reply_to (with_file m.attachment (or_study (trim m.text)))

unfoldable pub append_message :
    (now : ℕ) (uuid : Text) → ChatMessageRecord → Exec System ChatMessageRecord
append_message now uuid m s =
    let (stored, r) = append_chat_message now uuid m s.repo in (ok stored, record s { repo = r })

abbrev has_file : Option Attachment → Bool
has_file none = false
has_file (some a) = true

abbrev user_turn : Text → ChatMessage → ChatMessageRecord
user_turn run_id m = record {
  id = none;
  org_id = m.org_id;
  agent_id = m.agent_id;
  role = user;
  text = display_text m;
  run_id = some run_id;
  reactions = none;
  created_at = none;
}

abbrev chat_input : Text → Text → Json
chat_input prompt t = obj (
    field (text "prompt") (str prompt)
      (field (text "chat") (bool true) (field (text "message") (str t) end)))

unfoldable pub send_chat_message :
    WorkerDeps
    → (now : ℕ) (uuid : Text → Text) (message_id run_id : Text) → ChatMessage
    → Exec System (Text × ChatMessageRecord)
send_chat_message deps now uuid message_id run_id m = do
  refuse_if (is_blank m.text && not (has_file m.attachment)) (text "текст сообщения пуст")
  require_org m.org_id
  require_member m.org_id m.agent_id
  history ← thread m.org_id m.agent_id 12
  backfill_chat_replies now uuid m.org_id m.agent_id history
  fresh ← thread m.org_id m.agent_id 12
  message ← append_message now message_id (user_turn run_id m)
  started ← create_run deps run_id m.org_id m.agent_id (
      chat_input (assemble_chat_prompt fresh (prompt_part m) default_options)
        (or_study (trim m.text)))
  pure (started, message)
