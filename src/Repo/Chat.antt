-- ===== src/Repo/Chat.antt =====
-- The chat thread of repo.inMemory.ts. An optional id, text or time that is absent is `none`.
use nastroyka_claude.Base.{
  ℕ, zero, suc, ◌-◌, Bool, true, false, not, ◌&&◌, Option, none, some, List, [], ◌∷◌, ◌++◌, any,
  keep, take_last, length, leb, Text, text, eq_text, mem_text, if◌then◌else◌,
}
use nastroyka_claude.Base.Sets.{unique_from, without}
use nastroyka_claude.Domain.Types.{ChatMessageRecord, eq_role}
use nastroyka_claude.Repo.{Repo, or_now}

abbrev or_uuid : Text → Option Text → Option Text
or_uuid uuid none = some (text "msg_" ++ uuid)
or_uuid uuid (some i) = some i

unfoldable pub append_chat_message :
    (now : ℕ) (uuid : Text) → ChatMessageRecord → Repo → ChatMessageRecord × Repo
append_chat_message now uuid m r =
    let stored : ChatMessageRecord = record m {
      id = or_uuid uuid m.id;
      created_at = or_now now m.created_at;
    } in
    (stored, record r { chat_messages = r.chat_messages ++ stored ∷ [] })

-- m.runId === runId, for a message that may have none
abbrev pub is_text : Text → Option Text → Bool
is_text t none = false
is_text t (some u) = eq_text u t

-- The message carries the run that it answers.
unfoldable pub append_chat_reply_if_absent :
    (now : ℕ) (uuid run_id : Text) → ChatMessageRecord → Repo → Bool × Repo
unfolding append_chat_message
append_chat_reply_if_absent now uuid run_id m r =
    if any (λ (x : ChatMessageRecord). is_text run_id x.run_id && eq_role x.role m.role)
      r.chat_messages
    then (false, r)
    else (true, (append_chat_message now uuid (record m { run_id = some run_id }) r).1)

abbrev time_of : ChatMessageRecord → ℕ
time_of m = elim m.created_at [ none ↦ 0 | some t ↦ t ]

insert_message : ChatMessageRecord → List ChatMessageRecord → List ChatMessageRecord
insert_message m [] = m ∷ []
insert_message m (x ∷ xs) =
    if leb (time_of m) (time_of x) then m ∷ x ∷ xs else x ∷ insert_message m xs

unfoldable pub sort_messages : List ChatMessageRecord → List ChatMessageRecord
unfolding insert_message
sort_messages [] = []
sort_messages (m ∷ ms) = insert_message m (sort_messages ms)

abbrev pub in_thread : Text → Text → ChatMessageRecord → Bool
in_thread org_id agent_id m = eq_text m.org_id org_id && eq_text m.agent_id agent_id

-- slice(-0) is slice(0): a limit of 0 keeps everything.
abbrev pub slice_last {ℓ} : {A : Type ℓ} → ℕ → List A → List A
slice_last zero xs = xs
slice_last (suc n) xs = take_last (suc n) xs

unfoldable pub list_chat_messages : (org_id agent_id : Text) → ℕ → Repo → List ChatMessageRecord
unfolding sort_messages
list_chat_messages org_id agent_id limit r =
    slice_last limit (sort_messages (keep (in_thread org_id agent_id) r.chat_messages))

unfoldable pub clear_chat_messages : (org_id agent_id : Text) → Repo → ℕ × Repo
clear_chat_messages org_id agent_id r =
    let kept =
      keep (λ (m : ChatMessageRecord). not (in_thread org_id agent_id m)) r.chat_messages in
    (length r.chat_messages - length kept, record r { chat_messages = kept })

abbrev pub or_empty : Option (List Text) → List Text
or_empty none = []
or_empty (some xs) = xs

unfoldable pub toggle_reaction : Text → Option (List Text) → List Text
unfolding unique_from
toggle_reaction emoji reactions =
    let set = unique_from [] (or_empty reactions) in
    if mem_text emoji set then without emoji set else set ++ emoji ∷ []

toggle_first :
    (org_id agent_id message_id emoji : Text)
    → List ChatMessageRecord
    → Option ChatMessageRecord × List ChatMessageRecord
unfolding toggle_reaction
toggle_first org_id agent_id message_id emoji [] = (none, [])
toggle_first org_id agent_id message_id emoji (m ∷ ms) =
    let toggled : ChatMessageRecord = record m {
      reactions = some (toggle_reaction emoji m.reactions);
    } in
    let later = toggle_first org_id agent_id message_id emoji ms in
    if is_text message_id m.id && in_thread org_id agent_id m
    then (some toggled, toggled ∷ ms)
    else (later.0, m ∷ later.1)

unfoldable pub toggle_chat_reaction :
    (org_id agent_id message_id emoji : Text) → Repo → Option ChatMessageRecord × Repo
unfolding toggle_first
toggle_chat_reaction org_id agent_id message_id emoji r =
    let (found, ms) = toggle_first org_id agent_id message_id emoji r.chat_messages in
    (found, record r { chat_messages = ms })
