-- ===== src/Repo/Threads.antt =====
-- agent-os/src/adapters/repo.inMemory.ts: the methods on chat threads.
use nastroyka_claude.Base.{
  eq_text_refl, ℕ, ◌+◌, ◌≡◌, refl, Bool, true, false, not, ◌&&◌, Option, some, List, [], ◌∷◌, ◌++◌,
  any, keep, length, Text, eq_text, eq_text_iff, mem_text, arith, length-keep-le, if◌then◌else◌,
}
use nastroyka_claude.Base.Sets.{any-append, mem-append, mem-without, mem_unique, unique_from}
use nastroyka_claude.Domain.Types.{ChatMessageRecord, eq_role, ChatRole}
use nastroyka_claude.Repo.{Repo}
use nastroyka_claude.Repo.Chat.{
  append_chat_message, append_chat_reply_if_absent, is_text, in_thread, clear_chat_messages,
  toggle_reaction, or_empty,
}

eq_role_refl : (r : ChatRole) → eq_role r r ≡ true
eq_role_refl r = ground arith

abbrev answers : Text → ChatRole → ChatMessageRecord → Bool
answers run_id role x = is_text run_id x.run_id && eq_role x.role role

reply_cases :
    (now later : ℕ) (uuid other run_id : Text) (m n : ChatMessageRecord) (r : Repo) (b : Bool)
    → any (answers run_id m.role) r.chat_messages ≡ b
    → n.role ≡ m.role
    → let s = (append_chat_reply_if_absent now uuid run_id m r).1 in
      append_chat_reply_if_absent later other run_id n s ≡ (false, s)
unfolding append_chat_reply_if_absent append_chat_message
reply_cases now later uuid other run_id m n r true e same = rw same (rw e (rw e refl))
reply_cases now later uuid other run_id m n r false e same =
    let stored = (append_chat_message now uuid (record m { run_id = some run_id }) r).0 in
    let found : any (answers run_id m.role) (r.chat_messages ++ stored ∷ []) ≡ true =
      any-append (answers run_id m.role) r.chat_messages stored
        (ground (arith, eq_text_refl run_id, eq_role_refl m.role)) in
    rw same (rw e (rw found refl))

-- Once a reply to a run has been tried, trying any reply of the same role to that run again does not
-- append it and leaves the repository as it is: a run gets one reply of a role.
pub append_chat_reply_once :
    (now later : ℕ) (uuid other run_id : Text) (m n : ChatMessageRecord) (r : Repo)
    → n.role ≡ m.role
    → let s = (append_chat_reply_if_absent now uuid run_id m r).1 in
      append_chat_reply_if_absent later other run_id n s ≡ (false, s)
append_chat_reply_once now later uuid other run_id m n r =
    reply_cases now later uuid other run_id m n r (any (answers run_id m.role) r.chat_messages) refl

keep-keep-not : {A : Type 0} (p : A → Bool) (xs : List A) → keep p (keep (λ x. not (p x)) xs) ≡ []
keep-keep-not p [] = refl
keep-keep-not p (x ∷ xs) = ground (arith, keep-keep-not p xs)

keep-keep_other :
    {A : Type 0} (p q : A → Bool) (xs : List A)
    → ((x : A) → q x ≡ true → p x ≡ false)
    → keep q (keep (λ x. not (p x)) xs) ≡ keep q xs
keep-keep_other p q [] h = refl
keep-keep_other p q (x ∷ xs) h = ground (arith, keep-keep_other p q xs h, h x)

in_thread_other :
    (org_id agent_id o a : Text)
    → (eq_text o org_id && eq_text a agent_id) ≡ false
    → (m : ChatMessageRecord) → in_thread o a m ≡ true
    → in_thread org_id agent_id m ≡ false
in_thread_other org_id agent_id o a ne m h = ground (
  arith,
  eq_text_iff o org_id,
  eq_text_iff a agent_id,
  eq_text_iff m.org_id org_id,
  eq_text_iff m.agent_id agent_id,
  eq_text_iff m.org_id o,
  eq_text_iff m.agent_id a,
)

in_thread_same :
    (org_id agent_id o a : Text)
    → (eq_text o org_id && eq_text a agent_id) ≡ true
    → (o ≡ org_id) × (a ≡ agent_id)
in_thread_same org_id agent_id o a e = ground (arith, eq_text_iff o org_id, eq_text_iff a agent_id)

threads_cleared :
    (org_id agent_id o a : Text) (xs : List ChatMessageRecord) (b : Bool)
    → (eq_text o org_id && eq_text a agent_id) ≡ b
    → keep (in_thread o a) (keep (λ x. not (in_thread org_id agent_id x)) xs)
      ≡ (if b then [] else keep (in_thread o a) xs)
threads_cleared org_id agent_id o a xs true e =
    let (same_org, same_agent) = in_thread_same org_id agent_id o a e in
    rw same_org (rw same_agent (keep-keep-not (in_thread org_id agent_id) xs))
threads_cleared org_id agent_id o a xs false e =
    keep-keep_other (in_thread org_id agent_id) (in_thread o a) xs
      (in_thread_other org_id agent_id o a e)

-- Clearing a thread leaves nothing in it and every other thread as it was, and returns the number of
-- the messages that it removed.
pub clear_chat_messages_lem :
    (org_id agent_id : Text) (r : Repo) (o a : Text)
    → let (n, r') = clear_chat_messages org_id agent_id r in
      (n + length r'.chat_messages ≡ length r.chat_messages)
      × (keep (in_thread o a) r'.chat_messages ≡ (
          if eq_text o org_id && eq_text a agent_id
          then []
          else keep (in_thread o a) r.chat_messages))
unfolding clear_chat_messages
clear_chat_messages_lem org_id agent_id r o a = (
  omega (
    arith,
    length-keep-le (λ (m : ChatMessageRecord). not (in_thread org_id agent_id m)) r.chat_messages,
  ),
  threads_cleared org_id agent_id o a r.chat_messages (eq_text o org_id && eq_text a agent_id) refl,
)

-- Toggling a reaction adds the emoji where it is missing and removes it where it is there; every
-- other emoji stays or stays away.
pub toggle_reaction_lem :
    (emoji f : Text) (reactions : Option (List Text))
    → mem_text f (toggle_reaction emoji reactions) ≡ (
        if eq_text f emoji
        then not (mem_text f (or_empty reactions))
        else mem_text f (or_empty reactions))
unfolding toggle_reaction mem_text
toggle_reaction_lem emoji f reactions = ground (
  arith,
  mem-append emoji f (unique_from [] (or_empty reactions)),
  mem-without emoji f (unique_from [] (or_empty reactions)),
  mem_unique f [] (or_empty reactions),
  mem_unique emoji [] (or_empty reactions),
  eq_text_iff f emoji,
)
