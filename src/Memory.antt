-- ===== src/Memory.antt =====
-- agent-os/src/adapters/memory.repo.ts: recall over the stored memories, ranked by the words that they
-- share with the query and by recency.
pub mod Recall
use nastroyka_claude.Base.{
  ℕ, zero, suc, ◌+◌, Bool, true, false, not, ◌&&◌, ◌||◌, Option, none, some, List, [], ◌∷◌, ◌++◌,
  map, keep, take, length, ltb, leb, ◌==◌, Text, text, eq_text, mem_text, if◌then◌else◌,
}
use nastroyka_claude.Base.Sets.{unique_from}
use nastroyka_claude.Domain.Types.{
  MemoryKind, short_term, long_term, episodic, MemoryRecord, eq_kind,
}
use nastroyka_claude.Domain.Errors.{Result, ok}
use nastroyka_claude.Repo
use nastroyka_claude.Repo.{Repo, empty}
use nastroyka_claude.Runtime.Deps.{RecallQuery, MemoryStore}
use nastroyka_claude.Runtime.Prompt.{memory_text}

-- STOPWORDS
abbrev pub stopwords : List Text
stopwords = map text (
    "the" ∷ "and" ∷ "for" ∷ "with" ∷ "what" ∷ "which" ∷ "that" ∷ "this" ∷ "from" ∷ "are" ∷ "was"
    ∷ "were" ∷ "has" ∷ "have" ∷ "you" ∷ "your" ∷ "our" ∷ "their" ∷ "its" ∷ "into" ∷ "over" ∷ "than"
    ∷ "then" ∷ "them" ∷ "they" ∷ "about" ∷ "how" ∷ "why" ∷ "when" ∷ "where" ∷ [])

-- toLowerCase, as far as it gives Latin letters and digits: the capitals, the Kelvin sign, and the
-- dotted capital I, which becomes an i and a combining dot.
abbrev lower_units : ℕ → Text
lower_units c =
    if leb 65 c && leb c 90
    then (c + 32) ∷ []
    else if c == 0x212a
    then 107 ∷ []
    else if c == 0x130
    then 105 ∷ 0x307 ∷ []
    else c ∷ []

lower_text : Text → Text
lower_text [] = []
lower_text (c ∷ s) = lower_units c ++ lower_text s

abbrev is_token_unit : ℕ → Bool
is_token_unit c = (leb 97 c && leb c 122) || (leb 48 c && leb c 57)

-- .split(/[^a-z0-9]+/); the first argument is the token read so far.
split_tokens : Text → Text → List Text
split_tokens token [] = token ∷ []
split_tokens token (c ∷ s) =
    let here = is_token_unit c in
    let rest = split_tokens (if here then token ++ c ∷ [] else []) s in
    if here then rest else token ∷ rest

unfoldable pub tokenize : Text → List Text
unfolding split_tokens lower_text
tokenize t =
    keep (λ (w : Text). ltb 2 (length w) && not (mem_text w stopwords))
      (split_tokens [] (lower_text t))

unfoldable pub relevance : List Text → List Text → ℕ
unfolding unique_from
relevance query_tokens doc_tokens =
    length (keep (λ (t : Text). mem_text t doc_tokens) (unique_from [] query_tokens))

-- Short-term memory belongs to its run; an empty run id counts as none.
abbrev of_run : Text → Option Text → Bool
of_run r none = false
of_run r (some s) = eq_text s r

unfoldable pub is_visible : Option Text → MemoryRecord → Bool
is_visible (some (c ∷ r)) m = not (eq_kind m.kind short_term) || of_run (c ∷ r) m.run_id
is_visible _ m = not (eq_kind m.kind short_term)

pub record Scored : Type 0 where
  pub memory : MemoryRecord
  pub score : ℕ
  pub recency : ℕ

abbrev or_0 : Option ℕ → ℕ
or_0 none = 0
or_0 (some n) = n

unfoldable pub score_memory : List Text → MemoryRecord → Scored
score_memory query_tokens m = record {
  memory = m;
  score = relevance query_tokens (tokenize (memory_text m.content));
  recency = or_0 m.created_at;
}

-- Whether the first stays before the second: b.score - a.score || b.recency - a.recency is not above 0.
unfoldable pub before : Scored → Scored → Bool
before a b = ltb b.score a.score || (a.score == b.score && leb b.recency a.recency)

unfoldable pub insert_scored : Scored → List Scored → List Scored
insert_scored a [] = a ∷ []
insert_scored a (b ∷ bs) = if before a b then a ∷ b ∷ bs else b ∷ insert_scored a bs

-- The stable sort.
unfoldable pub sort_scored : List Scored → List Scored
sort_scored [] = []
sort_scored (a ∷ xs) = insert_scored a (sort_scored xs)

abbrev is_hit : List Text → Scored → Bool
is_hit [] s = true
is_hit (t ∷ ts) s = ltb 0 s.score

abbrev pub or_5 : Option ℕ → ℕ
or_5 none = 5
or_5 (some n) = n

abbrev or_blank : Option Text → Text
or_blank none = []
or_blank (some t) = t

unfoldable pub ranked : RecallQuery → List MemoryRecord → List Scored
ranked query items =
    let query_tokens = tokenize (or_blank query.query) in
    sort_scored (
      keep (is_hit query_tokens)
        (map (score_memory query_tokens) (keep (is_visible query.run_id) items)))

unfoldable pub recall : Repo → Text → RecallQuery → List MemoryRecord
unfolding Repo.list_memories
recall r agent_id query =
    map (λ (s : Scored). s.memory)
      (take (or_5 query.limit) (ranked query (Repo.list_memories agent_id query.kinds r)))
