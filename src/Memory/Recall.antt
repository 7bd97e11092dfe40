-- ===== src/Memory/Recall.antt =====
-- agent-os/src/adapters/memory.repo.ts: the filter, the ranking and the limit of a recall.
use nastroyka_claude.Base.{
  any, ap, subst, ◌≤◌, ◌≡◌, Bool, true, not, ◌&&◌, ◌||◌, Option, none, some, List, [], ◌∷◌, keep,
  take, length, Text, eq_text, eq_text_iff, arith, All, length-take, inl, inr, Bool-cases, ◌≢◌,
}
use nastroyka_claude.Base.Every.{All-keep, All-take, All-map, All-mono, All-any, length-map}
use nastroyka_claude.Domain.Types.{MemoryKind, short_term, MemoryRecord, eq_kind}
use nastroyka_claude.Repo
use nastroyka_claude.Repo.{Repo}
use nastroyka_claude.Runtime.Deps.{RecallQuery}
use nastroyka_claude.Memory.{
  is_hit, or_blank, or_5, tokenize, of_run, is_visible, Scored, score_memory, before, insert_scored,
  sort_scored, ranked, recall,
}

module _ (P : Scored → Type 0) where
  insert_scored-All : (a : Scored) (bs : List Scored) → P a → All P bs → All P (insert_scored a bs)
  unfolding insert_scored
  insert_scored-All a [] h k = (h, tt)
  insert_scored-All a (b ∷ bs) h k = elim (Bool-cases (before a b)) [
    | inl e ↦ rw e (h, k)
    | inr e ↦ rw e (k.0, insert_scored-All a bs h k.1)
  ]

  sort_scored-All : (xs : List Scored) → All P xs → All P (sort_scored xs)
  unfolding sort_scored
  sort_scored-All [] h = tt
  sort_scored-All (a ∷ xs) h = insert_scored-All a (sort_scored xs) h.0 (sort_scored-All xs h.1)

and-true : (a b : Bool) → (a && b) ≡ true → (a ≡ true) × (b ≡ true)
and-true a b e = ground arith

-- Whether a kind is asked for: every kind, when none is named.
abbrev pub is_wanted : Option (List MemoryKind) → MemoryKind → Bool
is_wanted none k = true
is_wanted (some kinds) k = any (eq_kind k) kinds

-- What may be shown to a query of an agent.
pub record MayShow (agent_id : Text) (query : RecallQuery) (m : MemoryRecord) : Type 0 where
  pub agent : m.agent_id ≡ agent_id
  pub wanted : is_wanted query.kinds m.kind ≡ true
  pub in_run : m.kind ≡ short_term → (m.run_id ≡ query.run_id) × (m.run_id ≢ none)

of_run-same : (r : Text) (own : Option Text) → of_run r own ≡ true → (own ≡ some r) × (own ≢ none)
of_run-same r none e = ground arith
of_run-same r (some s) e = let same = (eq_text_iff s r).0 e in (ap some same, λ n. ground arith)

is_visible-in_run :
    (asked : Option Text) (m : MemoryRecord)
    → is_visible asked m ≡ true
    → m.kind ≡ short_term
    → (m.run_id ≡ asked) × (m.run_id ≢ none)
unfolding is_visible
is_visible-in_run (some (c ∷ r)) m e k =
    of_run-same (c ∷ r) m.run_id (
      subst (λ (x : MemoryKind). (not (eq_kind x short_term) || of_run (c ∷ r) m.run_id) ≡ true) k
        e)
is_visible-in_run (some []) m e k =
    ground (arith, subst (λ (x : MemoryKind). not (eq_kind x short_term) ≡ true) k e)
is_visible-in_run none m e k =
    ground (arith, subst (λ (x : MemoryKind). not (eq_kind x short_term) ≡ true) k e)

module _ (agent_id : Text) (query : RecallQuery) (r : Repo) where
  listed :
      All
        (λ (m : MemoryRecord). (m.agent_id ≡ agent_id) × (is_wanted query.kinds m.kind ≡ true))
        (Repo.list_memories agent_id query.kinds r)
  unfolding Repo.list_memories
  listed =
      All-mono _ _ _
        (λ (m : MemoryRecord) h.
          let both = and-true (eq_text m.agent_id agent_id) _ h.1 in
          ((eq_text_iff m.agent_id agent_id).0 both.0, both.1))
        (All-keep (λ _. Unit {0}) _ r.memories (All-any r.memories))

  visible :
      All
        (MayShow agent_id query)
        (keep (is_visible query.run_id) (Repo.list_memories agent_id query.kinds r))
  visible =
      All-mono _ (MayShow agent_id query) _
        (λ (m : MemoryRecord) h. record {
          agent = h.0.0;
          wanted = h.0.1;
          in_run = is_visible-in_run query.run_id m h.1;
        })
        (All-keep _ (is_visible query.run_id) _ listed)

  ranked-MayShow :
      All
        (λ (s : Scored). MayShow agent_id query s.memory)
        (ranked query (Repo.list_memories agent_id query.kinds r))
  unfolding ranked score_memory
  ranked-MayShow =
      let query_tokens = tokenize (or_blank query.query) in
      sort_scored-All (λ (s : Scored). MayShow agent_id query s.memory) _
        (All-mono _ _ _ (λ (s : Scored) h. h.0)
          (All-keep _ (is_hit query_tokens) _ (All-map _ (score_memory query_tokens) _ visible)))

  -- A recall gives at most `limit` memories, 5 when no limit is given, and each belongs to the agent,
  -- has a wanted kind and, when it is short-term, belongs to the run of the query, which names one.
  pub recall-MayShow :
      All (MayShow agent_id query) (recall r agent_id query)
      × (length (recall r agent_id query) ≤ or_5 query.limit)
  unfolding recall
  recall-MayShow =
      let shown = ranked query (Repo.list_memories agent_id query.kinds r) in
      (
        All-map _ (λ (s : Scored). s.memory) _ (All-take _ (or_5 query.limit) _ ranked-MayShow),
        omega (
          arith,
          length-map (λ (s : Scored). s.memory) (take (or_5 query.limit) shown),
          length-take (or_5 query.limit) shown,
        ),
      )
