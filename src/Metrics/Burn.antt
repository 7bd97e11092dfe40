-- ===== src/Metrics/Burn.antt =====
-- agent-os/src/observability/metrics.ts: the grouping of token counts by agent.
use nastroyka_claude.Base.{
  ℕ, ◌+◌, ◌≡◌, refl, ap, ◌∙◌, Bool-cases, none, List, [], ◌∷◌, keep, Text, eq_text, eq_text_iff,
  arith, Map, if◌then◌else◌, inl, inr,
}
use nastroyka_claude.Base.Maps
use nastroyka_claude.Domain.Types.{Run, Step}
use nastroyka_claude.Repo
use nastroyka_claude.Repo.{Repo}
use nastroyka_claude.Metrics.{
  or_0, add_steps, metrics_of, step_tokens, burn_runs, token_burn_by_agent,
}

add_steps-step_tokens :
    (steps : List Step) (a b : ℕ)
    → (add_steps steps a b).0 + (add_steps steps a b).1 ≡ step_tokens (a + b) steps
unfolding add_steps step_tokens
add_steps-step_tokens [] a b = refl
add_steps-step_tokens (s ∷ ss) a b =
    add_steps-step_tokens ss (a + or_0 s.tokens_in) (b + or_0 s.tokens_out)
    ∙ ap (λ n. step_tokens n ss) (omega arith)

-- The tokens in and out that the metrics of a list of runs come to.
abbrev pub spent : Repo → List Run → ℕ
spent r [] = 0
spent r (run ∷ runs) =
    let m = metrics_of run (Repo.list_steps run.id r) in m.tokens_in + m.tokens_out + spent r runs

abbrev pub of_agent : Text → List Run → List Run
of_agent agent_id runs = keep (λ (x : Run). eq_text x.agent_id agent_id) runs

-- The tokens of one run, where the run is the agent's.
abbrev share : Repo → Text → Run → ℕ
share r agent_id run =
    if eq_text run.agent_id agent_id then step_tokens 0 (Repo.list_steps run.id r) else 0

spent-step :
    (r : Repo) (agent_id : Text) (run : Run) (runs : List Run)
    → spent r (of_agent agent_id (run ∷ runs))
      ≡ share r agent_id run + spent r (of_agent agent_id runs)
unfolding metrics_of
spent-step r agent_id run runs =
    ground (arith, add_steps-step_tokens (Repo.list_steps run.id r) 0 0)

paid :
    (agent_id : Text) (own : Text) (tokens : ℕ) (burn : Map ℕ)
    → or_0 (Maps.get agent_id (Maps.set own (or_0 (Maps.get own burn) + tokens) burn))
      ≡ or_0 (Maps.get agent_id burn) + (if eq_text own agent_id then tokens else 0)
paid agent_id own tokens burn =
    rw (Maps.get-set own agent_id (or_0 (Maps.get own burn) + tokens) burn)
      (elim (Bool-cases (eq_text own agent_id)) [
        | inl e ↦ rw e (ap (λ k. or_0 (Maps.get k burn) + tokens) ((eq_text_iff own agent_id).0 e))
        | inr e ↦ rw e (omega arith)
      ])

burn_runs-spent :
    (r : Repo) (agent_id : Text) (runs : List Run) (burn : Map ℕ)
    → or_0 (Maps.get agent_id (burn_runs r runs burn))
      ≡ or_0 (Maps.get agent_id burn) + spent r (of_agent agent_id runs)
unfolding burn_runs
burn_runs-spent r agent_id [] burn = omega arith
burn_runs-spent r agent_id (run ∷ runs) burn =
    let tokens = step_tokens 0 (Repo.list_steps run.id r) in
    let burn1 = Maps.set run.agent_id (or_0 (Maps.get run.agent_id burn) + tokens) burn in
    burn_runs-spent r agent_id runs burn1
    ∙ ap (λ n. n + spent r (of_agent agent_id runs)) (paid agent_id run.agent_id tokens burn)
    ∙ omega (arith, spent-step r agent_id run runs)

-- What an agent has burned in an org is what the metrics of its runs there add up to.
pub token_burn-spent :
    (org_id agent_id : Text) (r : Repo)
    → or_0 (Maps.get agent_id (token_burn_by_agent org_id r))
      ≡ spent r (of_agent agent_id (Repo.list_runs_by_org org_id none none r))
unfolding token_burn_by_agent Maps.get
token_burn-spent org_id agent_id r =
    omega (arith, burn_runs-spent r agent_id (Repo.list_runs_by_org org_id none none r) [])
