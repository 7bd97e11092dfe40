-- ===== src/Control/Catalog/Hiring.antt =====
-- agent-os/src/api/controlPlane.ts, hireTeam: the loop over the members of a team.
use nastroyka_claude.Base.{
  ◌||◌, ◌⊎◌, ℕ, ◌+◌, ◌≤◌, ◌≡◌, ◌≢◌, refl, sym, ap, subst, ◌∙◌, true, false, Bool-cases, inl, inr,
  none, some, List, [], ◌∷◌, ◌++◌, append_assoc, append-nil, keep, Text, text, eq_text, eq_text_iff,
  mem_text, arith, All, Map, if◌then◌else◌,
}
use nastroyka_claude.Base.Maps
use nastroyka_claude.Base.Maps.{get-set}
use nastroyka_claude.Domain.Types.{Agent}
use nastroyka_claude.Domain.Errors.{Result, ok, err}
use nastroyka_claude.Exec.{continue, ◌>>=◌, pure}
use nastroyka_claude.Repo
use nastroyka_claude.Teams.Templates.{TeamTemplateMember}
use nastroyka_claude.System.{System}
use nastroyka_claude.Control.{add_agent}
use nastroyka_claude.Control.Catalog.{hire_members, agent_names}

set-fresh :
    {V : Type 0} (k : Text) (v : V) (m : Map V)
    → Maps.get k m ≡ none
    → Maps.set k v m ≡ m ++ (k, v) ∷ []
unfolding Maps.get Maps.set
set-fresh k v [] h = refl
set-fresh k v ((j, w) ∷ m) h = elim (Bool-cases (eq_text j k)) [
  | inl e ↦ ground (arith, h, e)
  | inr e ↦ rw e (
      ap (λ x. (j, w) ∷ x)
        (set-fresh k v m (subst (λ b. (if b then some w else Maps.get k m) ≡ none) e h)))
]

-- The key of the i-th created agent.
abbrev pub agent_key : (ℕ → Text) → ℕ → Text
agent_key uuids i = text "agent_" ++ uuids i

-- The keys from the i-th on are new to the agents of a state, and differ from each other.
pub record IsFresh (uuids : ℕ → Text) (i : ℕ) (agents : Map Agent) : Type 0 where
  pub unused : (j : ℕ) → i ≤ j → Maps.get (agent_key uuids j) agents ≡ none
  pub distinct : (j k : ℕ) → j ≢ k → agent_key uuids j ≢ agent_key uuids k

-- Whether every member is already there.
abbrev pub Present : List Text → List TeamTemplateMember → Type 0
Present names ms = All (λ (m : TeamTemplateMember). mem_text m.name names ≡ true) ms

pub hire_members-Present :
    (uuids : ℕ → Text) (i : ℕ) (org_id : Text) (names : List Text) (ms : List TeamTemplateMember)
    (s : System)
    → Present names ms
    → hire_members uuids i org_id names ms s ≡ (ok [], s)
unfolding hire_members pure
hire_members-Present uuids i org_id names [] s h = refl
hire_members-Present uuids i org_id names (m ∷ ms) s h =
    rw (h.0, hire_members) (hire_members-Present uuids i org_id names ms s h.1)

-- The names of those agents of a map that are in an org.
abbrev pub names_in : Text → Map Agent → List Text
names_in org_id agents =
    agent_names (keep (λ (a : Agent). eq_text a.org_id org_id) (Maps.values agents))

abbrev pub Covered : Text → List Text → Map Agent → List TeamTemplateMember → Type 0
Covered org_id names added ms =
    All
      (λ (m : TeamTemplateMember).
        (mem_text m.name names ≡ true) ⊎ (mem_text m.name (names_in org_id added) ≡ true))
      ms

-- What a first round leaves.
pub record Hiring (org_id : Text) (names : List Text) (ms : List TeamTemplateMember) (s : System)
    (out : Result (List Agent) × System) : Type 0 where
  pub hired : List Agent
  pub returned : out.0 ≡ ok hired
  pub added : Map Agent
  pub agents_after : out.1.repo.agents ≡ s.repo.agents ++ added
  pub covered : Covered org_id names added ms
  pub orgs_after : out.1.repo.orgs ≡ s.repo.orgs

mem-in_org :
    (t org_id k : Text) (a : Agent) (added : Map Agent)
    → a.org_id ≡ org_id
    → mem_text t (names_in org_id ((k, a) ∷ added))
      ≡ (eq_text t a.name || mem_text t (names_in org_id added))
unfolding mem_text Maps.values
mem-in_org t org_id k a added e = rw ((eq_text_iff a.org_id org_id).1 e) refl

grow :
    (org_id k : Text) (names : List Text) (a : Agent) (added : Map Agent)
    (ms : List TeamTemplateMember)
    → a.org_id ≡ org_id
    → Covered org_id names added ms
    → Covered org_id names ((k, a) ∷ added) ms
grow org_id k names a added [] e h = tt
grow org_id k names a added (m ∷ ms) e h = (
  elim h.0 [
    | inl x ↦ inl x
    | inr x ↦ inr (mem-in_org m.name org_id k a added e ∙ ground (arith, x))
  ],
  grow org_id k names a added ms e h.1,
)

-- The agent and the state after a member is added.
abbrev added_agent : (ℕ → Text) → ℕ → Text → TeamTemplateMember → Agent
added_agent uuids i org_id m = record {
  id = agent_key uuids i;
  org_id = org_id;
  name = m.name;
  type = m.type;
  system_prompt = m.system_prompt;
  allowed_tools = some [];
}

abbrev after_adding : Text → Agent → System → System
after_adding k a s = record s { repo = record s.repo { agents = Maps.set k a s.repo.agents } }

abbrev with_agent : Agent → Result (List Agent) × System → Result (List Agent) × System
with_agent a (ok hired, s) = (ok (a ∷ hired), s)
with_agent a (err e, s) = (err e, s)

hire_members-new :
    (uuids : ℕ → Text) (i : ℕ) (org_id : Text) (names : List Text) (m : TeamTemplateMember)
    (ms : List TeamTemplateMember) (s : System)
    → mem_text m.name names ≡ false
    → let a = added_agent uuids i org_id m in
      hire_members uuids i org_id names (m ∷ ms) s
      ≡ with_agent a
          (hire_members uuids (i + 1) org_id names ms (after_adding (agent_key uuids i) a s))
unfolding hire_members pure add_agent ◌>>=◌ Repo.create_agent
hire_members-new uuids i org_id names m ms s h =
    rw (h, hire_members)
      (cases (
        hire_members uuids (i + 1) org_id names ms
          (after_adding (agent_key uuids i) (added_agent uuids i org_id m) s)))
  where
    cases :
        (out : Result (List Agent) × System)
        → continue out (λ hired. pure (added_agent uuids i org_id m ∷ hired))
          ≡ with_agent (added_agent uuids i org_id m) out
    cases (ok hired, t) = refl
    cases (err e, t) = refl

hire_members-old :
    (uuids : ℕ → Text) (i : ℕ) (org_id : Text) (names : List Text) (m : TeamTemplateMember)
    (ms : List TeamTemplateMember) (s : System)
    → mem_text m.name names ≡ true
    → hire_members uuids i org_id names (m ∷ ms) s ≡ hire_members uuids i org_id names ms s
unfolding hire_members
hire_members-old uuids i org_id names m ms s h = rw (h, hire_members) refl

IsFresh-next :
    (uuids : ℕ → Text) (i : ℕ) (a : Agent) (agents : Map Agent)
    → IsFresh uuids i agents
    → IsFresh uuids (i + 1) (Maps.set (agent_key uuids i) a agents)
IsFresh-next uuids i a agents fresh = record {
  unused = λ j above.
      rw (get-set (agent_key uuids i) (agent_key uuids j) a agents)
        (elim (Bool-cases (eq_text (agent_key uuids i) (agent_key uuids j))) [
          | inl e ↦ absurd (
              fresh.distinct i j (λ same. omega (arith, above, same))
                ((eq_text_iff (agent_key uuids i) (agent_key uuids j)).0 e))
          | inr e ↦ rw e (fresh.unused j (omega (arith, above)))
        ]);
  distinct = fresh.distinct;
}

with_agent-Hiring :
    (org_id : Text) (names : List Text) (m : TeamTemplateMember) (ms : List TeamTemplateMember)
    (k : Text) (a : Agent) (s : System) (out : Result (List Agent) × System)
    → Maps.get k s.repo.agents ≡ none
    → a.org_id ≡ org_id
    → a.name ≡ m.name
    → Hiring org_id names ms (after_adding k a s) out
    → Hiring org_id names (m ∷ ms) s (with_agent a out)
with_agent-Hiring org_id names m ms k a s (err e, t) free e1 e2 h = ground (arith, h.returned)
with_agent-Hiring org_id names m ms k a s (ok hired, t) free e1 e2 h = record {
  hired = a ∷ hired;
  returned = refl;
  added = (k, a) ∷ h.added;
  agents_after =
      h.agents_after
      ∙ ap (λ x. x ++ h.added) (set-fresh k a s.repo.agents free)
      ∙ append_assoc s.repo.agents ((k, a) ∷ []) h.added;
  covered = (
    inr (
        mem-in_org m.name org_id k a h.added e1
        ∙ ground (arith, (eq_text_iff m.name a.name).1 (sym e2))),
    grow org_id k names a h.added ms e1 h.covered,
  );
  orgs_after = h.orgs_after;
}

pub hire_members-Hiring :
    (uuids : ℕ → Text) (i : ℕ) (org_id : Text) (names : List Text) (ms : List TeamTemplateMember)
    (s : System)
    → IsFresh uuids i s.repo.agents
    → Hiring org_id names ms s (hire_members uuids i org_id names ms s)
unfolding hire_members pure
hire_members-Hiring uuids i org_id names [] s fresh = record {
  hired = [];
  returned = refl;
  added = [];
  agents_after = sym (append-nil s.repo.agents);
  covered = tt;
  orgs_after = refl;
}
hire_members-Hiring uuids i org_id names (m ∷ ms) s fresh =
    let a = added_agent uuids i org_id m in
    let k = agent_key uuids i in
    elim (Bool-cases (mem_text m.name names)) [
      | inl e ↦
          (let rest = hire_members-Hiring uuids i org_id names ms s fresh in
            subst (Hiring org_id names (m ∷ ms) s)
              (sym (hire_members-old uuids i org_id names m ms s e))
              (record {
                hired = rest.hired;
                returned = rest.returned;
                added = rest.added;
                agents_after = rest.agents_after;
                covered = (inl e, rest.covered);
                orgs_after = rest.orgs_after;
              }))
      | inr e ↦
          (let rest =
              hire_members-Hiring uuids (i + 1) org_id names ms (after_adding k a s)
                (IsFresh-next uuids i a s.repo.agents fresh) in
            subst (Hiring org_id names (m ∷ ms) s)
              (sym (hire_members-new uuids i org_id names m ms s e))
              (with_agent-Hiring org_id names m ms k a s _ (fresh.unused i (omega arith)) refl refl
                rest))
    ]
