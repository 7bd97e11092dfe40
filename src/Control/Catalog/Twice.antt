-- ===== src/Control/Catalog/Twice.antt =====
-- agent-os/src/api/controlPlane.ts, hireTeam: two runs of it.
use nastroyka_claude.Control.Catalog.Hiring.{
  IsFresh, Present, hire_members-Present, names_in, Covered, Hiring, hire_members-Hiring,
}
use nastroyka_claude.Base.{
  length, ◌||◌, ℕ, ◌≡◌, refl, sym, ap, subst, ◌∙◌, inl, inr, some, List, [], ◌∷◌, ◌++◌, Text, text,
  mem_text, arith, Map,
}
use nastroyka_claude.Base.Maps
use nastroyka_claude.Base.Maps.{get-set}
use nastroyka_claude.Domain.Types.{Agent}
use nastroyka_claude.Domain.Errors.{Result, ok, err}
use nastroyka_claude.Exec.{continue, ◌>>=◌, pure, gets, modify}
use nastroyka_claude.Repo
use nastroyka_claude.Teams.Templates.{TeamTemplateMember, TeamTemplate}
use nastroyka_claude.System.{or_throw, System}
use nastroyka_claude.Control.{or_throw, str, require_org, meta2, Org, audit_org}
use nastroyka_claude.Control.Catalog.{
  nat_json, find_template, hire_team, Hired, hire_members, hire_template,
}

values-append : (m n : Map Agent) → Maps.values (m ++ n) ≡ Maps.values m ++ Maps.values n
unfolding Maps.values
values-append [] n = refl
values-append ((k, a) ∷ m) n = ap (λ x. a ∷ x) (values-append m n)

names_in-append :
    (t org_id : Text) (m n : Map Agent)
    → mem_text t (names_in org_id (m ++ n))
      ≡ (mem_text t (names_in org_id m) || mem_text t (names_in org_id n))
unfolding mem_text Maps.values
names_in-append t org_id [] n = refl
names_in-append t org_id ((k, a) ∷ m) n = ground (arith, names_in-append t org_id m n)

Covered-Present :
    (org_id : Text) (old added after : Map Agent) (ms : List TeamTemplateMember)
    → after ≡ old ++ added
    → Covered org_id (names_in org_id old) added ms
    → Present (names_in org_id after) ms
Covered-Present org_id old added after [] e h = tt
Covered-Present org_id old added after (m ∷ ms) e h = (
  ap (λ x. mem_text m.name (names_in org_id x)) e
      ∙ (names_in-append m.name org_id old added
          ∙ elim h.0 [ inl x ↦ ground (arith, x) | inr x ↦ ground (arith, x) ]),
  Covered-Present org_id old added after ms e h.1,
)

-- The end of hiring, after the members are added.
abbrev audited : Text → TeamTemplate → List Agent → System → System
audited org_id template hired t =
    (audit_org org_id (text "team.hired")
      (meta2 (text "templateId") (str template.id) (text "hired") (nat_json (length hired))) t).1

abbrev finished : Text → TeamTemplate → Result (List Agent) × System → Result Hired × System
finished org_id template (ok hired, t) = (
  ok (record { template_id = template.id; title = template.title; hired = hired }),
  audited org_id template hired t,
)
finished org_id template (err e, t) = (err e, t)

hire_template_lem :
    (uuids : ℕ → Text) (org_id : Text) (template : TeamTemplate) (s : System)
    → hire_template uuids org_id template s
      ≡ finished org_id template
          (hire_members uuids 0 org_id (names_in org_id s.repo.agents) template.members s)
unfolding hire_template gets pure ◌>>=◌ audit_org modify Repo.list_agents
hire_template_lem uuids org_id template s =
    cases (hire_members uuids 0 org_id (names_in org_id s.repo.agents) template.members s)
  where
    cases :
        (out : Result (List Agent) × System)
        → continue out (λ hired.
          audit_org org_id
            (text "team.hired")
            (meta2 (text "templateId") (str template.id) (text "hired") (nat_json (length hired)))
          >>= (λ _.
              pure (record { template_id = template.id; title = template.title; hired = hired })))
          ≡ finished org_id template out
    cases (ok hired, t) = refl
    cases (err e, t) = refl

-- A hiring that adds no agent.
abbrev pub none_hired : TeamTemplate → Hired
none_hired template = record { template_id = template.id; title = template.title; hired = [] }

finished-Hiring :
    (uuids2 : ℕ → Text) (org_id : Text) (template : TeamTemplate) (s : System)
    (out : Result (List Agent) × System)
    → Hiring org_id (names_in org_id s.repo.agents) template.members s out
    → (hire_template uuids2 org_id template (finished org_id template out).1
        ≡ (ok (none_hired template), audited org_id template [] (finished org_id template out).1))
      × ((finished org_id template out).1.repo.orgs ≡ s.repo.orgs)
unfolding audit_org modify Repo.audit
finished-Hiring uuids2 org_id template s (err e, t) h = ground (arith, h.returned)
finished-Hiring uuids2 org_id template s (ok hired, t) h =
    let t1 = audited org_id template hired t in
    (
      hire_template_lem uuids2 org_id template t1
          ∙ ap (finished org_id template) (
              hire_members-Present uuids2 0 org_id (names_in org_id t1.repo.agents) template.members
                t1
                (Covered-Present org_id s.repo.agents h.added t.repo.agents template.members
                  h.agents_after h.covered)),
      h.orgs_after,
    )

hire_team_found :
    (uuids : ℕ → Text) (org_id template_id : Text) (org : Org) (template : TeamTemplate)
    (s : System)
    → Maps.get org_id s.repo.orgs ≡ some org
    → find_template template_id ≡ some template
    → hire_team uuids org_id template_id s ≡ hire_template uuids org_id template s
unfolding hire_team require_org Repo.get_org gets ◌>>=◌ hire_template or_throw
hire_team_found uuids org_id template_id org template s e f = rw e (rw f refl)

-- What the second hiring gives after a first one that gave `first`.
abbrev Repeats :
    (ℕ → Text) → (org_id template_id : Text) → TeamTemplate → Result Hired × System → Type 0
Repeats uuids2 org_id template_id template first =
    let second = hire_team uuids2 org_id template_id first.1 in
    ((hired : List Agent) × (first.0
        ≡ ok (record { template_id = template.id; title = template.title; hired = hired })))
    × ((second.0 ≡ ok (none_hired template)) × (second.1.repo.agents ≡ first.1.repo.agents))

finished-Repeats :
    (uuids2 : ℕ → Text) (org_id template_id : Text) (org : Org) (template : TeamTemplate)
    (s : System) (out : Result (List Agent) × System)
    → Maps.get org_id s.repo.orgs ≡ some org
    → find_template template_id ≡ some template
    → Hiring org_id (names_in org_id s.repo.agents) template.members s out
    → Repeats uuids2 org_id template_id template (finished org_id template out)
unfolding audit_org modify Repo.audit
finished-Repeats uuids2 org_id template_id org template s (err x, t) e f h =
    ground (arith, h.returned)
finished-Repeats uuids2 org_id template_id org template s (ok hired, t) e f h =
    let t1 = audited org_id template hired t in
    let (again, orgs) = finished-Hiring uuids2 org_id template s (ok hired, t) h in
    let second =
      hire_team_found uuids2 org_id template_id org template t1 (ap (Maps.get org_id) orgs ∙ e) f
      ∙ again in
    ((hired, refl), (ap (λ x. x.0) second, ap (λ x. x.1.repo.agents) second))

-- In a stored org, a team of the catalogue is hired without an error, when the new agents' ids are new and differ; hiring
-- it again, with whatever ids, hires nobody and changes no agent.
pub hire_team_twice :
    (uuids uuids2 : ℕ → Text) (org_id template_id : Text) (org : Org) (template : TeamTemplate)
    (s : System)
    → Maps.get org_id s.repo.orgs ≡ some org
    → find_template template_id ≡ some template
    → IsFresh uuids 0 s.repo.agents
    → let first = hire_team uuids org_id template_id s in
      let second = hire_team uuids2 org_id template_id first.1 in
      ((hired : List Agent) × (first.0
          ≡ ok (record { template_id = template.id; title = template.title; hired = hired })))
      × ((second.0 ≡ ok (none_hired template)) × (second.1.repo.agents ≡ first.1.repo.agents))
hire_team_twice uuids uuids2 org_id template_id org template s e f fresh =
    subst (Repeats uuids2 org_id template_id template)
      (sym (
        hire_team_found uuids org_id template_id org template s e f
        ∙ hire_template_lem uuids org_id template s))
      (finished-Repeats uuids2 org_id template_id org template s _ e f (
        hire_members-Hiring uuids 0 org_id (names_in org_id s.repo.agents) template.members s
          fresh))
