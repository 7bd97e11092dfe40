-- ===== src/Control/Team/View.antt =====
-- agent-os/src/api/controlPlane.ts, getRunTeam: the map of the agents looked up and the last
-- review.
use nastroyka_claude.Base.{
  ◌≡◌, refl, sym, ap, subst, ◌∙◌, inl, inr, Bool-cases, Option, none, some, Option-cases, List, [],
  ◌∷◌, ◌++◌, append_assoc, append-nil, map, Text, eq_text, eq_text_iff, arith, Map, if◌then◌else◌,
}
use nastroyka_claude.Base.Maps
use nastroyka_claude.Base.Maps.{get-set}
use nastroyka_claude.Domain.Types.{Run}
use nastroyka_claude.Domain.Errors.{ok}
use nastroyka_claude.Exec.{gets, pure, ◌>>=◌}
use nastroyka_claude.System.{System, find_run, or_throw}
use nastroyka_claude.Repo
use nastroyka_claude.Repo.{Repo}
use nastroyka_claude.Control.{require_known_run}
use nastroyka_claude.Control.Phase.{derive_team_phase, phase_label, subtask_id_of}
use nastroyka_claude.Control.Team.{
  reply_text, review_or, contribution, revision, Who, ChildView, Entry, Kind, review, Review, Parts,
  find_who, child_view, kind_of, verdict_of, add_entry, add_child, add_children, no_parts,
  get_run_team,
}

-- The map holds what a lookup gives.
IsCache : Repo → Map Who → Type 0
IsCache r agent_names =
    (k : Text) (who : Who) → Maps.get k agent_names ≡ some who → who ≡ find_who r k

abbrev parts_of : List ChildView → List Entry → Option Review → Parts
parts_of a c u = record { children = a; discussion = c; review = u }

parts_eq :
    {a b : List ChildView} {c d : List Entry} {u v : Option Review}
    → a ≡ b
    → c ≡ d
    → u ≡ v
    → parts_of a c u ≡ parts_of b d v
parts_eq {a} {b} {c} {d} {u} {v} e f g =
    ap (λ x. parts_of x c u) e ∙ (ap (λ x. parts_of b x u) f ∙ ap (parts_of b d) g)

-- The loop without the map.
add_all : Repo → List Run → Parts → Parts
add_all r [] parts = parts
add_all r (child ∷ cs) parts = add_all r cs (add_child (find_who r child.agent_id) child parts)

IsCache-set :
    (r : Repo) (k : Text) (agent_names : Map Who)
    → IsCache r agent_names
    → IsCache r (Maps.set k (find_who r k) agent_names)
unfolding IsCache
IsCache-set r k agent_names h j who e = elim (Bool-cases (eq_text k j)) [
  | inl same ↦ ground (
    arith,
    (eq_text_iff k j).0 same,
    sym (get-set k j (find_who r k) agent_names) ∙ e,
    ap (find_who r) ((eq_text_iff k j).0 same),
  )
  | inr other ↦ h j who (
      subst (λ b. (if b then some (find_who r k) else Maps.get j agent_names) ≡ some who) other
        (sym (get-set k j (find_who r k) agent_names) ∙ e))
]

add_children-add_all :
    (r : Repo) (cs : List Run) (agent_names : Map Who) (parts : Parts)
    → IsCache r agent_names
    → add_children r cs agent_names parts ≡ add_all r cs parts
unfolding add_children add_all IsCache
add_children-add_all r [] agent_names parts h = refl
add_children-add_all r (child ∷ cs) agent_names parts h =
    elim (Option-cases (Maps.get child.agent_id agent_names)) [
      | inl e ↦
          rw (e, add_children)
            (add_children-add_all r cs _ _ (IsCache-set r child.agent_id agent_names h))
      | inr (who, e) ↦
          rw (e, add_children)
            (add_children-add_all r cs agent_names _ h
              ∙ ap (λ w. add_all r cs (add_child w child parts)) (h child.agent_id who e))
    ]

-- The entry of a child whose text is given: one, unless the text is empty.
abbrev pub entries : Who → Run → Text → List Entry
entries who child [] = []
entries who child (c ∷ t) =
    record {
      author = who.name;
      agent_type = who.type;
      kind = kind_of (subtask_id_of child);
      text = c ∷ t;
    }
    ∷ []

abbrev pub as_review : Who → Run → Text → Kind → List Review
as_review who child t review =
    record { agent_name = who.name; verdict = verdict_of child.output t; text = t } ∷ []
as_review who child t _ = []

-- The review of a child whose text is given: one, when the text is not empty and the child is a review.
abbrev pub reviews : Who → Run → Text → List Review
reviews who child [] = []
reviews who child (c ∷ t) = as_review who child (c ∷ t) (kind_of (subtask_id_of child))

abbrev pub all_views : Repo → List Run → List ChildView
all_views r cs = map (λ (c : Run). child_view (find_who r c.agent_id) c) cs

abbrev pub all_entries : Repo → List Run → List Entry
all_entries r [] = []
all_entries r (c ∷ cs) = entries (find_who r c.agent_id) c (reply_text c.output) ++ all_entries r cs

abbrev pub all_reviews : Repo → List Run → List Review
all_reviews r [] = []
all_reviews r (c ∷ cs) = reviews (find_who r c.agent_id) c (reply_text c.output) ++ all_reviews r cs

-- The last of a list, or the one before it.
abbrev pub newest : Option Review → List Review → Option Review
newest old [] = old
newest old (x ∷ xs) = newest (some x) xs

newest-append :
    (old : Option Review) (xs ys : List Review) → newest old (xs ++ ys) ≡ newest (newest old xs) ys
newest-append old [] ys = refl
newest-append old (x ∷ xs) ys = newest-append (some x) xs ys

review_or-newest :
    (old : Option Review) (who : Who) (child : Run) (t : Text) (k : Kind)
    → review_or old k
        (record { agent_name = who.name; verdict = verdict_of child.output t; text = t })
      ≡ newest old (as_review who child t k)
review_or-newest old who child t contribution = refl
review_or-newest old who child t review = refl
review_or-newest old who child t revision = refl

add_entry_lem :
    (who : Who) (child : Run) (t : Text) (parts : Parts)
    → add_entry who child t parts ≡ record {
      children = parts.children;
      discussion = parts.discussion ++ entries who child t;
      review = newest parts.review (reviews who child t);
    }
unfolding add_entry
add_entry_lem who child [] parts =
    ap (λ d. record { children = parts.children; discussion = d; review = parts.review })
      (sym (append-nil parts.discussion))
add_entry_lem who child (c ∷ t) parts =
    ap
      (λ v. record {
        children = parts.children;
        discussion = parts.discussion ++ entries who child (c ∷ t);
        review = v;
      })
      (review_or-newest parts.review who child (c ∷ t) (kind_of (subtask_id_of child)))

-- What the loop adds to the parts it starts with.
abbrev grown : Repo → List Run → Parts → Parts
grown r cs parts = record {
  children = parts.children ++ all_views r cs;
  discussion = parts.discussion ++ all_entries r cs;
  review = newest parts.review (all_reviews r cs);
}

add_all-grown : (r : Repo) (cs : List Run) (parts : Parts) → add_all r cs parts ≡ grown r cs parts
unfolding add_all add_child
add_all-grown r [] parts =
    parts_eq (sym (append-nil parts.children)) (sym (append-nil parts.discussion)) refl
add_all-grown r (child ∷ cs) parts =
    let who = find_who r child.agent_id in
    let t = reply_text child.output in
    ap (add_all r cs) (
      add_entry_lem who child t
        (record parts { children = parts.children ++ child_view who child ∷ [] }))
    ∙ add_all-grown r cs _
    ∙ parts_eq (append_assoc parts.children (child_view who child ∷ []) (all_views r cs))
        (append_assoc parts.discussion (entries who child t) (all_entries r cs))
        (sym (newest-append parts.review (reviews who child t) (all_reviews r cs)))

-- The team of a stored run gives the run, its phase, and for its children in order: a view of each; the
-- text of each that has one, under its agent's name; and the last review with a text. An agent that is
-- missing is shown by its id. Nothing is changed.
pub get_run_team_lem :
    (run_id : Text) (run : Run) (s : System)
    → Maps.get run_id s.repo.runs ≡ some run
    → let cs = Repo.list_child_runs run_id s.repo in
      get_run_team run_id s ≡ (
        ok (record {
          run = run;
          phase = derive_team_phase run cs;
          phase_label = phase_label (derive_team_phase run cs);
          parts = record {
            children = all_views s.repo cs;
            discussion = all_entries s.repo cs;
            review = newest none (all_reviews s.repo cs);
          };
        }),
        s,
      )
unfolding get_run_team require_known_run find_run gets or_throw Repo.get_run pure ◌>>=◌ IsCache
    Maps.get
get_run_team_lem run_id run s stored =
    let cs = Repo.list_child_runs run_id s.repo in
    rw stored (
      ap
        (λ p. (
          ok (record {
            run = run;
            phase = derive_team_phase run cs;
            phase_label = phase_label (derive_team_phase run cs);
            parts = p;
          }),
          s,
        ))
        (add_children-add_all s.repo cs [] no_parts (λ k who e. ground (arith, e))
          ∙ add_all-grown s.repo cs no_parts))
