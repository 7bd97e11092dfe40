-- ===== src/Models/Gateway.antt =====
-- agent-os/src/adapters/model.gateway.ts: the loop over the providers.
use nastroyka_claude.Base.{
  ◌+◌, sym, subst, inr, inl, Option-cases, arith, ◌∙◌, ◌⊎◌, ℕ, ◌≡◌, refl, ◌↔◌, Option, none, some,
  List, [], ◌∷◌, Text, Map,
}
use nastroyka_claude.Base.Maps
use nastroyka_claude.Domain.Types.{ModelTurn}
use nastroyka_claude.Domain.Errors.{Error, Result, ok, err}
use nastroyka_claude.Runtime.Deps.{ModelRequest}
use nastroyka_claude.Models.{
  or_no_providers, TriedProvider, GatewayConfig, order, complete_from, gateway,
}

-- A key that gives no answer at a position: it names no provider, or its provider throws.
pub data Silent (providers : Map TriedProvider) (calls : ℕ) (request : ModelRequest) (position : ℕ)
    (key : Text) : Type 0 where
  missing : Maps.get key providers ≡ none → Silent providers calls request position key
  throws :
      (provider : TriedProvider) (e : Error)
      → Maps.get key providers ≡ some provider
      → provider calls position request ≡ err e
      → Silent providers calls request position key

-- Every key of a list is silent, each at its position, counted from the given one.
abbrev pub AllSilent : Map TriedProvider → ℕ → ModelRequest → ℕ → List Text → Type 0
AllSilent providers calls request position [] = Unit
AllSilent providers calls request position (key ∷ keys) =
    Silent providers calls request position key
    × AllSilent providers calls request (position + 1) keys

-- The first key of a list that answers, with its turn; positions are counted from the given one.
pub data FirstAnswer (providers : Map TriedProvider) (calls : ℕ) (request : ModelRequest)
    (turn : ModelTurn) : ℕ → List Text → Type 0 where
  answers :
      (position : ℕ) (key : Text) (keys : List Text) (provider : TriedProvider)
      → Maps.get key providers ≡ some provider
      → provider calls position request ≡ ok turn
      → FirstAnswer providers calls request turn position (key ∷ keys)
  passes :
      (position : ℕ) (key : Text) (keys : List Text)
      → Silent providers calls request position key
      → FirstAnswer providers calls request turn (position + 1) keys
      → FirstAnswer providers calls request turn position (key ∷ keys)

Result-cases : {A : Type 0} (r : Result A) → ((a : A) × (r ≡ ok a)) ⊎ ((e : Error) × (r ≡ err e))
Result-cases (ok a) = inl (a, refl)
Result-cases (err e) = inr (e, refl)

module _ (providers : Map TriedProvider) (calls : ℕ) (request : ModelRequest) where
  abbrev from : ℕ → List Text → Option Error → Result ModelTurn
  from position keys last_err = complete_from providers calls position request keys last_err

  -- One round of the loop, for a key that is silent and for one that answers.
  Silent-step :
      (position : ℕ) (key : Text) (keys : List Text) (last_err : Option Error)
      → Silent providers calls request position key
      → (next : Option Error) × (from position (key ∷ keys) last_err
          ≡ from (position + 1) keys next)
  unfolding complete_from
  Silent-step position key keys last_err (missing no_key) =
      (last_err, rw (no_key, complete_from) refl)
  Silent-step position key keys last_err (throws p e found same) =
      (some e, rw (found, complete_from) (rw same refl))

  answer_step :
      (position : ℕ) (key : Text) (keys : List Text) (last_err : Option Error) (p : TriedProvider)
      (turn : ModelTurn)
      → Maps.get key providers ≡ some p
      → p calls position request ≡ ok turn
      → from position (key ∷ keys) last_err ≡ ok turn
  unfolding complete_from
  answer_step position key keys last_err p turn found same =
      rw (found, complete_from) (rw same refl)

  key-cases :
      (position : ℕ) (key : Text)
      → Silent providers calls request position key
        ⊎ ((p : TriedProvider) × ((turn : ModelTurn) × ((Maps.get key providers ≡ some p)
                × (p calls position request ≡ ok turn))))
  key-cases position key = elim (Option-cases (Maps.get key providers)) [
    | inl no_key ↦ inl (missing no_key)
    | inr (p, found) ↦ elim (Result-cases (p calls position request)) [
      | inl (turn, same) ↦ inr (p, (turn, (found, same)))
      | inr (e, same) ↦ inl (throws p e found same)
    ]
  ]

  empty_step :
      (position : ℕ) (last_err : Option Error)
      → from position [] last_err ≡ err (or_no_providers last_err)
  unfolding complete_from
  empty_step position last_err = refl

  -- What the loop comes to: an answer of a first key, or an error and nothing but silent keys.
  outcome :
      (position : ℕ) (keys : List Text) (last_err : Option Error)
      → ((turn : ModelTurn) × ((from position keys last_err ≡ ok turn)
            × FirstAnswer providers calls request turn position keys))
        ⊎ ((e : Error) × ((from position keys last_err ≡ err e)
              × AllSilent providers calls request position keys))
  outcome position [] last_err = inr (or_no_providers last_err, (empty_step position last_err, tt))
  outcome position (key ∷ keys) last_err = elim (key-cases position key) [
    | inr (p, (turn, (found, same))) ↦ inl (
      turn,
      (
        answer_step position key keys last_err p turn found same,
        answers position key keys p found same,
      ),
    )
    | inl silent ↦
        let (next, step) = Silent-step position key keys last_err silent in
        elim (outcome (position + 1) keys next) [
          | inl (turn, (e, first)) ↦ inl (turn, (step ∙ e, passes position key keys silent first))
          | inr (e, (same, rest)) ↦ inr (e, (step ∙ same, (silent, rest)))
        ]
  ]

  of_first :
      (turn : ModelTurn) (position : ℕ) (keys : List Text) (last_err : Option Error)
      → FirstAnswer providers calls request turn position keys
      → from position keys last_err ≡ ok turn
  of_first turn position keys last_err (answers position1 key keys1 p found same) =
      answer_step position1 key keys1 last_err p turn found same
  of_first turn position keys last_err (passes position1 key keys1 silent first) =
      let (next, step) = Silent-step position1 key keys1 last_err silent in
      step ∙ of_first turn (position1 + 1) keys1 next first

  of_AllSilent :
      (position : ℕ) (keys : List Text) (last_err : Option Error)
      → AllSilent providers calls request position keys
      → (e : Error) × (from position keys last_err ≡ err e)
  of_AllSilent position [] last_err h = (or_no_providers last_err, empty_step position last_err)
  of_AllSilent position (key ∷ keys) last_err h =
      let (next, step) = Silent-step position key keys last_err h.0 in
      let (e, same) = of_AllSilent (position + 1) keys next h.1 in (e, step ∙ same)

absurd_ok : {A B : Type 0} (a : A) (e : Error) → ok a ≡ err e → B
absurd_ok a e h = ground (arith, h)

ok_inj : {A : Type 0} {a b : A} → ok a ≡ ok b → a ≡ b
ok_inj h = cc h

-- Calling the gateway gives a turn exactly when that turn is the answer of the first provider that
-- answers, in the order routed key, then the failover keys; it throws exactly when every key of that
-- order names no provider or one that throws.
pub gateway_lem :
    (cfg : GatewayConfig) (calls : ℕ) (request : ModelRequest)
    → ((turn : ModelTurn)
        → (gateway cfg calls request ≡ ok turn)
          ↔ FirstAnswer cfg.providers calls request turn 0 (order cfg request))
      × (((e : Error) × (gateway cfg calls request ≡ err e))
          ↔ AllSilent cfg.providers calls request 0 (order cfg request))
unfolding gateway
gateway_lem cfg calls request =
    let ps = cfg.providers in
    let keys = order cfg request in
    elim (outcome ps calls request 0 keys none) [
      | inl (turn, (same, first)) ↦ (
        (λ turn1. (
          (λ h. subst (λ t. FirstAnswer ps calls request t 0 keys) (ok_inj (sym same ∙ h)) first),
          of_first ps calls request turn1 0 keys none,
        )),
        ((λ h. absurd_ok turn h.0 (sym same ∙ h.1)), of_AllSilent ps calls request 0 keys none),
      )
      | inr (e, (same, silent)) ↦ (
        (λ turn1.
            ((λ h. absurd_ok turn1 e (sym h ∙ same)), of_first ps calls request turn1 0 keys none)),
        ((λ h. silent), of_AllSilent ps calls request 0 keys none),
      )
    ]
