-- ===== src/Models.antt =====
-- agent-os/src/adapters: the gateway that routes a request to a provider and fails over
-- (model.gateway.ts), the test, offline and echo models, and the heuristic planner. A provider is
-- told how many calls came before, as in the runtime.
pub mod Gateway
pub mod Fixed
pub mod Planners
use nastroyka_claude.Base.{
  ℕ, ◌+◌, Bool, not, ◌==◌, Option, none, some, List, [], ◌∷◌, ◌++◌, keep, length, ltb, Text, text,
  eq_text, Map, if◌then◌else◌,
}
use nastroyka_claude.Base.Maps
use nastroyka_claude.Domain.Types.{ModelTurn}
use nastroyka_claude.Domain.Errors.{Error, Result, ok, err, thrown}
use nastroyka_claude.Runtime.Deps.{ModelMessage, ModelRequest}

abbrev pub ModelProvider : Type 0
ModelProvider = ℕ → ModelRequest → Result ModelTurn

-- A provider of the gateway is also told at which position of the order it is tried, since a key that
-- stands there twice may answer differently.
abbrev pub TriedProvider : Type 0
TriedProvider = (calls position : ℕ) → ModelRequest → Result ModelTurn

pub record GatewayConfig : Type 0 where
  pub providers : Map TriedProvider
  pub route : ModelRequest → Text
  pub failover : List Text

-- The keys in the order they are tried.
unfoldable pub order : GatewayConfig → ModelRequest → List Text
order cfg request =
    let primary = cfg.route request in
    primary ∷ keep (λ (k : Text). not (eq_text k primary)) cfg.failover

abbrev pub no_providers : Error
no_providers = thrown (text "ModelGateway: no providers available")

-- The error after the last provider: lastErr ?? new Error(…).
abbrev or_no_providers : Option Error → Error
or_no_providers none = no_providers
or_no_providers (some e) = e

-- The loop over the keys; the last error so far is its state.
unfoldable pub complete_from :
    Map TriedProvider
    → (calls position : ℕ) → ModelRequest
    → List Text
    → Option Error
    → Result ModelTurn
complete_from providers calls position request [] last_err = err (or_no_providers last_err)
complete_from providers calls position request (key ∷ keys) last_err =
    elim (Maps.get key providers) [
      | none ↦ complete_from providers calls (position + 1) request keys last_err
      | some provider ↦ elim (provider calls position request) [
        | ok turn ↦ ok turn
        | err e ↦ complete_from providers calls (position + 1) request keys (some e)
      ]
    ]

unfoldable pub gateway : GatewayConfig → ModelProvider
gateway cfg calls request = complete_from cfg.providers calls 0 request (order cfg request) none

content_length : List ModelMessage → ℕ
content_length [] = 0
content_length (m ∷ ms) = length m.content + content_length ms

unfoldable pub default_route : ModelRequest → Text
unfolding content_length
default_route ctx =
    if ltb 0 (length ctx.tools)
    then text "primary"
    else if ltb (content_length ctx.messages) 280
    then text "fast"
    else text "primary"
