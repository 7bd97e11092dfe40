-- ===== src/Tools/Search.antt =====
-- agent-os/src/adapters/search.mock.ts: search results without a network. `encodeURIComponent` is a
-- parameter.
use nastroyka_claude.Base.{ℕ, Option, none, some, List, [], ◌∷◌, ◌++◌, take, Text, text, Map}
use nastroyka_claude.Base.Maps

pub record SearchResult : Type 0 where
  pub title : Text
  pub url : Text
  pub snippet : Text

abbrev limit_of : Option ℕ → ℕ
limit_of none = 5
limit_of (some n) = n

-- StaticSearchProvider.search
unfoldable pub static_search :
    (Text → Text) → Map (List SearchResult) → Text → Option ℕ → List SearchResult
static_search encode fixtures query limit = elim (Maps.get query fixtures) [
  | some results ↦ take (limit_of limit) results
  | none ↦ take (limit_of limit) (
      record {
        title = text "Результат по «" ++ (query ++ text "»");
        url = text "https://example.com/" ++ encode query;
        snippet = text "Краткая сводка по запросу: " ++ (query ++ text ".");
      }
      ∷ [])
]
