-- ===== src/Runtime/Deps.antt =====
-- What the runtime is given: `RuntimeDeps`, with the ports behind which code outside the repository
-- stands. A call of such code may answer differently each time, so it is told how many came before.
use nastroyka_claude.Base.{ℕ, Bool, Option, none, some, List, [], ◌∷◌, ◌++◌, Text, Map, ◌+◌}
use nastroyka_claude.Domain.Types.{MemoryKind, long_term, episodic, MemoryRecord, ModelTurn}
use nastroyka_claude.Domain.Errors.{Result, ok, err}
use nastroyka_claude.Exec.{Exec}
use nastroyka_claude.System.{System}
use nastroyka_claude.Tools.{ToolSchema, ToolRegistry}

pub data MessageRole : Type 0 where
  user assistant tool : MessageRole

pub record ModelMessage : Type 0 where
  pub role : MessageRole
  pub content : Text
  pub tool_call_id : Option Text

pub record ModelRequest : Type 0 where
  pub system : Text
  pub messages : List ModelMessage
  pub tools : List ToolSchema
  pub web_search : Bool

pub record RecallQuery : Type 0 where
  pub kinds : Option (List MemoryKind)
  pub query : Option Text
  pub run_id : Option Text
  pub limit : Option ℕ

-- agent-os/src/ports/memory.ts: a store answers from what it took before.
pub record MemoryStore : Type 0 where
  pub recall : List MemoryRecord → Text → RecallQuery → Result (List MemoryRecord)
  pub remember : List MemoryRecord → MemoryRecord → Result (Unit {0})

-- agent-os/src/security/pii.ts, the interface: the mapping goes from tokens to originals.
pub record PiiMasker : Type 0 where
  pub mask : Text → Map Text → Text × Map Text
  pub unmask : Text → Map Text → Text

pub record RuntimeDeps : Type 0 where
  pub complete : ℕ → ModelRequest → Result ModelTurn
  pub tools : ToolRegistry
  pub allowlist_domains : List Text
  pub max_iterations : Option ℕ
  pub has_events : Bool
  pub memory : Option MemoryStore
  pub pii : Option PiiMasker

-- DEFAULT_MAX_ITERATIONS
abbrev pub default_max_iterations : ℕ
default_max_iterations = 5

unfoldable pub limit_of : RuntimeDeps → ℕ
limit_of deps = elim deps.max_iterations [ none ↦ default_max_iterations | some n ↦ n ]

-- The model is called with a request; the call counts whether or not it throws.
unfoldable pub call_model : RuntimeDeps → ModelRequest → Exec System ModelTurn
call_model deps request s =
    (deps.complete s.model_calls request, record s { model_calls = s.model_calls + 1 })

recall_from : Option MemoryStore → Text → Text → Exec System (List MemoryRecord)
recall_from none agent_id task s = (ok [], s)
recall_from (some store) agent_id task s = (
  store.recall s.remembered agent_id (record {
    kinds = some (long_term ∷ episodic ∷ []);
    query = some task;
    run_id = none;
    limit = some 5;
  }),
  s,
)

unfoldable pub recall_memory : RuntimeDeps → Text → Text → Exec System (List MemoryRecord)
unfolding recall_from
recall_memory deps = recall_from deps.memory

abbrev after_remember : System → MemoryRecord → Result (Unit {0}) → Result (Unit {0}) × System
after_remember s m (ok _) = (ok tt, record s { remembered = s.remembered ++ m ∷ [] })
after_remember s m (err e) = (err e, s)

remember_in : Option MemoryStore → MemoryRecord → Exec System (Unit {0})
remember_in none m s = (ok tt, s)
remember_in (some store) m s = after_remember s m (store.remember s.remembered m)

unfoldable pub remember : RuntimeDeps → MemoryRecord → Exec System (Unit {0})
unfolding remember_in
remember deps = remember_in deps.memory

unfoldable pub mask_text : Option PiiMasker → Text → Map Text → Text × Map Text
mask_text none t m = (t, m)
mask_text (some p) t m = p.mask t m

unfoldable pub unmask_text : Option PiiMasker → Text → Map Text → Text
unmask_text none t m = t
unmask_text (some p) t m = p.unmask t m

-- `messages.map(…)`: each message adds its tokens to the mapping.
unfoldable pub mask_messages :
    Option PiiMasker → List ModelMessage → Map Text → List ModelMessage × Map Text
unfolding mask_text
mask_messages pii [] m = ([], m)
mask_messages pii (x ∷ xs) m =
    let (content, m1) = mask_text pii x.content m in
    let (rest, m2) = mask_messages pii xs m1 in (record x { content = content } ∷ rest, m2)
