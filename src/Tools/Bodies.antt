-- ===== src/Tools/Bodies.antt =====
-- agent-os/src/tools: the tools of httpRequest.ts, codeExec.ts and document.ts. What
-- stands behind them is a parameter: `new URL(u).hostname`, `fetch`, the sandbox and
-- the document parser; each is told how many tool runs came before.
use nastroyka_claude.Base.{
  ◌∷◌, ℕ, Bool, true, false, not, ◌||◌, Option, none, some, List, [], ◌++◌, any, take, length, Text,
  text, eq_text, ends_with, decimal, if◌then◌else◌,
}
use nastroyka_claude.Domain.Json.{Json, end, field, null, bool, num, str, obj, prop, to_text}
use nastroyka_claude.Domain.Errors.{Result, ok, err, thrown, domain_not_allowed}
use nastroyka_claude.Exec.{Exec, pure, throw, ◌>>=◌}
use nastroyka_claude.Tools.{ToolSecurity}

-- Whether a value counts as true.
abbrev truthy : Option Json → Bool
truthy none = false
truthy (some null) = false
truthy (some (bool b)) = b
truthy (some (num t)) = not (eq_text t (text "0"))
truthy (some (str [])) = false
truthy (some _) = true

-- String(v ?? d)
abbrev pub string_of : Text → Option Json → Text
string_of d none = d
string_of d (some null) = d
string_of d (some v) = to_text v

-- v ? String(v) : undefined
abbrev string_if : Option Json → Option Text
string_if none = none
string_if (some v) = if truthy (some v) then some (to_text v) else none

abbrev or_json : Json → Option Json → Json
or_json d none = d
or_json d (some null) = d
or_json d (some v) = v

abbrev pub is_allowed_for : Text → Text → Bool
is_allowed_for host allowed = eq_text host allowed || ends_with (text "." ++ allowed) host

abbrev pub host_allowed : Option Text → List Text → Bool
host_allowed none allowlist = false
host_allowed (some host) allowlist = any (is_allowed_for host) allowlist

-- isHostAllowed; the first argument gives nothing where `new URL` throws.
unfoldable pub is_host_allowed : (Text → Option Text) → Text → List Text → Bool
is_host_allowed hostname url allowlist = host_allowed (hostname url) allowlist

abbrev or_invalid : Option Text → Text
or_invalid none = text "<invalid-url>"
or_invalid (some host) = host

unfoldable pub safe_host : (Text → Option Text) → Text → Text
safe_host hostname url = or_invalid (hostname url)

pub record Request : Type 0 where
  pub url : Text
  pub method : Json
  pub body : Option Text

pub record Response : Type 0 where
  pub status : ℕ
  pub body : Text

-- `fetch` is told how many requests were handed to it before, and answers with the text read or throws.
pub record Network : Type 0 where
  pub hostname : Text → Option Text
  pub fetch : (sent : ℕ) → Request → Result Response

-- The state of the network is the requests handed to `fetch` so far.
unfoldable pub send : Network → Request → Exec (List Request) Response
send net request sent = (net.fetch (length sent) request, sent ++ request ∷ [])

abbrev pub response_json : Response → Json
response_json res = obj (
    field (text "status") (num (decimal res.status))
      (field (text "body") (str (take 10000 res.body)) end))

-- What the tool asks `fetch` for.
abbrev pub request_of : Json → Request
request_of input = record {
  url = string_of [] (prop (text "url") input);
  method = or_json (str (text "GET")) (prop (text "method") input);
  body = string_if (prop (text "body") input);
}

-- httpRequestTool.run
unfoldable pub http_request : Network → Json → List Text → Exec (List Request) Json
unfolding is_host_allowed safe_host
http_request net input allowlist =
    let url = string_of [] (prop (text "url") input) in
    if is_host_allowed net.hostname url allowlist
    then (do res ← send net (request_of input); pure (response_json res))
    else throw (domain_not_allowed (safe_host net.hostname url))

pub record SandboxLimits : Type 0 where
  pub cpu_ms : ℕ
  pub mem_mb : ℕ
  pub network : Bool

pub data SandboxLanguage : Type 0 where
  python node : SandboxLanguage

abbrev pub Sandbox : Type 0
Sandbox = ℕ → SandboxLanguage → Text → SandboxLimits → Result Json

unfoldable pub code_exec_security : ToolSecurity
code_exec_security = record { network = false; cpu_ms = 5000; mem_mb = 256; persist_fs = false }

abbrev language_of : Option Json → Option SandboxLanguage
language_of (some (str t)) =
    if eq_text t (text "python")
    then some python
    else if eq_text t (text "node")
    then some node
    else none
language_of _ = none

-- String(v), for a value that may be missing
abbrev shown : Option Json → Text
shown none = text "undefined"
shown (some v) = to_text v

abbrev exec_limits : ToolSecurity → SandboxLimits
exec_limits s = record { cpu_ms = s.cpu_ms; mem_mb = s.mem_mb; network = s.network }

-- codeExecTool.run
unfoldable pub code_exec : Option Sandbox → ℕ → Json → Result Json
unfolding code_exec_security
code_exec none count input =
    err (thrown (text "code_exec is disabled: no execution sandbox configured"))
code_exec (some sandbox) count input = elim (language_of (prop (text "language") input)) [
  | none ↦ err (
      thrown (
        text "code_exec: unsupported language \""
        ++ (shown (prop (text "language") input) ++ text "\"")))
  | some language ↦
      sandbox count language (string_of [] (prop (text "source") input))
        (exec_limits code_exec_security)
]

abbrev pub DocumentParser : Type 0
DocumentParser = ℕ → (mime content : Text) → (base64 : Bool) → Option Text → Result Text

abbrev document_json : Result Text → Result Json
document_json (err e) = err e
document_json (ok t) =
    ok (obj (field (text "text") (str t) (field (text "chars") (num (decimal (length t))) end)))

-- readDocumentTool.run
unfoldable pub read_document : Option DocumentParser → ℕ → Json → Result Json
read_document none count input =
    err (thrown (text "read_document is not configured (no document parser)"))
read_document (some parser) count input = document_json (
    parser count (string_of (text "text/plain") (prop (text "mime") input))
      (string_of [] (prop (text "content") input)) (truthy (prop (text "base64") input))
      (string_if (prop (text "filename") input)))
