-- ===== src/Tools/Specs.antt =====
-- agent-os/src/tools: the tools of httpRequest.ts, codeExec.ts and document.ts as they are registered,
-- with their schemas and security profiles.
use nastroyka_claude.Base.{ℕ, List, true, false, Option, Text, text}
use nastroyka_claude.Domain.Json.{Json, nil, cons, end, field, str, arr, obj}
use nastroyka_claude.Tools.{ToolSpec}
use nastroyka_claude.Tools.Bodies.{
  Network, Request, Sandbox, DocumentParser, http_request, code_exec, code_exec_security,
  read_document,
}

-- { type: 'string', description }
abbrev described : Text → Json
described description =
    obj
      (field (text "type") (str (text "string")) (field (text "description") (str description) end))

-- httpRequestTool; `sent` gives the requests sent before a tool run, from the number of tool runs.
unfoldable pub http_request_tool : Network → (sent : ℕ → List Request) → ToolSpec
http_request_tool net sent = record {
  schema = record {
    name = text "http_request";
    description =
        text "Perform an HTTP request to an allowlisted domain. Returns status and body text.";
    input_schema =
        (obj (
          field (text "type") (str (text "object")) (
            field (text "properties")
              (obj (
                field (text "url") (described (text "Absolute URL to fetch")) (
                  field (text "method")
                    (obj (
                      field (text "type") (str (text "string")) (
                        field (text "enum")
                          (arr (cons (str (text "GET")) (cons (str (text "POST")) nil)))
                          (field (text "default") (str (text "GET")) end))))
                    (field (text "body") (described (text "Optional request body")) end))))
              (field (text "required") (arr (cons (str (text "url")) nil)) end))));
  };
  security = record { network = true; cpu_ms = 5000; mem_mb = 128; persist_fs = false };
  run = λ count input allowlist. (http_request net input allowlist (sent count)).0;
}

-- codeExecTool
unfoldable pub code_exec_tool : Option Sandbox → ToolSpec
code_exec_tool sandbox = record {
  schema = record {
    name = text "code_exec";
    description =
        text
          "Execute a short program in an isolated sandbox (no network, CPU/memory limited). Returns stdout/stderr/exitCode.";
    input_schema =
        (obj (
          field (text "type") (str (text "object")) (
            field (text "properties")
              (obj (
                field (text "language")
                  (obj (
                    field (text "type") (str (text "string")) (
                      field (text "enum")
                        (arr (cons (str (text "python")) (cons (str (text "node")) nil))) end)))
                  (field (text "source") (obj (field (text "type") (str (text "string")) end))
                    end)))
              (field (text "required")
                (arr (cons (str (text "language")) (cons (str (text "source")) nil))) end))));
  };
  security = code_exec_security;
  run = λ count input allowlist. code_exec sandbox count input;
}

-- readDocumentTool
unfoldable pub read_document_tool : Option DocumentParser → ToolSpec
read_document_tool parser = record {
  schema = record {
    name = text "read_document";
    description =
        text
          "Extract text from a document (text/markdown/csv/json inline; pdf/xlsx/docx via a parser).";
    input_schema =
        (obj (
          field (text "type") (str (text "object")) (
            field (text "properties")
              (obj (
                field (text "mime") (obj (field (text "type") (str (text "string")) end)) (
                  field (text "content")
                    (described (text "UTF-8 text, or base64 bytes with base64=true"))
                    (field (text "base64") (obj (field (text "type") (str (text "boolean")) end)) (
                      field (text "filename") (obj (field (text "type") (str (text "string")) end))
                        end)))))
              (field (text "required")
                (arr (cons (str (text "mime")) (cons (str (text "content")) nil))) end))));
  };
  security = record { network = false; cpu_ms = 5000; mem_mb = 256; persist_fs = false };
  run = λ count input allowlist. read_document parser count input;
}
