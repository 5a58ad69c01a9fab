-- ===== src/Tools/UrlFetch.antt =====
-- The tool that fetches a URL (runtime/src/tools/url_fetch.rs).
use xola.Base.{String, [], ◌∷◌, pos, Bool, true, false}
use xola.Base.Text.{to_decimal, ◌<>◌}
use xola.Tools.Error.{ToolError, invalid_input, execution_failed}
use xola.Tools.Effects.{Json, str_field, unwrap_or, Act, return, fail, ok_or, map_err, ◌>>=◌, ◌>>◌}
use xola.Base.Http.{Response, Http}
use xola.Tools.Registry.{Tool}

module _ {Value World : Type 0} where
  -- A status that is no success ends the call.
  abbrev pub check_status :
      Bool → String → Response Value World → Act World ToolError (Response Value World)
  check_status true prefix response = return response
  check_status false prefix response = fail (
      execution_failed (
        prefix
        <> " failed with status "
        <> to_decimal response.status
        <> ": "
        <> unwrap_or response.canonical_reason "Unknown"))

module _ {Value World : Type 0} (json : Json Value) (http : Http Value World) where
  abbrev pub url_schema : Value
  url_schema = json.object (
      ("type", json.string "object")
      ∷ (
        "properties",
        json.object (
            (
              "url",
              json.object (
                  ("type", json.string "string")
                  ∷ (
                    "description",
                    json.string "The URL to fetch (must include http:// or https://)",
                  )
                  ∷ []),
            )
            ∷ []),
      )
      ∷ ("required", json.array (json.string "url" ∷ []))
      ∷ [])

  abbrev pub page : Response Value World → String → Value
  page response content = json.object (
      ("content", json.string content)
      ∷ ("status_code", json.number (pos response.status))
      ∷ ("content_length", json.number (pos (unwrap_or response.content_length 0)))
      ∷ [])

  -- UrlFetchTool::execute
  unfoldable pub url_fetch_execute : Value → Act World ToolError Value
  url_fetch_execute input = do
    url ← ok_or (invalid_input "missing or invalid 'url' field") (str_field json "url" input)
    response ← map_err (λ e. execution_failed ("HTTP request failed: " <> e)) (http.get url)
    check_status response.is_success "HTTP request" response
    content ← map_err (λ e. execution_failed ("Failed to read response body: " <> e)) response.text
    return (page response content)

  abbrev pub url_fetch_tool : Tool Value World
  url_fetch_tool = record {
    name = "url_fetch";
    description = "Fetches the text content of a URL";
    input_schema = url_schema;
    execute = url_fetch_execute;
  }
