-- ===== src/Tools/WebSearch.antt =====
-- The tool that searches the web (runtime/src/tools/web_search.rs).
mod Tests
pub mod Outcomes
use xola.Base.{ℕ, Option, String, List, [], ◌∷◌, map, pos, clamp}
use xola.Base.Text.{◌<>◌}
use xola.Tools.Error.{ToolError, invalid_input, execution_failed}
use xola.Tools.Effects.{
  Json, str_field, i64_field, array_field, unwrap_or, Act, return, ok_or, map_err, ◌>>=◌, ◌>>◌,
}
use xola.Base.Http.{Http}
use xola.Tools.Registry.{Tool}
use xola.Tools.UrlFetch.{check_status}

abbrev pub search_url : String
search_url = "https://google.serper.dev/search"

abbrev pub request_headers : String → List (String × String)
request_headers api_key = ("X-API-KEY", api_key) ∷ ("Content-Type", "application/json") ∷ []

module _ {Value : Type 0} (json : Json Value) where
  unfoldable pub num_results : Value → ℕ
  unfolding clamp
  num_results input = clamp 1 10 (unwrap_or (i64_field json "num_results" input) (pos 5))

  abbrev pub request_body : String → ℕ → Value
  request_body query n = json.object (("q", json.string query) ∷ ("num", json.number (pos n)) ∷ [])

  -- One organic result, in the form that is returned.
  unfoldable pub simplified : Value → Value
  simplified result = json.object (
      ("title", json.string (unwrap_or (str_field json "title" result) ""))
      ∷ ("url", json.string (unwrap_or (str_field json "link" result) ""))
      ∷ ("snippet", json.string (unwrap_or (str_field json "snippet" result) ""))
      ∷ [])

  unfoldable pub found : List Value → Value
  unfolding simplified
  found organic_results =
      json.object (("results", json.array (map simplified organic_results)) ∷ [])

module _ {Value World : Type 0} (json : Json Value) (http : Http Value World)
    (env_var : String → World → Option String) where
  abbrev pub search_schema : Value
  search_schema = json.object (
      ("type", json.string "object")
      ∷ (
        "properties",
        json.object (
            (
              "query",
              json.object (
                  ("type", json.string "string")
                  ∷ ("description", json.string "The search query")
                  ∷ []),
            )
            ∷ (
              "num_results",
              json.object (
                  ("type", json.string "integer")
                  ∷ ("description", json.string "Number of results to return (1-10)")
                  ∷ ("default", json.number (pos 5))
                  ∷ ("minimum", json.number (pos 1))
                  ∷ ("maximum", json.number (pos 10))
                  ∷ []),
            )
            ∷ []),
      )
      ∷ ("required", json.array (json.string "query" ∷ []))
      ∷ [])

  abbrev pub api_key : Act World ToolError String
  api_key w =
      ok_or (execution_failed "SERPER_API_KEY environment variable not set")
        (env_var "SERPER_API_KEY" w) w

  -- WebSearchTool::execute
  unfoldable pub web_search_execute : Value → Act World ToolError Value
  unfolding num_results found
  web_search_execute input = do
    query ← ok_or (invalid_input "missing or invalid 'query' field") (str_field json "query" input)
    key ← api_key
    response ←
        map_err (λ e. execution_failed ("HTTP request failed: " <> e))
          (http.post search_url (request_headers key)
            (request_body json query (num_results json input)))
    check_status response.is_success "Search API request" response
    response_json ←
        map_err (λ e. execution_failed ("Failed to parse response: " <> e)) response.json
    organic_results ←
        ok_or (execution_failed "Missing 'organic' field in API response")
          (array_field json "organic" response_json)
    return (found json organic_results)

  abbrev pub web_search_tool : Tool Value World
  web_search_tool = record {
    name = "web_search";
    description = "Searches the web using Google Search API";
    input_schema = search_schema;
    execute = web_search_execute;
  }
