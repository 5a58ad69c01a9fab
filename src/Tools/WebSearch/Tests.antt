-- ===== src/Tools/WebSearch/Tests.antt =====
-- Tests of runtime/src/tools/web_search.rs, and the theorem at a concrete server, whose world is the
-- number of the requests that it has answered.
use xola.Base.{
  ℕ, suc, ◌≡◌, refl, true, false, Option, none, some, String, [], ◌∷◌, ok, err, pos, clamp,
}
use xola.Base.Dict.{get}
use xola.Base.Text.{to_decimal, ◌<>◌}
use xola.Tools.Error.{execution_failed, invalid_input}
use xola.Tools.SampleJson.{Sample, null, sample_json}
use xola.Base.Http.{Response, Http}
use xola.Tools.WebSearch.{num_results, web_search_execute}
use xola.Tools.WebSearch.Outcomes.{Searched, web_search-ok}

abbrev reply : ℕ → Sample → Response Sample ℕ
reply code body = record {
  status = code;
  is_success = true;
  canonical_reason = none;
  content_length = none;
  text = λ w. (ok "", w);
  json = λ w. (ok body, w);
}

abbrev server : Sample → Http Sample ℕ
server body = record {
  get = λ url w. (err "no route", suc w);
  post = λ url headers request w. (ok (reply 200 body), suc w);
}

abbrev refusing : Http Sample ℕ
refusing = record {
  get = λ url w. (err "no route", suc w);
  post = λ url headers request w. (ok (record (reply 403 null) { is_success = false }), suc w);
}

abbrev env_with_key : String → ℕ → Option String
env_with_key name w = some "secret"

abbrev two_results : Sample
two_results = sample_json.object (
    (
      "organic",
      sample_json.array (
          sample_json.object (
            ("title", sample_json.string "Rust")
            ∷ ("link", sample_json.string "rust-lang.org")
            ∷ [])
          ∷ sample_json.object (("snippet", sample_json.string "a book") ∷ [])
          ∷ []),
    )
    ∷ [])

abbrev entry : String → String → String → Sample
entry title url snippet = sample_json.object (
    ("title", sample_json.string title)
    ∷ ("url", sample_json.string url)
    ∷ ("snippet", sample_json.string snippet)
    ∷ [])

abbrev two_entries : Sample
two_entries = sample_json.object (
    ("results", sample_json.array (entry "Rust" "rust-lang.org" "" ∷ entry "" "" "a book" ∷ []))
    ∷ [])

abbrev rust_query : Sample
rust_query =
    sample_json.object
      (("query", sample_json.string "rust") ∷ ("num_results", sample_json.number (pos 50)) ∷ [])

searches :
    web_search_execute sample_json (server two_results) env_with_key rust_query 7
    ≡ (ok two_entries, 8)
unfolding web_search_execute get
searches = refl

at_most_ten : num_results sample_json rust_query ≡ 10
unfolding num_results get clamp
at_most_ten = refl

refused :
    web_search_execute sample_json refusing env_with_key rust_query 7
    ≡ (err (execution_failed "Search API request failed with status 403: Unknown"), 8)
unfolding web_search_execute get to_decimal ◌<>◌
refused = refl

-- test_web_search_missing_query
missing_query :
    web_search_execute sample_json (server two_results) env_with_key (sample_json.object []) 7
    ≡ (err (invalid_input "missing or invalid 'query' field"), 7)
unfolding web_search_execute get
missing_query = refl

web_search-ok_example :
    Searched sample_json (server two_results) env_with_key rust_query two_entries 7 8
web_search-ok_example =
    web_search-ok sample_json (server two_results) env_with_key rust_query two_entries 7 8 searches
