-- ===== src/Tools/WebSearch/Outcomes.antt =====
-- How a search came to succeed (runtime/src/tools/web_search.rs).
use xola.Base.{
  ◌≤◌, ◌≡◌, refl, sym, ap, ◌∙◌, Bool, true, false, Option, some, String, List, map, ok, ℤ, pos,
  negsuc, clamp, arith,
}
use xola.Base.Dict.{get}
use xola.Tools.Error.{ToolError}
use xola.Tools.Effects.{Json, str_field, i64_field, array_field, unwrap_or, continue, Act}
use xola.Tools.Inversion.{ok_of_option, ok_of_call, ok_of_return}
use xola.Base.Http.{Response, Http}
use xola.Tools.UrlFetch.{check_status}
use xola.Tools.WebSearch.{
  search_url, request_headers, num_results, request_body, simplified, found, web_search_execute,
}

num_results-le :
    {Value : Type 0} (json : Json Value) (input : Value)
    → (1 ≤ num_results json input) × (num_results json input ≤ 10)
unfolding num_results clamp
num_results-le json input = by_number (unwrap_or (i64_field json "num_results" input) (pos 5))
  where
    by_number : (z : ℤ) → (1 ≤ clamp 1 10 z) × (clamp 1 10 z ≤ 10)
    by_number (pos n) = ground arith
    by_number (negsuc n) = omega arith

results-found :
    {Value : Type 0} (json : Json Value) (organic_results : List Value)
    → array_field json "results" (found json organic_results)
      ≡ some (map (simplified json) organic_results)
unfolding found get
results-found json organic_results = rw (json.get_object, json.as_array_array) refl

module _ {Value World : Type 0} where
  ok_of_check_status :
      {A : Type 0} (success : Bool) (prefix : String) (response : Response Value World)
      (w w' : World) (f : Response Value World → Act World ToolError A) (a : A)
      → continue (check_status success prefix response w) f ≡ (ok a, w')
      → (success ≡ true) × (f response w ≡ (ok a, w'))
  ok_of_check_status true prefix response w w' f a q = (refl, q)
  ok_of_check_status false prefix response w w' f a q = cc

module _ {Value World : Type 0} (json : Json Value) (http : Http Value World)
    (env_var : String → World → Option String) where
  -- The search that was sent, the reply to it, and the results that it held.
  abbrev pub Searched : Value → Value → World → World → Type 0
  Searched input output w w' =
      (query : String) × (key : String) × (response : Response Value World) × (received : World)
      × (body : Value) × (organic_results : List Value) × (str_field json "query" input
          ≡ some query)
      × (env_var "SERPER_API_KEY" w ≡ some key)
      × ((1 ≤ num_results json input) × (num_results json input ≤ 10))
      × (http.post search_url (request_headers key)
            (request_body json query (num_results json input)) w
          ≡ (ok response, received))
      × (response.is_success ≡ true)
      × (response.json received ≡ (ok body, w'))
      × (array_field json "organic" body ≡ some organic_results)
      × (array_field json "results" output ≡ some (map (simplified json) organic_results))

  -- A search that succeeds had a query and a key, asked for one to ten results, got a reply with a status
  -- of success and a list of organic results in its body, and returns each of these in a list, in their
  -- order; it is the only request that was made.
  pub web_search-ok :
      (input output : Value) (w w' : World)
      → web_search_execute json http env_var input w ≡ (ok output, w')
      → Searched input output w w'
  unfolding web_search_execute
  web_search-ok input output w w' q =
      let (query, asked, q1) = ok_of_option _ (str_field json "query" input) w w' _ output q in
      let (key, keyed, q2) = ok_of_option _ (env_var "SERPER_API_KEY" w) w w' _ output q1 in
      let (response, v, sent, q3) =
        ok_of_call _
          (http.post search_url (request_headers key)
            (request_body json query (num_results json input)) w)
          w' _ output q2 in
      let (good, q4) =
        ok_of_check_status response.is_success "Search API request" response v w' _ output q3 in
      let (body, u, parsed, q5) = ok_of_call _ (response.json v) w' _ output q4 in
      let (organic, listed, q6) =
        ok_of_option _ (array_field json "organic" body) u w' _ output q5 in
      let (result, end) = ok_of_return (found json organic) output u w' q6 in
      (
        query,
        key,
        response,
        v,
        body,
        organic,
        asked,
        keyed,
        num_results-le json input,
        sent,
        good,
        parsed ∙ ap (λ x. (ok body, x)) end,
        listed,
        ap (array_field json "results") (sym result) ∙ results-found json organic,
      )
