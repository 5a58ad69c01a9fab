-- ===== src/Ipc/Client.antt =====
-- The HTTP client of the language model's server (runtime/src/ipc/client.rs). The HTTP library and the
-- serialisation of messages are parameters.
pub mod Replies
mod Tests
use xola.Base.{Bool, true, false, String, [], Exit, ok, err, panic, Duration, from_secs}
use xola.Base.Effects.{Act, map_err, ◌>>=◌, fail}
use xola.Base.Http.{Response, Http}
use xola.Base.Text.{◌<>◌}
use xola.Ipc.{
  IpcError, transport, server_error, deserialisation, ReasonRequest, ReasonResponse, EmbedRequest,
  EmbedResponse, SummarizeRequest, SummarizeResponse, IpcTransport,
}

-- The limit that the HTTP library is given for each call.
abbrev pub default_ipc_timeout : Duration
default_ipc_timeout = from_secs 120

-- serde_json on requests and on responses
pub record Wire (Value Float : Type 0) : Type 0 where
  pub reason_body : ReasonRequest Value → Value
  pub embed_body : EmbedRequest → Value
  pub summarize_body : SummarizeRequest Value → Value
  pub reason_response : Value → Exit String (ReasonResponse Value)
  pub embed_response : Value → Exit String (EmbedResponse Float)
  pub summarize_response : Value → Exit String SummarizeResponse

-- body.unwrap_or_default()
abbrev pub or_default : {World : Type 0} → Exit String String × World → Exit IpcError String × World
or_default (ok body_text, w) = (ok body_text, w)
or_default (err e, w) = (ok "", w)
or_default (panic, w) = (panic, w)

module _ {Value World : Type 0} where
  -- Reading of the body of a reply.
  unfoldable pub read :
      {Resp : Type 0}
      → Bool
      → (Value → Exit String Resp)
      → Response Value World
      → Act World IpcError Resp
  read false decode response = do
    body_text ← λ w. or_default (response.text w)
    fail (server_error response.status body_text)
  read true decode response = do
    value ← map_err deserialisation response.json
    map_err deserialisation λ w. (decode value, w)

  -- IpcClient::post, of a client with this base URL
  unfoldable pub post :
      {Resp : Type 0}
      → Http Value World
      → String
      → String
      → Value
      → (Value → Exit String Resp)
      → Act World IpcError Resp
  unfolding read
  post http base_url path body decode = do
    response ← map_err transport (http.post (base_url <> path) [] body)
    read response.is_success decode response

module _ {Value Float World : Type 0} (http : Http Value World) (wire : Wire Value Float)
    (base_url : String) where
  unfoldable pub embed : EmbedRequest → Act World IpcError (EmbedResponse Float)
  unfolding post
  embed request = post http base_url "/embed" (wire.embed_body request) wire.embed_response

  -- The implementation of the trait.
  unfoldable pub ipc_client : IpcTransport Value World
  unfolding post
  ipc_client = record {
    reason =
        λ request. post http base_url "/reason" (wire.reason_body request) wire.reason_response;
    summarize = λ request.
        post http base_url "/summarize" (wire.summarize_body request) wire.summarize_response;
  }
