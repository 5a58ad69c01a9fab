-- ===== src/Ipc/Client/Tests.antt =====
-- Tests of runtime/src/ipc/client.rs, and the theorem at a concrete server. A value is a text, and the
-- world is the number of requests.
use xola.Base.{ℕ, suc, ◌≡◌, refl, Bool, true, false, none, some, String, [], Exit, ok, err}
use xola.Base.Http.{Http}
use xola.Base.Text.{◌<>◌}
use xola.Ipc.{server_error, deserialisation, ReasonRequest, ReasonResponse}
use xola.Ipc.Client.{Wire, post, embed, ipc_client}
use xola.Ipc.Client.Replies.{Explained, post-Explained}

abbrev final : String → ReasonResponse String
final value = record {
  thought = value;
  action = none;
  action_input = "";
  is_final = true;
  final_answer = some value;
}

abbrev wire : Wire String ℕ
wire = record {
  reason_body = λ request. request.task_goal;
  embed_body = λ request. request.text;
  summarize_body = λ request. "";
  reason_response = λ value. ok (final value);
  embed_response = λ value. err "missing field `vector`";
  summarize_response = λ value. ok (record { summary = value; token_count = 1 });
}

-- A server that answers each request with this status and with the body that it was sent.
abbrev echo_server : ℕ → Bool → Exit String String → Http String ℕ
echo_server code success body_text = record {
  get = λ url w. (err "no route", suc w);
  post = λ url headers body w. (
    ok (record {
      status = code;
      is_success = success;
      canonical_reason = none;
      content_length = none;
      text = λ u. (body_text, u);
      json = λ u. (ok body, u);
    }),
    suc w,
  );
}

abbrev question : ReasonRequest String
question = record { messages = []; tool_schemas = []; memory_context = []; task_goal = "why" }

answers :
    (ipc_client (echo_server 200 true (ok "")) wire "http://127.0.0.1:8001").reason question 3
    ≡ (ok (final "why"), 4)
unfolding ipc_client ◌<>◌
answers = refl

overloaded :
    (ipc_client (echo_server 503 false (err "cut off")) wire "http://127.0.0.1:8001").reason
      question 3
    ≡ (err (server_error 503 ""), 4)
unfolding ipc_client
overloaded = refl

no_vector :
    embed
      (echo_server 200 true (ok ""))
      wire
      "http://127.0.0.1:8001"
      (record { text = "fact"; model = none })
      3
    ≡ (err (deserialisation "missing field `vector`"), 4)
unfolding embed
no_vector = refl

post-Explained_example :
    Explained wire.reason_response
      ((echo_server 503 false (err "cut off")).post
        ("http://127.0.0.1:8001" <> "/reason")
        []
        "why"
        3)
      (post
        (echo_server 503 false (err "cut off"))
        "http://127.0.0.1:8001"
        "/reason"
        "why"
        wire.reason_response
        3).0
      (post
        (echo_server 503 false (err "cut off"))
        "http://127.0.0.1:8001"
        "/reason"
        "why"
        wire.reason_response
        3).1
post-Explained_example =
    post-Explained wire.reason_response (echo_server 503 false (err "cut off"))
      "http://127.0.0.1:8001" "/reason" "why" 3
