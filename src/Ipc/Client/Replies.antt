-- ===== src/Ipc/Client/Replies.antt =====
-- What the client makes of the replies of the server (runtime/src/ipc/client.rs).
use xola.Base.{◌≡◌, ◌≢◌, ◌⊎◌, inl, inr, refl, Bool, true, false, String, [], Exit, ok, err, panic}
use xola.Base.Effects.{Act, continue, renamed, fail}
use xola.Base.Http.{Response, Http}
use xola.Base.Text.{◌<>◌}
use xola.Ipc.{IpcError, transport, server_error, deserialisation}
use xola.Ipc.Client.{post, read, or_default}

module _ {Value Resp World : Type 0} (decode : Value → Exit String Resp) where
  -- What the outcome of a call says of the reply, whose body is read in the world that it came with.
  abbrev pub Explained :
      Exit String (Response Value World) × World → Exit IpcError Resp → World → Type 0
  Explained sent (ok answer) w' =
      (response : Response Value World) × (v : World) × (value : Value) × (sent ≡ (ok response, v))
      × (response.is_success ≡ true)
      × (response.json v ≡ (ok value, w'))
      × (decode value ≡ ok answer)
  Explained sent (err (transport e)) w' = sent ≡ (err e, w')
  Explained sent (err (server_error code body_text)) w' =
      (response : Response Value World) × (v : World) × (sent ≡ (ok response, v))
      × (response.is_success ≡ false)
      × (code ≡ response.status)
      × (or_default (response.text v) ≡ (ok body_text, w'))
  Explained sent (err (deserialisation e)) w' =
      (response : Response Value World) × (v : World) × (sent ≡ (ok response, v))
      × (response.is_success ≡ true)
      × ((response.json v ≡ (err e, w'))
          ⊎ ((value : Value) × (response.json v ≡ (ok value, w')) × (decode value ≡ err e)))
  Explained sent panic w' = Unit {0}

  decoded_Explained :
      (response : Response Value World) (v w' : World) (value : Value) (d : Exit String Resp)
      → decode value ≡ d
      → response.is_success ≡ true
      → response.json v ≡ (ok value, w')
      → Explained
          (ok response, v)
          (renamed deserialisation (d, w')).0
          (renamed deserialisation (d, w')).1
  decoded_Explained response v w' value (ok answer) e good parsed =
      (response, v, value, refl, good, parsed, e)
  decoded_Explained response v w' value (err x) e good parsed =
      (response, v, refl, good, inr (value, parsed, e))
  decoded_Explained response v w' value panic e good parsed = tt

  abbrev decoding : Value → Act World IpcError Resp
  decoding value u = renamed deserialisation (decode value, u)

  success_Explained :
      (response : Response Value World) (v : World) (parsed : Exit String Value × World)
      → response.json v ≡ parsed
      → response.is_success ≡ true
      → Explained
          (ok response, v)
          (continue (renamed deserialisation parsed) decoding).0
          (continue (renamed deserialisation parsed) decoding).1
  success_Explained response v (ok value, w') e good =
      decoded_Explained response v w' value (decode value) refl good e
  success_Explained response v (err x, w') e good = (response, v, refl, good, inl e)
  success_Explained response v (panic, w') e good = tt

  failure_Explained :
      (response : Response Value World) (v : World) (body : Exit IpcError String × World)
      → ((x : IpcError) (u : World) → body ≢ (err x, u))
      → or_default (response.text v) ≡ body
      → response.is_success ≡ false
      → Explained
          (ok response, v)
          (continue body λ body_text. fail {A = Resp} (server_error response.status body_text)).0
          (continue body λ body_text. fail {A = Resp} (server_error response.status body_text)).1
  failure_Explained response v (ok body_text, w') never e bad = (response, v, refl, bad, refl, e)
  failure_Explained response v (err x, w') never e bad = absurd (never x w' refl)
  failure_Explained response v (panic, w') never e bad = tt

  or_default_never_fails :
      (body : Exit String String × World) (x : IpcError) (u : World) → or_default body ≢ (err x, u)
  or_default_never_fails (ok body_text, w') x u q = cc
  or_default_never_fails (err e, w') x u q = cc
  or_default_never_fails (panic, w') x u q = cc

  read-Explained :
      (success : Bool) (response : Response Value World) (v : World)
      → response.is_success ≡ success
      → Explained
          (ok response, v)
          (read success decode response v).0
          (read success decode response v).1
  unfolding read
  read-Explained true response v e = success_Explained response v (response.json v) refl e
  read-Explained false response v e =
      failure_Explained response v (or_default (response.text v))
        (or_default_never_fails (response.text v)) refl e

  sent_Explained :
      (sent : Exit String (Response Value World) × World)
      → Explained sent
          (continue (renamed transport sent) λ response. read response.is_success decode response).0
          (continue (renamed transport sent) λ response. read response.is_success decode response).1
  sent_Explained (ok response, v) = read-Explained response.is_success response v refl
  sent_Explained (err e, v) = refl
  sent_Explained (panic, v) = tt

  -- A call of the server, however it ends, is one request to the base URL and path with this body. An
  -- answer is what the body of a reply of success decodes to; a transport error is one of the request; a
  -- server error carries the status of a reply that is no success and its text, or nothing where the text
  -- cannot be read; a deserialisation error comes from the body of a reply of success. Nothing is said of a
  -- panic.
  pub post-Explained :
      (http : Http Value World) (base_url path : String) (body : Value) (w : World)
      → Explained
          (http.post (base_url <> path) [] body w)
          (post http base_url path body decode w).0
          (post http base_url path body decode w).1
  unfolding post
  post-Explained http base_url path body w = sent_Explained (http.post (base_url <> path) [] body w)
