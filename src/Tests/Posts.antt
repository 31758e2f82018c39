-- ===== src/Tests/Posts.antt =====
-- Requests that write, by callers with a token.
use asset_core.Shared.{◌≡◌, ◌⊎◌, none, some, [], ◌∷◌, false, String}
use asset_core.Infra.InMemory.{in_memory, in_memory_sink}
use asset_core.Service.Auth.{
  Headers, Provider, static_token_auth, default_tokens, JwtAuth, text_claim, text_element,
  list_claim, jwt_authenticate,
}
use asset_core.Service.Auth.Authority.{HasMalformedRoles, IsAuthority, Answers, jwt-Answers}
use asset_core.Service.Routes.Posts.{Post, claims, post, permitted}
use asset_core.Service.Routes.Permitted.{MayCall, IsBarred, post-MayCall}
use asset_core.Service.Routes.Statuses.{Settled}
use asset_core.Service.Routes.Settled.{Unchanged, post-Settled}
use asset_core.Tests.Data.{test_host, studio, studio-IsValid}

abbrev with_token : String → Headers
with_token token = record { x_assetcore_token = some token; authorization = none }

abbrev tokens : Provider
tokens = static_token_auth default_tokens

abbrev naming : Post
naming = claims 2 (record {
  display_name = "Rock";
  taxonomy = "props/rock";
  actor = some "bob";
  attributes = [];
  reactivate = false;
})

post-MayCall_example :
    (((post in_memory in_memory_sink test_host tokens (with_token "artist-token") naming studio).1
        ≡ studio)
      × IsBarred tokens
          (with_token "artist-token")
          (post in_memory in_memory_sink test_host tokens
            (with_token "artist-token")
            naming
            studio).0)
    ⊎ MayCall tokens (with_token "artist-token") (permitted naming)
post-MayCall_example =
    post-MayCall tokens (with_token "artist-token") in_memory in_memory_sink test_host naming studio

post-Settled_example :
    Settled in_memory_sink test_host
      (Unchanged in_memory_sink test_host naming)
      studio
      (post in_memory in_memory_sink test_host tokens (with_token "prod-token") naming studio)
post-Settled_example =
    post-Settled in_memory_sink test_host tokens (with_token "prod-token") (λ f. f) naming studio
      studio-IsValid

-- an issuer that signs one token
abbrev issuer : JwtAuth
issuer = record {
  decode = λ token. some (
      ("roles", list_claim (text_element "leads" ∷ text_element "artist" ∷ []))
      ∷ ("sub", text_claim "eva")
      ∷ []);
  str = λ c. "";
  roles_claim = "roles";
  subject_claim = "sub";
  role_map = ("leads", "nobody") ∷ [];
}

abbrev bearer : Headers
bearer = record { x_assetcore_token = none; authorization = some "Bearer abc" }

jwt-Answers_example :
    Answers
      (HasMalformedRoles issuer bearer)
      (λ ctx. IsAuthority ctx.authority)
      (jwt_authenticate issuer bearer)
jwt-Answers_example = jwt-Answers issuer bearer
