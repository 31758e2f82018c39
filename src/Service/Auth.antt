-- ===== src/Service/Auth.antt =====
-- assetcore/service/auth.py: who calls, and what the caller may do. The decoding of a bearer token is
-- PyJWT's, a parameter; `none` is any exception that it raises. Its `strip` of the token is part of it.
pub mod Authority
use Prim.Native.String.{len, slice}
use text.Mathlib.Text.{starts_with}
use asset_core.Shared.{
  ℕ, String, Bool, true, false, Option, none, some, List, [], ◌∷◌, ◌==◌, ℕ_eq, String_eq,
  if◌then◌else◌, contains_text, map,
}
use asset_core.Shared.Dict.{Dict, lookup}

pub record AuthContext : Type 0 where
  pub authority : String
  pub subject : Option String

-- `x or y` on an optional text
abbrev pub or_text : Option String → String → String
or_text none y = y
or_text (some x) y = if x == "" then y else x

unfoldable pub resolve_actor : AuthContext → Option String → String
resolve_actor ctx supplied = or_text ctx.subject (or_text supplied ctx.authority)

abbrev pub production : String
production = "production"

abbrev pub artist : String
artist = "artist"

abbrev pub engine : String
engine = "engine"

abbrev pub build : String
build = "build"

abbrev pub authorities : List String
authorities = production ∷ artist ∷ engine ∷ build ∷ []

-- the built-in map
abbrev pub default_tokens : Dict String String
default_tokens =
    ("prod-token", production)
    ∷ ("artist-token", artist)
    ∷ ("engine-token", engine)
    ∷ ("build-token", build)
    ∷ []

-- what `authenticate` returns, the status code of the HTTPException that it raises, or a TypeError
-- that it does not catch
pub data Auth : Type 0 where
  authenticated : AuthContext → Auth
  refused : ℕ → Auth
  type_error : Auth

-- the headers that are read
pub record Headers : Type 0 where
  pub x_assetcore_token : Option String
  pub authorization : Option String

unfoldable pub static_authenticate : Dict String String → Headers → Auth
unfolding lookup
static_authenticate tokens headers = elim headers.x_assetcore_token [
  | none ↦ refused 401
  | some token ↦ if token == "" then refused 401 else (elim (lookup token tokens) [
    | none ↦ refused 401
    | some authority ↦ authenticated (record { authority = authority; subject = none })
  ])
]

-- A JSON value in a list or an object: a text; null, a boolean or a number; or a list or an object
-- again, the last two by their JSON texts.
pub data Element : Type 0 where
  text_element : String → Element
  plain_element : String → Element
  nested_element : String → Element

-- A claim of a token, which is any JSON value. A number is its text and whether it is zero.
pub data Claim : Type 0 where
  null_claim : Claim
  bool_claim : Bool → Claim
  number_claim : Bool → String → Claim
  text_claim : String → Claim
  list_claim : List Element → Claim
  object_claim : List (String × Element) → Claim

-- `str` is Python's, of a claim that is not a text.
pub record JwtAuth : Type 0 where
  pub decode : String → Option (Dict String Claim)
  pub str : Claim → String
  pub roles_claim : String
  pub subject_claim : String
  pub role_map : Dict String String

-- `x if x in AUTHORITIES else None`
abbrev pub known_authority : String → Option String
known_authority role = if contains_text role authorities then some role else none

-- `self._role_map.get(role, …)`
unfoldable pub mapped_role : Dict String String → String → Option String
unfolding lookup contains_text
mapped_role role_map role = elim (lookup role role_map) [
  | none ↦ known_authority role
  | some mapped ↦ some mapped
]

-- what `_authority_from` returns, or its TypeError
pub data Mapped : Type 0 where
  granted : String → Mapped
  no_authority : Mapped
  role_type_error : Mapped

-- an authority that is found ends the loop
abbrev pub found_or : Option String → Mapped → Mapped
found_or none rest = rest
found_or (some mapped) rest = if contains_text mapped authorities then granted mapped else rest

-- The loop of `_authority_from`. A role that is a list or an object has no hash, so that the map
-- raises; one that is neither a text nor these is no authority and no key of the map.
unfoldable pub first_authority : Dict String String → List Element → Mapped
unfolding mapped_role contains_text
first_authority role_map [] = no_authority
first_authority role_map (text_element role ∷ roles) =
    found_or (mapped_role role_map role) (first_authority role_map roles)
first_authority role_map (nested_element _ ∷ roles) = role_type_error
first_authority role_map (plain_element _ ∷ roles) = first_authority role_map roles

-- What the loop runs through: a text is a list of one, an object is its keys; `none` is a claim that
-- cannot be iterated.
abbrev pub roles_of : Option Claim → Option (List Element)
roles_of none = some []
roles_of (some (text_claim role)) = some (text_element role ∷ [])
roles_of (some (list_claim roles)) = some roles
roles_of (some (object_claim fields)) = some (map (λ f. text_element f.0) fields)
roles_of (some null_claim) = none
roles_of (some (bool_claim _)) = none
roles_of (some (number_claim _ _)) = none

abbrev pub authority_of : Dict String String → Option (List Element) → Mapped
authority_of role_map none = role_type_error
authority_of role_map (some roles) = first_authority role_map roles

unfoldable pub authority_from : JwtAuth → Dict String Claim → Mapped
unfolding first_authority lookup
authority_from jwt claims = authority_of jwt.role_map (roles_of (lookup jwt.roles_claim claims))

-- `str(subject) if subject else None`
abbrev pub subject_of : (Claim → String) → Option Claim → Option String
subject_of str none = none
subject_of str (some null_claim) = none
subject_of str (some (bool_claim b)) = if b then some (str (bool_claim b)) else none
subject_of str (some (number_claim zero shown)) =
    if zero then none else some (str (number_claim zero shown))
subject_of str (some (text_claim subject)) = if subject == "" then none else some subject
subject_of str (some (list_claim [])) = none
subject_of str (some (list_claim (c ∷ cs))) = some (str (list_claim (c ∷ cs)))
subject_of str (some (object_claim [])) = none
subject_of str (some (object_claim (f ∷ fs))) = some (str (object_claim (f ∷ fs)))

-- the context of a token whose claims are decoded
abbrev pub context_of : Option String → Mapped → Auth
context_of subject (granted authority) =
    authenticated (record { authority = authority; subject = subject })
context_of subject no_authority = refused 403
context_of subject role_type_error = type_error

unfoldable pub jwt_authenticate : JwtAuth → Headers → Auth
unfolding authority_from lookup
jwt_authenticate jwt headers =
    let header : String = elim headers.authorization [ none ↦ "" | some h ↦ h ] in
    if starts_with header "Bearer "
    then (elim (jwt.decode (slice header 7 (len header))) [
      | none ↦ refused 401
      | some claims ↦
          context_of (subject_of jwt.str (lookup jwt.subject_claim claims))
            (authority_from jwt claims)
    ])
    else refused 401

-- the configured provider, `request.app.state.auth`
pub data Provider : Type 0 where
  static_token_auth : Dict String String → Provider
  jwt_auth : JwtAuth → Provider

unfoldable pub get_authority : Provider → Headers → Auth
unfolding static_authenticate jwt_authenticate
get_authority (static_token_auth tokens) headers = static_authenticate tokens headers
get_authority (jwt_auth config) headers = jwt_authenticate config headers

unfoldable pub require : List String → Provider → Headers → Auth
unfolding get_authority contains_text
require allowed provider headers = elim (get_authority provider headers) [
  | refused status ↦ refused status
  | type_error ↦ type_error
  | authenticated ctx ↦
      if contains_text ctx.authority allowed then authenticated ctx else refused 403
]
