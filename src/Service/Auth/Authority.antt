-- ===== src/Service/Auth/Authority.antt =====
-- Which answers an authentication can give.
use Prim.Native.String.{len, slice}
use text.Mathlib.Text.{starts_with}
use asset_core.Shared.{
  ℕ, String, ◌≡◌, ◌⊎◌, In, Option, inl, inr, refl, true, none, some, List, [], ◌∷◌, ◌==◌, String_eq,
  ℕ_eq, Bool-cases, Option-cases, contains_text, if◌then◌else◌,
}
use asset_core.Shared.Dict.{Dict, lookup}
use asset_core.Service.Auth.{
  AuthContext, Auth, authenticated, refused, Headers, Provider, static_token_auth, jwt_auth,
  JwtAuth, Claim, Element, text_element, plain_element, nested_element, Mapped, granted,
  no_authority, role_type_error, found_or, authority_of, context_of, subject_of, type_error,
  static_authenticate, jwt_authenticate, get_authority, require, authority_from, first_authority,
  mapped_role, roles_of, authorities,
}

-- a refusal is 401 or 403
abbrev pub IsRefusal : ℕ → Type 0
IsRefusal status = (status ≡ 401) ⊎ (status ≡ 403)

-- an answer that refuses so, or whose context satisfies `P`, or that is a TypeError, where `F` holds
abbrev pub Answers : Type 0 → (AuthContext → Type 0) → Auth → Type 0
Answers F P (refused status) = IsRefusal status
Answers F P (authenticated ctx) = P ctx
Answers F P type_error = F

abbrev pub IsAuthority : String → Type 0
IsAuthority authority = contains_text authority authorities ≡ true

abbrev HasNoHash : Element → Type 0
HasNoHash (nested_element _) = Unit
HasNoHash _ = ⊥

-- the claim of the roles cannot be iterated, or has a role that is a list or an object
abbrev pub IsMalformed : Option (List Element) → Type 0
IsMalformed none = Unit
IsMalformed (some roles) = (role : Element) × In role roles × HasNoHash role

-- what the loop returns
abbrev Grants : Option (List Element) → Mapped → Type 0
Grants roles (granted authority) = IsAuthority authority
Grants roles no_authority = Unit
Grants roles role_type_error = IsMalformed roles

Grants-cons :
    (role : Element) (roles : List Element) (m : Mapped)
    → Grants (some roles) m
    → Grants (some (role ∷ roles)) m
Grants-cons role roles (granted authority) g = g
Grants-cons role roles no_authority g = tt
Grants-cons role roles role_type_error (r, i, h) = (r, inr i, h)

found_or-Grants :
    (role : Element) (roles : List Element) (mapped : Option String) (m : Mapped)
    → Grants (some roles) m
    → Grants (some (role ∷ roles)) (found_or mapped m)
found_or-Grants role roles none m g = Grants-cons role roles m g
found_or-Grants role roles (some mapped) m g =
    elim (Bool-cases (contains_text mapped authorities)) [
      | inl known ↦ rw (known, found_or) known
      | inr unknown ↦ rw (unknown, found_or) (Grants-cons role roles m g)
    ]

first_authority-Grants :
    (role_map : Dict String String) (roles : List Element)
    → Grants (some roles) (first_authority role_map roles)
unfolding first_authority
first_authority-Grants role_map [] = tt
first_authority-Grants role_map (text_element role ∷ roles) =
    found_or-Grants (text_element role) roles (mapped_role role_map role)
      (first_authority role_map roles) (first_authority-Grants role_map roles)
first_authority-Grants role_map (nested_element t ∷ roles) = (nested_element t, inl refl, tt)
first_authority-Grants role_map (plain_element t ∷ roles) =
    Grants-cons (plain_element t) roles _ (first_authority-Grants role_map roles)

authority_of-Grants :
    (role_map : Dict String String) (roles : Option (List Element))
    → Grants roles (authority_of role_map roles)
authority_of-Grants role_map none = tt
authority_of-Grants role_map (some roles) = first_authority-Grants role_map roles

static-Answers :
    (tokens : Dict String String) (headers : Headers)
    → Answers ⊥ (λ ctx. ctx.subject ≡ none) (static_authenticate tokens headers)
unfolding static_authenticate
static-Answers tokens headers = elim (Option-cases headers.x_assetcore_token) [
  | inl missing ↦ rw missing (inl refl)
  | inr (token, e) ↦ elim (Bool-cases (token == "")) [
    | inl empty ↦ rw (e, empty) (inl refl)
    | inr full ↦ elim (Option-cases (lookup token tokens)) [
      | inl unknown ↦ rw (e, full, unknown) (inl refl)
      | inr (authority, known) ↦ rw (e, full, known) refl
    ]
  ]
]

abbrev header_of : Headers → String
header_of headers = elim headers.authorization [ none ↦ "" | some h ↦ h ]

-- the token is decoded, and its claim of the roles is malformed
abbrev pub HasMalformedRoles : JwtAuth → Headers → Type 0
HasMalformedRoles config headers =
    (claims : Dict String Claim) × (config.decode
        (slice (header_of headers) 7 (len (header_of headers)))
      ≡ some claims)
    × IsMalformed (roles_of (lookup config.roles_claim claims))

context_of-Answers :
    (F : Type 0) (roles : Option (List Element)) (subject : Option String) (m : Mapped)
    → Grants roles m
    → (IsMalformed roles → F)
    → Answers F (λ ctx. IsAuthority ctx.authority × (ctx.subject ≡ subject)) (context_of subject m)
context_of-Answers F roles subject (granted authority) g f = (g, refl)
context_of-Answers F roles subject no_authority g f = inr refl
context_of-Answers F roles subject role_type_error g f = f g

Answers-weaken :
    (F G : Type 0) (P Q : AuthContext → Type 0) (a : Auth)
    → (F → G)
    → ((ctx : AuthContext) → P ctx → Q ctx)
    → Answers F P a
    → Answers G Q a
Answers-weaken F G P Q (refused status) t f h = h
Answers-weaken F G P Q (authenticated ctx) t f h = f ctx h
Answers-weaken F G P Q type_error t f h = t h

jwt-Answers_of :
    (config : JwtAuth) (headers : Headers) (F : Type 0)
    → ((claims : Dict String Claim)
        → config.decode (slice (header_of headers) 7 (len (header_of headers))) ≡ some claims
        → IsMalformed (roles_of (lookup config.roles_claim claims))
        → F)
    → Answers F (λ ctx. IsAuthority ctx.authority) (jwt_authenticate config headers)
unfolding jwt_authenticate authority_from
jwt-Answers_of config headers F f = elim (Bool-cases (starts_with (header_of headers) "Bearer ")) [
  | inr other ↦ rw other (inl refl)
  | inl bearer ↦
      let token = slice (header_of headers) 7 (len (header_of headers)) in
      elim (Option-cases (config.decode token)) [
        | inl invalid ↦ rw (bearer, invalid) (inl refl)
        | inr (claims, valid) ↦
            let roles = roles_of (lookup config.roles_claim claims) in
            let subject = subject_of config.str (lookup config.subject_claim claims) in
            rw (bearer, valid)
              (Answers-weaken _ _ _ _ (context_of subject (authority_of config.role_map roles))
                (λ m. m) (λ ctx p. p.0)
                (context_of-Answers F roles subject (authority_of config.role_map roles)
                  (authority_of-Grants config.role_map roles) (f claims valid)))
      ]
]

-- A bearer token gives one of the four authorities, whatever the role map is, or is refused with 401 or
-- 403, or raises a TypeError; this only if its claim of the roles is null, a boolean or a number, or
-- has a role that is a list or an object.
pub jwt-Answers :
    (config : JwtAuth) (headers : Headers)
    → Answers
        (HasMalformedRoles config headers)
        (λ ctx. IsAuthority ctx.authority)
        (jwt_authenticate config headers)
jwt-Answers config headers =
    jwt-Answers_of config headers (HasMalformedRoles config headers) (λ claims e m. (claims, e, m))

-- the authentication of a request raises a TypeError
abbrev pub IsFaulty : Provider → Headers → Type 0
IsFaulty (static_token_auth tokens) headers = ⊥
IsFaulty (jwt_auth config) headers = HasMalformedRoles config headers

pub get_authority-Answers :
    (provider : Provider) (headers : Headers)
    → Answers (IsFaulty provider headers) (λ ctx. Unit) (get_authority provider headers)
unfolding get_authority
get_authority-Answers (static_token_auth tokens) headers =
    Answers-weaken _ _ _ _ (static_authenticate tokens headers) (λ m. m) (λ ctx p. tt)
      (static-Answers tokens headers)
get_authority-Answers (jwt_auth config) headers =
    Answers-weaken _ _ _ _ (jwt_authenticate config headers) (λ m. m) (λ ctx p. tt)
      (jwt-Answers config headers)

restrict_to : List String → Auth → Auth
unfolding contains_text
restrict_to allowed a = elim a [
  | refused status ↦ refused status
  | type_error ↦ type_error
  | authenticated ctx ↦
      if contains_text ctx.authority allowed then authenticated ctx else refused 403
]

restrict_to-Answers :
    (F : Type 0) (allowed : List String) (a : Auth)
    → Answers F (λ ctx. Unit) a
    → Answers F (λ ctx. Unit) (restrict_to allowed a)
unfolding restrict_to
restrict_to-Answers F allowed (refused status) h = h
restrict_to-Answers F allowed type_error h = h
restrict_to-Answers F allowed (authenticated ctx) h =
    elim (Bool-cases (contains_text ctx.authority allowed)) [
      | inl may ↦ rw may tt
      | inr not_allowed ↦ rw not_allowed (inr refl)
    ]

pub require-Answers :
    (allowed : List String) (provider : Provider) (headers : Headers)
    → Answers (IsFaulty provider headers) (λ ctx. Unit) (require allowed provider headers)
unfolding require restrict_to
require-Answers allowed provider headers =
    restrict_to-Answers _ allowed (get_authority provider headers)
      (get_authority-Answers provider headers)

-- where the authentication does not raise
pub not_faulty :
    (provider : Provider) (headers : Headers) (a : Auth)
    → ¬ IsFaulty provider headers
    → Answers (IsFaulty provider headers) (λ ctx. Unit) a
    → Answers ⊥ (λ ctx. Unit) a
not_faulty provider headers a sound h = Answers-weaken _ _ _ _ a sound (λ ctx p. p) h
