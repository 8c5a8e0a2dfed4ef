-- ===== src/Server/Principal.antt =====
-- crates/l5m-server/src/principal.rs: scopes, API keys, and the providers that map the headers of a
-- request to a principal. The headers are a function: the text of a header, if the request has it
-- and it is text. Decoding and checking a token is the JWT library's.
pub mod Entitled
use l5m.Prelude.{
  ℕ, zero, suc, ◌^◌, Bool, true, false, Option, none, some, List, [], ◌∷◌, Bytes, bytes_eq, ltb,
  ◌==◌, if◌then◌else◌, ◌||◌,
}
use l5m.Prelude.Parse.{trim, from_str_radix}
use l5m.Probe.{to_ascii_lowercase}
use l5m.Server.{Result, done, failed}

pub data Scope : Type 0 where
  read write admin : Scope

-- The order of the declaration.
abbrev pub rank : Scope → ℕ
rank read = 0
rank write = 1
rank admin = 2

-- The match on a text in lower case.
unfoldable pub scope_named : Bytes → Option Scope
scope_named s =
    if bytes_eq s (114 ∷ 101 ∷ 97 ∷ 100 ∷ []) || bytes_eq s (114 ∷ 111 ∷ [])
    then some read
    else if bytes_eq s (119 ∷ 114 ∷ 105 ∷ 116 ∷ 101 ∷ []) || bytes_eq s (114 ∷ 119 ∷ [])
    then some write
    else if bytes_eq s (97 ∷ 100 ∷ 109 ∷ 105 ∷ 110 ∷ [])
    then some admin
    else none

-- `Scope::parse`.
unfoldable pub parse_scope : Bytes → Option Scope
unfolding trim to_ascii_lowercase scope_named
parse_scope s = scope_named (to_ascii_lowercase (trim s))

pub record Principal : Type 0 where
  pub tenant_id : ℕ
  pub context_mask : Bytes
  pub policy_mask : Bytes
  pub trust_floor : ℕ
  pub scope : Scope

pub data HeaderName : Type 0 where
  x_l5m_api_key x_l5m_tenant x_l5m_context x_l5m_policy x_l5m_trust authorization : HeaderName

abbrev pub Headers : Type 0
Headers = HeaderName → Option Bytes

pub data AuthError : Type 0 where
  unauthorized : AuthError
  missing invalid : HeaderName → AuthError

pub record ScopedKey : Type 0 where
  pub secret : Bytes
  pub scope : Scope
  pub tenant : Option ℕ

-- The text before the first ':', and after it if there is one.
unfoldable pub split_colon : Bytes → Bytes × Option Bytes
split_colon [] = ([], none)
split_colon (b ∷ bs) =
    let rest = split_colon bs in if b == 58 then ([], some bs) else (b ∷ rest.0, rest.1)

-- A number, if it is below the bound.
unfoldable pub below : ℕ → Option ℕ → Option ℕ
below bound none = none
below bound (some n) = if ltb n bound then some n else none

-- `text.parse::<u64>()` and `text.parse::<u8>()`.
unfoldable pub parse_unsigned : ℕ → Bytes → Option ℕ
unfolding below from_str_radix
parse_unsigned bits text = below (2 ^ bits) (from_str_radix 10 text)

pub data KeyError : Type 0 where
  empty_key bad_scope bad_tenant : KeyError

unfoldable pub parse_key_tenant : Bytes → Scope → Option Bytes → Result KeyError ScopedKey
unfolding parse_unsigned trim
parse_key_tenant secret scope none = done (record { secret = secret; scope = scope; tenant = none })
parse_key_tenant secret scope (some text) = elim (parse_unsigned 64 (trim text)) [
  | some t ↦ done (record { secret = secret; scope = scope; tenant = some t })
  | none ↦ failed bad_tenant
]

unfoldable pub parse_key_scope : Bytes → Option Bytes → Result KeyError ScopedKey
unfolding parse_key_tenant parse_scope split_colon
parse_key_scope secret none = parse_key_tenant secret write none
parse_key_scope secret (some text) = elim (parse_scope (split_colon text).0) [
  | some scope ↦ parse_key_tenant secret scope (split_colon text).1
  | none ↦ failed bad_scope
]

unfoldable pub parse_key_parts : Bytes × Option Bytes → Result KeyError ScopedKey
unfolding parse_key_scope
parse_key_parts ([], rest) = failed empty_key
parse_key_parts (b ∷ bs, rest) = parse_key_scope (b ∷ bs) rest

-- `ScopedKey::parse`.
unfoldable pub parse_key : Bytes → Result KeyError ScopedKey
unfolding parse_key_parts split_colon trim
parse_key entry = parse_key_parts (split_colon (trim entry))

-- "0xffff".
abbrev pub all_ones : Bytes
all_ones = 48 ∷ 120 ∷ 102 ∷ 102 ∷ 102 ∷ 102 ∷ []

abbrev pub or_else_text : Bytes → Option Bytes → Bytes
or_else_text d none = d
or_else_text d (some text) = text

-- `self.keys.iter().find(|k| k.secret == presented)`.
unfoldable pub find_key : Bytes → List ScopedKey → Option ScopedKey
find_key presented [] = none
find_key presented (k ∷ ks) =
    let rest = find_key presented ks in if bytes_eq k.secret presented then some k else rest

-- The key that the request presents: none in the open mode, in which there are no keys.
unfoldable pub match_key : List ScopedKey → Headers → Result AuthError (Option ScopedKey)
unfolding find_key
match_key [] headers = done none
match_key (k ∷ ks) headers = elim (headers x_l5m_api_key) [
  | none ↦ failed unauthorized
  | some presented ↦ elim (find_key presented (k ∷ ks)) [
    | none ↦ failed unauthorized
    | some key ↦ done (some key)
  ]
]

abbrev pub key_scope : Option ScopedKey → Scope
key_scope none = write
key_scope (some key) = key.scope

abbrev pub key_tenant : Option ScopedKey → Option ℕ
key_tenant none = none
key_tenant (some key) = key.tenant

-- The tenant of the key, or else that of the header.
unfoldable pub resolve_tenant : Option ℕ → Headers → Result AuthError ℕ
unfolding parse_unsigned
resolve_tenant (some bound) headers = done bound
resolve_tenant none headers = elim (headers x_l5m_tenant) [
  | none ↦ failed (missing x_l5m_tenant)
  | some text ↦ elim (parse_unsigned 64 text) [
    | none ↦ failed (invalid x_l5m_tenant)
    | some t ↦ done t
  ]
]

unfoldable pub resolve_rest : Option ScopedKey → Headers → ℕ → Result AuthError Principal
unfolding parse_unsigned
resolve_rest matched headers tenant_id =
    elim (parse_unsigned 8 (or_else_text (48 ∷ []) (headers x_l5m_trust))) [
      | none ↦ failed (invalid x_l5m_trust)
      | some trust ↦ done (record {
        tenant_id = tenant_id;
        context_mask = or_else_text all_ones (headers x_l5m_context);
        policy_mask = or_else_text all_ones (headers x_l5m_policy);
        trust_floor = trust;
        scope = key_scope matched;
      })
    ]

abbrev pub bind {ℓ κ μ} :
    {E : Type ℓ} {A : Type κ} {B : Type μ} → Result E A → (A → Result E B) → Result E B
bind (done a) f = f a
bind (failed e) f = failed e

-- `HeaderPrincipalProvider::principal`.
unfoldable pub header_principal : List ScopedKey → Headers → Result AuthError Principal
unfolding match_key resolve_tenant resolve_rest
header_principal keys headers = bind (match_key keys headers) λ matched.
    bind (resolve_tenant (key_tenant matched) headers) λ tenant. resolve_rest matched headers tenant

-- `HeaderPrincipalProvider::from_optional_key`, with `single` and `open`.
unfoldable pub keys_of_optional : Option Bytes → List ScopedKey
keys_of_optional none = []
keys_of_optional (some key) = record { secret = key; scope = write; tenant = none } ∷ []

pub record L5mClaims : Type 0 where
  pub tenant : ℕ
  pub context : Option Bytes
  pub policy : Option Bytes
  pub trust : Option ℕ
  pub scope : Option Bytes

unfoldable pub claimed_scope : Option Bytes → Scope
unfolding parse_scope
claimed_scope none = write
claimed_scope (some text) = elim (parse_scope text) [ none ↦ write | some scope ↦ scope ]

abbrev pub or_zero : Option ℕ → ℕ
or_zero none = 0
or_zero (some n) = n

-- `L5mClaims::into_principal`.
unfoldable pub into_principal : L5mClaims → Principal
unfolding claimed_scope
into_principal claims = record {
  tenant_id = claims.tenant;
  context_mask = or_else_text all_ones claims.context;
  policy_mask = or_else_text all_ones claims.policy;
  trust_floor = or_zero claims.trust;
  scope = claimed_scope claims.scope;
}

-- `strip_prefix("Bearer ")`, or `"bearer "`.
unfoldable pub strip_bearer : Bytes → Option Bytes
strip_bearer (b ∷ c ∷ d ∷ e ∷ f ∷ g ∷ h ∷ rest) =
    if (b == 66 || b == 98)
    then (if bytes_eq (c ∷ d ∷ e ∷ f ∷ g ∷ h ∷ []) (101 ∷ 97 ∷ 114 ∷ 101 ∷ 114 ∷ 32 ∷ [])
        then some rest
        else none)
    else none
strip_bearer _ = none

-- `bearer_token`.
unfoldable pub bearer_token : Headers → Result AuthError Bytes
unfolding strip_bearer
bearer_token headers = elim (headers authorization) [
  | none ↦ failed (missing authorization)
  | some text ↦ elim (strip_bearer text) [
    | none ↦ failed (missing authorization)
    | some token ↦ done token
  ]
]

-- `JwtPrincipalProvider::principal`, where `decode` is that of the JWT library with the key and the
-- checks of the provider.
unfoldable pub jwt_principal : (Bytes → Option L5mClaims) → Headers → Result AuthError Principal
unfolding bearer_token into_principal
jwt_principal decode headers = bind (bearer_token headers) λ token. elim (decode token) [
  | none ↦ failed unauthorized
  | some claims ↦ done (into_principal claims)
]
