-- ===== src/Auth/Policy/Defs.antt =====
-- internal/auth/auth.go and multi_authenticator.go. Folding of case is that of ASCII.
use yvonne.Base.{
  ℕ, ◌+◌, Str, codes, str_eq, has_prefix, Assoc, lookup, insert, remove_where, List, [], ◌∷◌, ◌++◌,
  map, Bool, true, false, ◌&&◌, Option, none, some, leb, ltb, ◌==◌, length, drop, if◌then◌else◌,
  ◌⊎◌, inl, inr,
}

pub record Policy : Type 0 where
  pub role_id : Str
  pub allowed_keys : List Str
  pub allowed_actions : List Str
  pub require_mfa : Bool
  pub require_quorum : ℕ
  pub approver_roles : List Str
  pub tenant_id : Str

-- The text without its last character, where that is `*`: strings.HasSuffix and TrimSuffix.
unfoldable pub trim_star : Str → Option Str
trim_star [] = none
trim_star (c ∷ []) = if c == b'*' then some [] else none
trim_star (c ∷ d ∷ s) = elim (trim_star (d ∷ s)) [ none ↦ none | some p ↦ some (c ∷ p) ]

-- matchPattern
unfoldable pub match_pattern : Str → Str → Bool
match_pattern pattern' key_id =
    if str_eq pattern' (codes "*") then true else elim (trim_star pattern') [
      | some prefix ↦ has_prefix key_id prefix
      | none ↦ str_eq pattern' key_id
    ]

any_match : List Str → Str → Bool
any_match [] key_id = false
any_match (p ∷ patterns) key_id = if match_pattern p key_id then true else any_match patterns key_id

-- IsKeyAllowed
unfoldable pub is_key_allowed : Policy → Str → Bool
unfolding any_match
is_key_allowed p key_id = any_match p.allowed_keys key_id

abbrev lower : ℕ → ℕ
lower c = if leb b'A' c && leb c b'Z' then c + 32 else c

-- strings.EqualFold on ASCII texts.
unfoldable pub equal_fold : Str → Str → Bool
equal_fold s t = str_eq (map lower s) (map lower t)

any_action : List Str → Str → Bool
any_action [] action = false
any_action (a ∷ allowed) action =
    if str_eq a (codes "*")
    then true
    else if equal_fold a action
    then true
    else any_action allowed action

-- IsActionAllowed
unfoldable pub is_action_allowed : Policy → Str → Bool
unfolding any_action
is_action_allowed p action = any_action p.allowed_actions action

-- AppRoleAuthenticator: `tokens` gives the role of a token, `policies` the policy of a role.
pub record Authenticator : Type 0 where
  pub tokens : Assoc Str
  pub policies : Assoc Policy

-- NewAppRoleAuthenticator
unfoldable pub new_authenticator : Authenticator
new_authenticator = record { tokens = []; policies = [] }

-- Whether the map gives that role to the token.
abbrev pub has_role : Assoc Str → Str → Str → Bool
has_role tokens role_id token = elim (lookup token tokens) [
  | none ↦ false
  | some role ↦ str_eq role role_id
]

-- RegisterPolicy
unfoldable pub register_policy : Authenticator → Str → Str → Policy → Authenticator
register_policy a role_id token policy = record {
  tokens = insert token role_id (remove_where (has_role a.tokens role_id) a.tokens);
  policies = insert role_id (record policy { role_id = role_id }) a.policies;
}

-- Authenticate; `none` is ErrUnauthorized. The loop over the map finds the one equal token.
unfoldable pub authenticate : Authenticator → Str → Option Policy
authenticate a [] = none
authenticate a (c ∷ token) = elim (lookup (c ∷ token) a.tokens) [
  | none ↦ none
  | some role ↦ lookup role a.policies
]

-- LookupPolicy
unfoldable pub lookup_policy : Authenticator → Str → Option Policy
lookup_policy a role_id = lookup role_id a.policies

-- MultiAuthenticator.Authenticate: the first success, else the last error. An authenticator is a
-- function, a nil one `none`; `unauthorized` is the error of an empty chain.
unfoldable pub authenticate_any : {E P : Type 0} → List (Option (Str → P ⊎ E)) → E → Str → P ⊎ E
authenticate_any [] last_err token = inr last_err
authenticate_any (none ∷ as') last_err token = authenticate_any as' last_err token
authenticate_any (some a ∷ as') last_err token = elim (a token) [
  | inl policy ↦ inl policy
  | inr e ↦ authenticate_any as' e token
]

-- ScopedKeyID
unfoldable pub scoped_key_id : Str → Str → Str
scoped_key_id [] key_id = key_id
scoped_key_id (c ∷ tenant) key_id = (c ∷ tenant) ++ (b':' ∷ key_id)

-- UnscopedKeyID
unfoldable pub unscoped_key_id : Str → Str → Str
unscoped_key_id [] scoped = scoped
unscoped_key_id (c ∷ tenant) scoped =
    let prefix = (c ∷ tenant) ++ b':' ∷ [] in
    if ltb (length prefix) (length scoped) && has_prefix scoped prefix
    then drop (length prefix) scoped
    else scoped
