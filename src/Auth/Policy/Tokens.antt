-- ===== src/Auth/Policy/Tokens.antt =====
-- Registration and authentication by static tokens (internal/auth/auth.go).
use yvonne.Base.{
  Str, str_eq, str_eq_iff, str_eq_refl, lookup, lookup-insert, lookup-remove_where, remove_where,
  [], ◌∷◌, none, some, ◌≡◌, ◌≢◌, refl, arith, if◌then◌else◌,
}
use yvonne.Auth.Policy.Defs.{Policy, Authenticator, has_role, register_policy, authenticate}

-- The token map after a registration, and the map of policies.
lookup-tokens :
    (a : Authenticator) (role_id token : Str) (policy : Policy) (t : Str)
    → lookup t (register_policy a role_id token policy).tokens ≡ (
        if str_eq token t
        then some role_id
        else if has_role a.tokens role_id t
        then none
        else lookup t a.tokens)
unfolding register_policy
lookup-tokens a role_id token policy t = ground (
  arith,
  lookup-insert token t role_id (remove_where (has_role a.tokens role_id) a.tokens),
  lookup-remove_where (has_role a.tokens role_id) t a.tokens,
)

lookup-policies :
    (a : Authenticator) (role_id token : Str) (policy : Policy) (r : Str)
    → lookup r (register_policy a role_id token policy).policies ≡ (
        if str_eq role_id r
        then some (record policy { role_id = role_id })
        else lookup r a.policies)
unfolding register_policy
lookup-policies a role_id token policy r =
    lookup-insert role_id r (record policy { role_id = role_id }) a.policies

authenticate-of :
    (a : Authenticator) (token role : Str) (p : Policy)
    → token ≢ []
    → lookup token a.tokens ≡ some role
    → lookup role a.policies ≡ some p
    → authenticate a token ≡ some p
unfolding authenticate
authenticate-of a [] role p ne t q = absurd (ne refl)
authenticate-of a (c ∷ token) role p ne t q = ground arith

authenticate-unknown :
    (a : Authenticator) (token : Str) → lookup token a.tokens ≡ none → authenticate a token ≡ none
unfolding authenticate
authenticate-unknown a [] t = refl
authenticate-unknown a (c ∷ token) t = ground arith

authenticate-same :
    (a b : Authenticator) (token role : Str)
    → lookup token a.tokens ≡ some role
    → lookup token b.tokens ≡ some role
    → lookup role a.policies ≡ lookup role b.policies
    → authenticate a token ≡ authenticate b token
unfolding authenticate
authenticate-same a b [] role t u q = refl
authenticate-same a b (c ∷ token) role t u q = ground arith

module _ (a : Authenticator) (role_id token : Str) (policy : Policy) where
  registered :
      token ≢ []
      → authenticate (register_policy a role_id token policy) token
        ≡ some (record policy { role_id = role_id })
  registered ne =
      authenticate-of (register_policy a role_id token policy) token role_id _ ne
        (rw (lookup-tokens a role_id token policy token, str_eq_refl token) refl)
        (rw (lookup-policies a role_id token policy role_id, str_eq_refl role_id) refl)

  revoked :
      (old : Str)
      → lookup old a.tokens ≡ some role_id
      → old ≢ token
      → authenticate (register_policy a role_id token policy) old ≡ none
  revoked old h ne = authenticate-unknown (register_policy a role_id token policy) old (
      ground (
        arith,
        lookup-tokens a role_id token policy old,
        str_eq_refl role_id,
        str_eq_iff token old,
      ))

  kept :
      (other role : Str)
      → lookup other a.tokens ≡ some role
      → role ≢ role_id
      → other ≢ token
      → authenticate (register_policy a role_id token policy) other ≡ authenticate a other
  kept other role h ne nt =
      authenticate-same (register_policy a role_id token policy) a other role
        (ground (
          arith,
          lookup-tokens a role_id token policy other,
          str_eq_iff token other,
          str_eq_iff role role_id,
        ))
        h (ground (arith, lookup-policies a role_id token policy role, str_eq_iff role_id role))

  -- Registering a role under a token: the token, unless empty, gives the policy, marked with the
  -- role; every other token that the role had is refused from then on; the tokens of other roles,
  -- unless they are the new token, authenticate as before.
  pub register_policy_lem :
      (token ≢ []
        → authenticate (register_policy a role_id token policy) token
          ≡ some (record policy { role_id = role_id }))
      × ((old : Str)
          → lookup old a.tokens ≡ some role_id
          → old ≢ token
          → authenticate (register_policy a role_id token policy) old ≡ none)
      × ((other role : Str)
          → lookup other a.tokens ≡ some role
          → role ≢ role_id
          → other ≢ token
          → authenticate (register_policy a role_id token policy) other ≡ authenticate a other)
  register_policy_lem = (registered, revoked, kept)
