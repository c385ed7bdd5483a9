-- ===== src/Auth/Roles.antt =====
-- Roles are ordered: a role that may write, approve or administer may read, and an administrator may
-- do everything.
use rebuno.Prelude.{
  Bool, Bool-cases, List, String, [], any, arith, inl, inr, none, refl, some, true, ◌∷◌, ◌≡◌,
}
use rebuno.Action.{err, ok}
use rebuno.Auth.{
  Access, Role, admin, all_agents, allows, approve, authorize, client_allowed, granted_if, grants,
  principal_authorized, read, role_allows, roles_of, write,
}
use rebuno.Context.{Context, Principal}
use rebuno.Domain.Records.{unauthorized}
use rebuno.Prelude.Dict.{Dict}

any-weaken :
    {A : Type 0} (p q : A → Bool) (xs : List A)
    → ((x : A) → p x ≡ true → q x ≡ true)
    → any p xs ≡ true
    → any q xs ≡ true
unfolding any
any-weaken p q [] f h = h
any-weaken p q (x ∷ xs) f h = elim (Bool-cases (p x)) [
  | inl e ↦ ground (arith, f x e)
  | inr e ↦ ground (arith, any-weaken p q xs f)
]

grants-read : (have need : Role) → grants have need ≡ true → grants have read ≡ true
unfolding grants
grants-read read need h = refl
grants-read write need h = refl
grants-read approve need h = refl
grants-read admin need h = refl

grants-admin : (have need : Role) → grants have admin ≡ true → grants have need ≡ true
unfolding grants
grants-admin read need h = cc
grants-admin write need h = cc
grants-admin approve need h = cc
grants-admin admin read h = refl
grants-admin admin write h = refl
grants-admin admin approve h = refl
grants-admin admin admin h = refl

role_allows-weaken :
    (p : Principal) (role role' : Role) (entry : Role × List String)
    → ((have : Role) → grants have role ≡ true → grants have role' ≡ true)
    → role_allows p role entry ≡ true
    → role_allows p role' entry ≡ true
role_allows-weaken p role role' (have, entries) f h = ground (arith, f have)

allows-weaken :
    (a : Dict String (List (Role × List String))) (p : Principal) (role role' : Role)
    (agent_id : String)
    → ((have : Role) → grants have role ≡ true → grants have role' ≡ true)
    → allows a p role agent_id ≡ true
    → allows a p role' agent_id ≡ true
unfolding allows
allows-weaken a p role role' agent_id f h =
    let each = λ (xs : List (Role × List String)).
      any-weaken (role_allows p role) (role_allows p role') xs
        (λ entry. role_allows-weaken p role role' entry f) in
    ground (arith, each (roles_of a all_agents), each (roles_of a agent_id))

client_allowed-weaken :
    (access : Access) (p : Principal) (role role' : Role) (agent_id : String)
    → ((have : Role) → grants have role ≡ true → grants have role' ≡ true)
    → client_allowed access p role agent_id ≡ true
    → client_allowed access p role' agent_id ≡ true
client_allowed-weaken none p role role' agent_id f h = refl
client_allowed-weaken (some a) p role role' agent_id f h = allows-weaken a p role role' agent_id f h

-- What a principal may do with one role, it may do with a role that every grant of the first includes.
authorize-weaken :
    (access : Access) (ctx : Context) (role role' : Role) (agent_id : String)
    → ((have : Role) → grants have role ≡ true → grants have role' ≡ true)
    → authorize access ctx role agent_id ≡ ok tt
    → authorize access ctx role' agent_id ≡ ok tt
unfolding authorize
authorize-weaken access ctx role role' agent_id f h =
    elim ctx.principal
        as (λ o.
          elim o [
            | none ↦ err unauthorized
            | some p ↦ granted_if (principal_authorized access p role agent_id)
          ]
            ≡ ok tt
          → elim o [
            | none ↦ err unauthorized
            | some p ↦ granted_if (principal_authorized access p role' agent_id)
          ]
            ≡ ok tt) [
              | none ↦ λ q. cc
              | some p ↦ λ q. ground (arith, client_allowed-weaken access p role role' agent_id f)
            ]
      h

-- Whoever is let in with some role for an agent is let in to read it, and whoever is let in as its administrator is let in with every role, whatever the access rules and the principal.
pub authorize-ordered :
    (access : Access) (ctx : Context) (role : Role) (agent_id : String)
    → (authorize access ctx role agent_id ≡ ok tt → authorize access ctx read agent_id ≡ ok tt)
      × (authorize access ctx admin agent_id ≡ ok tt → authorize access ctx role agent_id ≡ ok tt)
authorize-ordered access ctx role agent_id = (
  authorize-weaken access ctx role read agent_id (λ have. grants-read have role),
  authorize-weaken access ctx admin role agent_id (λ have. grants-admin have role),
)
