-- ===== src/Remote/Access/Permissions.antt =====
-- Which role may do what (services/remote_api_auth.py).
use control_ok_a_v.Base.{
  ◌≡◌, ◌↔◌, refl, Bool, true, false, not, ◌&&◌, ◌||◌, ◌++◌, ap, ◌∙◌, List, [], ◌∷◌, String,
  if◌then◌else◌, arith, ok, raise_if,
}
use control_ok_a_v.Remote.Access.Model.{
  AccessError, denied_forbidden_role, Library, contains, authorize_remote_api_action,
  authorize_normalized, normalize_role, is_allowed, read_only_actions,
  authenticated_any_role_actions, tech_actions, admin_actions,
}
use text.Mathlib.Text.{◌==◌ as text_eq}
use text.Mathlib.TextEquality.{eq_iff}

-- The three roles, from the least to the greatest, as they are spelled.
pub data Role : Type 0 where
  observador tecnico admin : Role

abbrev pub spelled : Role → String
spelled observador = "observador"
spelled tecnico = "tecnico"
spelled admin = "admin"

-- What each role may do that the one below it may not.
abbrev pub added : Role → List String
added observador =
    "request.invalid"
    ∷ ("health.read"
        ∷ ("runtime.summary.read" ∷ ("nodes.read" ∷ ("node.read" ∷ ("auth.logout" ∷ [])))))
added tecnico = "node.request_stat_now" ∷ []
added admin =
    "node.reboot"
    ∷ ("accounts.read"
        ∷ ("account.create"
            ∷ ("account.update" ∷ ("account.change_password" ∷ ("account.delete" ∷ [])))))

-- What a role may do: what it or a lesser one adds.
abbrev pub may : Role → String → Bool
may observador action = contains action (added observador)
may tecnico action = contains action (added tecnico) || contains action (added observador)
may admin action =
    contains action (added admin)
    || (contains action (added tecnico) || contains action (added observador))

contains-append :
    (s : String) (ts us : List String) → contains s (ts ++ us) ≡ (contains s ts || contains s us)
contains-append s [] us = refl
contains-append s (t ∷ ts) us = ground (arith, contains-append s ts us)

-- The rules of the code and the sum of what roles add, over the tests that they share.
least : (i r a t d : Bool) → (i || (r || a)) ≡ (i || (r || (a || ((t && false) || (d && false)))))
least i r a t d = ground arith

middle :
    (i r a t d : Bool) → (t || (i || (r || a))) ≡ (i || (r || (a || ((t && true) || (d && false)))))
middle i r a t d = ground arith

greatest :
    (i r a t d : Bool)
    → (d || (t || (i || (r || a)))) ≡ (i || (r || (a || ((t && true) || (d && true)))))
greatest i r a t d = ground arith

may_observador :
    (action : String)
    → may observador action ≡ (
        text_eq "request.invalid" action
        || (contains action read_only_actions || contains action authenticated_any_role_actions))
may_observador action =
    ap (λ b. text_eq "request.invalid" action || b)
      (contains-append action read_only_actions authenticated_any_role_actions)

may_lem :
    (role : Role) (action : String)
    → may role action ≡ (text_eq "request.invalid" action || is_allowed (spelled role) action)
may_lem observador action =
    may_observador action
    ∙ least (text_eq "request.invalid" action) (contains action read_only_actions)
        (contains action authenticated_any_role_actions) (contains action tech_actions)
        (contains action admin_actions)
may_lem tecnico action =
    ap (λ b. contains action tech_actions || b) (may_observador action)
    ∙ middle (text_eq "request.invalid" action) (contains action read_only_actions)
        (contains action authenticated_any_role_actions) (contains action tech_actions)
        (contains action admin_actions)
may_lem admin action =
    ap (λ b. contains action admin_actions || (contains action tech_actions || b))
      (may_observador action)
    ∙ greatest (text_eq "request.invalid" action) (contains action read_only_actions)
        (contains action authenticated_any_role_actions) (contains action tech_actions)
        (contains action admin_actions)

text_eq_comm : (s t : String) → text_eq s t ≡ text_eq t s
text_eq_comm s t = ground (arith, eq_iff s t, eq_iff t s)

module _ (library : Library) where
  allowed_iff :
      (x y : Bool) (e : AccessError)
      → ((if x then ok tt else raise_if (not y) e) ≡ ok tt) ↔ ((x || y) ≡ true)
  allowed_iff x y e = ground arith

  authorize_normalized_lem :
      (role : Role) (name action : String)
      → library.strip name ≡ spelled role
      → authorize_normalized library name action
        ≡ raise_if (not (is_allowed (spelled role) action)) (denied_forbidden_role (spelled role))
  unfolding authorize_normalized normalize_role
  authorize_normalized_lem observador name action h = rw h
  authorize_normalized_lem tecnico name action h = rw h
  authorize_normalized_lem admin name action h = rw h

  -- An action is authorized for a role, spelled with or without blanks around it, just if it is one
  -- that the role adds or that a lesser role may do.
  pub authorize_remote_api_action_iff :
      (role : Role) (name action : String)
      → library.strip name ≡ spelled role
      → (authorize_remote_api_action library name action ≡ ok tt) ↔ (may role action ≡ true)
  unfolding authorize_remote_api_action
  authorize_remote_api_action_iff role name action h =
      rw (authorize_normalized_lem role name action h)
        (rw (may_lem role action) (rw (text_eq_comm "request.invalid" action) (allowed_iff _ _ _)))
