-- ===== src/Remote/Access/Bearers.antt =====
-- Who a bearer of a token is (services/remote_api_auth.py).
use control_ok_a_v.Base.{
  ◌≡◌, refl, Bool, true, false, Option, some, List, [], ◌∷◌, String, arith, Result, ok, err, All,
  ◌&&◌, ◌⊎◌, none, if◌then◌else◌, Bool-cases, inl, inr,
}
use control_ok_a_v.Base.Dict.{Dict}
use control_ok_a_v.Remote.Access.Model.{
  AccessError, type_error, RemoteApiConfig, RemoteApiTokenBinding, RemoteApiAuthContext, Library,
  resolve_remote_api_token_bindings, context_of, find_binding, authenticate_bearer_request,
  build_actor_id_for_token, parse_authorization_header, denied_invalid_token,
}
use mathlib.Core.List.{Memᴰ}
use text.Mathlib.Text.{◌==◌ as text_eq}
use text.Mathlib.TextEquality.{eq_iff}
use control_ok_a_v.Remote.Access.Distinct.{has_token, AreDistinct, bindings-AreDistinct}

module _ (library : Library) where
  -- `hmac.compare_digest` compares texts of ASCII, and raises a `TypeError` on any other.
  module _ (is_ascii : String → Bool)
      (compares : (a b : String)
        → library.compare_digest a b
          ≡ (if is_ascii a && is_ascii b then some (text_eq a b) else none)) where
    -- The token can be compared with that of every binding.
    abbrev pub comparable : String → List RemoteApiTokenBinding → Bool
    comparable token [] = true
    comparable token (b ∷ bs) = (is_ascii token && is_ascii b.token_value) && comparable token bs

    find_binding_absent :
        (token : String) (bs : List RemoteApiTokenBinding)
        → comparable token bs ≡ true
        → has_token token bs ≡ false
        → find_binding library token bs
          ≡ err (denied_invalid_token (build_actor_id_for_token library token))
    unfolding find_binding
    find_binding_absent token [] ascii h = refl
    find_binding_absent token (b ∷ bs) ascii h = ground (
      arith,
      compares token b.token_value,
      eq_iff token b.token_value,
      eq_iff b.token_value token,
      find_binding_absent token bs,
    )

    -- What holds of the other bindings holds with one more before them that has another token.
    find_later :
        (token : String) (b : RemoteApiTokenBinding) (bs cs : List RemoteApiTokenBinding)
        → (is_ascii token && is_ascii b.token_value) ≡ true
        → has_token b.token_value cs ≡ false
        → All (λ c. token ≡ c.token_value → find_binding library token bs ≡ ok (context_of c)) cs
        → All
            (λ c. token ≡ c.token_value → find_binding library token (b ∷ bs) ≡ ok (context_of c))
            cs
    unfolding find_binding
    find_later token b bs [] ascii h k = tt
    find_later token b bs (c ∷ cs) ascii h k = (
      (λ e. ground (
        arith,
        compares token b.token_value,
        eq_iff token b.token_value,
        eq_iff c.token_value b.token_value,
        k.0 e,
      )),
      find_later token b bs cs ascii (ground arith) k.1,
    )

    find_binding_own :
        (token : String) (bs : List RemoteApiTokenBinding)
        → comparable token bs ≡ true
        → AreDistinct bs
        → All (λ b. token ≡ b.token_value → find_binding library token bs ≡ ok (context_of b)) bs
    unfolding find_binding
    find_binding_own token [] ascii h = tt
    find_binding_own token (b ∷ bs) ascii h = (
      (λ e. ground (arith, compares token b.token_value, eq_iff token b.token_value)),
      find_later token b bs bs (ground arith) h.0 (find_binding_own token bs (ground arith) h.1),
    )

    -- Found under a binding of that token.
    abbrev pub IsUnder :
        String → List RemoteApiTokenBinding → Result AccessError RemoteApiAuthContext → Type 0
    IsUnder token bs result =
        (b : RemoteApiTokenBinding) × Memᴰ b bs
        × (token ≡ b.token_value)
        × (result ≡ ok (context_of b))

    IsUnder-cons :
        (token : String) (b : RemoteApiTokenBinding) (bs : List RemoteApiTokenBinding)
        {r : Result AccessError RemoteApiAuthContext}
        → IsUnder token bs r
        → IsUnder token (b ∷ bs) r
    IsUnder-cons token b bs (c, m, is, e) = (c, Memᴰ.tail m, is, e)

    -- Where a comparison raises, the bearer is found before it, or the call raises.
    find_binding_raises :
        (token : String) (bs : List RemoteApiTokenBinding)
        → comparable token bs ≡ false
        → (find_binding library token bs ≡ err type_error)
          ⊎ IsUnder token bs (find_binding library token bs)
    unfolding find_binding
    find_binding_raises token [] h = absurd (ground arith)
    find_binding_raises token (b ∷ bs) h =
        elim (Bool-cases (is_ascii token && is_ascii b.token_value)) [
          | inl both ↦ elim (Bool-cases (text_eq token b.token_value)) [
            | inl same ↦ inr (
              b,
              Memᴰ.head refl,
              (eq_iff token b.token_value).0 same,
              rw (compares token b.token_value, both, same) refl,
            )
            | inr other ↦
                rw (compares token b.token_value, both, other)
                  (elim (find_binding_raises token bs (ground arith)) [
                    | inl raised ↦ inl raised
                    | inr found ↦ inr (IsUnder-cons token b bs found)
                  ])
          ]
          | inr neither ↦ inl (rw (compares token b.token_value, neither) refl)
        ]

    -- What the answer to a bearer of a token is.
    abbrev pub IsToldApart :
        String → List RemoteApiTokenBinding → Result AccessError RemoteApiAuthContext → Type 0
    IsToldApart token bs result =
        ((comparable token bs ≡ true)
          × All (λ b. token ≡ b.token_value → result ≡ ok (context_of b)) bs
          × (has_token token bs ≡ false
              → result ≡ err (denied_invalid_token (build_actor_id_for_token library token))))
        ⊎ ((comparable token bs ≡ false) × ((result ≡ err type_error) ⊎ IsUnder token bs result))

    -- With the bindings that a configuration gives: where the token of a bearer and all the bindings'
    -- are ASCII, or there are no bindings, a bearer of a token that stands under one of them is known
    -- under that one, and the bearer of any other token is refused. Else the bearer is known under a
    -- binding of the token, or the call raises a `TypeError`.
    pub authenticate_bearer_request-IsToldApart :
        (config : RemoteApiConfig) (environ : Dict String String) (bs : List RemoteApiTokenBinding)
        (header : Option String) (scheme token : String)
        → resolve_remote_api_token_bindings library config environ ≡ ok bs
        → parse_authorization_header library header ≡ some (scheme, token)
        → library.lower scheme ≡ "bearer"
        → IsToldApart token bs (authenticate_bearer_request library header bs)
    unfolding authenticate_bearer_request
    authenticate_bearer_request-IsToldApart config environ bs header scheme token resolved parsed
          bearer =
        rw parsed (
          rw bearer (elim (Bool-cases (comparable token bs)) [
            | inl ascii ↦ inl (
              ascii,
              find_binding_own token bs ascii
                  (bindings-AreDistinct library config environ resolved),
              find_binding_absent token bs ascii,
            )
            | inr raises ↦ inr (raises, find_binding_raises token bs raises)
          ]))
