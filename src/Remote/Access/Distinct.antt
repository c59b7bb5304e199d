-- ===== src/Remote/Access/Distinct.antt =====
-- The tokens of the bindings that a configuration gives (services/remote_api_auth.py).
use control_ok_a_v.Base.{
  ◌≡◌, refl, Bool, true, false, ◌||◌, List, [], ◌∷◌, String, arith, Result, ok, >>=-eq-ok,
  raise_if-eq-ok, Bool-cases, inl, inr,
}
use control_ok_a_v.Base.Dict.{Dict}
use control_ok_a_v.Remote.Access.Model.{
  AccessError, config_error, RemoteApiTokenInventoryEntry, RemoteApiConfig, RemoteApiTokenBinding,
  Library, contains, resolve_expected_bearer_token, inventory_bindings, legacy_binding,
  resolve_remote_api_token_bindings, build_actor_id_for_token,
}
use text.Mathlib.Text.{◌==◌ as text_eq}
use text.Mathlib.TextEquality.{eq_iff}

-- No token is that of two bindings.
abbrev pub has_token : String → List RemoteApiTokenBinding → Bool
has_token token [] = false
has_token token (b ∷ bs) = text_eq b.token_value token || has_token token bs

abbrev pub AreDistinct : List RemoteApiTokenBinding → Type 0
AreDistinct [] = Unit
AreDistinct (b ∷ bs) = (has_token b.token_value bs ≡ false) × AreDistinct bs

module _ (library : Library) where
  -- None of the tokens seen is a token of the bindings.
  abbrev AvoidsAll : List String → List RemoteApiTokenBinding → Type 0
  AvoidsAll seen bs = (token : String) → contains token seen ≡ true → has_token token bs ≡ false

  contains_self : (s : String) (ts : List String) → contains s (s ∷ ts) ≡ true
  contains_self s ts = ground (arith, eq_iff s s)

  contains_more :
      (t s : String) (ts : List String) → contains s ts ≡ true → contains s (t ∷ ts) ≡ true
  contains_more t s ts h = ground arith

  -- A token that was seen is not a new one.
  avoids_lem :
      (token other : String) (seen : List String) (rest : List RemoteApiTokenBinding)
      → contains token seen ≡ false
      → contains other seen ≡ true
      → has_token other rest ≡ false
      → (text_eq token other || has_token other rest) ≡ false
  avoids_lem token other seen rest new old h = ground (arith, eq_iff token other)

  inventory_bindings-AreDistinct :
      (entries : List RemoteApiTokenInventoryEntry) (environ : Dict String String)
      (seen : List String) {bs : List RemoteApiTokenBinding}
      → inventory_bindings library entries environ seen ≡ ok bs
      → AvoidsAll seen bs × AreDistinct bs
  unfolding inventory_bindings
  inventory_bindings-AreDistinct [] environ seen {bs} h =
      let e : [] ≡ bs = cc h in rw (← e) ((λ token k. refl), tt)
  inventory_bindings-AreDistinct (entry ∷ entries) environ seen {bs} h =
      let (token, found, h1) =
        >>=-eq-ok (resolve_expected_bearer_token library entry.env_var environ) _ h in
      let (new, h2) = raise_if-eq-ok (contains token seen) config_error _ h1 in
      let (rest, others, h3) =
        >>=-eq-ok (inventory_bindings library entries environ (token ∷ seen)) _ h2 in
      let (avoids, distinct) =
        inventory_bindings-AreDistinct entries environ (token ∷ seen) others in
      let same : record {
        env_var = entry.env_var;
        role = entry.role;
        token_label = entry.label;
        token_value = token;
        actor_id = build_actor_id_for_token library token;
        granted_authorization_result = "granted";
      }
            ∷ rest
          ≡ bs =
        cc h3 in
      rw (← same) (
        (λ other seen_other.
            avoids_lem token other seen rest new seen_other
              (avoids other (contains_more token other seen seen_other))),
        (avoids token (contains_self token seen), distinct),
      )

  single :
      (b : RemoteApiTokenBinding) {bs : List RemoteApiTokenBinding}
      → ◌≡◌ {A = Result AccessError (List RemoteApiTokenBinding)} (ok (b ∷ [])) (ok bs)
      → AreDistinct bs
  single b {bs} h = let same : b ∷ [] ≡ bs = cc h in rw (← same) (refl, tt)

  legacy :
      (config : RemoteApiConfig) (environ : Dict String String) {bs : List RemoteApiTokenBinding}
      → legacy_binding library config environ ≡ ok bs
      → AreDistinct bs
  unfolding legacy_binding
  legacy config environ {bs} h =
      let (token, found, h1) =
        >>=-eq-ok (resolve_expected_bearer_token library config.token_env_var environ) _ h in
      single _ h1

  pub bindings-AreDistinct :
      (config : RemoteApiConfig) (environ : Dict String String) {bs : List RemoteApiTokenBinding}
      → resolve_remote_api_token_bindings library config environ ≡ ok bs
      → AreDistinct bs
  unfolding resolve_remote_api_token_bindings
  bindings-AreDistinct config environ {bs} h =
      elim (Bool-cases (text_eq config.auth_mode "human_session_only")) [
        | inl human ↦ let e : [] ≡ bs = ground arith in rw (← e) tt
        | inr other ↦ elim (Bool-cases (text_eq config.auth_mode "bearer_token")) [
          | inl bearer ↦ legacy config environ (ground arith)
          | inr inventory ↦
              (inventory_bindings-AreDistinct config.tokens environ [] (ground arith)).1
        ]
      ]
