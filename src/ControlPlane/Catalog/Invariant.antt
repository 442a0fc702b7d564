-- ===== src/ControlPlane/Catalog/Invariant.antt =====
-- internal/controlplane/catalog.go: what one call of the Catalog writes.
use minicloud.Base.{
  Bool-cases, Option-cases, inl, inr, insert, int_eq, lookup, nat_eq, none, refl, some, ◌!=◌, ◌&&◌,
  ◌==◌, ◌≡◌, ◌⊎◌,
}
use minicloud.Text.{Str, str_eq}
use minicloud.Model.{
  Function, lifecycle_active, lifecycle_disabled, lifecycle_eq, phase_eq, scaling_mode_eq,
  version_state_eq,
}
use minicloud.Model.Validate.{validate_function}
use minicloud.ControlPlane.Catalog.{
  Catalog, CreateFunction, HttpTrigger, RotateToken, SetLifecycle, auth_eq, auth_token,
  validate_create_function, validate_lifecycle_command, validate_rotate, validate_trigger,
}
use minicloud.ControlPlane.Catalog.Methods.{
  add_function, change_lifecycle, create_function, create_guard, is_verifier,
  rotate_invocation_token, rotate_trigger, set_function_lifecycle, update_function, with_lifecycle,
  with_verifier,
}

module _ (c : Catalog) where
  pub create_function-cases :
      (cmd : CreateFunction)
      → ((create_function c cmd).0 ≡ c)
        ⊎ ((validate_create_function cmd ≡ none)
            × (create_guard c cmd ≡ none)
            × ((create_function c cmd).0 ≡ add_function c cmd.function cmd.trigger))
  unfolding create_function
  create_function-cases cmd = elim (Option-cases (validate_create_function cmd)) [
    | inr (_, bad) ↦ inl (rw (bad, create_function) refl)
    | inl good ↦ elim (Option-cases (create_guard c cmd)) [
      | inr (_, taken) ↦ inl (rw (good, taken, create_function) refl)
      | inl free ↦ inr (good, free, rw (good, free, create_function) refl)
    ]
  ]

  change_lifecycle-cases :
      (cmd : SetLifecycle) (f : Function)
      → ((change_lifecycle c cmd f).0 ≡ c)
        ⊎ ((change_lifecycle c cmd f).0 ≡ update_function c (with_lifecycle f cmd))
  unfolding change_lifecycle
  change_lifecycle-cases cmd f =
      elim (Bool-cases (f.metadata.resource_revision != cmd.expected_resource_revision)) [
        | inl stale ↦ inl (rw (stale, change_lifecycle) refl)
        | inr current ↦
            elim (Bool-cases
              (f.lifecycle != lifecycle_active && f.lifecycle != lifecycle_disabled)) [
                | inl fixed ↦ inl (rw (current, fixed, change_lifecycle) refl)
                | inr open_state ↦ elim (Bool-cases (f.lifecycle == cmd.lifecycle)) [
                  | inl unchanged ↦ inl (rw (current, open_state, unchanged, change_lifecycle) refl)
                  | inr changed ↦ elim (Option-cases (validate_function (with_lifecycle f cmd))) [
                    | inr (_, bad) ↦
                        inl (rw (current, open_state, changed, bad, change_lifecycle) refl)
                    | inl good ↦
                        inr (rw (current, open_state, changed, good, change_lifecycle) refl)
                  ]
                ]
              ]
      ]

  pub set_function_lifecycle-cases :
      (cmd : SetLifecycle)
      → ((set_function_lifecycle c cmd).0 ≡ c)
        ⊎ ((f : Function) × (lookup cmd.function_id c.functions_by_id ≡ some f)
            × ((set_function_lifecycle c cmd).0 ≡ update_function c (with_lifecycle f cmd)))
  unfolding set_function_lifecycle
  set_function_lifecycle-cases cmd = elim (Option-cases (validate_lifecycle_command cmd)) [
    | inr (_, bad) ↦ inl (rw (bad, set_function_lifecycle) refl)
    | inl good ↦ elim (Option-cases (lookup cmd.function_id c.functions_by_id)) [
      | inl missing ↦ inl (rw (good, missing, set_function_lifecycle) refl)
      | inr (f, found) ↦ elim (change_lifecycle-cases cmd f) [
        | inl e ↦ inl (rw (good, found, set_function_lifecycle) e)
        | inr e ↦ inr (f, found, rw (good, found, set_function_lifecycle) e)
      ]
    ]
  ]

  -- The Catalog with one Trigger written over.
  abbrev pub with_trigger : Str → HttpTrigger → Catalog
  with_trigger id t = record c { triggers_by_id = insert id t c.triggers_by_id }

  rotate_trigger-cases :
      (cmd : RotateToken) (id : Str) (t : HttpTrigger)
      → ((rotate_trigger c cmd id t).0 ≡ c)
        ⊎ ((rotate_trigger c cmd id t).0 ≡ with_trigger id (with_verifier t cmd))
  unfolding rotate_trigger
  rotate_trigger-cases cmd id t =
      elim (Bool-cases (t.metadata.resource_revision != cmd.expected_resource_revision)) [
        | inl stale ↦ inl (rw (stale, rotate_trigger) refl)
        | inr current ↦ elim (Bool-cases (t.auth_policy != auth_token)) [
          | inl open_access ↦ inl (rw (current, open_access, rotate_trigger) refl)
          | inr token ↦
              elim (Bool-cases (is_verifier t.token_verifier_digest cmd.token_verifier_digest)) [
                | inl unchanged ↦ inl (rw (current, token, unchanged, rotate_trigger) refl)
                | inr changed ↦ elim (Option-cases (validate_trigger (with_verifier t cmd))) [
                  | inr (_, bad) ↦ inl (rw (current, token, changed, bad, rotate_trigger) refl)
                  | inl good ↦ inr (rw (current, token, changed, good, rotate_trigger) refl)
                ]
              ]
        ]
      ]

  pub rotate_invocation_token-cases :
      (cmd : RotateToken)
      → ((rotate_invocation_token c cmd).0 ≡ c)
        ⊎ ((id : Str) × ((t : HttpTrigger) × ((rotate_invocation_token c cmd).0
                ≡ with_trigger id t)))
  unfolding rotate_invocation_token
  rotate_invocation_token-cases cmd = elim (Option-cases (validate_rotate cmd)) [
    | inr (_, bad) ↦ inl (rw (bad, rotate_invocation_token) refl)
    | inl good ↦ elim (Option-cases (lookup cmd.function_id c.trigger_id_by_func)) [
      | inl missing ↦ inl (rw (good, missing, rotate_invocation_token) refl)
      | inr (id, found) ↦ elim (Option-cases (lookup id c.triggers_by_id)) [
        | inl lost ↦ inl (rw (good, found, lost, rotate_invocation_token) refl)
        | inr (t, there) ↦ elim (rotate_trigger-cases cmd id t) [
          | inl e ↦ inl (rw (good, found, there, rotate_invocation_token) e)
          | inr e ↦
              inr (id, (with_verifier t cmd, rw (good, found, there, rotate_invocation_token) e))
        ]
      ]
    ]
  ]
