-- ===== src/ControlPlane/State/Versions.antt =====
-- internal/controlplane: the life of a Version across all calls of the Controller.
use minicloud.ControlPlane.Release.Completion.{complete_validation-Writes}
use minicloud.Base.{
  List, Option, [], ap, inl, inr, int_eq, lookup, map_option, nat_eq, refl, some, subst, sym, ◌∙◌,
  ◌∷◌, ◌≡◌, ◌⊎◌,
}
use minicloud.Text.{Str, str_eq}
use minicloud.Model.{
  Deployment, Version, VersionState, lifecycle_eq, phase_eq, scaling_mode_eq, version_ready,
  version_state_eq,
}
use minicloud.Model.Policy.{PolicyEncoding}
use minicloud.ControlPlane.Release.{ReleaseStore}
use minicloud.ControlPlane.Release.Lifecycle.{
  IsFiled, VersionStep, Writes, create_version-Writes, start_validation-Writes, state_in,
}
use minicloud.ControlPlane.Release.Invariant.{ready_kept, version_unwritten, version_written}
use minicloud.ControlPlane.State.{
  ControlCall, ControlState, call_store, cancels_assignment, completes_validation, creates_function,
  creates_version, installs_assignment, new_control_state, publishes_route, rotates_token,
  run_calls, sets_lifecycle, starts_validation,
}
use minicloud.ControlPlane.State.History.{
  ControlInv, call_store-ControlInv, new_state-ControlInv, run_calls-ControlInv,
}

-- The state of a Version, in a store, as one step or none leaves it.
abbrev pub Evolves : Option VersionState → Option VersionState → Type 0
Evolves o o' = (o' ≡ o) ⊎ ((next : VersionState) × (o' ≡ some next) × VersionStep o next)

Writes-Evolves :
    {s s' : ReleaseStore} → Writes s s' → (k : Str) → Evolves (state_in s k) (state_in s' k)
Writes-Evolves {s} {s'} w k = elim (str_eq.dec w.written.version_id k) [
  | yes e ↦ inr (
    w.written.state,
    rw (sym e, version_written w) refl,
    subst (λ j. VersionStep (state_in s j) w.written.state) e w.steps,
  )
  | no differ ↦ inl (ap (map_option (λ v. v.state)) (version_unwritten w k differ))
]

-- The Version under the ID is this one, and Ready, with this Deployment.
abbrev pub IsReadyAs : ReleaseStore → Str → Version → Option Deployment → Type 0
IsReadyAs s k v d =
    (lookup k s.versions ≡ some v) × (v.state ≡ version_ready) × (lookup k s.deployments ≡ d)

module _ (enc : PolicyEncoding) where
  pub call_store-Writes :
      (s : ControlState) (call : ControlCall)
      → IsFiled s.releases
      → ((call_store enc s call).releases ≡ s.releases)
        ⊎ Writes s.releases (call_store enc s call).releases
  unfolding call_store
  call_store-Writes s (creates_function c) h = inl refl
  call_store-Writes s (sets_lifecycle c) h = inl refl
  call_store-Writes s (rotates_token c) h = inl refl
  call_store-Writes s (creates_version parent c) h = create_version-Writes s.releases parent c
  call_store-Writes s (starts_validation c) h = start_validation-Writes s.releases c h
  call_store-Writes s (completes_validation c) h = complete_validation-Writes s.releases enc c h
  call_store-Writes s (publishes_route c) h = inl refl
  call_store-Writes s (installs_assignment c) h = inl refl
  call_store-Writes s (cancels_assignment c) h = inl refl

  pub history-ControlInv :
      (calls : List ControlCall) → ControlInv (run_calls enc new_control_state calls)
  history-ControlInv calls =
      run_calls-ControlInv enc new_control_state calls (new_state-ControlInv enc)

  -- After any history, one more call takes each Version through at most one step: an absent one is
  -- uploaded, an uploaded one begins validation, a validating one becomes Ready or fails.
  pub call_store-Evolves :
      (calls : List ControlCall) (call : ControlCall) (k : Str)
      → (let s = run_calls enc new_control_state calls in
          Evolves (state_in s.releases k) (state_in (call_store enc s call).releases k))
  call_store-Evolves calls call k =
      let s = run_calls enc new_control_state calls in
      elim (call_store-Writes s call (history-ControlInv calls).1) [
        | inl e ↦ inl (ap (λ q. state_in q k) e)
        | inr w ↦ Writes-Evolves w k
      ]

  ready_after :
      (s : ControlState) (calls : List ControlCall) (k : Str) (v : Version) (d : Option Deployment)
      → ControlInv s
      → IsReadyAs s.releases k v d
      → IsReadyAs (run_calls enc s calls).releases k v d
  unfolding run_calls
  ready_after s [] k v d i h = h
  ready_after s (call ∷ calls) k v d i (found, ready, deployed) =
      ready_after (call_store enc s call) calls k v d (call_store-ControlInv enc s call i)
        (elim (call_store-Writes s call i.1) [
          | inl e ↦ subst (λ q. IsReadyAs q k v d) (sym e) (found, ready, deployed)
          | inr w ↦
              let (kept, same_deployment) = ready_kept w k v found ready in
              (kept, ready, same_deployment ∙ deployed)
        ])

  -- A Version that is Ready after some history stays as it is, with its Deployment, whatever is called
  -- later.
  pub ready_forever :
      (calls later : List ControlCall) (k : Str) (v : Version) (d : Option Deployment)
      → IsReadyAs (run_calls enc new_control_state calls).releases k v d
      → IsReadyAs (run_calls enc (run_calls enc new_control_state calls) later).releases k v d
  ready_forever calls later k v d h =
      ready_after (run_calls enc new_control_state calls) later k v d (history-ControlInv calls) h
