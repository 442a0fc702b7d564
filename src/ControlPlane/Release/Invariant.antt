-- ===== src/ControlPlane/Release/Invariant.antt =====
-- internal/controlplane/release.go: what the calls of the ReleaseStore keep.
use minicloud.Base.{
  Option, ap, int_eq, lookup, lookup_unwritten, lookup_written, nat_eq, refl, some, some-inj, subst,
  sym, ◌∙◌, ◌≡◌, ◌≢◌,
}
use minicloud.Text.{Str, str_eq}
use minicloud.Model.{
  Version, VersionState, lifecycle_eq, phase_eq, scaling_mode_eq, version_ready, version_state_eq,
}
use minicloud.ControlPlane.Release.{ReleaseStore}
use minicloud.ControlPlane.Release.Lifecycle.{
  IsFiled, VersionStep, Writes, admit, begin, reject, upload,
}

ready_stays :
    (now : Option VersionState) (next : VersionState)
    → VersionStep now next
    → now ≢ some version_ready
ready_stays now next upload = λ e. cc
ready_stays now next begin = λ e. cc
ready_stays now next admit = λ e. cc
ready_stays now next reject = λ e. cc

module _ {s s' : ReleaseStore} (w : Writes s s') where
  pub version_written : lookup w.written.version_id s'.versions ≡ some w.written
  version_written = rw w.versions (lookup_written w.written.version_id w.written s.versions)

  pub version_unwritten :
      (k : Str) → w.written.version_id ≢ k → lookup k s'.versions ≡ lookup k s.versions
  version_unwritten k differ =
      rw w.versions (lookup_unwritten w.written.version_id k w.written s.versions differ)

  pub Writes-IsFiled : IsFiled s → IsFiled s'
  Writes-IsFiled filed k v found = elim (str_eq.dec w.written.version_id k) [
    | yes e ↦
        ap (λ u. u.version_id)
          (sym
            (some-inj (subst (λ j. lookup j s'.versions ≡ some w.written) e version_written) found))
        ∙ e
    | no differ ↦ filed k v (sym (version_unwritten k differ) ∙ found)
  ]

  -- A Version that is Ready stays as it is, with its Deployment.
  pub ready_kept :
      (k : Str) (v : Version)
      → lookup k s.versions ≡ some v
      → v.state ≡ version_ready
      → (lookup k s'.versions ≡ some v) × (lookup k s'.deployments ≡ lookup k s.deployments)
  ready_kept k v found ready = elim (str_eq.dec w.written.version_id k) [
    | no differ ↦ (version_unwritten k differ ∙ found, w.others k differ)
    | yes e ↦ absurd (ready_stays _ _ w.steps (rw (e, found, ready) refl))
  ]
