-- ===== src/Metrics/Agents.antt =====
-- What an agent of metrics/agent.go does to a request that reports to it.
use content_service.Prelude.{
  ◌≡◌, ◌≢◌, refl, sym, ap, ◌∙◌, String, false, List, [], map, MapRange, ◌==◌, Bool-cases, inl, inr,
}
use mathlib.Core.List.{Perm}
use mathlib.Core.List.Perm
use content_service.Go.{Result, ok, err, panicked, Exec, pure, ◌>>=◌, on_error, continue_err}
use content_service.Go.Inversion.{>>=-eq-ok, pure-eq-ok}
use content_service.Metrics.{
  Sample, Statsd, Track, UploadEvent, Agent, MetricsConfig, Clients, gauge, send_sample,
  drop_sample, enqueue_upload, drop_upload, build_dd_client, build_segment_agent, dd_client_for,
  make_agent, track_of, content_occurrence,
}

module _ {S : Type 0} where
  pure-done :
      (r : Result (Unit {0})) (u : S)
      → r ≢ panicked
      → (v : S) × (continue_err r (λ x. pure tt) u ≡ (ok tt, v))
  pure-done (ok x) u calm = (u, refl)
  pure-done (err x) u calm = (u, refl)
  pure-done panicked u calm = absurd (calm refl)

  -- An error that is only logged is none for the caller.
  logged-done :
      (m : Exec S Unit) (s : S)
      → (m s).0 ≢ panicked
      → (v : S) × (on_error m (λ x. pure tt) s ≡ (ok tt, v))
  unfolding on_error
  logged-done m s calm = pure-done (m s).0 (m s).1 calm

  -- Every report to the agent comes to its end, without an error and without a panic.
  pub record NeverFails (agent : Agent S) : Type 0 where
    pub sample : (x : Sample) (s : S) → (t : S) × (agent.record_sample x s ≡ (ok tt, t))
    pub upload : (u : UploadEvent) (s : S) → (t : S) × (agent.record_upload u s ≡ (ok tt, t))

-- The clients of Datadog and Segment report what goes wrong as errors, and never panic.
pub record NeverPanics {S F : Type 0} (clients : Clients S F) : Type 0 where
  pub gauges :
      (app name : String) (value rate : F) (tags : List String) (s t u : S) (client : Statsd S F)
      → clients.statsd_new app u ≡ (ok client, t)
      → (client.send_gauge name value tags rate s).0 ≢ panicked
  pub tracks :
      (key : String) (track : Track) (s : S)
      → ((clients.analytics_new key).enqueue track s).0 ≢ panicked

module _ {S F : Type 0} (order : MapRange) (clients : Clients S F) where
  -- An agent that is disabled and has no key is made without an error, and whatever is reported to
  -- it changes nothing.
  pub make_agent-disabled :
      (conf : MetricsConfig) (s : S)
      → conf.enabled ≡ false
      → conf.analytics_key ≡ ""
      → (agent : Agent S) × (make_agent order clients conf s ≡ (ok agent, s))
        × ((sample : Sample) (t : S) → agent.record_sample sample t ≡ (ok tt, t))
        × ((e : UploadEvent) (t : S) → agent.record_upload e t ≡ (ok tt, t))
  unfolding make_agent dd_client_for drop_sample drop_upload build_segment_agent ◌>>=◌
  make_agent-disabled conf s disabled keyless = (
    record { record_sample = drop_sample; record_upload = drop_upload },
    rw (disabled, keyless) refl,
    λ sample t. refl,
    λ e t. refl,
  )

  sample_client :
      (calm : NeverPanics clients) (conf : MetricsConfig) (s t : S) (dd : Sample → Exec S Unit)
      → dd_client_for clients conf s ≡ (ok dd, t)
      → (x : Sample) (u : S) → (v : S) × (dd x u ≡ (ok tt, v))
  unfolding dd_client_for build_dd_client send_sample gauge drop_sample
  sample_client calm conf s t dd h x u = elim (Bool-cases conf.enabled) [
    | inl on ↦
        let (client, v, new, k) =
          >>=-eq-ok (clients.statsd_new conf.app_name) (λ client. pure (send_sample client [])) s
            (rw on at h) in
        let same = (pure-eq-ok (send_sample client []) dd v t k).0 in
        let (w, done) = logged-done _ u (calm.gauges conf.app_name _ _ _ _ u v s client new) in
        (w, ap (λ (f : Sample → Exec S Unit). f x u) (sym same) ∙ done)
    | inr off ↦
        let same = (pure-eq-ok drop_sample dd s t (rw off at h)).0 in
        (u, ap (λ (f : Sample → Exec S Unit). f x u) (sym same))
  ]

  upload_client :
      (calm : NeverPanics clients) (key : String) (x : UploadEvent) (u : S)
      → (v : S) × (build_segment_agent order clients key x u ≡ (ok tt, v))
  unfolding build_segment_agent enqueue_upload drop_upload
  upload_client calm key x u = elim (Bool-cases (key == "")) [
    | inl empty ↦ (u, rw empty refl)
    | inr full ↦
        let (v, done) =
          logged-done ((clients.analytics_new key).enqueue (track_of order x)) u
            (calm.tracks key (track_of order x) u) in
        (v, rw full done)
  ]

  -- If the clients of Datadog and Segment report what goes wrong as errors and never panic, then,
  -- whatever the configuration, every report to an agent that Make returned ends without an error and
  -- without a panic, so that none makes a request fail.
  pub make_agent-NeverFails :
      (calm : NeverPanics clients) (conf : MetricsConfig) (s t : S) (agent : Agent S)
      → make_agent order clients conf s ≡ (ok agent, t)
      → NeverFails agent
  unfolding make_agent
  make_agent-NeverFails calm conf s t agent h =
      let (dd, u, made, k) = >>=-eq-ok (dd_client_for clients conf) _ s h in
      let same = (pure-eq-ok _ agent u t k).0 in
      rw (← same) (record {
        sample = λ x v. sample_client calm conf s u dd made x v;
        upload = λ x v. upload_client calm conf.analytics_key x v;
      })

-- The event of an upload has each file of the upload once, in the order in which the loop met them.
pub track_of-files :
    (order : MapRange) (e : UploadEvent)
    → Perm (track_of order e).files (map content_occurrence e.files)
unfolding track_of
track_of-files order e = Perm.map content_occurrence (order.range_perm (List String) e.files)
