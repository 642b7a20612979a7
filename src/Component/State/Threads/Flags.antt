-- ===== src/Component/State/Threads/Flags.antt =====
-- What the calls of the transport and of the engine leave of the flags of the threads.
use foobar_universal_multiro.AirPlay.Transport.{AirPlayTransport}
use foobar_universal_multiro.Base.Throws.{lift}
use foobar_universal_multiro.Device.{PlaybackMetadata, OutputDevice}
use foobar_universal_multiro.Base.Int.{ℤ}
use foobar_universal_multiro.Core.Engine.{MultiroomEngine}
use foobar_universal_multiro.Base.Outcome.{
  M, ErrorKind, ◌>>=◌, ◌>>◌, when, for_each, throw_if, then_keeps, for_each_keeps, modify, pure,
  Outcome, Exception, raise, get, ok, throw,
}
use foobar_universal_multiro.Component.State.Shared.{
  Surroundings, ComponentState, engine_call, ensure_discovery_started, scan, EngineState,
  on_transport, apply_stored, set_volumes, send_metadata, effective_remote_volume, caught, recover,
}
use foobar_universal_multiro.AirPlay.Transport as Air
use foobar_universal_multiro.Base.{
  Text, Bool, List, Option, false, none, not, refl, some, true, ℕ, ◌∙◌, ◌≡◌, is_empty, ◌||◌,
}

-- The members by which the threads agree.
pub record Flags : Type 0 where
  pub refresh_in_progress : Bool
  pub refresh_requested : Bool
  pub refresh_deferred_until_stop : Bool
  pub shutting_down : Bool
  pub control_in_progress : Bool
  pub control_full_update_requested : Bool
  pub control_volume_update_ids : List Text
  pub control_metadata_update_requested : Bool
  pub playback_connecting : Bool
  pub playback_open : Bool

abbrev pub flags : {S : Type 0} → ComponentState S → Flags
flags c = record {
  refresh_in_progress = c.refresh_in_progress;
  refresh_requested = c.refresh_requested;
  refresh_deferred_until_stop = c.refresh_deferred_until_stop;
  shutting_down = c.shutting_down;
  control_in_progress = c.control_in_progress;
  control_full_update_requested = c.control_full_update_requested;
  control_volume_update_ids = c.control_volume_update_ids;
  control_metadata_update_requested = c.control_metadata_update_requested;
  playback_connecting = c.playback_connecting;
  playback_open = c.playback_open;
}

-- What holds of the state, and after the handler from any such state, holds behind the handler.
pub caught_keeps :
    {S A : Type 0} (P : S → Type 0) (handler : Exception → M S A) (r : Outcome A × S)
    → P r.1
    → ((e : Exception) (s : S) → P s → P (handler e s).1)
    → P (caught handler r).1
caught_keeps P handler (ok a, s) h k = h
caught_keeps P handler (throw e, s) h k = k e s h

abbrev pub has_work : Flags → Bool
has_work f =
    f.control_full_update_requested
    || not (is_empty f.control_volume_update_ids)
    || f.control_metadata_update_requested

module _ {S : Type 0} where
  -- The computation leaves the flags, also when it throws.
  pub record Keeps {A : Type 0} (m : M (ComponentState S) A) : Type 0 where
    pub keeps : (c : ComponentState S) → flags (m c).1 ≡ flags c

  pub bind-Keeps :
      {A B : Type 0} {m : M (ComponentState S) A} {f : A → M (ComponentState S) B}
      → Keeps m
      → ((a : A) → Keeps (f a))
      → Keeps (m >>= f)
  bind-Keeps {f} h k = record {
    keeps = λ c. then_keeps (λ s. flags s ≡ flags c) f _ (h.keeps c) (λ a s e. (k a).keeps s ∙ e);
  }

  pub seq-Keeps :
      {A B : Type 0} {m : M (ComponentState S) A} {f : M (ComponentState S) B}
      → Keeps m
      → Keeps f
      → Keeps (m >> f)
  seq-Keeps {f} h k = record {
    keeps =
        λ c. then_keeps (λ s. flags s ≡ flags c) (λ _. f) _ (h.keeps c) (λ a s e. k.keeps s ∙ e);
  }

  pub when-Keeps : (b : Bool) {m : M (ComponentState S) (Unit {0})} → Keeps m → Keeps (when b m)
  when-Keeps true h = h
  when-Keeps false h = record { keeps = λ c. refl }

  pub each-Keeps :
      {A : Type 0} {body : A → M (ComponentState S) (Unit {0})} (xs : List A)
      → ((a : A) → Keeps (body a))
      → Keeps (for_each body xs)
  each-Keeps {body} xs h = record {
    keeps =
        λ c. for_each_keeps (λ s. flags s ≡ flags c) body xs c (λ x s e. (h x).keeps s ∙ e) refl;
  }

  pub recover-Keeps :
      {A : Type 0} {m : M (ComponentState S) A} {handler : Exception → M (ComponentState S) A}
      → Keeps m
      → ((e : Exception) → Keeps (handler e))
      → Keeps (recover m handler)
  recover-Keeps {handler} h k = record {
    keeps = λ c.
        caught_keeps (λ s. flags s ≡ flags c) handler _ (h.keeps c) (λ e s q. (k e).keeps s ∙ q);
  }

  pub throw_if-Keeps : (b : Bool) (k : ErrorKind) (what : Text) → Keeps (throw_if b k what)
  throw_if-Keeps true k what = record { keeps = λ c. refl }
  throw_if-Keeps false k what = record { keeps = λ c. refl }

  pub modify-Keeps :
      (f : (ComponentState S) → ComponentState S)
      → ((c : ComponentState S) → flags (f c) ≡ flags c)
      → Keeps (modify f)
  modify-Keeps f h = record { keeps = h }

  pub pure-Keeps : {A : Type 0} (a : A) → Keeps (pure a)
  pure-Keeps a = record { keeps = λ c. refl }

  pub raise-Keeps : {A : Type 0} (k : ErrorKind) (what : Text) → Keeps (raise {A = A} k what)
  raise-Keeps k what = record { keeps = λ c. refl }

  pub read-Keeps : {A : Type 0} (f : ComponentState S → A) → Keeps (get >>= (λ c. pure (f c)))
  read-Keeps f = record { keeps = λ c. refl }

  pub lift-Keeps : {A : Type 0} (o : Outcome A) → Keeps (lift o)
  lift-Keeps o = record { keeps = λ c. refl }

module _ (env : Surroundings) where
  open env use {client, is_numeric, widen_utf8}
  open client use {State}

  pub transport-Keeps : {A : Type 0} (m : M (AirPlayTransport State) A) → Keeps (on_transport env m)
  transport-Keeps m = record { keeps = λ c. refl }

  pub engine_call-Keeps :
      {A : Type 0} (e : Option EngineState) (a : A)
      (m : M (MultiroomEngine (AirPlayTransport State)) A)
      → Keeps (engine_call env e a m)
  unfolding engine_call
  engine_call-Keeps none a m = record { keeps = λ c. refl }
  engine_call-Keeps (some e) a m = record { keeps = λ c. refl }

  pub ensure_discovery_started-Keeps : Keeps (ensure_discovery_started env)
  unfolding ensure_discovery_started
  ensure_discovery_started-Keeps = record {
    keeps = λ c.
        (when-Keeps (not c.discovery_started) (
            seq-Keeps (transport-Keeps (Air.start_discovery client is_numeric))
              (modify-Keeps (λ d. record d { discovery_started = true }) (λ d. refl)))).keeps
          c;
  }

  apply_stored-Keeps : (outputs : List OutputDevice) → Keeps (apply_stored env outputs)
  unfolding apply_stored
  apply_stored-Keeps outputs = record { keeps = λ c. refl }

  pub scan-Keeps : (timeout : ℕ) → Keeps (scan env timeout)
  unfolding scan
  scan-Keeps timeout =
      seq-Keeps (transport-Keeps (Air.refresh_discovery client is_numeric timeout))
        (bind-Keeps (transport-Keeps (Air.list_outputs client is_numeric)) apply_stored-Keeps)

  pub set_volumes-Keeps :
      (master : ℤ) (outputs : List OutputDevice) → Keeps (set_volumes env master outputs)
  unfolding set_volumes
  set_volumes-Keeps master outputs = each-Keeps outputs (λ output. transport-Keeps (
      Air.set_output_volume client is_numeric output.id
        (effective_remote_volume output.volume master)))

  pub send_metadata-Keeps :
      (active : Bool) (metadata : PlaybackMetadata) → Keeps (send_metadata env active metadata)
  unfolding send_metadata
  send_metadata-Keeps true metadata =
      transport-Keeps (Air.set_playback_metadata client is_numeric metadata)
  send_metadata-Keeps false metadata =
      transport-Keeps (Air.clear_playback_metadata client is_numeric)
