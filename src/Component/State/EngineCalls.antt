-- ===== src/Component/State/EngineCalls.antt =====
-- multiroom_component_state.cpp: what the calls of the engine and of the transport leave of the engine.
use foobar_universal_multiro.AirPlay.Transport.{AirPlayTransport}
use foobar_universal_multiro.Base.Throws.{lift}
use foobar_universal_multiro.Core.SyncClock.{SyncClock}
use foobar_universal_multiro.Base.Int.{ℤ}
use foobar_universal_multiro.Core.Engine.{MultiroomEngine}
use foobar_universal_multiro.Component.State.Shared.{
  EngineState, Surroundings, made_engine, ComponentState, set_volumes, send_metadata, engine_call,
  engine_stop, engine_open, is_stream_open, on_transport, effective_remote_volume, with_engine,
}
use foobar_universal_multiro.Device.{PcmFormat, PlaybackMetadata, OutputDevice}
use foobar_universal_multiro.Base.{
  Bool, List, Option, Text, false, none, refl, some, subst, sym, true, ◌≡◌,
}
use foobar_universal_multiro.Base.Outcome.{
  M, Outcome, ErrorKind, ok, then_with, throw_if, throw, for_each_keeps, put_back, then_keeps,
  within, modify,
}
use foobar_universal_multiro.AirPlay.Transport as Air
use foobar_universal_multiro.Core.Engine
use foobar_universal_multiro.Core.SyncClock

-- What holds of the value and of the state if the computation returns.
abbrev pub Post : {S A : Type 0} → (A → S → Type 0) → Outcome A × S → Type 0
Post Q (ok a, s) = Q a s
Post Q (throw e, s) = Unit {0}

pub then-Post :
    {S A B : Type 0} (Q : A → S → Type 0) (R : B → S → Type 0) (f : A → M S B) (r : Outcome A × S)
    → Post Q r
    → ((a : A) (s : S) → Q a s → Post R (f a s))
    → Post R (then_with f r)
then-Post Q R f (ok a, s) q h = h a s q
then-Post Q R f (throw e, s) q h = tt

abbrev pub Anything : {S A : Type 0} → A → S → Type 0
Anything a s = Unit {0}

pub anything : {S A : Type 0} (r : Outcome A × S) → Post Anything r
anything (ok a, s) = tt
anything (throw e, s) = tt

throw_if-Post :
    {S : Type 0} (Q : S → Type 0) (b : Bool) (k : ErrorKind) (what : Text) (s : S)
    → Q s
    → Post (λ _. Q) (throw_if b k what s)
throw_if-Post Q true k what s h = tt
throw_if-Post Q false k what s h = h

-- The engine is there, open, and has the format.
abbrev pub Plays : PcmFormat → Option EngineState → Type 0
Plays format none = ⊥
Plays format (some e) = (e.stream_open ≡ true) × (e.format ≡ format)

pub keeps-Plays :
    (format : PcmFormat) (a b : Option EngineState) → b ≡ a → Plays format a → Plays format b
keeps-Plays format a b e = subst (Plays format) (sym e)

abbrev pub IsMade : Option EngineState → Type 0
IsMade none = ⊥
IsMade (some e) = Unit {0}

put-Post :
    {S T A : Type 0} (Q : S → Type 0) (back : S → T → S) (s : S) (r : Outcome A × T)
    → ((t : T) → Q (back s t))
    → Post (λ _. Q) (put_back back s r)
put-Post Q back s (ok a, t) h = h t
put-Post Q back s (throw e, t) h = tt

module _ (env : Surroundings) where
  open env use {client, is_numeric, widen_utf8}
  open client use {State}

  abbrev C : Type 0
  C = ComponentState State

  pub made_engine-IsMade : (e : Option EngineState) → IsMade (made_engine env e)
  made_engine-IsMade none = tt
  made_engine-IsMade (some e) = tt

  -- What holds of the engine holds behind a computation that leaves it.
  pub kept-Post :
      {A : Type 0} (P : Option EngineState → Type 0) (r : Outcome A × C) (c : C)
      → r.1.playback_engine ≡ c.playback_engine
      → P c.playback_engine
      → Post (λ _ s. P s.playback_engine) r
  kept-Post P (ok a, s) c e h = subst P (sym e) h
  kept-Post P (throw x, s) c e h = tt

  pub set_volumes-engine :
      (master : ℤ) (outputs : List OutputDevice) (c : C)
      → (set_volumes env master outputs c).1.playback_engine ≡ c.playback_engine
  unfolding set_volumes
  set_volumes-engine master outputs c =
      for_each_keeps (λ s. s.playback_engine ≡ c.playback_engine)
        (λ output. on_transport env (
          Air.set_output_volume client is_numeric output.id
            (effective_remote_volume output.volume master)))
        outputs c (λ x s e. e) refl

  pub send_metadata-engine :
      (active : Bool) (metadata : PlaybackMetadata) (c : C)
      → (send_metadata env active metadata c).1.playback_engine ≡ c.playback_engine
  unfolding send_metadata
  send_metadata-engine true metadata c = refl
  send_metadata-engine false metadata c = refl

  abbrev E : Type 0
  E = MultiroomEngine (AirPlayTransport State)

  abbrev over_transport : {A : Type 0} → M (AirPlayTransport State) A → M E A
  over_transport = within (λ e. e.transport) (λ e t. record e { transport = t })

  abbrev over_clock : {A : Type 0} → M SyncClock A → M E A
  over_clock = within (λ e. e.clock) (λ e c. record e { clock = c })

  abbrev HasFormat : PcmFormat → E → Type 0
  HasFormat format e = e.format ≡ format

  abbrev IsOpen : PcmFormat → E → Type 0
  IsOpen format e = (e.stream_open ≡ true) × (e.format ≡ format)

  abbrev pub On : PcmFormat → C → Type 0
  On format c = Plays format c.playback_engine

  abbrev pub Made : C → Type 0
  Made c = IsMade c.playback_engine

  transport_call-Post :
      (format : PcmFormat) (e : E)
      → HasFormat format e
      → Post
          (λ _. IsOpen format)
          (then_with
            (λ _. modify (λ e. record e { stream_open = true }))
            (over_transport (Air.open_stream client is_numeric format) e))
  transport_call-Post format e h =
      then-Post {S = E} (λ _. HasFormat format) (λ _. IsOpen format)
        (λ _. modify (λ e. record e { stream_open = true }))
        (over_transport (Air.open_stream client is_numeric format) e)
        (put-Post {S = E} (HasFormat format) (λ e t. record e { transport = t }) e
          (Air.open_stream client is_numeric format e.transport) (λ c. h))
        (λ _ v g. (refl, g))

  clock_call-Post :
      (format : PcmFormat) (e : E)
      → HasFormat format e
      → Post
          (λ _. IsOpen format)
          (then_with
            (λ _ s.
              then_with
                (λ _. modify (λ e. record e { stream_open = true }))
                (over_transport (Air.open_stream client is_numeric format) s))
            (over_clock (SyncClock.set_sample_rate format.sample_rate) e))
  clock_call-Post format e h =
      then-Post {S = E} (λ _. HasFormat format) (λ _. IsOpen format) _
        (over_clock (SyncClock.set_sample_rate format.sample_rate) e)
        (put-Post {S = E} (HasFormat format) (λ e c. record e { clock = c }) e
          (SyncClock.set_sample_rate format.sample_rate e.clock) (λ c. h))
        (λ _ v g. transport_call-Post format v g)

  -- The engine, when it opens the stream.
  open_stream-Post :
      (format : PcmFormat) (e : E)
      → Post (λ _. IsOpen format) (Engine.open_stream (Air.transport client is_numeric) format e)
  unfolding Engine.open_stream
  open_stream-Post format e =
      then-Post Anything (λ _. IsOpen format) _ (lift (Engine.validate_format format) e)
        (anything (lift (Engine.validate_format format) e))
        (λ _ d _. clock_call-Post format (record d { format = format }) refl)

  -- The state behind a call of the engine that opened it.
  opened :
      (format : PcmFormat) (e : EngineState) (c : C) (r : Outcome (Unit {0}) × E)
      → Post (λ _. IsOpen format) r
      → Post (λ _. On format) (put_back (with_engine env) c r)
  opened format e c (ok tt, s) h = h
  opened format e c (throw x, s) h = tt

  pub open_call-Post :
      (format : PcmFormat) (e : Option EngineState) (c : C)
      → IsMade e
      → Post
          (λ _. On format)
          (engine_call env e tt (Engine.open_stream (Air.transport client is_numeric) format) c)
  unfolding engine_call
  open_call-Post format none c h = absurd h
  open_call-Post format (some e) c h = opened format e c _ (open_stream-Post format _)

  abbrev Closed : E → Type 0
  Closed e = e.stream_open ≡ false

  stop-Closed : (e : E) → Closed (Engine.stop (Air.transport client is_numeric) e).1
  unfolding Engine.stop
  stop-Closed e = then_keeps Closed _ _ refl (λ _ s g. g)

  stop_call :
      (e : Option EngineState) (c : C)
      → engine_open env c ≡ is_stream_open env e
      → engine_open env (engine_call env e tt (Engine.stop (Air.transport client is_numeric)) c).1
        ≡ false
  unfolding engine_call
  stop_call none c h = h
  stop_call (some e) c h = stop-Closed _

  pub engine_stop-closes : (c : C) → engine_open env (engine_stop env c).1 ≡ false
  unfolding engine_stop
  engine_stop-closes c = stop_call c.playback_engine c refl
