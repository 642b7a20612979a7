-- ===== src/Component/State/Threads/Owed.antt =====
-- multiroom_component_state.cpp: the refresh that was asked for and has not been taken up.
use foobar_universal_multiro.Component.State.Places.{
  asks_for_refresh, is_before_scan, is_taken_up, Event, World,
}
use foobar_universal_multiro.Component.State.Shared.{Surroundings}
use foobar_universal_multiro.Component.State.Threads.{step}
use foobar_universal_multiro.Base.{Bool, List, [], ◌∷◌, not, ◌||◌, ◌&&◌}

module _ (env : Surroundings) where
  open env use {client, is_numeric, widen_utf8}
  open client use {State}

  -- Whether a refresh is still owed behind the event: one was asked for, and no worker has since got as far as its scan, or to
  -- the exception with which the discovery failed to start.
  abbrev pub owed_after : Event → World State → Bool → Bool
  owed_after event w o =
      asks_for_refresh event
      || (o && not (is_before_scan w.refresh && is_taken_up (step env event w).refresh))

  unfoldable pub owed : List Event → World State → Bool → Bool
  owed [] w o = o
  owed (event ∷ events) w o = owed events (step env event w) (owed_after event w o)
