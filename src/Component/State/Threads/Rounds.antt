-- ===== src/Component/State/Threads/Rounds.antt =====
-- multiroom_component_state.cpp, `control_update_worker`: how many sections are left of its rounds.
use foobar_universal_multiro.Component.State.Threads.Invariant.{Agree}
use foobar_universal_multiro.Base.{
  Bool, false, if◌then◌else◌, not, true, ℕ, ◌&&◌, ◌+◌, ◌<◌, ◌≡◌, arith, refl, subst, suc, sym, zero,
  ◌≤◌, List, [], ◌∷◌,
}
use foobar_universal_multiro.Component.State.Places.{
  ControlPlace, control_absent, snapping, sending_volumes, control_starting, updating, applied,
  named, control_ending, RefreshPlace, PlayPlace, is_controlling, Event, control_works,
}
use foobar_universal_multiro.Component.State.Threads.Flags.{Flags, has_work}

-- The sections up to the end of this round of the worker.
abbrev sections_left : ControlPlace → ℕ
sections_left control_absent = 0
sections_left snapping = 7
sections_left (sending_volumes work) = 6
sections_left (control_starting work) = 5
sections_left (updating work) = 4
sections_left (applied work b o) = 3
sections_left (named work b o names) = 2
sections_left control_ending = 1

-- The round that takes the snapshot takes every request with it.
abbrev takes_all : ControlPlace → Bool
takes_all snapping = true
takes_all _ = false

abbrev pub work_left : ControlPlace → Flags → ℕ
work_left k f = sections_left k + (if has_work f && not (takes_all k) then 7 else 0)

pub lt_suc : (n : ℕ) → n < suc n
lt_suc n = omega arith

pub left_falls :
    (k l : ControlPlace) (f g : Flags)
    → g ≡ f
    → sections_left l < sections_left k
    → takes_all k ≡ false
    → takes_all l ≡ false
    → work_left l g < work_left k f
left_falls k l f g e h a b = subst (λ x. work_left l x < work_left k f) (sym e) (ground arith)

pub work_left_bounds : (k : ControlPlace) (f : Flags) → work_left k f ≤ 14
work_left_bounds control_absent f = ground arith
work_left_bounds snapping f = ground arith
work_left_bounds (sending_volumes work) f = ground arith
work_left_bounds (control_starting work) f = ground arith
work_left_bounds (updating work) f = ground arith
work_left_bounds (applied work b o) f = ground arith
work_left_bounds (named work b o names) f = ground arith
work_left_bounds control_ending f = ground arith

-- The events of the worker alone.
abbrev pub sections : ℕ → List Event
sections zero = []
sections (suc n) = control_works ∷ sections n

-- With nothing left there is no worker.
pub idle_worker : (k : ControlPlace) (f : Flags) → work_left k f ≡ 0 → is_controlling k ≡ false
idle_worker control_absent f e = refl
idle_worker snapping f e = absurd (ground arith)
idle_worker (sending_volumes work) f e = absurd (ground arith)
idle_worker (control_starting work) f e = absurd (ground arith)
idle_worker (updating work) f e = absurd (ground arith)
idle_worker (applied work b o) f e = absurd (ground arith)
idle_worker (named work b o names) f e = absurd (ground arith)
idle_worker control_ending f e = absurd (ground arith)

pub no_worker : (k : ControlPlace) → is_controlling k ≡ false → k ≡ control_absent
no_worker control_absent e = refl
no_worker snapping e = absurd (ground arith)
no_worker (sending_volumes work) e = absurd (ground arith)
no_worker (control_starting work) e = absurd (ground arith)
no_worker (updating work) e = absurd (ground arith)
no_worker (applied work b o) e = absurd (ground arith)
no_worker (named work b o names) e = absurd (ground arith)
no_worker control_ending e = absurd (ground arith)

pub nothing_asked :
    (o : Bool) (f : Flags) (r : RefreshPlace) (k : ControlPlace) (p : PlayPlace)
    → Agree o f r k p
    → is_controlling k ≡ false
    → has_work f ≡ false
nothing_asked o f r k p h e = ground arith
