-- ===== src/Motor/Mode/Arming.antt =====
-- What the transitions of rm32/src/motor_mode.rs guarantee over any sequence of events.
use rm.Prelude.{ℕ, ◌<◌, ◌≡◌, refl, ◌⊎◌, inr, Bool, true, false, List, [], ◌∷◌, arith}
use rm.Motor.Mode.{
  MotorMode, disarmed, armed, stepper_sine, old_routine, running, MotorEvent, arm, disarm,
  start_motor, enter_sine, exit_sine, bemf_locked, as_u8, from_u8, transition, transitions,
}

-- The modes survive the store as a u8, and every byte that is no mode reads as the disarmed one.
pub from_u8-as_u8 :
    (m : MotorMode) (v : ℕ) → (from_u8 (as_u8 m) ≡ m) × (4 < v → from_u8 v ≡ disarmed)
unfolding from_u8 as_u8
from_u8-as_u8 disarmed v = (refl, λ h. ground arith)
from_u8-as_u8 _ v = (refl, λ h. ground arith)

-- Which events have been seen since the last `disarm`.
pub record Seen : Type 0 where
  pub arms : Bool
  pub starts : Bool
  pub enters : Bool
  pub exits : Bool
  pub locks : Bool

abbrev pub nothing : Seen
nothing = record { arms = false; starts = false; enters = false; exits = false; locks = false }

abbrev pub see : Seen → MotorEvent → Seen
see s arm = record s { arms = true }
see s disarm = nothing
see s start_motor = record s { starts = true }
see s enter_sine = record s { enters = true }
see s exit_sine = record s { exits = true }
see s bemf_locked = record s { locks = true }
see s _ = s

abbrev pub seen : Seen → List MotorEvent → Seen
seen s [] = s
seen s (e ∷ es) = seen (see s e) es

-- What must have been seen for a mode to be entered.
abbrev pub Justifies : MotorMode → Seen → Type 0
Justifies disarmed s = Unit {0}
Justifies armed s = s.arms ≡ true
Justifies stepper_sine s = (s.arms ≡ true) × (s.enters ≡ true)
Justifies old_routine s =
    (s.arms ≡ true) × ((s.starts ≡ true) ⊎ ((s.enters ≡ true) × (s.exits ≡ true)))
Justifies running s =
    (s.arms ≡ true)
    × ((s.starts ≡ true) ⊎ ((s.enters ≡ true) × (s.exits ≡ true)))
    × (s.locks ≡ true)

transition-Justifies :
    (m : MotorMode) (e : MotorEvent) (s : Seen)
    → Justifies m s
    → Justifies (transition m e) (see s e)
unfolding transition
transition-Justifies disarmed arm s h = refl
transition-Justifies _ disarm s h = tt
transition-Justifies _ _ s h = ground arith

-- From any mode that the events seen so far justify, a run of events ends in a mode that the events
-- seen by then justify: above `disarmed` there was an `arm` since the last `disarm`, the two running
-- modes had in addition a start or a complete sine phase, and `running` a lock on the back EMF.
pub transitions-Justifies :
    (m : MotorMode) (s : Seen) (es : List MotorEvent)
    → Justifies m s
    → Justifies (transitions m es) (seen s es)
unfolding transitions
transitions-Justifies m s [] h = h
transitions-Justifies m s (e ∷ es) h =
    transitions-Justifies (transition m e) (see s e) es (transition-Justifies m e s h)

-- The path to `running` is the start phase alone: a step reaches it from another mode only by
-- `bemf_locked` out of `old_routine`; a disarm is never refused; and no other event disarms.
pub transition_guards :
    (m : MotorMode) (e : MotorEvent)
    → (transition m e ≡ running → (m ≡ running) ⊎ ((m ≡ old_routine) × (e ≡ bemf_locked)))
      × (e ≡ disarm → transition m e ≡ disarmed)
      × (transition m e ≡ disarmed → (m ≡ disarmed) ⊎ (e ≡ disarm))
unfolding transition
transition_guards disarmed arm = (λ h. cc, λ h. cc, λ h. cc)
transition_guards _ disarm = (λ h. cc, λ h. refl, λ h. inr refl)
transition_guards m e = (λ h. ground arith, λ h. ground arith, λ h. ground arith)
