-- ===== src/Sched/Deliver.antt =====
-- What `__flush_signals` promises: signals are handled oldest first until one of them kills the task.
use klyx.Prelude.{
  ℕ, ◌≡◌, ◌≢◌, ◌⊎◌, inl, inr, refl, Bool, true, false, List, [], ◌∷◌, Option, none, some, ◌==◌,
  ==_ne, if◌then◌else◌, arith,
}
use klyx.Sched.Signal.{Action, die, go_on, stop, skip, signal_case}
use klyx.Sched.Task.{TaskStatus, dead, is_dead}

-- What is left of a task: its status, whether it is paused, the signals that still wait.
pub record Handled : Type 0 where
  pub status : TaskStatus
  pub paused : Bool
  pub rest : List ℕ

abbrev pub action : ℕ → Action
action sig = (signal_case sig).1

-- The specification, over the list of the signals that wait; `none` if init is to die.
abbrev pub deliver : (current : ℕ) → TaskStatus → Bool → List ℕ → Option Handled
deliver current st p [] = some (record { status = st; paused = p; rest = [] })
deliver current st p (sig ∷ sigs) = elim (action sig) [
  | die ↦ if current == 0 then none else some (record { status = dead; paused = p; rest = sigs })
  | go_on ↦ deliver current st false sigs
  | stop ↦ deliver current st true sigs
  | skip ↦ deliver current st p sigs
]

-- Some signal among them kills.
abbrev pub IsDeadly : List ℕ → Type 0
IsDeadly [] = ⊥
IsDeadly (sig ∷ sigs) = (action sig ≡ die) ⊎ IsDeadly sigs

-- A task other than init always comes out of `deliver`.
pub deliver-some :
    (current : ℕ) (st : TaskStatus) (p : Bool) (sigs : List ℕ)
    → current ≢ 0
    → (h : Handled) × (deliver current st p sigs ≡ some h)
deliver-some current st p [] ne = (record { status = st; paused = p; rest = [] }, refl)
deliver-some current st p (sig ∷ sigs) ne =
    go (deliver-some current st false sigs ne) (deliver-some current st true sigs ne)
      (deliver-some current st p sigs ne) (action sig)
  where
    go :
        (h : Handled) × (deliver current st false sigs ≡ some h)
        → (h : Handled) × (deliver current st true sigs ≡ some h)
        → (h : Handled) × (deliver current st p sigs ≡ some h)
        → (a : Action)
        → (h : Handled) × (elim a [
          | die ↦
              if current == 0
              then none
              else some (record { status = dead; paused = p; rest = sigs })
          | go_on ↦ deliver current st false sigs
          | stop ↦ deliver current st true sigs
          | skip ↦ deliver current st p sigs
        ]
            ≡ some h)
    go c s k die = (record { status = dead; paused = p; rest = sigs }, rw (==_ne current 0 ne))
    go c s k go_on = c
    go c s k stop = s
    go c s k skip = k

-- If one of the signals kills, the task that comes out is dead.
pub deliver-IsDeadly :
    (current : ℕ) (st : TaskStatus) (p : Bool) (sigs : List ℕ) {h : Handled}
    → IsDeadly sigs
    → deliver current st p sigs ≡ some h
    → is_dead h.status ≡ true
deliver-IsDeadly current st p [] d e = absurd d
deliver-IsDeadly current st p (sig ∷ sigs) {h} d e =
    go (deliver-IsDeadly current st false sigs) (deliver-IsDeadly current st true sigs)
      (deliver-IsDeadly current st p sigs) (action sig) d e
  where
    Later : Bool → Type 0
    Later b = IsDeadly sigs → deliver current st b sigs ≡ some h → is_dead h.status ≡ true

    go :
        Later false
        → Later true
        → Later p
        → (a : Action) → (a ≡ die) ⊎ IsDeadly sigs
        → elim a [
          | die ↦
              if current == 0
              then none
              else some (record { status = dead; paused = p; rest = sigs })
          | go_on ↦ deliver current st false sigs
          | stop ↦ deliver current st true sigs
          | skip ↦ deliver current st p sigs
        ]
          ≡ some h
        → is_dead h.status ≡ true
    go c s k die d e = ground arith
    go c s k go_on (inl e') e = cc
    go c s k go_on (inr l) e = c l e
    go c s k stop (inl e') e = cc
    go c s k stop (inr l) e = s l e
    go c s k skip (inl e') e = cc
    go c s k skip (inr l) e = k l e
