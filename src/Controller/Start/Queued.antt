-- ===== src/Controller/Start/Queued.antt =====
-- What becomes of a device command that is sent while a monitor runs, of controller.rs.
use Prim.Native.String.{String}
use pose_bridge.Prelude.{
  ℕ, ◌≡◌, ◌≢◌, ◌⊎◌, refl, Option, none, is_some_and, Bool, true, false, not, ◌||◌, some, arith,
  Bool-cases, inl, inr,
}
use mathlib.Core.Path.{ap, ◌∙◌}
use pose_bridge.Model.{Result, ok, is_ok}
use pose_bridge.Model.Command.{DeviceCommand, mag_start, mag_stop, save}
use pose_bridge.Model.Observation.{
  OperationOutcome, OperationStatus, running, is_running, new_operation,
}
use pose_bridge.Magnetic.State.{ready}
use pose_bridge.Controller.Lifecycle.{Controller}
use pose_bridge.Controller.Start.{queue_command, is_magnetic, action_of, is_refused}

-- The commands that a monitor takes, and the names of their operations.
pub data IsMonitored : DeviceCommand → String → Type 0 where
  starts : IsMonitored mag_start "mag_start"
  stops : IsMonitored mag_stop "mag_stop"
  saves : IsMonitored save "save"

-- A new operation on the source, of which nothing was done yet.
pub record IsNew (id : ℕ) (action source : String) (op : OperationStatus) : Type 0 where
  pub identified : op.id ≡ id
  pub named : op.action ≡ action
  pub placed : op.source_id ≡ some source
  pub is_running : op.outcome ≡ running
  pub unattempted : op.write_attempted ≡ false
  pub unsent : op.command_sent ≡ false
  pub unverified : op.register_verified ≡ false
  pub uncompleted : op.completion_observed ≡ false
  pub unmoved : op.reference_may_have_changed ≡ false

not_running :
    (o : Option OperationStatus)
    → is_some_and o (λ op. is_running op.outcome) ≡ false
    → (old : OperationStatus) → o ≡ some old
    → old.outcome ≢ running
not_running none h old e = absurd cc
not_running (some op) h old e = λ r.
    let runs : is_running op.outcome ≡ true =
      ap (λ (o : Option OperationStatus). is_some_and o (λ x. is_running x.outcome)) e
      ∙ ap is_running r in
    cc

IsMonitored-is_magnetic :
    (command : DeviceCommand) (action : String)
    → IsMonitored command action
    → is_magnetic command ≡ true
IsMonitored-is_magnetic command action m = elim m as (λ k a _. is_magnetic k ≡ true) [
  | starts ↦ refl
  | stops ↦ refl
  | saves ↦ refl
]

not_magnetic :
    (command : DeviceCommand)
    → is_magnetic command ≡ false
    → (action : String) → ¬ (IsMonitored command action)
not_magnetic command h action m =
    let there : is_magnetic command ≡ true = IsMonitored-is_magnetic command action m in cc

is_running-eq : (o : OperationOutcome) → is_running o ≡ true → o ≡ running
is_running-eq running h = refl
is_running-eq _ h = absurd cc

is_running_of :
    (o : Option OperationStatus)
    → is_some_and o (λ op. is_running op.outcome) ≡ true
    → (op : OperationStatus) × (o ≡ some op) × (op.outcome ≡ running)
is_running_of none h = absurd cc
is_running_of (some op) h = (op, refl, is_running-eq op.outcome h)

magnetic-IsMonitored :
    (command : DeviceCommand) → is_magnetic command ≡ true → IsMonitored command (action_of command)
magnetic-IsMonitored mag_start h = starts
magnetic-IsMonitored mag_stop h = stops
magnetic-IsMonitored save h = saves
magnetic-IsMonitored _ h = absurd cc

module _ {F : Type 0} where
  -- An error, and nothing else.
  abbrev pub IsRefused : Controller F → Controller F × Result (Unit {0}) → Type 0
  IsRefused c r = (r.0 ≡ c) × (is_ok r.1 ≡ false)

  -- The command became the operation of a running monitor that was free for it.
  pub record IsTaken (c : Controller F) (command : DeviceCommand) (has_room : Bool) (id : ℕ)
      (r : Controller F × Result (Unit {0})) : Type 0 where
    pub accepted : r.1 ≡ ok tt
    pub is_monitoring : c.magnetic_commands ≡ true
    pub room : has_room ≡ true
    pub is_ready : ready c.shared.magnetic_state ≡ true
    pub free : (old : OperationStatus) → c.shared.operation ≡ some old → old.outcome ≢ running
    pub action : String
    pub monitored : IsMonitored command action
    pub op : OperationStatus
    pub is_new : IsNew id action c.shared.descriptor.source_id op
    pub taken : r.0 ≡ record c { shared = record (c.shared) { operation = some op } }

  -- Why a command does not become an operation; `valid` is the test of it and of the configuration.
  pub data IsUnfit (c : Controller F) (valid : Result (Unit {0})) (command : DeviceCommand)
      (has_room : Bool) : Type 0 where
    invalid : is_ok valid ≡ false → IsUnfit c valid command has_room
    unmonitored : c.magnetic_commands ≡ false → IsUnfit c valid command has_room
    other : ((action : String) → ¬ (IsMonitored command action)) → IsUnfit c valid command has_room
    unready : ready c.shared.magnetic_state ≡ false → IsUnfit c valid command has_room
    occupied :
        (op : OperationStatus)
        → c.shared.operation ≡ some op
        → op.outcome ≡ running
        → IsUnfit c valid command has_room
    full : has_room ≡ false → IsUnfit c valid command has_room

  abbrev pub IsQueued :
      Controller F
      → Result (Unit {0})
      → DeviceCommand
      → Bool
      → ℕ
      → Controller F × Result (Unit {0})
      → Type 0
  IsQueued c valid command has_room id r =
      (IsRefused c r × IsUnfit c valid command has_room) ⊎ IsTaken c command has_room id r

  refused-IsUnfit :
      (c : Controller F) (valid : Result (Unit {0})) (command : DeviceCommand) (has_room : Bool)
      → (is_refused c.shared command || not has_room) ≡ true
      → IsUnfit c valid command has_room
  refused-IsUnfit c valid command has_room h = elim (Bool-cases (is_magnetic command)) [
    | inr m ↦ other (not_magnetic command m)
    | inl m ↦ elim (Bool-cases (ready c.shared.magnetic_state)) [
      | inr r ↦ unready r
      | inl r ↦ elim (Bool-cases has_room) [
        | inr room ↦ full room
        | inl room ↦
            let (op, there, runs) = is_running_of c.shared.operation (ground arith) in
            occupied op there runs
      ]
    ]
  ]

  pub queue_command-IsQueued :
      (c : Controller F) (valid : Result (Unit {0})) (command : DeviceCommand) (has_room : Bool)
      (id : ℕ)
      → c.magnetic_commands ≡ true
      → IsQueued c valid command has_room id (queue_command c command has_room id)
  unfolding queue_command
  queue_command-IsQueued c valid command has_room id h =
      elim (Bool-cases (is_refused c.shared command || not has_room)) [
        | inl refused ↦
            inl (rw refused (refl, refl), refused-IsUnfit c valid command has_room refused)
        | inr taken ↦ inr (
            rw taken (record {
              accepted = refl;
              is_monitoring = h;
              room = ground arith;
              is_ready = ground arith;
              free = not_running c.shared.operation (ground arith);
              action = action_of command;
              monitored = magnetic-IsMonitored command (ground arith);
              op = record (new_operation id (action_of command)) {
                source_id = some (c.shared.descriptor.source_id);
              };
              is_new = record {
                identified = refl;
                named = refl;
                placed = refl;
                is_running = refl;
                unattempted = refl;
                unsent = refl;
                unverified = refl;
                uncompleted = refl;
                unmoved = refl;
              };
              taken = refl;
            }))
      ]
