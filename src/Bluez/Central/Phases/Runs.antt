-- ===== src/Bluez/Central/Phases/Runs.antt =====
-- The phases of a handover that reaches its peer.
use bitchat_clone.Base.{◌≡◌, true, false, List, ◌∷◌, ◌++◌}
use bitchat_clone.Dbus.{replied}
use bitchat_clone.Bluez.Central.Pump.{Answers}
use bitchat_clone.Bluez.Central.Machine.{Event, pumped, run}
use bitchat_clone.Bluez.Central.Phases.{Walk, phase}
use bitchat_clone.Bluez.Central.Phases.Refines.{run-Walk, ready_was_subscribed}
use bitchat_clone.Bluez.Central.Runs.{start_state, up, start_agrees, up_is_ready}

run-Walk_example : Walk (phase start_state.impl) up (phase (run start_state up).impl)
run-Walk_example = run-Walk start_state up start_agrees.0

ready_was_subscribed_example :
    (before : List Event) × (a : Answers) × (after : List Event) × (up
      ≡ before ++ (pumped a ∷ after))
    × (a.notify ≡ replied)
    × ((run start_state before).impl.connected ≡ true)
    × ((run start_state before).impl.subscribed ≡ false)
ready_was_subscribed_example =
    ready_was_subscribed start_state up start_agrees.0 start_agrees.1 up_is_ready
