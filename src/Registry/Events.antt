-- ===== src/Registry/Events.antt =====
-- The events of a node: when there is one, of which kind, and how many are kept
-- (core/registry/node_registry.py).
use control_ok_a_v.Base.{
  ℕ, ◌+◌, ◌/◌, ◌%◌, Bool, true, false, not, List, [], ◌∷◌, ◌++◌, Option, none, some, String, ltb,
  ◌==◌, if◌then◌else◌, length, drop,
}
use control_ok_a_v.Base.Int.{ℤ, pos, leb_ℤ}
use control_ok_a_v.Registry.Models.{
  NodeStatus, online, calibrating, degraded, offline, NodeRuntimeEventType, status_changed,
  calibrating_entered, recovered_online, moved_degraded, moved_offline,
}

-- `append` on a deque with a greatest length: the oldest element goes.
unfoldable pub append_bounded : {A : Type 0} → ℤ → List A → A → List A
append_bounded maxlen xs x =
    if leb_ℤ (pos (length xs + 1)) maxlen then xs ++ (x ∷ []) else drop 1 (xs ++ (x ∷ []))

-- `current is not status`
abbrev pub same_status : NodeStatus → NodeStatus → Bool
same_status online online = true
same_status calibrating calibrating = true
same_status degraded degraded = true
same_status offline offline = true
same_status _ _ = false

unfoldable pub resolve_boot_marker : Option ℕ → Option ℕ
resolve_boot_marker none = none
resolve_boot_marker (some state_flags) =
    if ltb 0xFF state_flags then none else some (state_flags / 16 % 16)

-- Both are there and differ.
abbrev pub both_differ : Option ℕ → Option ℕ → Bool
both_differ (some a) (some b) = not (a == b)
both_differ _ _ = false

-- The test on the uptimes, the reasons and the markers, previous before current.
unfoldable pub detects_reboot : Option ℕ → ℕ → Option ℕ → ℕ → Option ℕ → Option ℕ → ℤ → Bool
detects_reboot none uptime prev_reason reason prev_marker marker calibrating_uptime_s =
    leb_ℤ (pos uptime) calibrating_uptime_s
detects_reboot (some prev_uptime) uptime prev_reason reason prev_marker marker
      calibrating_uptime_s =
    if ltb (uptime + 1) prev_uptime
    then true
    else if both_differ prev_reason (some reason)
    then true
    else both_differ prev_marker marker

unfoldable pub reboot_detection_details : Option ℕ → ℕ → Option ℕ → ℕ → Option ℕ → Option ℕ → String
reboot_detection_details none uptime prev_reason reason prev_marker marker = "startup low uptime"
reboot_detection_details (some prev_uptime) uptime prev_reason reason prev_marker marker =
    if ltb (uptime + 1) prev_uptime
    then "uptime reset"
    else if both_differ prev_reason (some reason)
    then "reset reason changed"
    else if both_differ prev_marker marker
    then "boot marker changed"
    else "reboot detected"

-- The kind of the event for a change to `current`.
unfoldable pub transition_event_type : NodeStatus → NodeStatus → Bool → NodeRuntimeEventType
transition_event_type previous calibrating is_initial = calibrating_entered
transition_event_type previous degraded is_initial = moved_degraded
transition_event_type previous offline is_initial = moved_offline
transition_event_type previous online true = status_changed
transition_event_type previous online false =
    if not (same_status previous online) then recovered_online else status_changed
