-- ===== src/Protocol/Acknowledge.antt =====
-- The acknowledgement of diagnostic records that waits to be sent (`_goal_ack_pending` of
-- worlds/jak3/agents/protocol.py): an activation generation and a sequence number.
pub mod Coalesce
use jak3_ap.Prelude.{ℤ, same_int, int_max, Bool, true, false, Option, none, some, if◌then◌else◌}

-- `_schedule_goal_acknowledgement`, without the start of the task that sends it
unfoldable pub schedule_goal_acknowledgement : ℤ → ℤ → Option (ℤ × ℤ) → ℤ × ℤ
schedule_goal_acknowledgement activation acknowledge none = (activation, acknowledge)
schedule_goal_acknowledgement activation acknowledge (some pending) =
    if same_int pending.0 activation
    then (activation, int_max pending.1 acknowledge)
    else (activation, acknowledge)
