-- ===== src/Tests/Lifecycle.antt =====
-- A connection that is started, ticks once, and is destroyed.
use spadia.Common.{true, false, List, [], ◌∷◌}
use spadia.Connection.Lifecycle.{Life, Event, call_start, run_start, tick, release}
use spadia.Tests.Connection.{connection}

abbrev whole_life : List Event
whole_life = call_start ∷ run_start ∷ tick 70 ∷ release ∷ []

abbrev left_over : Life
left_over = record {
  members = record connection { last_packet_recv_time_ms = 70 };
  lives = false;
  tasks = 0;
  receives = false;
  ticks = true;
  has_data = false;
}
