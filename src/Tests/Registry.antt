-- ===== src/Tests/Registry.antt =====
-- The registry on concrete inputs. The floats of these tests are numbers of milliseconds.
use control_ok_a_v.Base.{
  ℕ, ◌+◌, ◌-◌, ◌*◌, ◌/◌, ◌≡◌, ◌↔◌, refl, true, List, [], ◌∷◌, All, none, some, ok, length, ltb, leb,
  arith,
}
use control_ok_a_v.Base.Int.{pos, negsuc}
use control_ok_a_v.Base.Dict.{nat_eq}
use control_ok_a_v.Udp.Packet.{OkuaEvtPacket, OkuaStatPacket, evt, stat}
use control_ok_a_v.Registry.{
  FloatOps, age, NodeRegistryConfig, NodeState, offline, post_init, NodeRegistry, init, get_summary,
  new_node, evt_seen, apply_status_evaluation, apply_evaluation, update_seq_loss,
  append_status_transition_event, append_event, NodeSnapshot, get_node_snapshot,
}
use control_ok_a_v.Registry.Calls.{Call, evt_observed, stat_observed, snapshots_asked, view}
use control_ok_a_v.Registry.Accounting.{
  Tracks, AreNumbered, IsAccount, play_all, losses_are_counted,
}
use control_ok_a_v.Registry.Silence.{IsQuiet, play_each, silence_is_offline}
use control_ok_a_v.Registry.Invariant.{IsSound, CountsAll, play_each-IsSound}

abbrev ops : FloatOps ℕ
ops = record {
  zero = 0;
  at_most = leb;
  below = ltb;
  plus = λ a b. a + b;
  minus = λ a b. a - b;
  times = λ a b. a * b;
  over = λ a b. a / b;
  of_count = λ n. n;
}

abbrev config : NodeRegistryConfig ℕ
config = record {
  t_green_s = 4000;
  t_red_s = 8000;
  pps_min_yellow = 0;
  pps_window_s = 5000;
  stat_loss_yellow_pct = 25;
  t_recover_s = 1500;
  calibrating_hold_s = 6000;
  calibrating_uptime_s = pos 20;
  stat_recovery_packets_online = pos 3;
  evt_recovery_packets_online = pos 4;
  max_runtime_events_per_node = pos 10;
}

abbrev evt_of : ℕ → ℕ → OkuaEvtPacket
evt_of node_id seq = record {
  header = record { magic = 0x4B4F; version = 1; packet_type = evt; node_id = node_id; seq = seq };
  midi_bus = 0;
  midi_ch = 1;
  note = 60;
  vel = 100;
  ts_ms = 5;
  rssi_dbm = negsuc 59;
  flags = 0;
  rsv = (0, 0);
}

abbrev stat_of : ℕ → ℕ → OkuaStatPacket
stat_of node_id seq = record {
  header = record { magic = 0x4B4F; version = 1; packet_type = stat; node_id = node_id; seq = seq };
  uptime_s = 7;
  rssi_dbm = negsuc 59;
  state_flags = 0x10;
  pps_x10 = 20;
  vbat_mv = 3700;
  free_heap = 100_000;
  fw_major = 1;
  fw_minor = 2;
  reset_reason = 1;
  rsv = (0, 0, 0);
  ota_state_code = some 0;
  ota_error_code = some 0;
  ota_flags = some 0;
}

-- Node 3 wraps around, leaves out one number, and sends it late.
abbrev wrapping : List (ℕ × Call ℕ)
wrapping =
    (0xFFFF, evt_observed (evt_of 3 0xFFFF) (some 10) 0)
    ∷ (0, evt_observed (evt_of 4 9) (some 11) 0)
    ∷ (0x1_0001, evt_observed (evt_of 3 1) none 12)
    ∷ (0x1_0000, evt_observed (evt_of 3 0) (some 13) 0)
    ∷ (7, stat_observed (stat_of 3 7) (some 14) 0)
    ∷ []

abbrev untracked : Tracks
untracked = record { evt_track = none; stat_track = none }

wrapping-AreNumbered : AreNumbered 3 wrapping untracked
wrapping-AreNumbered = (
  λ e. (omega arith, tt),
  (
    λ e. absurd (omega (arith, e)),
    (
      λ e. (omega arith, (omega arith, omega arith)),
      (λ e. (omega arith, (omega arith, omega arith)), (λ e. (omega arith, tt), tt)),
    ),
  ),
)

losses_are_counted_example :
    IsAccount ops
      (record {
        evt_track = some (record { first = 0xFFFF; highest = 0x1_0001; records = 2 });
        stat_track = some (record { first = 7; highest = 7; records = 1 });
      })
      (view ops 3 (play_all ops wrapping (init ops config)))
losses_are_counted_example = losses_are_counted ops config 3 wrapping wrapping-AreNumbered

abbrev seen_node : NodeState ℕ
seen_node = evt_seen ops config (evt_of 3 0) 100 (new_node ops 3)

abbrev seen_once : NodeRegistry ℕ
seen_once = record { config = config; nodes = (3, seen_node) ∷ [] }

-- Others are heard, and node 3 is not.
abbrev others : List (Call ℕ)
others =
    evt_observed (evt_of 4 0) (some 200) 0
    ∷ snapshots_asked none 300
    ∷ stat_observed (stat_of 5 1) none 400
    ∷ []

others-IsQuiet : All (IsQuiet ops 3) others
others-IsQuiet = (λ e. omega (arith, e), (tt, (λ e. omega (arith, e), tt)))

seen_at : seen_node.last_seen_pc_ts ≡ some 100
unfolding evt_seen apply_status_evaluation apply_evaluation update_seq_loss
    append_status_transition_event append_event
seen_at = refl

silence_is_offline_example :
    (s : NodeSnapshot ℕ) × ((get_node_snapshot ops
        (play_each ops others seen_once)
        3
        (some 8100)
        0).0
      ≡ some s)
    × ((s.status ≡ offline) ↔ (leb 8000 (age ops 8100 100) ≡ true))
silence_is_offline_example =
    silence_is_offline ops 3 100 8100 0 others seen_once seen_node refl seen_at others-IsQuiet

config_accepted : post_init ops config ≡ ok config
unfolding post_init
config_accepted = refl

play_each-IsSound_example :
    IsSound (play_each ops others (init ops config))
    × CountsAll ops (get_summary ops (play_each ops others (init ops config)) none 500)
    × (length (get_summary ops (play_each ops others (init ops config)) none 500).1.nodes
        ≡ length (play_each ops others (init ops config)).nodes)
play_each-IsSound_example = play_each-IsSound ops config config others none 500 config_accepted
