-- ===== src/Wheel.antt =====
-- sim/wheel_sim.py, `WheelSimulator`: the state that its dispatch chain reads and writes, and the
-- recording of frames. `X` is the state of the session handler `_handle_wheel`, which is a
-- parameter of the chain. `recent_frames` and `last_frame` hold the frames themselves, where the
-- program holds their hex text; the keys and values of a parameter table are bytes, too.
pub mod Tables
pub mod Handlers
pub mod Dispatch
pub mod Tried
pub mod Routes
pub mod Led
pub mod Verified
pub mod ActiveDash
use moza_simulator.Base.{
  ℕ, ◌+◌, List, [], ◌∷◌, ◌++◌, Option, none, some, Bytes, take, String, ℕ-key, pair-key, Bytes-key,
  String-key,
}
use moza_simulator.Base.Raise.{Result}
use moza_simulator.Base.Dict.{Dict, lookup, insert}
use moza_simulator.Identity.{ProbeKey, get_else}
use moza_simulator.Standalone.{Replies, bump, answer}

-- Group, device and payload or payload prefix.
abbrev pub RequestKey : Type 0
RequestKey = ℕ × (ℕ × Bytes)

-- `_RECENT_FRAME_RING_SIZE`
abbrev pub recent_frame_ring_size : ℕ
recent_frame_ring_size = 2000

pub record Wheel (X : Type 0) : Type 0 where
  pub wheel_device : ℕ
  pub wheel_device_rsp : ℕ
  pub plugin_probe_rsp : Dict RequestKey Bytes
  pub pithouse_id_rsp : Dict (ℕ × Bytes) Bytes
  pub device_id_rsp : Dict ProbeKey Bytes
  pub param_0e_tables : Dict ℕ (Dict Bytes Bytes)
  pub settings_echo : Dict ℕ (List ℕ)
  pub absorb : Dict ℕ (List ℕ)
  pub simulated_devices : List ℕ
  pub replay : Option (Dict RequestKey Bytes)
  pub annotate : ℕ → ℕ → Bytes → String
  pub active_dash_index : ℕ
  pub active_dash_pages : ℕ
  pub rpm_led_mask : ℕ
  pub button_led_mask : ℕ
  pub frames_total : ℕ
  pub replay_hits : ℕ
  pub cat_counts : Dict String ℕ
  pub last_frame : Bytes
  pub last_handler_tag : String
  pub recent_frames : List (String × Bytes)
  pub unhandled_counts : Dict RequestKey ℕ
  pub unhandled_labels : Dict RequestKey String
  pub unhandled_total : ℕ
  pub last_unhandled : Option RequestKey
  pub last_unhandled_label : String
  pub pending_sends : List Bytes
  pub engine : X

-- `setdefault`
unfoldable pub label_once : RequestKey → String → Dict RequestKey String → Dict RequestKey String
label_once key label labels = insert key (get_else (lookup key labels) label) labels

module _ {X : Type 0} where
  -- `_record`: `appendleft` on a `deque` with `maxlen`.
  unfoldable pub record_tagged : String → Bytes → Wheel X → Wheel X
  record_tagged tag frame s = record s {
    cat_counts = bump tag s.cat_counts;
    last_frame = frame;
    last_handler_tag = tag;
    recent_frames = take recent_frame_ring_size ((tag, frame) ∷ s.recent_frames);
  }

  -- `_record_unhandled`, where `payload[:2]` is the part of the key that names the command.
  unfoldable pub record_gap : Bytes → ℕ → ℕ → Bytes → Wheel X → Wheel X
  unfolding record_tagged label_once
  record_gap frame group device payload s =
      let key : RequestKey = (group, (device, take 2 payload)) in
      let label = s.annotate group device payload in
      let t : Wheel X = record s {
        unhandled_counts = bump key s.unhandled_counts;
        unhandled_labels = label_once key label s.unhandled_labels;
        unhandled_total = s.unhandled_total + 1;
        last_unhandled = some key;
        last_unhandled_label = label;
      } in
      record_tagged "unhandled" frame t
