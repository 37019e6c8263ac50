-- ===== src/Standalone.antt =====
-- sim/engines/standalone.py: `StandaloneSimulator`, the engine of a device with a USB gadget of its
-- own. `X` is what a subclass adds to the state, and `Hook` its `_device_specific`. A handler
-- returns the new state and the replies, or the exception that `build_frame` raised.
-- `recent_frames` holds the frames themselves, where the program holds their hex text, and the key
-- of `unhandled_counts` the first two payload bytes.
pub mod Outcome
pub mod Answers
pub mod Accounting
pub mod Settings
pub mod Setup
pub mod Safety
pub mod Loop
use moza_simulator.Base.{
  ℕ, zero, suc, ◌+◌, ◌-◌, ◌*◌, ◌≤◌, List, [], ◌∷◌, ◌++◌, Option, none, some, Bytes, length, take,
  drop, bit_or, String, Bool, true, false, ◌&&◌, ◌||◌, not, Key, ◌==◌, if◌then◌else◌, bytes_eqb,
  Bytes-key, ℕ-key, pair-key, String-key,
}
use moza_simulator.Base.Raise.{Result, ok, err, ◌>>=◌, map_result}
use moza_simulator.Base.Dict.{Dict, lookup, insert, update}
use moza_simulator.Wire.{verify, build_frame, swap_nibbles}
use moza_simulator.Identity.{ProbeKey, Ident, has_ident, build_device_identity, get_else}
use moza_simulator.Profile.{DeviceBlock, DeviceProfile}

-- `_RECENT`
abbrev pub recent_size : ℕ
recent_size = 2000

pub record Sim (X : Type 0) : Type 0 where
  pub identity : Dict ProbeKey Bytes
  pub present : List ℕ
  pub settings_groups : Dict ℕ (List ℕ)
  pub absorb_groups : Dict ℕ (List ℕ)
  pub stored : Dict (ℕ × ℕ) Bytes
  pub frames_total : ℕ
  pub unhandled_counts : Dict (ℕ × (ℕ × Bytes)) ℕ
  pub cat_counts : Dict String ℕ
  pub recent_frames : List (String × Bytes)
  pub last_handler_tag : String
  pub engine : X

abbrev pub Replies : Type 0
Replies = Result (List Bytes)

abbrev pub Hook : Type 0 → Type 0
Hook X = Sim X → Bytes → ℕ → ℕ → Bytes → Sim X × Option Replies

-- `x in xs`
unfoldable pub contains : ℕ → List ℕ → Bool
contains x [] = false
contains x (y ∷ ys) = (y == x) || contains x ys

-- `groups and group in groups`
unfoldable pub in_groups : ℕ → Option (List ℕ) → Bool
unfolding contains
in_groups group none = false
in_groups group (some groups) = contains group groups

abbrev pub is_empty {ℓ} : {A : Type ℓ} → List A → Bool
is_empty [] = true
is_empty (x ∷ xs) = false

-- `[build_frame(group, device, payload)]`
unfoldable pub answer : ℕ → ℕ → Bytes → Replies
answer group device payload = map_result (λ f. f ∷ []) (build_frame group device payload)

-- `deque.append` with `maxlen`: the oldest entry drops out.
unfoldable pub push_recent : String × Bytes → List (String × Bytes) → List (String × Bytes)
push_recent x xs = let all = xs ++ x ∷ [] in drop (length all - recent_size) all

-- `counts[k] = counts.get(k, 0) + 1`
unfoldable pub bump {ℓ} : {K : Type ℓ} ⦃e : Key K⦄ → K → Dict K ℕ → Dict K ℕ
bump k counts = insert k (get_else (lookup k counts) 0 + 1) counts

module _ {X : Type 0} where
  unfoldable pub record_frame : String → Bytes → Sim X → Sim X
  record_frame tag frame s = record s {
    last_handler_tag = tag;
    cat_counts = bump tag s.cat_counts;
    recent_frames = push_recent (tag, frame) s.recent_frames;
  }

  unfoldable pub record_unhandled : Bytes → ℕ → ℕ → Bytes → Sim X → Sim X
  record_unhandled frame group device payload s = record s {
    unhandled_counts = bump (group, (device, take 2 payload)) s.unhandled_counts;
    recent_frames = push_recent ("unhandled", frame) s.recent_frames;
  }

  -- `self._stored[(device, payload[0])] = payload[1:]` under `if payload`
  unfoldable pub store_setting : ℕ → Bytes → Sim X → Sim X
  store_setting device [] s = s
  store_setting device (cmd ∷ value) s = record s { stored = insert (device, cmd) value s.stored }

  unfoldable pub handle_settings_write : Sim X → Bytes → ℕ → ℕ → Bytes → Sim X × Replies
  unfolding store_setting record_frame
  handle_settings_write s frame group device payload = (
    record_frame "settings_write" frame (store_setting device payload s),
    answer (bit_or group 0x80) (swap_nibbles device) payload,
  )

  -- The value that a read of `cmd` returns.
  unfoldable pub stored_value : Sim X → ℕ → ℕ → Bytes
  stored_value s device cmd = get_else (lookup (device, cmd) s.stored) (0x00 ∷ 0x00 ∷ [])

  unfoldable pub settings_reply : Sim X → Bytes → ℕ → ℕ → Bytes → Option (Sim X × Replies)
  unfolding stored_value record_frame
  settings_reply s frame group device [] = none
  settings_reply s frame group device (cmd ∷ rest) = some (
    record_frame "settings_read" frame s,
    answer (bit_or group 0x80) (swap_nibbles device) (cmd ∷ stored_value s device cmd),
  )

  unfoldable pub handle_settings_read : Sim X → Bytes → ℕ → ℕ → Bytes → Option (Sim X × Replies)
  unfolding settings_reply in_groups
  handle_settings_read s frame group device payload =
      if in_groups (group + 1) (lookup device s.settings_groups)
      then settings_reply s frame group device payload
      else none

  -- Step 6, and what no handler claims.
  unfoldable pub handle_rest : Sim X → Bytes → ℕ → ℕ → Bytes → Sim X × Replies
  unfolding record_frame record_unhandled in_groups
  handle_rest s frame group device payload =
      if in_groups group (lookup device s.absorb_groups)
      then (record_frame "absorb" frame s, ok [])
      else (record_unhandled frame group device payload s, ok [])

  -- Steps 5 and 6.
  unfoldable pub handle_settings : Sim X → Bytes → ℕ → ℕ → Bytes → Sim X × Replies
  unfolding handle_settings_write handle_settings_read handle_rest in_groups
  handle_settings s frame group device payload =
      if in_groups group (lookup device s.settings_groups)
      then handle_settings_write s frame group device payload
      else elim (handle_settings_read s frame group device payload) [
        | some done ↦ done
        | none ↦ handle_rest s frame group device payload
      ]

  -- Steps 4 to 6.
  unfoldable pub handle_identity : Sim X → Bytes → ℕ → ℕ → Bytes → Sim X × Replies
  unfolding handle_settings record_frame
  handle_identity s frame group device payload =
      elim (lookup (device, (group, payload)) s.identity) [
        | some idr ↦
            (record_frame "identity" frame s, answer (bit_or group 0x80) (swap_nibbles device) idr)
        | none ↦ handle_settings s frame group device payload
      ]

  -- Steps 2 and 3: only a device that is present answers.
  unfoldable pub acknowledge : Sim X → String → Bytes → ℕ → Replies → Sim X × Replies
  unfolding record_frame contains
  acknowledge s tag frame device reply =
      if contains device s.present then (record_frame tag frame s, reply) else (s, ok [])

  -- Steps 2 to 6.
  unfoldable pub handle_generic : Sim X → Bytes → ℕ → ℕ → Bytes → Sim X × Replies
  unfolding acknowledge handle_identity
  handle_generic s frame group device payload =
      if group == 0x00 && is_empty payload
      then acknowledge s "heartbeat" frame device (answer 0x80 (swap_nibbles device) [])
      else if group == 0x43 && bytes_eqb payload (0x00 ∷ [])
      then acknowledge s "keepalive_43" frame device (answer 0xC3 (swap_nibbles device) (0x80 ∷ []))
      else handle_identity s frame group device payload

  -- Step 1: where the hook has no answer, the generic steps go on from its state.
  unfoldable pub after_hook : Bytes → ℕ → ℕ → Bytes → Sim X × Option Replies → Sim X × Replies
  unfolding handle_generic
  after_hook frame group device payload (s, some replies) = (s, replies)
  after_hook frame group device payload (s, none) = handle_generic s frame group device payload

  abbrev pub count_frame : Sim X → Sim X
  count_frame s = record s { frames_total = s.frames_total + 1 }

  -- `handle`: the payload is `frame[4:4 + frame[1]]`.
  unfoldable pub handle : Hook X → Sim X → Bytes → Sim X × Replies
  unfolding after_hook
  handle hook s (start ∷ n ∷ group ∷ device ∷ body) =
      let frame = start ∷ n ∷ group ∷ device ∷ body in
      let payload = take n body in
      if verify frame
      then after_hook frame group device payload (hook (count_frame s) frame group device payload)
      else (s, ok [])
  handle hook s _ = (s, ok [])

  -- `_device_specific` of `StandaloneSimulator` itself.
  unfoldable pub no_hook : Hook X
  no_hook s frame group device payload = (s, none)

-- `__init__`: what one block adds. The three writes are named apart.
unfoldable pub add_present : {X : Type 0} → DeviceBlock → Sim X → Sim X
unfolding contains
add_present b s =
    if b.present && not (contains b.address s.present)
    then record s { present = s.present ++ b.address ∷ [] }
    else s

unfoldable pub add_identity : {X : Type 0} → DeviceBlock → Sim X → Result (Sim X)
add_identity b s =
    if b.answers_identity && has_ident b.ident
    then map_result (λ t. record s { identity = update s.identity t })
        (build_device_identity b.address b.ident)
    else ok s

unfoldable pub add_groups : {X : Type 0} → DeviceBlock → Sim X → Sim X
add_groups b s = record s {
  settings_groups =
      if is_empty b.echo_write_groups
      then s.settings_groups
      else insert b.address b.echo_write_groups s.settings_groups;
  absorb_groups =
      if is_empty b.absorb_groups
      then s.absorb_groups
      else insert b.address b.absorb_groups s.absorb_groups;
}

unfoldable pub add_block : {X : Type 0} → Sim X → DeviceBlock → Result (Sim X)
unfolding add_present add_identity add_groups
add_block s b = do t ← add_identity b (add_present b s); ok (add_groups b t)

unfoldable pub add_blocks : {X : Type 0} → Sim X → List DeviceBlock → Result (Sim X)
unfolding add_block
add_blocks s [] = ok s
add_blocks s (b ∷ blocks) = add_block s b >>= λ t. add_blocks t blocks

abbrev pub blank : {X : Type 0} → X → Sim X
blank x = record {
  identity = [];
  present = [];
  settings_groups = [];
  absorb_groups = [];
  stored = [];
  frames_total = 0;
  unhandled_counts = [];
  cat_counts = [];
  recent_frames = [];
  last_handler_tag = "";
  engine = x;
}

unfoldable pub init : {X : Type 0} → X → DeviceProfile → Result (Sim X)
unfolding add_blocks
init x profile = add_blocks (blank x) profile.blocks
