-- ===== src/Ab9/Handlers.antt =====
-- sim/ab9_sim.py: `Ab9Simulator.handle` and its handlers by group.
use moza_simulator.Base.{
  ℕ, ◌+◌, ◌/◌, ◌%◌, List, [], ◌∷◌, none, some, Bytes, String, take, drop, get_or, ◌==◌,
  if◌then◌else◌, ℕ-key, pair-key, Bytes-key,
}
use moza_simulator.Base.Raise.{ok, ◌>>=◌}
use moza_simulator.Base.Dict.{Dict, lookup, insert}
use moza_simulator.Identity.{Text, get_else}
use moza_simulator.Standalone.{Replies, contains, bump}
use moza_simulator.Ab9.{Ab9, tag_frame, ab9_reply, id_field, dev_ab9}
use moza_simulator.Ab9.Tables.{read_val_size}

abbrev pub Ab9Handler : Type 0
Ab9Handler = Ab9 → Bytes → Ab9 × Replies

abbrev pub tagged : String → Bytes → Replies → Ab9 → Ab9 × Replies
tagged name parts reply s = (tag_frame (name, parts) s, reply)

unfoldable pub h_heartbeat : Ab9Handler
h_heartbeat s payload = tagged "heartbeat" [] (ab9_reply 0x00 []) s

unfoldable pub h_id_02 : Ab9Handler
h_id_02 s payload = tagged "id_02" [] (ab9_reply 0x02 s.identity.id_02) s

unfoldable pub h_id_04 : Ab9Handler
h_id_04 s payload = tagged "id_04" [] (ab9_reply 0x04 s.identity.id_04) s

unfoldable pub h_id_05 : Ab9Handler
h_id_05 s payload = tagged "id_05" [] (ab9_reply 0x05 s.identity.id_05) s

unfoldable pub h_id_06 : Ab9Handler
h_id_06 s payload = tagged "id_06_serial" [] (ab9_reply 0x06 s.identity.id_06) s

-- A reply with an identity field.
unfoldable pub field_reply : ℕ → ℕ → Text → Replies
field_reply group slot s = do body ← id_field slot s; ab9_reply group body

unfoldable pub h_id_07 : Ab9Handler
h_id_07 s payload =
    tagged "id_07_name" [] (field_reply 0x07 (get_or payload 0 0x01) s.identity.name) s

unfoldable pub h_id_08 : Ab9Handler
h_id_08 s payload =
    let slot = get_or payload 0 0x01 in
    if slot == 0x02
    then tagged "id_08_hw_sub" [] (field_reply 0x08 slot s.identity.hw_sub) s
    else tagged "id_08_hw" [] (field_reply 0x08 slot s.identity.hw_version) s

unfoldable pub h_id_09 : Ab9Handler
h_id_09 s payload = tagged "id_09_presence" [] (ab9_reply 0x09 s.identity.id_09) s

unfoldable pub h_id_0f : Ab9Handler
h_id_0f s payload =
    tagged "id_0f_sw" [] (field_reply 0x0F (get_or payload 0 0x01) s.identity.sw_version) s

unfoldable pub h_id_10 : Ab9Handler
h_id_10 s payload =
    let slot = get_or payload 0 0x00 in
    tagged "id_10_hash" (slot ∷ [])
      (field_reply 0x10 slot (if slot == 0x01 then s.identity.hash1 else s.identity.hash0)) s

unfoldable pub h_id_11 : Ab9Handler
h_id_11 s payload =
    tagged "id_11" [] (ab9_reply 0x11 (get_or payload 0 0x04 ∷ drop 1 s.identity.identity_11)) s

-- The bytes of a stored value on the wire.
unfoldable pub value_bytes : ℕ → ℕ → Bytes
value_bytes cmd val =
    if get_else (lookup cmd read_val_size) 2 == 1
    then val % 256 ∷ []
    else val / 256 % 256 ∷ val % 256 ∷ []

unfoldable pub h_read : Ab9Handler
unfolding value_bytes
h_read s [] = tagged "drop:read_empty" [] (ok []) s
h_read s (cmd ∷ rest) = elim (lookup cmd s.settings) [
  | none ↦ tagged "drop:read_" (cmd ∷ []) (ok []) s
  | some val ↦ tagged "read_" (cmd ∷ []) (ab9_reply 0x1E (cmd ∷ value_bytes cmd val)) s
]

-- The commands of the three-byte form of a write.
abbrev pub writable : List ℕ
writable = 0xA9 ∷ 0xAF ∷ 0xB0 ∷ 0xB2 ∷ 0xD3 ∷ 0xD6 ∷ []

-- `self.settings[cmd] = value`
unfoldable pub put_setting : ℕ → ℕ → Ab9 → Ab9
put_setting cmd value s = record s { settings = insert cmd value s.settings }

unfoldable pub h_write : Ab9Handler
unfolding put_setting contains
h_write s (cmd ∷ value ∷ []) =
    tagged "write_" (cmd ∷ []) (ab9_reply 0x1F []) (put_setting cmd value s)
h_write s (cmd_hi ∷ cmd_lo ∷ value ∷ rest) =
    let reply = ab9_reply 0x1F (cmd_hi ∷ cmd_lo ∷ value ∷ []) in
    if contains cmd_hi writable
    then tagged "write_" (cmd_hi ∷ []) reply (put_setting cmd_hi value s)
    else tagged "write_unknown_" (cmd_hi ∷ []) reply s
h_write s _ = tagged "drop:write_short" [] (ok []) s

-- The new slot of an effect type.
unfoldable pub allocate_effect : ℕ → Ab9 → Ab9
allocate_effect effect_type s =
    let index = s.next_effect_index + 1 in
    record s { next_effect_index = index; effects = insert index effect_type s.effects }

-- The sub-commands of one byte, and the others.
unfoldable pub ffb_single : Ab9 → ℕ → Ab9 × Replies
ffb_single s sub =
    if sub == 0x0E
    then tagged "ffb_init" [] (ab9_reply 0x20 []) s
    else if sub == 0x13
    then tagged "ffb_commit" [] (ab9_reply 0x20 []) s
    else tagged "ffb_sub_" (sub ∷ []) (ab9_reply 0x20 []) s

-- The sub-commands with a second byte.
unfoldable pub ffb_pair : Ab9 → ℕ → ℕ → Ab9 × Replies
unfolding contains ffb_single
ffb_pair s sub sub_lo =
    if contains sub (0x0A ∷ 0x0B ∷ 0x0D ∷ 0x08 ∷ [])
    then tagged "ffb_" (sub ∷ sub_lo ∷ []) (ab9_reply 0x20 []) s
    else ffb_single s sub

unfoldable pub h_ffb : Ab9Handler
unfolding allocate_effect ffb_pair
h_ffb s [] = tagged "ffb_empty" [] (ab9_reply 0x20 []) s
h_ffb s (sub ∷ []) = ffb_single s sub
h_ffb s (sub ∷ effect_type ∷ rest) =
    if sub == 0x07
    then tagged "ffb_alloc" [] (ab9_reply 0x20 (0x07 ∷ (s.next_effect_index + 1) % 256 ∷ []))
        (allocate_effect effect_type s)
    else ffb_pair s sub effect_type

-- `_dispatch`
unfoldable pub ab9_dispatch : Dict ℕ Ab9Handler
ab9_dispatch =
    (0x00, h_heartbeat)
    ∷ (0x02, h_id_02)
    ∷ (0x04, h_id_04)
    ∷ (0x05, h_id_05)
    ∷ (0x06, h_id_06)
    ∷ (0x07, h_id_07)
    ∷ (0x08, h_id_08)
    ∷ (0x09, h_id_09)
    ∷ (0x0F, h_id_0f)
    ∷ (0x10, h_id_10)
    ∷ (0x11, h_id_11)
    ∷ (0x1E, h_read)
    ∷ (0x1F, h_write)
    ∷ (0x20, h_ffb)
    ∷ []

unfoldable pub count_unhandled : ℕ → ℕ → Bytes → Ab9 → Ab9
count_unhandled group dev payload s = record s {
  unhandled_counts = bump (group, (dev, take 4 payload)) s.unhandled_counts;
}

-- The part of `handle` behind the device filter.
unfoldable pub handle_addressed : Ab9 → ℕ → ℕ → Bytes → Ab9 × Replies
unfolding ab9_dispatch count_unhandled
handle_addressed s group dev payload = elim (lookup group ab9_dispatch) [
  | some handler ↦ handler s payload
  | none ↦ (count_unhandled group dev payload (tag_frame ("drop:grp_", group ∷ []) s), ok [])
]

-- `handle`; the payload is `frame[4:4 + frame[1]]`.
unfoldable pub ab9_handle : Ab9 → Bytes → Ab9 × Replies
unfolding handle_addressed
ab9_handle s (start ∷ n ∷ group ∷ dev ∷ body) =
    if dev == dev_ab9
    then handle_addressed s group dev (take n body)
    else tagged "drop:dev_" (dev ∷ []) (ok []) s
ab9_handle s _ = tagged "drop:short_frame" [] (ok []) s
