-- ===== src/Mbooster/Heartbeat.antt =====
-- sim/engines/mbooster.py: `_host_heartbeat`, the host's block of lines, rebuilt from the topology.
use moza_simulator.Base.{
  ℕ, ℕ-key, List, Bool, ◌∷◌, ◌++◌, Option, if◌then◌else◌, ◌||◌, [], true, none, false, not, drop,
  some, ◌==◌, ◌+◌, map, concat,
}
use moza_simulator.Base.Dict.{Dict, lookup, insert}
use moza_simulator.Standalone.{contains, is_empty}
use moza_simulator.Mbooster.Texts.{starts_with, occurs, split_once}
use moza_simulator.Identity.{Text, get_else}
use moza_simulator.Profile.Devices.{text}
use moza_simulator.Mbooster.{PedalUnit, role_in, online, role_letters, channel_reg, role_names}

-- `DEG` and `PD_SENTINEL_MIN`
abbrev pub deg : Text
deg = 0xC2 ∷ 0xB0 ∷ []

abbrev pub pd_sentinel_min : Text
pd_sentinel_min = text "65535.00000"

-- What the block says of a role: its lines, whether it is linked, and whether it is on the host.
pub record RoleReport : Type 0 where
  pub lines : List Text
  pub linked : Bool
  pub local : Bool

-- `channel_of_role`, from a channel on: an earlier channel keeps its role.
unfoldable pub channels_of_roles : List ℕ → PedalUnit → Dict ℕ ℕ → Dict ℕ ℕ
unfolding role_in
channels_of_roles [] h d = d
channels_of_roles (c ∷ cs) h d =
    let r = get_else (role_in (channel_reg c h)) c in
    channels_of_roles cs h (elim (lookup r d) [ none ↦ insert r c d | some old ↦ d ])

unfoldable pub lines_starting : Text → List Text → List Text
unfolding starts_with
lines_starting p [] = []
lines_starting p (ln ∷ lines) =
    let rest = lines_starting p lines in if starts_with p ln then ln ∷ rest else rest

-- The link statistics of a chained pedal: the captured lines, or three by default.
unfoldable pub link_lines : Text → List Text → List Text
unfolding lines_starting
link_lines name tpl =
    let captured = lines_starting (name ++ text " M") tpl in
    if is_empty captured
    then (name ++ text " Mean Loss Rate : 0.00000 (%)")
      ∷ (name ++ text " Max Loss  Rate : 1.00000 (%)")
      ∷ (name ++ text " Max Recv  Gap  : 10.00000 (ms)")
      ∷ []
    else captured

unfoldable pub active_report : Text → Bool → List Text → RoleReport
active_report name on_host statistics = record {
  lines = (name ++ text " pedal is connected, type: active pedal") ∷ statistics;
  linked = true;
  local = on_host;
}

unfoldable pub passive_report : Text → RoleReport
passive_report name = record {
  lines = (name ++ text " pedal is connected, type: passive pedal") ∷ [];
  linked = true;
  local = true;
}

unfoldable pub absent_report : Text → RoleReport
absent_report name = record {
  lines = (name ++ text " pedal is not connected !") ∷ [];
  linked = false;
  local = false;
}

-- The first chained unit, if there is one, is the link of channel 0.
unfoldable pub link_of : ℕ → List PedalUnit → Option PedalUnit
link_of c [] = none
link_of c (u ∷ units) = if c == 0 then some u else none

unfoldable pub linked_report : ℕ → List Text → Text → PedalUnit → RoleReport
unfolding online link_lines active_report absent_report
linked_report now tpl name link =
    if online now link then active_report name false (link_lines name tpl) else absent_report name

unfoldable pub role_report : ℕ → List ℕ → List Text → List PedalUnit → Text → Option ℕ → RoleReport
unfolding active_report passive_report absent_report link_of linked_report contains
role_report now passive tpl units name none = absent_report name
role_report now passive tpl units name (some c) =
    if c == 1 then active_report name true [] else elim (link_of c units) [
      | some link ↦ linked_report now tpl name link
      | none ↦ if contains c passive then passive_report name else absent_report name
    ]

-- The reports of the roles, from one on.
unfoldable pub role_reports :
    ℕ → List ℕ → List Text → List PedalUnit → Dict ℕ ℕ → ℕ → List Text → List RoleReport
unfolding role_report
role_reports now passive tpl units channels r [] = []
role_reports now passive tpl units channels r (name ∷ names) =
    role_report now passive tpl units name (lookup r channels)
    ∷ role_reports now passive tpl units channels (r + 1) names

unfoldable pub is_role_line : Text → Bool
unfolding occurs
is_role_line ln =
    occurs (text " pedal is ") ln
    || occurs (text "Loss Rate") ln
    || occurs (text "Loss  Rate") ln
    || occurs (text "Recv  Gap") ln

unfoldable pub plain_lines : List Text → List (Text × Bool)
unfolding is_role_line
plain_lines [] = []
plain_lines (ln ∷ lines) =
    let rest = plain_lines lines in if is_role_line ln then rest else (ln, false) ∷ rest

-- The role lines give way to one block, at the place of the first.
unfoldable pub place_block : List Text → List Text → List (Text × Bool)
unfolding is_role_line plain_lines
place_block block [] = []
place_block block (ln ∷ lines) =
    let kept = place_block block lines in
    if is_role_line ln then map (λ b. (b, true)) block ++ plain_lines lines else (ln, false) ∷ kept

-- `"PD Linked:[" + … + "]"`
unfoldable pub linked_items : Text → List RoleReport → Text
linked_items letters [] = []
linked_items [] (r ∷ reports) = []
linked_items (l ∷ letters) (r ∷ reports) =
    let rest = linked_items letters reports in
    let item = l ∷ 32 ∷ (if r.linked then 49 else 48) ∷ [] in
    if is_empty reports then item else item ++ 32 ∷ rest

unfoldable pub linked_line : List RoleReport → Text
unfolding linked_items
linked_line reports = text "PD Linked:[" ++ linked_items role_letters reports ++ text "]"

-- The minimum of a role: the sentinel where the pedal is not on the host, and 0 in its place where
-- it is.
unfoldable pub shown_min : Bool → Text → Text
unfolding starts_with
shown_min on_host cur =
    if not on_host
    then pd_sentinel_min ++ deg
    else if starts_with pd_sentinel_min cur
    then text "0.00000" ++ deg
    else cur

-- Whether the role of a letter is on the host; none where it is no letter of a role.
unfoldable pub local_of : ℕ → Text → List RoleReport → Option Bool
local_of l [] reports = none
local_of l (k ∷ letters) [] = if l == k then some false else local_of l letters []
local_of l (k ∷ letters) (r ∷ reports) =
    let rest = local_of l letters reports in if l == k then some r.local else rest

-- A line of the angles of a role; the 10 code points in front of the minimum are left out.
unfoldable pub angle_line : ℕ → Bool → Text → Text → Text
unfolding shown_min
angle_line l on_host head rest =
    l ∷ text "-PD:[min " ++ shown_min on_host (drop 10 head) ++ text " max " ++ rest

unfoldable pub template_line : List RoleReport → Text → Text
unfolding starts_with linked_line local_of split_once angle_line
template_line reports [] = []
template_line reports (l ∷ ln) =
    if starts_with (text "PD Linked:") (l ∷ ln)
    then linked_line reports
    else if starts_with (text "-PD:[") ln
    then elim (local_of l role_letters reports) [
      | none ↦ l ∷ ln
      | some on_host ↦ elim (split_once (text " max ") (l ∷ ln)) [
        | none ↦ l ∷ ln
        | some (head, rest) ↦ angle_line l on_host head rest
      ]
    ]
    else l ∷ ln

unfoldable pub block_lines : List RoleReport → List (Text × Bool) → List Text
unfolding template_line
block_lines reports [] = []
block_lines reports ((ln, built) ∷ lines) =
    (if built then ln else template_line reports ln) ∷ block_lines reports lines

unfoldable pub host_heartbeat : ℕ → List ℕ → List PedalUnit → PedalUnit → List Text
unfolding channels_of_roles role_reports place_block block_lines
host_heartbeat now passive units h =
    let reports =
      role_reports now passive h.heartbeat units (channels_of_roles (0 ∷ 1 ∷ 2 ∷ []) h []) 0
        role_names in
    block_lines reports
      (place_block (concat (map (λ (r : RoleReport). r.lines) reports)) h.heartbeat)
