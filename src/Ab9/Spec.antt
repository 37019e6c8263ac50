-- ===== src/Ab9/Spec.antt =====
-- What the shifter promises, without its diagnostics: a table of settings and a list of effects.
use moza_simulator.Base.{
  ℕ, ◌+◌, List, [], ◌∷◌, ◌++◌, Option, none, some, Bytes, take, length, ◌==◌, if◌then◌else◌, map,
  ℕ-key, ◌%◌, ◌≡◌,
}
use moza_simulator.Base.Raise.{ok}
use moza_simulator.Base.Dict.{lookup}
use moza_simulator.Standalone.{Replies, contains}
use moza_simulator.Ab9.{Ab9, ab9_reply, dev_ab9}
use moza_simulator.Ab9.Handlers.{writable, value_bytes}

-- The setting of each command, and the types of the effects, in the order of their slots.
pub record Shifter : Type 0 where
  pub values : ℕ → Option ℕ
  pub slots : List ℕ

pub data Request : Type 0 where
  read_setting : ℕ → Request
  set_setting : ℕ → ℕ → Request
  allocate : ℕ → Request
  other : Request

unfoldable pub read_request : Bytes → Request
read_request (cmd ∷ rest) = read_setting cmd
read_request [] = other

unfoldable pub write_request : Bytes → Request
write_request (cmd ∷ value ∷ []) = set_setting cmd value
write_request (cmd ∷ lo ∷ value ∷ rest) =
    if contains cmd writable then set_setting cmd value else other
write_request _ = other

unfoldable pub ffb_request : Bytes → Request
ffb_request (sub ∷ effect_type ∷ rest) = if sub == 0x07 then allocate effect_type else other
ffb_request _ = other

unfoldable pub request_in : ℕ → Bytes → Request
unfolding read_request write_request ffb_request
request_in group payload =
    if group == 0x1E
    then read_request payload
    else if group == 0x1F
    then write_request payload
    else if group == 0x20
    then ffb_request payload
    else other

-- The request that a frame makes of the shifter.
unfoldable pub request_of : Bytes → Request
unfolding request_in
request_of (start ∷ n ∷ group ∷ dev ∷ body) =
    if dev == dev_ab9 then request_in group (take n body) else other
request_of _ = other

unfoldable pub step : Request → Shifter → Shifter
step (set_setting cmd value) a = record a {
  values = λ k. if cmd == k then some value else a.values k;
}
step (allocate effect_type) a = record a { slots = a.slots ++ effect_type ∷ [] }
step _ a = a

unfoldable pub read_reply : ℕ → Option ℕ → Replies
read_reply cmd none = ok []
read_reply cmd (some val) = ab9_reply 0x1E (cmd ∷ value_bytes cmd val)

-- The replies that the table and the list decide: to reads and to allocations.
unfoldable pub promised : Request → Shifter → Option Replies
unfolding read_reply
promised (read_setting cmd) a = some (read_reply cmd (a.values cmd))
promised (allocate effect_type) a = some (ab9_reply 0x20 (0x07 ∷ (length a.slots + 1) % 256 ∷ []))
promised _ a = none

-- The reply is the promised one, where one is promised.
abbrev pub Keeps : Option Replies → Replies → Type 0
Keeps none reply = Unit
Keeps (some expected) reply = reply ≡ expected

unfoldable pub shifter : Ab9 → Shifter
shifter s = record { values = λ k. lookup k s.settings; slots = map (λ (e : ℕ × ℕ). e.1) s.effects }
