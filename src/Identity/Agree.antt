-- ===== src/Identity/Agree.antt =====
-- The two paths on which a wheel is asked for its identity.
use moza_simulator.Base.{
  ℕ, ◌≡◌, refl, ◌∙◌, List, [], ◌∷◌, Option, none, some, Bytes, false, ==_refl, ◌==◌, pair-key,
  ℕ-key, Bytes-key, All,
}
use moza_simulator.Base.Raise.{Result, ok, err, map_result, Ensures, Ensures-bind, Ensures-ok}
use moza_simulator.Base.Dict.{Dict, lookup, insert, update, lookup-insert}
use moza_simulator.Identity.{ProbeKey, get_else}
use moza_simulator.Identity.Tables.{
  Display, WheelModel, PluginTable, WheelTable, WheelTexts, wheel_texts, plugin_entries,
  display_entries, DisplayTexts, display_texts, display_rows, optional_display, wheel_entries,
  optional_identity, build_identity_tables,
}

-- The group and the command of each identity read: name, versions and serial numbers.
abbrev pub identity_reads : List (ℕ × ℕ)
identity_reads =
    (0x07, 0x01) ∷ (0x0F, 0x01) ∷ (0x08, 0x01) ∷ (0x08, 0x02) ∷ (0x10, 0x00) ∷ (0x10, 0x01) ∷ []

-- Both tables know the read, and the plugin's answer is the command and the other answer.
abbrev pub Agrees : ℕ → PluginTable → WheelTable → ℕ × ℕ → Type 0
Agrees wheel_dev plugin wheel (group, cmd) =
    (value : Bytes) × (lookup (group, cmd ∷ []) wheel ≡ some value)
    × (lookup (group, (wheel_dev, cmd ∷ [])) plugin ≡ some (cmd ∷ value))

abbrev ForDisplay : PluginTable → Type 0
ForDisplay = All (λ e. e.0.0 ≡ 0x43)

display_entries-ForDisplay : (disp : Display) → Ensures ForDisplay (display_entries disp)
unfolding display_entries display_rows
display_entries-ForDisplay disp = rows (display_texts disp)
  where
    rows : (m : Result DisplayTexts) → Ensures ForDisplay (map_result display_rows m)
    rows (ok t) = (
      refl,
      (
        refl,
        (
          refl,
          (
            refl,
            (
              refl,
              (
                refl,
                (
                  refl,
                  (
                    refl,
                    (refl, (refl, (refl, (refl, (refl, (refl, (refl, (refl, (refl, tt))))))))),
                  ),
                ),
              ),
            ),
          ),
        ),
      ),
    )
    rows (err e) = tt

optional_display-ForDisplay : (o : Option Display) → Ensures ForDisplay (optional_display o)
optional_display-ForDisplay none = tt
optional_display-ForDisplay (some disp) = display_entries-ForDisplay disp

lookup-update_other :
    (group : ℕ) (rest : ℕ × Bytes) (d shown : PluginTable)
    → (0x43 == group) ≡ false
    → ForDisplay shown
    → lookup (group, rest) (update d shown) ≡ lookup (group, rest) d
unfolding update
lookup-update_other group rest d [] g h = refl
lookup-update_other group rest d ((k, v) ∷ shown) g h =
    lookup-update_other group rest (insert k v d) shown g h.1
    ∙ lookup-insert k (group, rest) v d
    ∙ rw (h.0, g) refl

module _ (model : WheelModel) (wheel_dev : ℕ) (t : WheelTexts) (shown : PluginTable)
    (h : ForDisplay shown) where
  known :
      (group cmd : ℕ) (value : Bytes)
      → (0x43 == group) ≡ false
      → lookup (group, cmd ∷ []) (wheel_entries model t) ≡ some value
      → lookup (group, (wheel_dev, cmd ∷ [])) (plugin_entries wheel_dev t) ≡ some (cmd ∷ value)
      → Agrees wheel_dev
          (update (plugin_entries wheel_dev t) shown)
          (wheel_entries model t)
          (group, cmd)
  known group cmd value g w p = (
    value,
    w,
    lookup-update_other group (wheel_dev, cmd ∷ []) (plugin_entries wheel_dev t) shown g h ∙ p,
  )

  every_read :
      All
        (Agrees wheel_dev (update (plugin_entries wheel_dev t) shown) (wheel_entries model t))
        identity_reads
  unfolding lookup plugin_entries wheel_entries
  every_read = (
    known 0x07 0x01 t.name refl refl (rw (==_refl wheel_dev) refl),
    (
      known 0x0F 0x01 t.sw_version refl refl (rw (==_refl wheel_dev) refl),
      (
        known 0x08 0x01 t.hw_version refl refl (rw (==_refl wheel_dev) refl),
        (
          known 0x08 0x02 t.hw_sub refl refl (rw (==_refl wheel_dev) refl),
          (
            known 0x10 0x00 t.serial0 refl refl (rw (==_refl wheel_dev) refl),
            (known 0x10 0x01 t.serial1 refl refl (rw (==_refl wheel_dev) refl), tt),
          ),
        ),
      ),
    ),
  )

-- Where the tables of a model can be built, the plugin's probes and the other identity reads agree
-- on the name, the versions and the serial numbers of the wheel, at its device address and whatever
-- its display adds.
pub build_identity_tables-Agrees :
    (model : WheelModel) {plugin : PluginTable} {wheel : WheelTable} {device : Dict ProbeKey Bytes}
    → build_identity_tables model ≡ ok (plugin, (wheel, device))
    → All (Agrees (get_else model.wheel_device 0x17) plugin wheel) identity_reads
unfolding build_identity_tables
build_identity_tables-Agrees model {plugin} {wheel} {device} e =
    Ensures-ok Good (build_identity_tables model) built e
  where
    Good : PluginTable × (WheelTable × Dict ProbeKey Bytes) → Type 0
    Good (p, (w, d)) = All (Agrees (get_else model.wheel_device 0x17) p w) identity_reads

    built : Ensures Good (build_identity_tables model)
    built = Ensures-bind Good (wheel_texts model) _ (λ t et.
        Ensures-bind Good (optional_display model.display) _ (λ shown es.
          Ensures-bind Good (optional_identity 0x12 model.base_identity) _ (λ hub eh.
            Ensures-bind Good (optional_identity 0x13 model.base_identity) _ (λ base eb.
              Ensures-bind Good (optional_identity 0x19 model.pedal_identity) _ (λ pedal ep.
                every_read model (get_else model.wheel_device 0x17) t shown (
                  Ensures-ok ForDisplay (optional_display model.display)
                    (optional_display-ForDisplay model.display) es))))))
