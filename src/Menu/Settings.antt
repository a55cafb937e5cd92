-- ===== src/Menu/Settings.antt =====
-- `adjacent_system`, `volume_after_menu_target`, `brightness_after_settings_target` and
-- `reboot_confirmation_active`. Times are read off a clock that starts at 0.
use nes_deck.Prelude.{
  ℕ, zero, suc, ◌+◌, ◌-◌, ◌%◌, ◌≤◌, ◌<◌, min, max, ◌≡◌, ◌≢◌, refl, ap, ◌∙◌, arith, inl, inr, Bool,
  true, false, Bool-cases, not, ◌&&◌, List, [], ◌∷◌, All, round, ltb, ◌==◌, if◌then◌else◌, length,
  get_or, Bytes, equal, equal_iff,
}
use nes_deck.MenuState.Brightness.{refuses_brightness}

pub data SettingsTarget : Type 0 where
  no_setting close volume_down volume_up brightness_down brightness_up : SettingsTarget
  terminal keymap wifi : SettingsTarget

unfoldable pub volume_after_menu_target : SettingsTarget → ℕ → ℕ → ℕ
volume_after_menu_target volume_up volume last_audible_volume =
    let restore_volume = if last_audible_volume == 0 then 5 else min 100 last_audible_volume in
    if volume == 0 then restore_volume else min 100 (volume + 5)
volume_after_menu_target volume_down volume last_audible_volume =
    if ltb 5 volume then volume - 5 else 0
volume_after_menu_target _ volume last_audible_volume = volume

unfoldable pub brightness_after_settings_target : SettingsTarget → ℕ → ℕ
brightness_after_settings_target brightness_up brightness = min 100 (brightness + 10)
brightness_after_settings_target brightness_down brightness =
    if ltb 10 brightness then max 10 (brightness - 10) else 10
brightness_after_settings_target _ brightness = brightness

unfoldable pub reboot_confirmation_active : ℕ → ℕ → Bool
reboot_confirmation_active deadline now = ltb 0 deadline && ltb now deadline

-- The loop over `position`.
unfoldable pub position_of : List Bytes → Bytes → ℕ
position_of [] system = 0
position_of (s ∷ systems) system = if equal s system then 0 else suc (position_of systems system)

-- `forward` says that the direction is not negative.
unfoldable pub adjacent_system : List Bytes → Bytes → Bool → Bytes
adjacent_system systems active_system forward =
    let found = position_of systems active_system in
    let position = if found == length systems then 0 else found in
    if length systems == 0
    then active_system
    else if not forward
    then get_or systems (if position == 0 then length systems - 1 else position - 1) active_system
    else get_or systems ((position + 1) % length systems) active_system

-- The settings stay settable: whatever control is used, a volume of at most 100 stays one, and a
-- brightness that `set_brightness_percent` does not refuse stays such.
pub after_target-settable :
    (target : SettingsTarget) (volume last_audible_volume brightness maximum : ℕ)
    → volume ≤ 100
    → refuses_brightness maximum brightness ≡ false
    → (volume_after_menu_target target volume last_audible_volume ≤ 100)
      × (refuses_brightness maximum (brightness_after_settings_target target brightness) ≡ false)
unfolding volume_after_menu_target brightness_after_settings_target refuses_brightness
after_target-settable target volume last_audible_volume brightness maximum v b = ground arith

-- No name twice.
pub data Distinct : List Bytes → Type 0 where
  nil : Distinct []
  cons : (x : Bytes) {xs : List Bytes} → All (λ y. x ≢ y) xs → Distinct xs → Distinct (x ∷ xs)

All-get_or :
    (P : Bytes → Type 0) (xs : List Bytes) (i : ℕ) (d : Bytes)
    → All P xs
    → i < length xs
    → P (get_or xs i d)
All-get_or P [] i d all h = absurd (omega arith)
All-get_or P (x ∷ xs) zero d all h = all.0
All-get_or P (x ∷ xs) (suc i) d all h = All-get_or P xs i d all.1 (omega arith)

position_of-get_or :
    {systems : List Bytes} (i : ℕ) (d : Bytes)
    → Distinct systems
    → i < length systems
    → position_of systems (get_or systems i d) ≡ i
unfolding position_of
position_of-get_or i d nil h = absurd (omega arith)
position_of-get_or zero d (cons x new rest) h = rw ((equal_iff x x).1 refl) refl
position_of-get_or (suc i) d (cons x {xs} new rest) h =
    let differs = All-get_or (λ y. x ≢ y) xs i d new (omega arith) in
    elim (Bool-cases (equal x (get_or xs i d))) [
      | inl e ↦ absurd (differs ((equal_iff x (get_or xs i d)).0 e))
      | inr e ↦ rw e (ap suc (position_of-get_or i d rest (omega arith)))
    ]

get_or-default :
    (xs : List Bytes) (i : ℕ) (d e : Bytes) → i < length xs → get_or xs i d ≡ get_or xs i e
get_or-default [] i d e h = absurd (omega arith)
get_or-default (x ∷ xs) zero d e h = refl
get_or-default (x ∷ xs) (suc i) d e h = get_or-default xs i d e (omega arith)

-- The step from the system at an index.
module _ {systems : List Bytes} (d : Bytes) (distinct : Distinct systems) where
  step_forward :
      (i : ℕ)
      → i < length systems
      → (i + 1) % length systems < length systems
      → adjacent_system systems (get_or systems i d) true
        ≡ get_or systems ((i + 1) % length systems) d
  unfolding adjacent_system
  step_forward i h inside = ground (
    arith,
    position_of-get_or i d distinct h,
    get_or-default systems ((i + 1) % length systems) (get_or systems i d) d inside,
  )

  step_back :
      (i : ℕ)
      → i < length systems
      → adjacent_system systems (get_or systems i d) false
        ≡ get_or systems (if i == 0 then length systems - 1 else i - 1) d
  unfolding adjacent_system
  step_back i h = ground (
    arith,
    position_of-get_or i d distinct h,
    get_or-default systems (length systems - 1) (get_or systems i d) d,
    get_or-default systems (i - 1) (get_or systems i d) d,
  )

-- Among different systems, a step to the next and a step back lead to where they began, and so do a
-- step back and a step to the next.
pub adjacent_system-round :
    {systems : List Bytes} (i : ℕ) (d : Bytes)
    → Distinct systems
    → i < length systems
    → let here = get_or systems i d in
      (adjacent_system systems (adjacent_system systems here true) false ≡ here)
      × (adjacent_system systems (adjacent_system systems here false) true ≡ here)
adjacent_system-round {systems} i d distinct h =
    let next = (i + 1) % length systems in
    let back = if i == 0 then length systems - 1 else i - 1 in
    let around = round (i + 1) (length systems) (omega arith) (omega arith) in
    let inside : next < length systems = omega (arith, around) in
    let inside' : back < length systems = ground arith in
    let around' = round (back + 1) (length systems) (omega arith) (omega (arith, inside')) in
    let there : (if next == 0 then length systems - 1 else next - 1) ≡ i = ground (arith, around) in
    let there' : (back + 1) % length systems ≡ i = ground (arith, around') in
    (
      ap (λ s. adjacent_system systems s false) (step_forward d distinct i h inside)
          ∙ step_back d distinct next inside
          ∙ ap (λ k. get_or systems k d) there,
      ap (λ s. adjacent_system systems s true) (step_back d distinct i h)
          ∙ step_forward d distinct back inside' (omega (arith, there'))
          ∙ ap (λ k. get_or systems k d) there',
    )
