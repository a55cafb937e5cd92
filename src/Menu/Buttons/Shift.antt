-- ===== src/Menu/Buttons/Shift.antt =====
-- The tab key against the keys of shift that are down.
use nes_deck.Prelude.{
  ℕ, ◌≡◌, ◌∙◌, refl, ap, arith, Bool, false, ◌||◌, ◌==◌, ◌!=◌, List, [], ◌∷◌, if◌then◌else◌,
}
use nes_deck.Menu.Buttons.{
  Shifts, menu_keyboard_event_to_button, menu_keyboard_key_to_button, key_left_shift,
  key_right_shift, key_tab, system_previous, system_next,
}

-- An event of the keyboard, its code and its value.
pub record KeyEvent : Type 0 where
  pub code : ℕ
  pub value : ℕ

-- The shift keys after the events of a read.
unfoldable pub after_events : List KeyEvent → Shifts → Shifts
after_events [] s = s
after_events (e ∷ es) s = after_events es (menu_keyboard_event_to_button e.code e.value s).1

-- Whether a key is down after some events: what the last that names it says.
unfoldable pub held : ℕ → List KeyEvent → Bool → Bool
held key [] before = before
held key (e ∷ es) before = held key es (if e.code == key then e.value != 0 else before)

event-left_shift :
    (code value : ℕ) (s : Shifts)
    → (menu_keyboard_event_to_button code value s).1.left_shift
      ≡ (if code == key_left_shift then value != 0 else s.left_shift)
unfolding menu_keyboard_event_to_button
event-left_shift code value s = ground arith

event-right_shift :
    (code value : ℕ) (s : Shifts)
    → (menu_keyboard_event_to_button code value s).1.right_shift
      ≡ (if code == key_right_shift then value != 0 else s.right_shift)
unfolding menu_keyboard_event_to_button
event-right_shift code value s = ground arith

after_events-left_shift :
    (es : List KeyEvent) (s : Shifts)
    → (after_events es s).left_shift ≡ held key_left_shift es s.left_shift
unfolding after_events held
after_events-left_shift [] s = refl
after_events-left_shift (e ∷ es) s =
    after_events-left_shift es _ ∙ ap (held key_left_shift es) (event-left_shift e.code e.value s)

after_events-right_shift :
    (es : List KeyEvent) (s : Shifts)
    → (after_events es s).right_shift ≡ held key_right_shift es s.right_shift
unfolding after_events held
after_events-right_shift [] s = refl
after_events-right_shift (e ∷ es) s =
    after_events-right_shift es _
    ∙ ap (held key_right_shift es) (event-right_shift e.code e.value s)

tab_press :
    (s : Shifts)
    → (menu_keyboard_event_to_button key_tab 1 s).0
      ≡ (if s.left_shift || s.right_shift then system_previous else system_next)
unfolding menu_keyboard_event_to_button menu_keyboard_key_to_button
tab_press s = refl

-- After any events of the keyboard, from both shift keys up: a press of tab asks for the system
-- before exactly if the last event of one of the shift keys did not release it, and else for the
-- system behind.
pub menu_keyboard_event_to_button-tab :
    (es : List KeyEvent)
    → (menu_keyboard_event_to_button key_tab 1
        (after_events es (record { left_shift = false; right_shift = false }))).0
      ≡ (if held key_left_shift es false || held key_right_shift es false
          then system_previous
          else system_next)
menu_keyboard_event_to_button-tab es =
    tab_press _
    ∙ ap (λ b. if b then system_previous else system_next)
        (ground (
          arith,
          after_events-left_shift es (record { left_shift = false; right_shift = false }),
          after_events-right_shift es (record { left_shift = false; right_shift = false }),
        ))
