-- ===== src/Menu/Wifi.antt =====
-- The Wi-Fi form: `WifiState`, `apply_wifi_target`, `valid_wifi_text` and `tail_for_field`. A target
-- is what a touch was found to mean; a key is given by its index.
pub mod Valid
use nes_deck.Prelude.{
  ℕ, zero, suc, ◌+◌, ◌-◌, ◌≤◌, ◌<◌, ◌≡◌, refl, sym, ap, ◌∙◌, ◌↔◌, arith, ◌⊎◌, inl, inr, Bool, true,
  false, Bool-cases, not, ◌&&◌, ◌||◌, List, [], ◌∷◌, ◌++◌, All, All-append, Option, none, some, ltb,
  leb, within, ◌==◌, if◌then◌else◌, length, length-append, get_elem?, drop, length-drop, Bytes,
  codes,
}

pub data WifiField : Type 0 where
  ssid passphrase : WifiField

pub data WifiTarget : Type 0 where
  no_target back ssid_field passphrase_field save mode shift space delete : WifiTarget
  key : ℕ → WifiTarget

pub record WifiState : Type 0 where
  pub ssid_text : Bytes
  pub passphrase_text : Bytes
  pub field : WifiField
  pub uppercase : Bool
  pub symbols : Bool
  pub status : Bytes

unfoldable pub erase_last : Bytes → Bytes
erase_last [] = []
erase_last (c ∷ []) = []
erase_last (c ∷ d ∷ cs) = c ∷ erase_last (d ∷ cs)

-- What is done to the text that is edited, up to its limit.
unfoldable pub push_back : ℕ → ℕ → Bytes → Bytes
push_back limit c text = if ltb (length text) limit then text ++ c ∷ [] else text

-- The change to the field that has the focus.
unfoldable pub edit_field : WifiField → (ℕ → Bytes → Bytes) → WifiState → WifiState
edit_field ssid change s = record s { ssid_text = change 32 s.ssid_text; status = [] }
edit_field passphrase change s = record s {
  passphrase_text = change 63 s.passphrase_text;
  status = [];
}

abbrev pub edit : (ℕ → Bytes → Bytes) → WifiState → WifiState
edit change s = edit_field s.field change s

unfoldable pub press_key : Option ℕ → WifiState → Bool × WifiState
press_key none s = (false, s)
press_key (some c) s = (true, edit (λ limit text. push_back limit c text) s)

-- `keys` are the characters on the keys of the layout.
unfoldable pub apply_wifi_target : List ℕ → WifiTarget → WifiState → Bool × WifiState
apply_wifi_target keys ssid_field s = (true, record s { field = ssid; status = [] })
apply_wifi_target keys passphrase_field s = (true, record s { field = passphrase; status = [] })
apply_wifi_target keys mode s = (true, record s { symbols = not s.symbols; status = [] })
apply_wifi_target keys shift s =
    if s.symbols then (false, s) else (true, record s { uppercase = not s.uppercase; status = [] })
apply_wifi_target keys delete s = (true, edit (λ limit text. erase_last text) s)
apply_wifi_target keys space s = (true, edit (λ limit text. push_back limit b' ' text) s)
apply_wifi_target keys (key i) s = press_key (get_elem? keys i) s
apply_wifi_target keys _ s = (false, s)

abbrev pub all_printable : Bytes → Bool
all_printable [] = true
all_printable (c ∷ cs) = within 0x20 0x7e c && all_printable cs

unfoldable pub valid_wifi_text : Bytes → ℕ → ℕ → Bool
valid_wifi_text value minimum maximum =
    if ltb (length value) minimum || ltb maximum (length value) then false else all_printable value

unfoldable pub tail_for_field : Bytes → ℕ → Bytes
tail_for_field value maximum =
    if leb (length value) maximum
    then value
    else if leb maximum 3
    then drop (length value - maximum) value
    else codes "..." ++ drop (length value - (maximum - 3)) value

-- A form after some touches; the keyboard that is shown may change between them.
unfoldable pub apply_all : List (List ℕ × WifiTarget) → WifiState → WifiState
apply_all [] s = s
apply_all ((keys, target) ∷ rest) s = apply_all rest (apply_wifi_target keys target s).1
