-- ===== src/Menu/Wifi/Valid.antt =====
-- The texts of the Wi-Fi form under the touches that edit them.
use nes_deck.Prelude.{
  ℕ, zero, suc, ◌≤◌, ◌≡◌, refl, ◌↔◌, arith, inl, inr, true, Bool-cases, List, [], ◌∷◌, All,
  All-append, Option, none, some, ltb, length, length-append, get_elem?, Bytes,
}
use nes_deck.Menu.Wifi.{
  WifiField, ssid, passphrase, WifiTarget, no_target, back, ssid_field, passphrase_field, save,
  mode, shift, space, delete, key, WifiState, erase_last, push_back, edit_field, edit, press_key,
  apply_wifi_target, all_printable, valid_wifi_text, apply_all,
}

abbrev pub IsPlain : ℕ → Type 0
IsPlain c = (0x20 ≤ c) × (c ≤ 0x7e)

-- Both fields within their limits, and of characters that are accepted.
pub record IsTyped (s : WifiState) : Type 0 where
  pub ssid_short : length s.ssid_text ≤ 32
  pub passphrase_short : length s.passphrase_text ≤ 63
  pub ssid_plain : All IsPlain s.ssid_text
  pub passphrase_plain : All IsPlain s.passphrase_text

abbrev Fits : ℕ → Bytes → Type 0
Fits limit text = (length text ≤ limit) × All IsPlain text

erase_last-Fits : (limit : ℕ) (text : Bytes) → Fits limit text → Fits limit (erase_last text)
unfolding erase_last
erase_last-Fits limit [] h = h
erase_last-Fits limit (c ∷ []) h = (omega arith, tt)
erase_last-Fits zero (c ∷ d ∷ cs) h = absurd (omega (arith, h.0))
erase_last-Fits (suc limit) (c ∷ d ∷ cs) (short, (p, ps)) =
    let (short', ps') = erase_last-Fits limit (d ∷ cs) (omega (arith, short), ps) in
    (omega (arith, short'), (p, ps'))

push_back-Fits :
    (limit c : ℕ) (text : Bytes) → IsPlain c → Fits limit text → Fits limit (push_back limit c text)
unfolding push_back
push_back-Fits limit c text p h = elim (Bool-cases (ltb (length text) limit)) [
  | inl room ↦ rw room (
    ground (arith, room, length-append text (c ∷ [])),
    All-append IsPlain text (c ∷ []) h.1 (p, tt),
  )
  | inr full ↦ rw full h
]

edit-IsTyped :
    (change : ℕ → Bytes → Bytes) (s : WifiState)
    → ((limit : ℕ) (text : Bytes) → Fits limit text → Fits limit (change limit text))
    → IsTyped s
    → IsTyped (edit change s)
edit-IsTyped change s keeps t =
    let (short, plain) = keeps 32 s.ssid_text (t.ssid_short, t.ssid_plain) in
    let (short', plain') = keeps 63 s.passphrase_text (t.passphrase_short, t.passphrase_plain) in
    edited s.field
      (record {
        ssid_short = short;
        ssid_plain = plain;
        passphrase_short = t.passphrase_short;
        passphrase_plain = t.passphrase_plain;
      })
      (record {
        ssid_short = t.ssid_short;
        ssid_plain = t.ssid_plain;
        passphrase_short = short';
        passphrase_plain = plain';
      })
  where
    edited :
        (f : WifiField)
        → IsTyped (record s { ssid_text = change 32 s.ssid_text; status = [] })
        → IsTyped (record s { passphrase_text = change 63 s.passphrase_text; status = [] })
        → IsTyped (edit_field f change s)
    edited ssid a b = unfold edit_field in a
    edited passphrase a b = unfold edit_field in b

same_texts :
    (s r : WifiState)
    → r.ssid_text ≡ s.ssid_text
    → r.passphrase_text ≡ s.passphrase_text
    → IsTyped s
    → IsTyped r
same_texts s r e e' t = record {
  ssid_short = rw e t.ssid_short;
  passphrase_short = rw e' t.passphrase_short;
  ssid_plain = rw e t.ssid_plain;
  passphrase_plain = rw e' t.passphrase_plain;
}

key-IsPlain :
    (keys : List ℕ) (i : ℕ) {c : ℕ} → All IsPlain keys → get_elem? keys i ≡ some c → IsPlain c
key-IsPlain [] i all e = absurd (ground (arith, e))
key-IsPlain (k ∷ keys) zero all e = ground (arith, e, all.0)
key-IsPlain (k ∷ keys) (suc i) {c} all e = key-IsPlain keys i {c = c} all.1 e

press_key-IsTyped :
    (k : Option ℕ) (s : WifiState)
    → ((c : ℕ) → k ≡ some c → IsPlain c)
    → IsTyped s
    → IsTyped (press_key k s).1
unfolding press_key
press_key-IsTyped none s plain t = t
press_key-IsTyped (some c) s plain t =
    edit-IsTyped (λ limit text. push_back limit c text) s
      (λ limit text h. push_back-Fits limit c text (plain c refl) h) t

apply_wifi_target-IsTyped :
    (keys : List ℕ) (target : WifiTarget) (s : WifiState)
    → All IsPlain keys
    → IsTyped s
    → IsTyped (apply_wifi_target keys target s).1
unfolding apply_wifi_target
apply_wifi_target-IsTyped keys ssid_field s all t = same_texts s _ refl refl t
apply_wifi_target-IsTyped keys passphrase_field s all t = same_texts s _ refl refl t
apply_wifi_target-IsTyped keys mode s all t = same_texts s _ refl refl t
apply_wifi_target-IsTyped keys shift s all t = same_texts s _ (ground arith) (ground arith) t
apply_wifi_target-IsTyped keys delete s all t =
    edit-IsTyped (λ limit text. erase_last text) s (λ limit text h. erase_last-Fits limit text h) t
apply_wifi_target-IsTyped keys space s all t =
    edit-IsTyped (λ limit text. push_back limit b' ' text) s
      (λ limit text h. push_back-Fits limit b' ' text (omega arith, omega arith) h) t
apply_wifi_target-IsTyped keys (key i) s all t =
    press_key-IsTyped (get_elem? keys i) s (λ c e. key-IsPlain keys i {c = c} all e) t
apply_wifi_target-IsTyped keys no_target s all t = t
apply_wifi_target-IsTyped keys back s all t = t
apply_wifi_target-IsTyped keys save s all t = t

all_printable_iff : (text : Bytes) → (all_printable text ≡ true) ↔ All IsPlain text
all_printable_iff [] = ground arith
all_printable_iff (c ∷ cs) = ground (arith, all_printable_iff cs)

IsTyped-valid :
    (s : WifiState)
    → IsTyped s
    → (valid_wifi_text s.ssid_text 0 32 ≡ true) × (valid_wifi_text s.passphrase_text 0 63 ≡ true)
unfolding valid_wifi_text
IsTyped-valid s t = (
  ground (arith, t.ssid_short, (all_printable_iff s.ssid_text).1 t.ssid_plain),
  ground (arith, t.passphrase_short, (all_printable_iff s.passphrase_text).1 t.passphrase_plain),
)

-- Whatever is touched, on keyboards of printable characters: a form whose texts are within their
-- limits of 32 and 63 characters and printable stays such a form.
pub apply_all-valid :
    (touches : List (List ℕ × WifiTarget)) (s : WifiState)
    → All (λ t. All IsPlain t.0) touches
    → IsTyped s
    → (valid_wifi_text (apply_all touches s).ssid_text 0 32 ≡ true)
      × (valid_wifi_text (apply_all touches s).passphrase_text 0 63 ≡ true)
unfolding apply_all
apply_all-valid [] s plain t = IsTyped-valid s t
apply_all-valid ((keys, target) ∷ rest) s plain t =
    apply_all-valid rest (apply_wifi_target keys target s).1 plain.1
      (apply_wifi_target-IsTyped keys target s plain.0 t)
