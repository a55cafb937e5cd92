-- ===== src/Joypad/Keys.antt =====
-- What the keyboard reports after the bytes of a read.
use nes_deck.Prelude.{
  ℕ, zero, suc, ◌+◌, ◌-◌, ◌<◌, ◌≡◌, refl, ap, ◌∙◌, arith, Bool, true, false, not, ◌&&◌, List, [],
  ◌∷◌, ltb, ◌==◌, ◌!=◌, if◌then◌else◌, length, length-set, get_or, set, Bytes, AllBytes, bit_and,
}
use nes_deck.Prelude.Bits.{all_below, all_below_sound}
use nes_deck.Joypad.{Keyboard, update_keyboard_key, drain_bytes, get_keyboard_input}

-- Whether a key is down after some bytes: the byte `key` presses it and `key + 128` releases it.
unfoldable pub down : ℕ → Bytes → Bool → Bool
down key [] before = before
down key (b ∷ bs) before =
    down key bs (if b == key then true else if b == key + 128 then false else before)

-- A byte is a key code with the release bit on top.
abbrev splits : ℕ → Bool
splits b =
    if ltb b 128
    then bit_and b 0x7f == b && bit_and b 0x80 == 0
    else bit_and b 0x7f == b - 128 && bit_and b 0x80 == 128

splits_table : all_below 256 splits ≡ true
unfolding all_below
splits_table = refl

get_or-set :
    (xs : List Bool) (i j : ℕ) (v : Bool)
    → i < length xs
    → get_or (set xs i v) j false ≡ (if i == j then v else get_or xs j false)
get_or-set [] i j v h = absurd (omega arith)
get_or-set (x ∷ xs) zero zero v h = refl
get_or-set (x ∷ xs) zero (suc j) v h = ground arith
get_or-set (x ∷ xs) (suc i) zero v h = ground arith
get_or-set (x ∷ xs) (suc i) (suc j) v h = ground (arith, get_or-set xs i j v)

update_keyboard_key-keys :
    (keycode : ℕ) (pressed : Bool) (k : Keyboard)
    → (update_keyboard_key keycode pressed k).keys ≡ set k.keys keycode pressed
unfolding update_keyboard_key
update_keyboard_key-keys keycode pressed k = refl

drain_bytes-down :
    (key : ℕ) (bytes : Bytes) (k : Keyboard)
    → key < 128
    → length k.keys ≡ 128
    → AllBytes bytes
    → get_or (drain_bytes bytes k).keys key false ≡ down key bytes (get_or k.keys key false)
unfolding drain_bytes down
drain_bytes-down key [] k small size all = refl
drain_bytes-down key (b ∷ bs) k small size all =
    let code = bit_and b 0x7f in
    let pressed = not (bit_and b 0x80 != 0) in
    let parts = all_below_sound 256 splits b splits_table all.0 in
    let keys = update_keyboard_key-keys code pressed k in
    let after =
      drain_bytes-down key bs (update_keyboard_key code pressed k) small
        (ap length keys ∙ length-set k.keys code pressed ∙ size) all.1 in
    after
    ∙ ap (down key bs) (
        ap (λ xs. get_or xs key false) keys
        ∙ ground (arith, get_or-set k.keys code key pressed (ground (arith, parts)), parts))

-- After the bytes of a read a key is reported down exactly if the last of them that names it pressed
-- it, or if none names it and it was down before. A key is named by its code, which presses it, and
-- by its code plus 128, which releases it.
pub get_keyboard_input-drain_bytes :
    (key : ℕ) (bytes : Bytes) (k : Keyboard)
    → key < 128
    → length k.keys ≡ 128
    → AllBytes bytes
    → get_keyboard_input key (drain_bytes bytes k)
      ≡ (if down key bytes (get_or k.keys key false) then 1 else 0)
unfolding get_keyboard_input
get_keyboard_input-drain_bytes key bytes k small size all =
    ground (arith, drain_bytes-down key bytes k small size all)
