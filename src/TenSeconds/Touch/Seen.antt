-- ===== src/TenSeconds/Touch/Seen.antt =====
-- What the events of the touch screen have told, by the events alone, and that the device holds it.
use nes_deck.Prelude.Integers.{negsuc, pos, ℤ}
use nes_deck.Prelude.{
  ℕ, zero, suc, ◌≡◌, refl, arith, Bool, true, false, List, [], ◌∷◌, Option, none, some, ltb,
  if◌then◌else◌,
}
use nes_deck.TenSeconds.{TouchPress}
use nes_deck.TenSeconds.Touch.{
  InputEvent, syn_dropped, other_event, syn_report, abs_x, abs_y, btn_touch, TouchDevice, last_x,
  last_y, nonzero, or_else, or_before, clamp, resynchronize, report, dropped_event, plain_event,
  touch_event,
}

-- Whether the value of `BTN_TOUCH` says that the screen is touched.
unfoldable pub is_touch : ℤ → Bool
is_touch (pos n) = ltb 0 n
is_touch (negsuc n) = true

-- The place on an axis that is nearest to a value.
unfoldable pub on_axis : ℕ → ℤ → ℕ
on_axis last (pos n) = if ltb last n then last else n
on_axis last (negsuc n) = 0

abbrev place_or : ℕ → ℕ → Option ℤ → ℕ
place_or last before none = before
place_or last before (some value) = on_axis last value

abbrev touch_or : Bool → Option Bool → Bool
touch_or before none = before
touch_or before (some value) = value

-- A list of events here has the latest in front, and follows the state `start`. Events are lost from an
-- overrun to the next report; what was lost is made up for by the answers at that report.
module _ (start : TouchDevice) where
  unfoldable pub lost : List InputEvent → Bool
  lost [] = start.dropping
  lost (syn_dropped ∷ earlier) = true
  lost (syn_report a ∷ earlier) = false
  lost (_ ∷ earlier) = lost earlier

  unfoldable pub touched : List InputEvent → Bool
  touched [] = start.down
  touched (btn_touch value ∷ earlier) =
      let before = touched earlier in if lost earlier then before else is_touch value
  touched (syn_report a ∷ earlier) =
      let before = touched earlier in
      if lost earlier then touch_or before a.answered_down else before
  touched (_ ∷ earlier) = touched earlier

  unfoldable pub across : List InputEvent → ℕ
  across [] = start.x
  across (abs_x value ∷ earlier) =
      let before = across earlier in if lost earlier then before else on_axis last_x value
  across (syn_report a ∷ earlier) =
      let before = across earlier in
      if lost earlier then place_or last_x before a.answered_x else before
  across (_ ∷ earlier) = across earlier

  unfoldable pub below : List InputEvent → ℕ
  below [] = start.y
  below (abs_y value ∷ earlier) =
      let before = below earlier in if lost earlier then before else on_axis last_y value
  below (syn_report a ∷ earlier) =
      let before = below earlier in
      if lost earlier then place_or last_y before a.answered_y else before
  below (_ ∷ earlier) = below earlier

  -- The place, and whether it is touched.
  abbrev pub seen : List InputEvent → TouchPress × Bool
  seen earlier = (record { x = across earlier; y = below earlier }, touched earlier)

  -- The device holds what was told.
  pub record Told (earlier : List InputEvent) (t : TouchDevice) : Type 0 where
    pub told_lost : t.dropping ≡ lost earlier
    pub told_touch : t.down ≡ touched earlier
    pub told_across : t.x ≡ across earlier
    pub told_below : t.y ≡ below earlier

true-ne-false : true ≡ false → ⊥
true-ne-false e = cc

false-ne-true : false ≡ true → ⊥
false-ne-true e = cc

-- A field of one of two results.
field :
    {B : Type 0} (f : TouchDevice → B) (b b' : Bool) {u v : B} (p q : List TouchPress × TouchDevice)
    → b ≡ b'
    → f p.1 ≡ u
    → f q.1 ≡ v
    → f (if b then p else q).1 ≡ (if b' then u else v)
field f true true p q e h k = h
field f false false p q e h k = k
field f true false p q e h k = absurd (true-ne-false e)
field f false true p q e h k = absurd (false-ne-true e)

field_kept :
    {B : Type 0} (f : TouchDevice → B) (b : Bool) (p q : List TouchPress × TouchDevice) {u : B}
    → f p.1 ≡ u
    → f q.1 ≡ u
    → f (if b then p else q).1 ≡ u
field_kept f true p q h k = h
field_kept f false p q h k = k

nonzero-is_touch : (value : ℤ) → nonzero value ≡ is_touch value
unfolding is_touch
nonzero-is_touch (pos zero) = refl
nonzero-is_touch (pos (suc n)) = ground arith
nonzero-is_touch (negsuc n) = refl

clamp-on_axis : (last : ℕ) (value : ℤ) → clamp last value ≡ on_axis last value
unfolding clamp on_axis
clamp-on_axis last (pos n) = ground arith
clamp-on_axis last (negsuc n) = refl

or_else-place_or :
    (last t before : ℕ) (value : Option ℤ)
    → t ≡ before
    → or_else last t value ≡ place_or last before value
or_else-place_or last t before none e = e
or_else-place_or last t before (some value) e = clamp-on_axis last value

or_before-touch_or :
    (t before : Bool) (value : Option Bool) → t ≡ before → or_before t value ≡ touch_or before value
or_before-touch_or t before none e = e
or_before-touch_or t before (some value) e = refl

pub touch_event-Told :
    (start : TouchDevice) (e : InputEvent) (earlier : List InputEvent) (t : TouchDevice)
    → Told start earlier t
    → Told start (e ∷ earlier) (touch_event e t).1
unfolding touch_event dropped_event plain_event report resynchronize lost touched across below
touch_event-Told start syn_dropped earlier t h = record {
  told_lost = refl;
  told_touch = h.told_touch;
  told_across = h.told_across;
  told_below = h.told_below;
}
touch_event-Told start other_event earlier t h = record {
  told_lost = field_kept (λ d. d.dropping) t.dropping _ _ h.told_lost h.told_lost;
  told_touch = field_kept (λ d. d.down) t.dropping _ _ h.told_touch h.told_touch;
  told_across = field_kept (λ d. d.x) t.dropping _ _ h.told_across h.told_across;
  told_below = field_kept (λ d. d.y) t.dropping _ _ h.told_below h.told_below;
}
touch_event-Told start (abs_x value) earlier t h = record {
  told_lost = field_kept (λ d. d.dropping) t.dropping _ _ h.told_lost h.told_lost;
  told_touch = field_kept (λ d. d.down) t.dropping _ _ h.told_touch h.told_touch;
  told_across =
      field (λ d. d.x) t.dropping _ _ _ h.told_lost h.told_across (clamp-on_axis last_x value);
  told_below = field_kept (λ d. d.y) t.dropping _ _ h.told_below h.told_below;
}
touch_event-Told start (abs_y value) earlier t h = record {
  told_lost = field_kept (λ d. d.dropping) t.dropping _ _ h.told_lost h.told_lost;
  told_touch = field_kept (λ d. d.down) t.dropping _ _ h.told_touch h.told_touch;
  told_across = field_kept (λ d. d.x) t.dropping _ _ h.told_across h.told_across;
  told_below =
      field (λ d. d.y) t.dropping _ _ _ h.told_lost h.told_below (clamp-on_axis last_y value);
}
touch_event-Told start (btn_touch value) earlier t h = record {
  told_lost = field_kept (λ d. d.dropping) t.dropping _ _ h.told_lost h.told_lost;
  told_touch =
      field (λ d. d.down) t.dropping _ _ _ h.told_lost h.told_touch (nonzero-is_touch value);
  told_across = field_kept (λ d. d.x) t.dropping _ _ h.told_across h.told_across;
  told_below = field_kept (λ d. d.y) t.dropping _ _ h.told_below h.told_below;
}
touch_event-Told start (syn_report a) earlier t h = record {
  told_lost = reported_lost t.dropping refl;
  told_touch =
      field (λ d. d.down) t.dropping _ _ _ h.told_lost
        (or_before-touch_or t.down _ a.answered_down h.told_touch) h.told_touch;
  told_across =
      field (λ d. d.x) t.dropping _ _ _ h.told_lost
        (or_else-place_or last_x t.x _ a.answered_x h.told_across) h.told_across;
  told_below =
      field (λ d. d.y) t.dropping _ _ _ h.told_lost
        (or_else-place_or last_y t.y _ a.answered_y h.told_below) h.told_below;
}
  where
    reported_lost :
        (b : Bool)
        → t.dropping ≡ b
        → (if b then dropped_event (syn_report a) t else plain_event (syn_report a) t).1.dropping
          ≡ false
    reported_lost true e = refl
    reported_lost false e = e
