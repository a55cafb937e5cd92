-- ===== src/Text/Trim.antt =====
-- `trim_ascii_space` takes away exactly the white space at the two ends.
use nes_deck.Prelude.{
  ℕ, ◌≡◌, refl, ap, ◌∙◌, [], ◌∷◌, ◌++◌, inl, inr, ◌↔◌, true, false, Bool-cases, ◌&&◌, All, Bytes,
}
use nes_deck.Text.{is_space, is_empty, trim_front, trim_back, trim_ascii_space}

abbrev pub AllSpace : Bytes → Type 0
AllSpace = All (λ c. is_space c ≡ true)

abbrev pub StartsPlain : Bytes → Type 0
StartsPlain [] = Unit
StartsPlain (c ∷ cs) = is_space c ≡ false

abbrev pub EndsPlain : Bytes → Type 0
EndsPlain [] = Unit
EndsPlain (c ∷ []) = is_space c ≡ false
EndsPlain (c ∷ d ∷ cs) = EndsPlain (d ∷ cs)

-- No white space at either end.
abbrev pub IsTrimmed : Bytes → Type 0
IsTrimmed text = StartsPlain text × EndsPlain text

-- `inner` is `text` without the white space at its ends.
pub record Trims (text inner : Bytes) : Type 0 where
  pub before : Bytes
  pub after : Bytes
  pub splits : text ≡ before ++ (inner ++ after)
  pub before_space : AllSpace before
  pub after_space : AllSpace after
  pub trimmed : IsTrimmed inner

trim_front-splits :
    (text : Bytes)
    → (before : Bytes) × (text ≡ before ++ trim_front text)
      × AllSpace before
      × StartsPlain (trim_front text)
unfolding trim_front
trim_front-splits [] = ([], refl, tt, tt)
trim_front-splits (c ∷ cs) = elim (Bool-cases (is_space c)) [
  | inl space ↦
      let (before, e, h, p) = trim_front-splits cs in
      (c ∷ before, rw space (ap (◌∷◌ c) e), (space, h), rw space p)
  | inr plain ↦ ([], rw plain, tt, rw plain plain)
]

EndsPlain-cons :
    (c : ℕ) (cs : Bytes) → (is_empty cs && is_space c) ≡ false → EndsPlain cs → EndsPlain (c ∷ cs)
EndsPlain-cons c [] e h = e
EndsPlain-cons c (d ∷ cs) e h = h

trim_back-empty :
    (c : ℕ) (cs : Bytes) → (is_empty cs && is_space c) ≡ true → (cs ≡ []) × (is_space c ≡ true)
trim_back-empty c [] h = (refl, h)
trim_back-empty c (d ∷ cs) h = cc

trim_back-splits :
    (text : Bytes)
    → (after : Bytes) × (text ≡ trim_back text ++ after)
      × AllSpace after
      × EndsPlain (trim_back text)
unfolding trim_back
trim_back-splits [] = ([], refl, tt, tt)
trim_back-splits (c ∷ cs) =
    let (after, e, h, p) = trim_back-splits cs in
    elim (Bool-cases (is_empty (trim_back cs) && is_space c)) [
      | inl gone ↦
          let (nothing, space) = trim_back-empty c (trim_back cs) gone in
          (
            c ∷ after,
            rw gone (ap (◌∷◌ c) (e ∙ ap (λ t. t ++ after) nothing)),
            (space, h),
            rw gone tt,
          )
      | inr kept ↦
          (after, rw kept (ap (◌∷◌ c) e), h, rw kept (EndsPlain-cons c (trim_back cs) kept p))
    ]

trim_back-StartsPlain : (text : Bytes) → StartsPlain text → StartsPlain (trim_back text)
unfolding trim_back
trim_back-StartsPlain [] h = tt
trim_back-StartsPlain (c ∷ cs) h = elim (Bool-cases (is_empty (trim_back cs) && is_space c)) [
  | inl gone ↦ rw gone tt
  | inr kept ↦ rw kept h
]

-- The result is the text without the white space at its ends, and has none at its own.
pub trim_ascii_space-Trims : (text : Bytes) → Trims text (trim_ascii_space text)
unfolding trim_ascii_space
trim_ascii_space-Trims text =
    let (before, e, h, p) = trim_front-splits text in
    let (after, e', h', p') = trim_back-splits (trim_front text) in
    record {
      before = before;
      after = after;
      splits = e ∙ ap (λ t. before ++ t) e';
      before_space = h;
      after_space = h';
      trimmed = (trim_back-StartsPlain (trim_front text) p, p');
    }

trim_front-StartsPlain : (text : Bytes) → StartsPlain text → trim_front text ≡ text
unfolding trim_front
trim_front-StartsPlain [] h = refl
trim_front-StartsPlain (c ∷ cs) h = rw h

trim_back-EndsPlain : (text : Bytes) → EndsPlain text → trim_back text ≡ text
unfolding trim_back
trim_back-EndsPlain [] h = refl
trim_back-EndsPlain (c ∷ []) h = rw h
trim_back-EndsPlain (c ∷ d ∷ cs) h = rw (trim_back-EndsPlain (d ∷ cs) h)

trim_ascii_space-IsTrimmed : (text : Bytes) → IsTrimmed text → trim_ascii_space text ≡ text
unfolding trim_ascii_space
trim_ascii_space-IsTrimmed text (starts, ends) =
    rw (trim_front-StartsPlain text starts) (trim_back-EndsPlain text ends)

-- The test that the callers make: a text is its own trimmed form exactly if it is trimmed.
pub trim_ascii_space_iff : (text : Bytes) → (trim_ascii_space text ≡ text) ↔ IsTrimmed text
trim_ascii_space_iff text =
    (λ e. rw e at (trim_ascii_space-Trims text).trimmed, trim_ascii_space-IsTrimmed text)
