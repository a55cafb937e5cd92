-- ===== src/Text/Tabs.antt =====
-- `split_tabs` is the inverse of joining fields by tabs.
use nes_deck.Prelude.{
  ℕ, zero, suc, ◌≤◌, ◌≡◌, ◌≢◌, refl, sym, ap, ap₂, ◌∙◌, List, [], ◌∷◌, ◌++◌, arith, inl, inr, false,
  Bool-cases, Option, none, some, ◌==◌, All, Bytes, length, ◌↔◌, length-append,
}
use nes_deck.Text.{cut_tab, split_loop, split_tabs}

abbrev pub NoTab : Bytes → Type 0
NoTab = All (λ c. (c == b'\t') ≡ false)

-- The fields with a tab between each two.
pub join_tabs : List Bytes → Bytes
join_tabs [] = []
join_tabs (f ∷ []) = f
join_tabs (f ∷ g ∷ fs) = f ++ (b'\t' ∷ join_tabs (g ∷ fs))

-- `fields` are the parts of `line` between its tabs.
pub record IsFields (line : Bytes) (fields : List Bytes) : Type 0 where
  pub some_field : fields ≢ []
  pub no_tab : All NoTab fields
  pub joined : join_tabs fields ≡ line

cut_tab-last : (field : Bytes) → NoTab field → cut_tab field ≡ (field, none)
unfolding cut_tab
cut_tab-last [] h = refl
cut_tab-last (c ∷ cs) (h, hs) = rw h (rw (cut_tab-last cs hs))

cut_tab-tab :
    (field rest : Bytes) → NoTab field → cut_tab (field ++ (b'\t' ∷ rest)) ≡ (field, some rest)
unfolding cut_tab
cut_tab-tab [] rest h = refl
cut_tab-tab (c ∷ cs) rest (h, hs) = rw h (rw (cut_tab-tab cs rest hs))

split_loop_cut :
    (fuel : ℕ) (line field : Bytes) (behind : Option Bytes)
    → cut_tab line ≡ (field, behind)
    → split_loop (suc fuel) line
      ≡ elim behind [ none ↦ field ∷ [] | some rest ↦ field ∷ split_loop fuel rest ]
unfolding split_loop
split_loop_cut fuel line field behind e =
    ap {B = List Bytes}
      (λ (p : Bytes × Option Bytes). elim p.1 [
        | none ↦ p.0 ∷ []
        | some rest ↦ p.0 ∷ split_loop fuel rest
      ])
      e

split_loop-join_tabs :
    (fuel : ℕ) (fields : List Bytes)
    → fields ≢ []
    → All NoTab fields
    → length (join_tabs fields) ≤ fuel
    → split_loop fuel (join_tabs fields) ≡ fields
unfolding split_loop join_tabs
split_loop-join_tabs fuel [] some_field no_tab enough = absurd (some_field refl)
split_loop-join_tabs zero (f ∷ []) some_field no_tab enough = refl
split_loop-join_tabs (suc fuel) (f ∷ []) some_field (h, hs) enough =
    split_loop_cut fuel f f none (cut_tab-last f h)
split_loop-join_tabs zero (f ∷ g ∷ fs) some_field no_tab enough =
    absurd (omega (arith, length-append f (b'\t' ∷ join_tabs (g ∷ fs))))
split_loop-join_tabs (suc fuel) (f ∷ g ∷ fs) some_field (h, hs) enough =
    split_loop_cut fuel _ f (some _) (cut_tab-tab f (join_tabs (g ∷ fs)) h)
    ∙ (ap (◌∷◌ f) (
        split_loop-join_tabs fuel (g ∷ fs) (λ e. cc) hs
          (omega (arith, length-append f (b'\t' ∷ join_tabs (g ∷ fs))))))

push : ℕ → List Bytes → List Bytes
push c [] = []
push c (f ∷ fs) = (c ∷ f) ∷ fs

join_tabs-push : (c : ℕ) (fs : List Bytes) → fs ≢ [] → join_tabs (push c fs) ≡ c ∷ join_tabs fs
unfolding push join_tabs
join_tabs-push c [] h = absurd (h refl)
join_tabs-push c (f ∷ []) h = refl
join_tabs-push c (f ∷ g ∷ fs) h = refl

push-IsFields :
    (c : ℕ) {line : Bytes} (fs : List Bytes)
    → (c == b'\t') ≡ false
    → IsFields line fs
    → IsFields (c ∷ line) (push c fs)
unfolding push
push-IsFields c [] h r = absurd (r.some_field refl)
push-IsFields c (f ∷ fs) h r = record {
  some_field = λ e. cc;
  no_tab = ((h, r.no_tab.0), r.no_tab.1);
  joined = join_tabs-push c (f ∷ fs) (λ e. cc) ∙ ap (◌∷◌ c) r.joined;
}

join_tabs-nil : (fs : List Bytes) → fs ≢ [] → join_tabs ([] ∷ fs) ≡ b'\t' ∷ join_tabs fs
unfolding join_tabs
join_tabs-nil [] h = absurd (h refl)
join_tabs-nil (f ∷ fs) h = refl

IsFields-of : (line : Bytes) → (fs : List Bytes) × IsFields line fs
IsFields-of [] =
    ([] ∷ [], record { some_field = λ e. cc; no_tab = (tt, tt); joined = unfold join_tabs in refl })
IsFields-of (c ∷ cs) =
    let (fs, r) = IsFields-of cs in
    elim (Bool-cases (c == b'\t')) [
      | inl tab ↦ (
        [] ∷ fs,
        record {
          some_field = λ e. cc;
          no_tab = (tt, r.no_tab);
          joined = join_tabs-nil fs r.some_field ∙ ap₂ ◌∷◌ (ground arith) r.joined;
        },
      )
      | inr other ↦ (push c fs, push-IsFields c fs other r)
    ]

split_tabs-IsFields :
    (line : Bytes) (fields : List Bytes) → IsFields line fields → split_tabs line ≡ fields
unfolding split_tabs
split_tabs-IsFields line fields r =
    rw (← r.joined) (split_loop-join_tabs _ fields r.some_field r.no_tab (omega arith))

-- The split of a line is the one non-empty list of fields without tabs that joins to the line.
pub split_tabs_iff :
    (line : Bytes) (fields : List Bytes) → (split_tabs line ≡ fields) ↔ IsFields line fields
split_tabs_iff line fields = (
  λ e. let (fs, r) = IsFields-of line in rw (sym (split_tabs-IsFields line fs r) ∙ e) at r,
  split_tabs-IsFields line fields,
)
