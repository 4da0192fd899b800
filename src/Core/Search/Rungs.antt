-- ===== src/Core/Search/Rungs.antt =====
-- The rungs of a ladder above a load, and a finished search (internal/core/search.go).
use mathlib.Core.Option.{some-ne-none, some-injective}
use mathlib.Core.List.{Memᴰ}
use load_observatory.Prelude.{
  ℕ, suc, ◌≤◌, ◌<◌, ℤ, pos, ltb_ℤ, ◌≤ℤ◌, ◌<ℤ◌, ◌≡◌, refl, ◌⊎◌, inl, inr, List, [], ◌∷◌, none, some,
  arith, Bool-cases, ◌++◌, ap, if◌then◌else◌,
}
use load_observatory.Core.Types.{AutoSearch, AutoSearchStatus}
use load_observatory.Core.Search.{knee_load, next_rung, provision_for, finish_search}

-- How many rungs lie above a load.
abbrev pub above : ℤ → List ℕ → ℕ
above load [] = 0
above load (rung ∷ rest) =
    let more = above load rest in if ltb_ℤ load (pos rung) then suc more else more

above_mono : (a b : ℤ) (l : List ℕ) → a ≤ℤ b → above b l ≤ above a l
above_mono a b [] h = omega arith
above_mono a b (rung ∷ rest) h = ground (arith, above_mono a b rest h)

pub next_rung-above :
    (load : ℤ) (l : List ℕ) (rung : ℕ)
    → next_rung load l ≡ some rung
    → (load <ℤ pos rung) × (above (pos rung) l < above load l)
unfolding next_rung
next_rung-above load [] rung e = cc
next_rung-above load (r ∷ rest) rung e =
    ground (arith, next_rung-above load rest rung, above_mono load (pos r) rest)

pub next_rung-mem : (load : ℤ) (l : List ℕ) (rung : ℕ) → next_rung load l ≡ some rung → Memᴰ rung l
unfolding next_rung
next_rung-mem load [] rung e = cc
next_rung-mem load (r ∷ rest) rung e = elim (Bool-cases (ltb_ℤ load (pos r))) [
  | inl up ↦ Memᴰ.head (ground arith)
  | inr down ↦ Memᴰ.tail (next_rung-mem load rest rung (ground arith))
]

-- A load in production is at least 1 and no more than the knee.
provision_bounds :
    (knee : ℕ)
    → 0 < knee
    → (pos 1 ≤ℤ provision_for (pos knee)) × (provision_for (pos knee) ≤ℤ pos knee)
unfolding provision_for
provision_bounds knee h = ground arith

module _ {F : Type 0} where
  -- A search that has ended, with the verdict on what was measured.
  pub record IsFinished (search : AutoSearch F) : Type 0 where
    pub status_completed : search.status ≡ AutoSearchStatus.completed
    pub no_next : search.next_load ≡ pos 0
    pub knee : search.recommended_load ≡ knee_load search.steps
    pub provisioned :
        (search.recommended_load ≡ pos 0)
        ⊎ (search.provision_load ≡ provision_for search.recommended_load)

  pub finish_search-IsFinished : (search : AutoSearch F) → IsFinished (finish_search search)
  unfolding finish_search
  finish_search-IsFinished search = ground arith

  pub finish_search_keeps :
      (search : AutoSearch F)
      → ((finish_search search).steps ≡ search.steps)
        × ((finish_search search).ladder ≡ search.ladder)
        × ((finish_search search).config ≡ search.config)
  unfolding finish_search
  finish_search_keeps search = ground arith

  pub finish_search_bounds :
      (search : AutoSearch F)
      → ((finish_search search).stable_load ≡ search.stable_load)
        × ((finish_search search).failed_load ≡ search.failed_load)
  unfolding finish_search
  finish_search_bounds search = ground arith

-- The lowest rung that a rising ladder has above a load: no rung before it is above the load.
abbrev pub FirstAbove : ℤ → ℕ → List ℕ → Type 0
FirstAbove load rung ladder =
    (below : List ℕ) × (rest : List ℕ) × (ladder ≡ below ++ (rung ∷ rest)) × (above load below ≡ 0)

pub next_rung-FirstAbove :
    (load : ℤ) (l : List ℕ) (rung : ℕ) → next_rung load l ≡ some rung → FirstAbove load rung l
unfolding next_rung
next_rung-FirstAbove load [] rung e = cc
next_rung-FirstAbove load (r ∷ rest) rung e = elim (Bool-cases (ltb_ℤ load (pos r))) [
  | inl up ↦
      let same : some r ≡ some rung = rw up at e in
      ([], rest, ap (λ x. x ∷ rest) (some-injective r rung same), refl)
  | inr down ↦
      let (below, more, split, none_above) = next_rung-FirstAbove load rest rung (rw down at e) in
      (r ∷ below, more, ap (λ l. r ∷ l) split, rw down none_above)
]

pub next_rung-none : (load : ℤ) (l : List ℕ) → next_rung load l ≡ none → above load l ≡ 0
unfolding next_rung
next_rung-none load [] e = refl
next_rung-none load (r ∷ rest) e = elim (Bool-cases (ltb_ℤ load (pos r))) [
  | inl up ↦ let same : some r ≡ none = rw up at e in absurd (some-ne-none r same)
  | inr down ↦ rw down (next_rung-none load rest (rw down at e))
]
