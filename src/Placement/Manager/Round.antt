-- ===== src/Placement/Manager/Round.antt =====
-- One round of the loop over the layers in `plan` (tools/dsv41_5090/cpu_tier/placement_manager.py):
-- the selections on the miss log, the admission window and the loop over the experts.
use v_llm_moet.Prelude.{
  ℕ, ◌<◌, ◌≡◌, ◌≢◌, refl, ap, inl, inr, ==_iff, Bool, true, false, List, [], ◌∷◌, arith, ltb,
  lt→ltb, ◌==◌, if◌then◌else◌, contains, distinct_from, All, All-map, ok, Bool-cases, update_self,
  update_ne, ◌∙◌,
}
use v_llm_moet.Prelude.Int.{ℤ, pos, ◌-ℤ◌, ltb_ℤ}
use v_llm_moet.Placement.Pool.{ResidentPool}
use v_llm_moet.Placement.Pool.Mirror.{IsMirror}
use v_llm_moet.Placement.Store.{RecordStore}
use v_llm_moet.Placement.Log.{Miss, rows_of, miss_step, experts_of, all_below, admitted}
use v_llm_moet.Placement.Manager.{
  Promotion, PlacementManager, Work, promote_all, admit, note_misses, start_work, finish_work,
  plan_layer,
}
use v_llm_moet.Placement.Manager.Rule.{IsDue, promote_all-Holds}
use v_llm_moet.Placement.Manager.Layer.{Tracks, Tracks-start, Tracks-rule}

-- A row of the miss log names a layer and an expert that exist.
pub record IsLogged (n_layers : ℕ) (pools : ℕ → ResidentPool) (row : Miss) : Type 0 where
  pub layer_range : row.layer < n_layers
  pub expert_range : row.expert < (pools row.layer).n_experts

abbrev IsBelow : ℕ → ℕ → Type 0
IsBelow n e = e < n

all_below_of_All : (n : ℕ) (es : List ℕ) → All (IsBelow n) es → all_below n es ≡ true
unfolding all_below
all_below_of_All n [] h = refl
all_below_of_All n (e ∷ es) h = rw (lt→ltb e n h.0) (all_below_of_All n es h.1)

distinct_from-All {ℓ} :
    (P : ℕ → Type ℓ) (seen xs : List ℕ) → All P xs → All P (distinct_from seen xs)
unfolding distinct_from
distinct_from-All P seen [] h = tt
distinct_from-All P seen (x ∷ xs) h = elim (Bool-cases (contains seen x)) [
  | inl old ↦ rw old (distinct_from-All P seen xs h.1)
  | inr new ↦ rw new (h.0, distinct_from-All P (x ∷ seen) xs h.1)
]

All-if {ℓ κ} :
    {A : Type ℓ} (P : A → Type κ) (b : Bool) (xs ys : List A)
    → All P xs
    → All P ys
    → All P (if b then xs else ys)
All-if P true xs ys hx hy = hx
All-if P false xs ys hx hy = hy

admitted-All {ℓ} :
    (P : ℕ → Type ℓ) (last : ℕ → ℤ) (window : ℕ) (step_of : ℕ → ℕ) (es : List ℕ)
    → All P es
    → All P (admitted last window step_of es)
unfolding admitted
admitted-All P last window step_of [] h = tt
admitted-All P last window step_of (e ∷ es) h =
    let rest = admitted-All P last window step_of es h.1 in
    All-if P (ltb_ℤ (pos window) (pos (step_of e) -ℤ last e)) _ _ rest (h.0, rest)

All-contains :
    (xs ys : List ℕ)
    → ((e : ℕ) → contains xs e ≡ true → contains ys e ≡ true)
    → All (λ e. contains ys e ≡ true) xs
unfolding contains
All-contains [] ys h = tt
All-contains (x ∷ xs) ys h = (h x (ground arith), All-contains xs ys (λ e c. h e (ground arith)))

All-both {ℓ} :
    {A : Type ℓ} (P Q : A → Type 0) (xs : List A) → All P xs → All Q xs → All (λ x. P x × Q x) xs
All-both P Q [] p q = tt
All-both P Q (x ∷ xs) p q = ((p.0, q.0), All-both P Q xs p.1 q.1)

experts_in_range :
    (n_layers : ℕ) (pools : ℕ → ResidentPool) (layer : ℕ) (misses : List Miss)
    → All (IsLogged n_layers pools) misses
    → All (IsBelow (pools layer).n_experts) (experts_of (rows_of layer misses))
unfolding rows_of
experts_in_range n_layers pools layer [] h = tt
experts_in_range n_layers pools layer (row ∷ rows) h = elim (Bool-cases (row.layer == layer)) [
  | inl here ↦ rw here (
    rw (← (==_iff row.layer layer).0 here) h.0.expert_range,
    experts_in_range n_layers pools layer rows h.1,
  )
  | inr other ↦ rw other (experts_in_range n_layers pools layer rows h.1)
]

module _ (store : RecordStore) where
  abbrev Manager : Type 0
  Manager = PlacementManager store

  -- What one round of the loop over the layers leaves.
  pub record LayerDone (m : Manager) (misses : List Miss) (layer : ℕ) (m' : Manager)
      (out : List Promotion) : Type 0 where
    pub tracks :
        Tracks
          (distinct_from [] (experts_of (rows_of layer misses)))
          (m.pools layer)
          (m'.pools layer)
          out
    pub others : (k : ℕ) → k ≢ layer → m'.pools k ≡ m.pools k
    pub layers : m'.n_layers ≡ m.n_layers

  module _ (m : Manager) (misses : List Miss) (layer : ℕ) (mirror : IsMirror (m.pools layer))
      (logged : All (IsLogged m.n_layers m.pools) misses) where
    abbrev rows : List Miss
    rows = rows_of layer misses

    abbrev experts : List ℕ
    experts = distinct_from [] (experts_of rows)

    due : All (IsDue (m.pools layer).n_experts experts) experts
    due =
        All-map _ _ experts (λ e h. record { in_range = h.0; protected = h.1 })
          (All-both (IsBelow (m.pools layer).n_experts) (λ e. contains experts e ≡ true) experts
            (distinct_from-All _ [] _ (experts_in_range m.n_layers m.pools layer misses logged))
            (All-contains experts experts (λ e c. c)))

    -- The loop over the experts that pass the window; `m'` is the manager after it.
    admitted_loop :
        (m' : Manager) (kept : List ℕ)
        → m'.pools ≡ m.pools
        → m'.n_layers ≡ m.n_layers
        → All (IsDue (m.pools layer).n_experts experts) kept
        → (w : Work store) × (promote_all store m'.has_release m'.n_slices layer experts
              (miss_step rows)
              m'.max_per_layer
              (start_work store m' layer)
              kept
            ≡ ok w)
          × LayerDone m misses layer (finish_work store m' layer w) w.out
    unfolding start_work finish_work
    admitted_loop m' kept same layers keep =
        let (w, runs, holds) =
          promote_all-Holds store m'.has_release m'.n_slices layer
            (Tracks-rule experts (miss_step rows) (m.pools layer)) (m.pools layer).n_experts
            m'.max_per_layer kept (start_work store m' layer)
            (rw same, rw same (Tracks-start experts (m.pools layer) mirror)) keep in
        (
          w,
          runs,
          record {
            tracks = rw (update_self m'.pools layer w.pool) holds.1;
            others = λ k other. update_ne m'.pools layer w.pool k other ∙ ap (λ f. f k) same;
            layers = layers;
          },
        )

    abbrev kept_experts : List ℕ
    kept_experts = admitted (m.last_miss layer) m.window (miss_step rows) experts

    abbrev noted : Manager
    noted = note_misses store m layer (miss_step rows) experts kept_experts

    in_range : all_below (m.pools layer).n_experts experts ≡ true
    in_range = all_below_of_All _ experts (All-map _ _ experts (λ e h. h.in_range) due)

    pub plan_layer-LayerDone :
        layer < m.n_layers
        → (m' : Manager) × (out : List Promotion) × (plan_layer store m misses layer ≡ ok (m', out))
          × LayerDone m misses layer m' out
    unfolding plan_layer admit note_misses
    plan_layer-LayerDone lt = elim (Bool-cases (ltb 0 m.window)) [
      | inl on ↦
          let (w, runs, done) =
            admitted_loop noted kept_experts refl refl
              (admitted-All _ (m.last_miss layer) m.window (miss_step rows) experts due) in
          (
            finish_work store noted layer w,
            w.out,
            rw (lt→ltb layer m.n_layers lt, on, in_range, runs),
            done,
          )
      | inr off ↦
          let (w, runs, done) = admitted_loop m experts refl refl due in
          (finish_work store m layer w, w.out, rw (lt→ltb layer m.n_layers lt, off, runs), done)
    ]
