-- ===== src/Placement/Manager/Plan.antt =====
-- `plan` (tools/dsv41_5090/cpu_tier/placement_manager.py) as a whole: it returns on every log that
-- is in range, and each layer's promotions take the device table to the new host mirror.
use v_llm_moet.Prelude.{
  ℕ, ◌<◌, ◌≡◌, ◌≢◌, ◌∙◌, refl, sym, inl, inr, List, [], ◌∷◌, map, arith, ltb, ltb→lt, ◌==◌, ==_iff,
  if◌then◌else◌, distinct_from, All, All-map, ok, Bool-cases,
}
use v_llm_moet.Placement.Pool.Mirror.{IsMirror}
use v_llm_moet.Placement.Store.{RecordStore}
use v_llm_moet.Placement.Log.{Miss, insert_unique, unique, rows_of, experts_of}
use v_llm_moet.Placement.Manager.{Promotion, PlacementManager, add_plan, plan_layers, plan}
use v_llm_moet.Placement.Manager.Layer.{Tracks, Tracks-start}
use v_llm_moet.Placement.Manager.Round.{IsLogged, LayerDone, plan_layer-LayerDone}

-- `plans.get(layer, [])`
unfoldable pub plan_of : ℕ → List (ℕ × List Promotion) → List Promotion
plan_of k [] = []
plan_of k ((l, out) ∷ rest) = if l == k then out else plan_of k rest

-- Strictly ascending.
abbrev IsAscending : List ℕ → Type 0
IsAscending [] = Unit
IsAscending (x ∷ xs) = All (λ y. x < y) xs × IsAscending xs

insert_unique-All {ℓ} :
    (P : ℕ → Type ℓ) (x : ℕ) (xs : List ℕ) → P x → All P xs → All P (insert_unique x xs)
unfolding insert_unique
insert_unique-All P x [] px h = (px, tt)
insert_unique-All P x (y ∷ ys) px h = elim (Bool-cases (ltb x y)) [
  | inl below ↦ rw below (px, h)
  | inr above ↦ elim (Bool-cases (x == y)) [
    | inl same ↦ rw (above, same) h
    | inr other ↦ rw (above, other) (h.0, insert_unique-All P x ys px h.1)
  ]
]

insert_unique-IsAscending :
    (x : ℕ) (xs : List ℕ) → IsAscending xs → IsAscending (insert_unique x xs)
unfolding insert_unique
insert_unique-IsAscending x [] h = (tt, tt)
insert_unique-IsAscending x (y ∷ ys) h = elim (Bool-cases (ltb x y)) [
  | inl below ↦
      rw below ((ltb→lt x y below, All-map _ _ ys (λ z lt. omega (arith, ltb→lt x y below)) h.0), h)
  | inr above ↦ elim (Bool-cases (x == y)) [
    | inl same ↦ rw (above, same) h
    | inr other ↦
        rw (above, other)
          (
            insert_unique-All (λ z. y < z) x ys (ground arith) h.0,
            insert_unique-IsAscending x ys h.1,
          )
  ]
]

unique-IsAscending : (xs : List ℕ) → IsAscending (unique xs)
unfolding unique
unique-IsAscending [] = tt
unique-IsAscending (x ∷ xs) = insert_unique-IsAscending x (unique xs) (unique-IsAscending xs)

unique-All {ℓ} : (P : ℕ → Type ℓ) (xs : List ℕ) → All P xs → All P (unique xs)
unfolding unique
unique-All P [] h = tt
unique-All P (x ∷ xs) h = insert_unique-All P x (unique xs) h.0 (unique-All P xs h.1)

module _ (store : RecordStore) where
  abbrev Manager : Type 0
  Manager = PlacementManager store

  -- The invariant: in every layer the two tables mirror one another.
  pub record IsSound (m : Manager) : Type 0 where
    pub mirrors : (k : ℕ) → IsMirror (m.pools k)

  abbrev pub missed : List Miss → ℕ → List ℕ
  missed misses k = distinct_from [] (experts_of (rows_of k misses))

  -- What `plan` leaves: every layer's pool tracks that layer's promotions.
  pub record PlanDone (m : Manager) (misses : List Miss) (m' : Manager)
      (plans : List (ℕ × List Promotion)) : Type 0 where
    pub tracks : (k : ℕ) → Tracks (missed misses k) (m.pools k) (m'.pools k) (plan_of k plans)
    pub layers : m'.n_layers ≡ m.n_layers

  -- A layer that is not in the list is left alone.
  record IsUntouched (ls : List ℕ) (m m' : Manager) (plans : List (ℕ × List Promotion))
      : Type 0 where
    no_plan : (k : ℕ) → All (λ l. l ≢ k) ls → plan_of k plans ≡ []
    same_pool : (k : ℕ) → All (λ l. l ≢ k) ls → m'.pools k ≡ m.pools k

  module _ {m : Manager} {misses : List Miss} {l : ℕ} {m' : Manager} {out : List Promotion}
      (sound : IsSound m) (done : LayerDone store m misses l m' out) where
    IsSound-round : IsSound m'
    IsSound-round = record {
      mirrors = λ k. elim (Bool-cases (k == l)) [
        | inl here ↦ rw ((==_iff k l).0 here) done.tracks.mirror
        | inr other ↦ rw (done.others k (ground arith)) (sound.mirrors k)
      ];
    }

    same_experts-round : (k : ℕ) → (m'.pools k).n_experts ≡ (m.pools k).n_experts
    same_experts-round k = elim (Bool-cases (k == l)) [
      | inl here ↦ rw ((==_iff k l).0 here) done.tracks.same_experts
      | inr other ↦ rw (done.others k (ground arith))
    ]

    IsLogged-round :
        (rows : List Miss)
        → All (IsLogged m.n_layers m.pools) rows
        → All (IsLogged m'.n_layers m'.pools) rows
    IsLogged-round rows = All-map _ _ rows (λ row h. record {
      layer_range = rw done.layers h.layer_range;
      expert_range = rw (same_experts-round row.layer) h.expert_range;
    })

  plan_of-add_plan_self :
      (l : ℕ) (out : List Promotion) (rest : List (ℕ × List Promotion))
      → plan_of l rest ≡ []
      → plan_of l (add_plan l out rest) ≡ out
  unfolding plan_of add_plan
  plan_of-add_plan_self l [] rest h = h
  plan_of-add_plan_self l (p ∷ ps) rest h = ground arith

  plan_of-add_plan_ne :
      (k l : ℕ) (out : List Promotion) (rest : List (ℕ × List Promotion))
      → l ≢ k
      → plan_of k (add_plan l out rest) ≡ plan_of k rest
  unfolding plan_of add_plan
  plan_of-add_plan_ne k l [] rest h = refl
  plan_of-add_plan_ne k l (p ∷ ps) rest h = ground arith

  module _ {m m' m'' : Manager} {misses : List Miss} {l : ℕ} {ls : List ℕ} {out : List Promotion}
      {rest : List (ℕ × List Promotion)} (later : All (λ k. l < k) ls)
      (done : LayerDone store m misses l m' out) (ends : PlanDone m' misses m'' rest)
      (apart : IsUntouched ls m' m'' rest) where
    absent_later : All (λ k. k ≢ l) ls
    absent_later = All-map _ _ ls (λ k lt. omega arith) later

    Tracks-here :
        Tracks (missed misses l) (m.pools l) (m''.pools l) (plan_of l (add_plan l out rest))
    Tracks-here =
        rw
          (
            plan_of-add_plan_self l out rest (apart.no_plan l absent_later),
            apart.same_pool l absent_later,
          )
          done.tracks

    Tracks-there :
        (k : ℕ)
        → k ≢ l
        → Tracks (missed misses k) (m.pools k) (m''.pools k) (plan_of k (add_plan l out rest))
    Tracks-there k other =
        rw (plan_of-add_plan_ne k l out rest (λ e. other (sym e)), ← done.others k other)
          (ends.tracks k)

    PlanDone-join : PlanDone m misses m'' (add_plan l out rest)
    PlanDone-join = record {
      tracks = λ k. elim (Bool-cases (k == l)) [
        | inl here ↦ rw ((==_iff k l).0 here) Tracks-here
        | inr there ↦ Tracks-there k (ground arith)
      ];
      layers = ends.layers ∙ done.layers;
    }

    IsUntouched-join : IsUntouched (l ∷ ls) m m'' (add_plan l out rest)
    IsUntouched-join = record {
      no_plan = λ k h. plan_of-add_plan_ne k l out rest h.0 ∙ apart.no_plan k h.1;
      same_pool = λ k h. apart.same_pool k h.1 ∙ done.others k (λ e. h.0 (sym e));
    }

  abbrev Ends : Manager → List Miss → List ℕ → Type 0
  Ends m misses ls =
      (m' : Manager) × (plans : List (ℕ × List Promotion)) × (plan_layers store m misses ls
        ≡ ok (m', plans))
      × PlanDone m misses m' plans
      × IsUntouched ls m m' plans

  plan_layers-PlanDone :
      (ls : List ℕ) (m : Manager) (misses : List Miss)
      → IsSound m
      → All (IsLogged m.n_layers m.pools) misses
      → All (λ l. l < m.n_layers) ls
      → IsAscending ls
      → Ends m misses ls
  unfolding plan_layers plan_of
  plan_layers-PlanDone [] m misses sound logged below up = (
    m,
    [],
    refl,
    record { tracks = λ k. Tracks-start _ _ (sound.mirrors k); layers = refl },
    record { no_plan = λ k h. refl; same_pool = λ k h. refl },
  )
  plan_layers-PlanDone (l ∷ ls) m misses sound logged below up =
      let (m', out, runs, done) =
        plan_layer-LayerDone store m misses l (sound.mirrors l) logged below.0 in
      let (m'', rest, runs', ends, apart) =
        plan_layers-PlanDone ls m' misses (IsSound-round sound done)
          (IsLogged-round sound done misses logged) (rw done.layers below.1) up.1 in
      (
        m'',
        add_plan l out rest,
        rw (runs, runs'),
        PlanDone-join up.0 done ends apart,
        IsUntouched-join up.0 done ends apart,
      )

  layers_in_range :
      (m : Manager) (misses : List Miss)
      → All (IsLogged m.n_layers m.pools) misses
      → All (λ l. l < m.n_layers) (map (λ row. row.layer) misses)
  layers_in_range m [] h = tt
  layers_in_range m (row ∷ rows) h = (h.0.layer_range, layers_in_range m rows h.1)

  -- On a sound manager and a log in range `plan` returns, with no IndexError. In every layer the
  -- device table that the layer's promotions write (victims unmapped, then the promoted experts
  -- mapped) is the new host mirror, whose two tables still mirror one another; every promoted
  -- expert is one that the layer missed, and ends in its slot; and neither a missed expert nor one
  -- without a record loses the slot that it had.
  pub plan-PlanDone :
      (m : Manager) (misses : List Miss)
      → IsSound m
      → All (IsLogged m.n_layers m.pools) misses
      → (m' : Manager) × (plans : List (ℕ × List Promotion)) × (plan store m misses
          ≡ ok (m', plans))
        × PlanDone m misses m' plans
  unfolding plan
  plan-PlanDone m misses sound logged =
      let (m', plans, runs, done, _) =
        plan_layers-PlanDone (unique (map (λ row. row.layer) misses)) m misses sound logged
          (unique-All _ _ (layers_in_range m misses logged))
          (unique-IsAscending (map (λ row. row.layer) misses)) in
      (m', plans, runs, done)
