-- ===== src/Cpus/Overrides.antt =====
-- The lists of the environment for the virtual ranks of several processes.
use native.Mathlib.Nat.{suc-mul, mul-mod_left}
use v_llm_moet.Prelude.{
  ℕ, zero, suc, ◌+◌, ◌*◌, ◌%◌, ◌<◌, ◌≤◌, ◌≡◌, refl, sym, ap, ◌∙◌, true, List, [], ◌∷◌, ◌==◌, arith,
  length, get_elem?, take, drop, ok, lt→ltb, le→leb, ==_iff, Bool-cases, inl, inr,
}
use v_llm_moet.Cpus.{pick}

get_elem?-drop {ℓ} :
    {A : Type ℓ} (n v : ℕ) (xs : List A) → get_elem? (drop n xs) v ≡ get_elem? xs (n + v)
get_elem?-drop zero v xs = ap (λ k. get_elem? xs k) (omega arith)
get_elem?-drop (suc n) v [] = refl
get_elem?-drop (suc n) v (x ∷ xs) =
    let e : suc n + v ≡ suc (n + v) = omega arith in
    get_elem?-drop n v xs ∙ ap (λ k. get_elem? (x ∷ xs) k) (sym e)

get_elem?-take {ℓ} :
    {A : Type ℓ} (n v : ℕ) (xs : List A) → v < n → get_elem? (take n xs) v ≡ get_elem? xs v
get_elem?-take zero v xs h = absurd (omega arith)
get_elem?-take (suc n) v [] h = refl
get_elem?-take (suc n) zero (x ∷ xs) h = refl
get_elem?-take (suc n) (suc v) (x ∷ xs) h = get_elem?-take n v xs (omega arith)

-- The entries of process `r` lie in the list.
entries_le : (ranks r n : ℕ) → r < ranks → r * n + n ≤ ranks * n
entries_le zero r n h = absurd (omega arith)
entries_le (suc ranks) zero n h = let e = suc-mul ranks n in omega arith
entries_le (suc ranks) (suc r) n h =
    let e = suc-mul ranks n in
    let f = suc-mul r n in let rest = entries_le ranks r n (omega arith) in omega arith

-- One process only: its entries are the first.
one_process : (ranks r n : ℕ) → ranks * n ≡ n → 0 < n → r < ranks → r * n ≡ 0
one_process ranks zero n e pos h = omega arith
one_process ranks (suc r) n e pos h =
    let all = entries_le ranks (suc r) n h in let f = suc-mul r n in absurd (omega arith)

-- A list with the entries of every one of `ranks` processes gives each process its own ones.
pub pick_entries {ℓ} :
    {A : Type ℓ} (ranks r v_ranks : ℕ) (parts : List A)
    → length parts ≡ ranks * v_ranks
    → r < ranks
    → 0 < v_ranks
    → (own : List A) × (pick v_ranks (r * v_ranks) parts ≡ ok own)
      × ((v : ℕ) → v < v_ranks → get_elem? own v ≡ get_elem? parts (r * v_ranks + v))
unfolding pick
pick_entries ranks r v_ranks parts e lt pos = elim (Bool-cases (length parts == v_ranks)) [
  | inl one ↦
      let e' = (==_iff (length parts) v_ranks).0 one in
      let z = one_process ranks r v_ranks (omega arith) pos lt in
      (parts, rw one refl, λ v h. ap (λ k. get_elem? parts k) (omega arith))
  | inr several ↦
      let all = entries_le ranks r v_ranks lt in
      let more : v_ranks < length parts = ground arith in
      let fits : r * v_ranks + v_ranks ≤ length parts = omega arith in
      let whole : (length parts % v_ranks == 0) ≡ true =
        (==_iff _ 0).1 (ap (λ k. k % v_ranks) e ∙ mul-mod_left ranks v_ranks) in
      (
        take v_ranks (drop (r * v_ranks) parts),
        rw (several, lt→ltb _ _ more, whole, le→leb _ _ fits) refl,
        λ v h.
            get_elem?-take v_ranks v (drop (r * v_ranks) parts) h
            ∙ get_elem?-drop (r * v_ranks) v parts,
      )
]
