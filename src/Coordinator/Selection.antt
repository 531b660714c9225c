-- ===== src/Coordinator/Selection.antt =====
-- hostagent/coordinator.py: the choice of _select_victims, its order and its length.
use mathlib.Core.List.{Perm, append_assoc}
use mathlib.Core.List.Perm
use native.Mathlib.Nat.{zero-add}
use mlops_lite.Base.{
  ◌∷◌, Bool, Dict, ◌≤◌, sum_of-append, ℕ, [], sum_of, ◌+◌, ◌≢◌, inl, ◌&&◌, inr, refl, ◌≡◌, ◌++◌,
  arith, Bool-cases, false, All, true, sym, List-cases, select, ◌⊎◌,
}
use mlops_lite.Coordinator.State.{ResidentModel}
use mlops_lite.Coordinator.Victims.{
  sorts_before, insert_sorted, fits_live, choose, sort, entry_vram, fits_budget, Terms, eligible,
  select_victims, is_eligible,
}

abbrev pub fits : Terms → (est_bytes freed : ℕ) → Bool
fits t est_bytes freed = fits_budget t est_bytes freed && fits_live t est_bytes freed

fits_mono :
    (t : Terms) (est_bytes a b : ℕ)
    → a ≤ b
    → fits t est_bytes b ≡ false
    → fits t est_bytes a ≡ false
fits_mono t est_bytes a b h e = ground arith

-- Freed bytes are those of the chosen entries, and they meet both bounds.
choose_enough :
    (t : Terms) (est_bytes freed : ℕ) (chosen vs : Dict ResidentModel)
    → sum_of entry_vram chosen ≡ freed
    → choose t est_bytes freed chosen vs ≢ []
    → fits t est_bytes (sum_of entry_vram (choose t est_bytes freed chosen vs)) ≡ true
unfolding choose
choose_enough t est_bytes freed chosen [] e h = absurd (h refl)
choose_enough t est_bytes freed chosen (v ∷ vs) e h =
    let sums : sum_of entry_vram (chosen ++ v ∷ []) ≡ freed + entry_vram v =
      omega (arith, sum_of-append entry_vram chosen (v ∷ [])) in
    elim (Bool-cases (fits t est_bytes (freed + entry_vram v))) [
      | inl f ↦ rw (f, choose) (rw sums f)
      | inr f ↦
          rw (f, choose)
            (choose_enough t est_bytes (freed + entry_vram v) (chosen ++ v ∷ []) vs sums
              (rw (f, choose) at h))
    ]

append-ne-nil : (vs : Dict ResidentModel) (v : ℕ × ResidentModel) → (vs ++ v ∷ []) ≢ []
append-ne-nil [] v e = cc
append-ne-nil (w ∷ vs) v e = cc

-- With no choice, all candidates together are not enough.
choose_none :
    (t : Terms) (est_bytes freed : ℕ) (chosen vs : Dict ResidentModel)
    → fits t est_bytes freed ≡ false
    → choose t est_bytes freed chosen vs ≡ []
    → fits t est_bytes (freed + sum_of entry_vram vs) ≡ false
unfolding choose
choose_none t est_bytes freed chosen [] f h = fits_mono t est_bytes _ freed (omega arith) f
choose_none t est_bytes freed chosen (v ∷ vs) f h =
    elim (Bool-cases (fits t est_bytes (freed + entry_vram v))) [
      | inl g ↦ absurd (append-ne-nil chosen v (rw (g, choose) at h))
      | inr g ↦
          fits_mono t est_bytes _ (freed + entry_vram v + sum_of entry_vram vs) (omega arith) (
            choose_none t est_bytes (freed + entry_vram v) (chosen ++ v ∷ []) vs g
              (rw (g, choose) at h))
    ]

-- The choice is an initial segment of the candidates, and no shorter one is enough.
pub record IsLeast (t : Terms) (est_bytes : ℕ) (all result : Dict ResidentModel) : Type 0 where
  pub before : Dict ResidentModel
  pub last : ℕ × ResidentModel
  pub rest : Dict ResidentModel
  pub segment : result ≡ before ++ last ∷ []
  pub split : all ≡ result ++ rest
  pub short : fits t est_bytes (sum_of entry_vram before) ≡ false

choose-IsLeast :
    (t : Terms) (est_bytes freed : ℕ) (chosen vs : Dict ResidentModel)
    → sum_of entry_vram chosen ≡ freed
    → fits t est_bytes freed ≡ false
    → choose t est_bytes freed chosen vs ≢ []
    → IsLeast t est_bytes (chosen ++ vs) (choose t est_bytes freed chosen vs)
unfolding choose
choose-IsLeast t est_bytes freed chosen [] e f h = absurd (h refl)
choose-IsLeast t est_bytes freed chosen (v ∷ vs) e f h =
    let sums : sum_of entry_vram (chosen ++ v ∷ []) ≡ freed + entry_vram v =
      omega (arith, sum_of-append entry_vram chosen (v ∷ [])) in
    elim (Bool-cases (fits t est_bytes (freed + entry_vram v))) [
      | inl g ↦
          rw (g, choose)
            (record {
              before = chosen;
              last = v;
              rest = vs;
              segment = refl;
              split = sym (append_assoc chosen (v ∷ []) vs);
              short = rw e f;
            })
      | inr g ↦
          rw (g, choose)
            (rw (append_assoc chosen (v ∷ []) vs) at (
              choose-IsLeast t est_bytes (freed + entry_vram v) (chosen ++ v ∷ []) vs sums g
                (rw (g, choose) at h)))
    ]

sorts_before_trans :
    (a b c : ℕ × ResidentModel)
    → sorts_before a b ≡ true
    → sorts_before b c ≡ true
    → sorts_before a c ≡ true
sorts_before_trans (i, a) (j, b) (k, c) p q = ground arith

sorts_before_total : (a b : ℕ × ResidentModel) → sorts_before a b ≡ false → sorts_before b a ≡ true
sorts_before_total (i, a) (j, b) p = ground arith

-- Every entry goes before all later ones.
abbrev pub IsSorted : Dict ResidentModel → Type 0
IsSorted [] = Unit {0}
IsSorted (v ∷ vs) = All (λ w. sorts_before v w ≡ true) vs × IsSorted vs

All-weaken :
    (v w : ℕ × ResidentModel) (vs : Dict ResidentModel)
    → sorts_before v w ≡ true
    → All (λ x. sorts_before w x ≡ true) vs
    → All (λ x. sorts_before v x ≡ true) vs
All-weaken v w [] h a = tt
All-weaken v w (x ∷ vs) h a = (sorts_before_trans v w x h a.0, All-weaken v w vs h a.1)

All-insert_sorted :
    (P : ℕ × ResidentModel → Type 0) (v : ℕ × ResidentModel) (vs : Dict ResidentModel)
    → P v
    → All P vs
    → All P (insert_sorted v vs)
unfolding insert_sorted
All-insert_sorted P v [] h a = (h, a)
All-insert_sorted P v (w ∷ vs) h a = elim (Bool-cases (sorts_before v w)) [
  | inl e ↦ rw e (h, a)
  | inr e ↦ rw e (a.0, All-insert_sorted P v vs h a.1)
]

insert_sorted-IsSorted :
    (v : ℕ × ResidentModel) (vs : Dict ResidentModel) → IsSorted vs → IsSorted (insert_sorted v vs)
unfolding insert_sorted
insert_sorted-IsSorted v [] s = (tt, tt)
insert_sorted-IsSorted v (w ∷ vs) s = elim (Bool-cases (sorts_before v w)) [
  | inl e ↦ rw e ((e, All-weaken v w vs e s.0), s)
  | inr e ↦ rw e (
    All-insert_sorted (λ x. sorts_before w x ≡ true) v vs (sorts_before_total v w e) s.0,
    insert_sorted-IsSorted v vs s.1,
  )
]

sort-IsSorted : (vs : Dict ResidentModel) → IsSorted (sort vs)
unfolding sort
sort-IsSorted [] = tt
sort-IsSorted (v ∷ vs) = insert_sorted-IsSorted v (sort vs) (sort-IsSorted vs)

insert_sorted-perm :
    (v : ℕ × ResidentModel) (vs : Dict ResidentModel) → Perm (insert_sorted v vs) (v ∷ vs)
unfolding insert_sorted
insert_sorted-perm v [] = Perm.rfl
insert_sorted-perm v (w ∷ vs) = elim (Bool-cases (sorts_before v w)) [
  | inl e ↦ rw e Perm.rfl
  | inr e ↦ rw e (Perm.trans (Perm.cons w (insert_sorted-perm v vs)) (Perm.swap v w vs))
]

sort-perm : (vs : Dict ResidentModel) → Perm (sort vs) vs
unfolding sort
sort-perm [] = Perm.rfl
sort-perm (v ∷ vs) = Perm.trans (insert_sorted-perm v (sort vs)) (Perm.cons v (sort-perm vs))

-- A choice of victims frees enough for both bounds, and it is the shortest initial segment of the
-- eligible residents that does, the idle ones first and the least recently used of them first. The
-- eligible residents are the other models that are resident and materialized, and nothing is chosen
-- from them only where even all of them are not enough. It is stated for an estimate that does not
-- fit as things stand.
pub select_victims_lem :
    (t : Terms) (key est_bytes : ℕ) (residents : Dict ResidentModel)
    → (fits_budget t est_bytes 0 && fits_live t est_bytes 0) ≡ false
    → let chosen = select_victims t key est_bytes residents in
      let candidates = eligible key residents in
      (IsSorted candidates × Perm candidates (select (is_eligible key) residents))
      × ((chosen ≡ []
            × ((fits_budget t est_bytes (sum_of entry_vram candidates)
                  && fits_live t est_bytes (sum_of entry_vram candidates))
                ≡ false))
          ⊎ (((fits_budget t est_bytes (sum_of entry_vram chosen)
                  && fits_live t est_bytes (sum_of entry_vram chosen))
                ≡ true)
              × IsLeast t est_bytes candidates chosen))
unfolding select_victims eligible
select_victims_lem t key est_bytes residents short = (
  (sort-IsSorted _, sort-perm _),
  elim (List-cases (choose t est_bytes 0 [] (eligible key residents))) [
    | inl e ↦
        inl (e, rw zero-add at (choose_none t est_bytes 0 [] (eligible key residents) short e))
    | inr n ↦ inr (
      choose_enough t est_bytes 0 [] (eligible key residents) refl n,
      choose-IsLeast t est_bytes 0 [] (eligible key residents) refl short n,
    )
  ],
)
