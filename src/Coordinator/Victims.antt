-- ===== src/Coordinator/Victims.antt =====
-- hostagent/coordinator.py: Coordinator._select_victims.
use mlops_lite.Base.{
  ◌&&◌, not, Bool, ◌∷◌, ℕ, ◌==◌, Dict, leb, select, if◌then◌else◌, true, [], ◌+◌, false, ltb, ◌++◌,
}
use mlops_lite.Coordinator.State.{ResidentModel, is_resident}

-- The pair that the sort compares: busy after idle, then the older touch first.
abbrev pub busy_rank : ResidentModel → ℕ
busy_rank r = if r.active_requests == 0 then 0 else 1

abbrev pub sorts_before : ℕ × ResidentModel → ℕ × ResidentModel → Bool
sorts_before (_, a) (_, b) =
    if ltb (busy_rank a) (busy_rank b)
    then true
    else if ltb (busy_rank b) (busy_rank a)
    then false
    else leb a.recency_seq b.recency_seq

-- `list.sort` is stable: an entry goes before the later ones that compare equal.
unfoldable pub insert_sorted : ℕ × ResidentModel → Dict ResidentModel → Dict ResidentModel
insert_sorted v [] = v ∷ []
insert_sorted v (w ∷ ws) = if sorts_before v w then v ∷ w ∷ ws else w ∷ insert_sorted v ws

unfoldable pub sort : Dict ResidentModel → Dict ResidentModel
sort [] = []
sort (v ∷ vs) = insert_sorted v (sort vs)

abbrev pub is_eligible : ℕ → ℕ × ResidentModel → Bool
is_eligible key (k, r) = not (k == key) && (is_resident r.state && r.materialized)

unfoldable pub eligible : ℕ → Dict ResidentModel → Dict ResidentModel
eligible key residents = sort (select (is_eligible key) residents)

-- What both bounds are checked against; the subtractions stand on the other side.
pub record Terms : Type 0 where
  pub accounted_bytes : ℕ
  pub unmaterialized_bytes : ℕ
  pub free : ℕ
  pub capacity : ℕ
  pub headroom : ℕ

abbrev pub fits_budget : Terms → (est_bytes freed : ℕ) → Bool
fits_budget t est_bytes freed = leb (t.accounted_bytes + est_bytes) (t.capacity + freed)

abbrev pub fits_live : Terms → (est_bytes freed : ℕ) → Bool
fits_live t est_bytes freed = leb (est_bytes + t.unmaterialized_bytes + t.headroom) (t.free + freed)

abbrev pub entry_vram : ℕ × ResidentModel → ℕ
entry_vram (_, r) = r.vram_accounted_bytes

-- The loop over the sorted candidates.
unfoldable pub choose :
    Terms → (est_bytes freed : ℕ) → (chosen candidates : Dict ResidentModel) → Dict ResidentModel
choose t est_bytes freed chosen [] = []
choose t est_bytes freed chosen (v ∷ vs) =
    let freed' = freed + entry_vram v in
    let chosen' = chosen ++ v ∷ [] in
    let rest = choose t est_bytes freed' chosen' vs in
    if fits_budget t est_bytes freed' && fits_live t est_bytes freed' then chosen' else rest

unfoldable pub select_victims :
    Terms → (key est_bytes : ℕ) → Dict ResidentModel → Dict ResidentModel
select_victims t key est_bytes residents = choose t est_bytes 0 [] (eligible key residents)
