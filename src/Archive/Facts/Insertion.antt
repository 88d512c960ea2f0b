-- ===== src/Archive/Facts/Insertion.antt =====
-- `_advance_head` and one round of the loop of `publish` keep the heads' invariant.
use gh_puller.Archive.Action.{steps}
use gh_puller.Archive.Facts.{
  advance_head, advance_to, index_references, insert_fact, keeps_head, observation_is,
  observation_row, set_head,
}
use gh_puller.Archive.Facts.Advance.{
  HeadsInv-advanced, HeadsOk, find-grown_self, grown, head_observation-grown,
}
use gh_puller.Archive.Facts.Heads.{HeadsInv, head_observation}
use gh_puller.Archive.Keeps.{Keeps, Keeps-modify, OnOk, OnOk-proceed, keeping}
use gh_puller.Archive.Model.{FactDraft, FactHead, FactObservation, Tables}
use gh_puller.Archive.Prepare.{PreparedFact}
use gh_puller.Base.{
  Bool-cases, List, Option, String, ap, ap₂, arith, find, if◌then◌else◌, inl, inr, nat_instance,
  next_id, option_instance, refl, some, subst₂, sym, text_instance, ℕ, ◌∙◌, ◌≡◌, ◌≤◌,
}

-- The tables of an archive differ from others in neither of the two.
abbrev pub SameFacts : List FactObservation → List FactHead → Tables → Type 0
SameFacts os heads t = (t.fact_observations ≡ os) × (t.fact_heads ≡ heads)

advance_to_fields :
    (f s : String) (cur : Option FactObservation) (row : FactObservation) (u : Tables)
    → ((advance_to f s cur row u).fact_observations ≡ u.fact_observations)
      × ((advance_to f s cur row u).fact_heads
          ≡ (if keeps_head cur row then u.fact_heads else set_head f s row.id u.fact_heads))
advance_to_fields f s cur row u = elim (Bool-cases (keeps_head cur row)) [
  | inl e ↦ simp e (refl, refl)
  | inr e ↦ simp e (refl, refl)
]

-- `_advance_head` at the row that was just appended.
pub advance_to-HeadsOk :
    (os : List FactObservation) (heads : List FactHead) (row : FactObservation) (u : Tables)
    → HeadsInv os heads
    → next_id (λ o. o.id) os ≤ row.id
    → SameFacts (grown os row) heads u
    → HeadsOk (
        advance_to row.family row.subject_key
          (head_observation row.family row.subject_key u.fact_heads u.fact_observations)
          row
          u)
advance_to-HeadsOk os heads row u inv fresh (eo, eh) =
    let (to, th) =
      advance_to_fields row.family row.subject_key
        (head_observation row.family row.subject_key u.fact_heads u.fact_observations) row u in
    let cur : head_observation row.family row.subject_key u.fact_heads u.fact_observations
        ≡ head_observation row.family row.subject_key heads os =
      ap₂ (λ hs xs. head_observation row.family row.subject_key hs xs) eh eo
      ∙ head_observation-grown os heads row inv fresh row.family row.subject_key in
    let heads_after =
      th
      ∙ ap₂ (λ c hs. if keeps_head c row then hs else set_head row.family row.subject_key row.id hs)
          cur eh in
    subst₂ HeadsInv (sym (to ∙ eo)) (sym heads_after) (HeadsInv-advanced os heads row inv fresh)

advance_head_found :
    (P : Tables → Type 0) (i : ℕ) (f s : String) (u : Tables) (row : FactObservation)
    → find (observation_is i) u.fact_observations ≡ some row
    → P (advance_to f s (head_observation f s u.fact_heads u.fact_observations) row u)
    → OnOk (λ _. P) (advance_head i f s u)
unfolding advance_head steps
advance_head_found P i f s u row found h = simp found h

index_references-SameFacts :
    (os : List FactObservation) (heads : List FactHead) (i : ℕ) (fact : FactDraft)
    → Keeps (SameFacts os heads) (index_references i fact)
unfolding index_references
index_references-SameFacts os heads i fact = search (keeping, Keeps-modify)

-- One round of the loop of `publish` keeps the invariant.
pub insert_fact-HeadsOk : (b n : ℕ) (p : PreparedFact) → Keeps HeadsOk (insert_fact b n p)
unfolding insert_fact steps
insert_fact-HeadsOk b n p = record {
  at = λ t inv.
      let row = observation_row b n p t in
      let os = t.fact_observations in
      let le_here : next_id (λ o. o.id) os ≤ row.id = omega arith in
      OnOk-proceed (λ _. SameFacts (grown os row) t.fact_heads) (λ _. HeadsOk)
        (index_references row.id p.fact (record t { fact_observations = grown os row }))
        (λ _. advance_head row.id p.fact.family p.fact.subject_key)
        ((index_references-SameFacts (grown os row) t.fact_heads row.id p.fact).at _ (refl, refl))
        (λ _ u same.
          advance_head_found HeadsOk row.id p.fact.family p.fact.subject_key u row
            (ap (find (observation_is row.id)) same.0 ∙ find-grown_self os row le_here)
            (advance_to-HeadsOk os t.fact_heads row u inv le_here same));
}
