-- ===== src/Kernel/Resource/Selection.antt =====
-- Which checkpoint a resource is restored from.
use rebuno.Prelude.{
  Bool, List, Option, String, [], arith, false, if◌then◌else◌, ltb, none, not, refl, some,
  string_eq, true, ℕ, ℕ_eq, ◌&&◌, ◌==◌, ◌||◌, ◌∙◌, ◌∷◌, ◌≡◌,
}
use rebuno.Domain.Records.{ResourceCheckpoint, ResourceSelection, covers}
use rebuno.Kernel.Resource.{no_selection, select_from, select_resource}

-- A checkpoint of the key that does not reach past the event.
abbrev pub usable : String → ℕ → ResourceCheckpoint → Bool
usable key seq c = not (not (c.key == key) || ltb seq c.covered_seq)

abbrev pub covering : String → ℕ → ResourceCheckpoint → Bool
covering key seq c = usable key seq c && covers c seq

abbrev or_this : Bool → ResourceCheckpoint → Option ResourceCheckpoint → Option ResourceCheckpoint
or_this b c (some d) = some d
or_this b c none = if b then some c else none

-- The last element that passes a test.
abbrev pub last_where :
    (ResourceCheckpoint → Bool) → List ResourceCheckpoint → Option ResourceCheckpoint
last_where p [] = none
last_where p (c ∷ cs) = or_this (p c) c (last_where p cs)

abbrev pub chosen : ℕ → ResourceCheckpoint → ResourceSelection
chosen seq c = record {
  checkpoint_ref = c.ref;
  checkpoint_seq = c.covered_seq;
  covered = covers c seq;
}

abbrev pub chosen_or : ℕ → ResourceSelection → Option ResourceCheckpoint → ResourceSelection
chosen_or seq selected none = selected
chosen_or seq selected (some c) = chosen seq c

-- The last checkpoint that covers the event, or else the last that may be used, after a selection.
abbrev best_of :
    ℕ
    → ResourceSelection
    → Option ResourceCheckpoint
    → Option ResourceCheckpoint
    → ResourceSelection
best_of seq selected (some c) other = chosen seq c
best_of seq selected none other =
    if selected.covered then selected else chosen_or seq selected other

-- One round of the loop.
round :
    (seq : ℕ) (selected : ResourceSelection) (c : ResourceCheckpoint) (unusable : Bool)
    (p q : Option ResourceCheckpoint)
    → best_of seq
        (if unusable
          then selected
          else if selected.covered && not (covers c seq)
          then selected
          else chosen seq c)
        p
        q
      ≡ best_of seq selected
          (or_this (not unusable && covers c seq) c p)
          (or_this (not unusable) c q)
round seq selected c true none none = refl
round seq selected c true none (some d) = refl
round seq selected c true (some e) q = ground arith
round seq selected c false (some e) q = ground arith
round seq selected c false none none = ground arith
round seq selected c false none (some d) = ground arith

select_from-eq-best_of :
    (key : String) (seq : ℕ) (cs : List ResourceCheckpoint) (selected : ResourceSelection)
    → select_from key seq selected cs
      ≡ best_of seq selected (last_where (covering key seq) cs) (last_where (usable key seq) cs)
unfolding select_from
select_from-eq-best_of key seq [] selected = ground arith
select_from-eq-best_of key seq (c ∷ cs) selected =
    select_from-eq-best_of key seq cs _
    ∙ round seq selected c (not (c.key == key) || ltb seq c.covered_seq)
        (last_where (covering key seq) cs) (last_where (usable key seq) cs)

best_of-nothing :
    (seq : ℕ) (p q : Option ResourceCheckpoint)
    → best_of seq no_selection p q
      ≡ elim p [ some c ↦ chosen seq c | none ↦ chosen_or seq no_selection q ]
best_of-nothing seq none q = refl
best_of-nothing seq (some c) q = refl

-- The loop of selectResource picks, of the checkpoints of the key whose covered event is not after the given one, the last that covers it; only if there is none does it pick the last that does not, marked as not covered; and without any checkpoint it picks nothing.
pub select_resource-eq-best :
    (checkpoints : List ResourceCheckpoint) (key : String) (seq : ℕ)
    → select_resource checkpoints key seq ≡ elim (last_where (covering key seq) checkpoints) [
      | some c ↦ chosen seq c
      | none ↦ chosen_or seq no_selection (last_where (usable key seq) checkpoints)
    ]
unfolding select_resource
select_resource-eq-best checkpoints key seq =
    select_from-eq-best_of key seq checkpoints no_selection
    ∙ best_of-nothing seq (last_where (covering key seq) checkpoints)
        (last_where (usable key seq) checkpoints)
