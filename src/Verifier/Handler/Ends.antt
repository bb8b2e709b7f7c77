-- ===== src/Verifier/Handler/Ends.antt =====
-- The first and the last leaf of a session, and of the one-leaf windows that hold them.
use bee_engine.Base.{ℕ, suc, ◌-◌, ◌≤◌, ◌≡◌, refl, ap, subst, ◌∙◌, List, [], ◌∷◌, some, arith}
use bee_engine.Base.Lists.{length, slice, first, last, All, take, drop}
use bee_engine.Shared.Leaf.{ComputedLeaf}
use bee_engine.Miner.Context.Timeline.{Chronological}

-- The first and the last of a list, as the one-leaf windows that hold them.
pub first_window : (ls : List ComputedLeaf) → first (slice 0 1 ls) ≡ first ls
first_window [] = refl
first_window (l ∷ ls) = refl

last_drop :
    (l : ComputedLeaf) (ls : List ComputedLeaf) → last (drop (length ls) (l ∷ ls)) ≡ last (l ∷ ls)
last_drop l [] = refl
last_drop l (k ∷ ls) = last_drop k ls

take_one : (xs : List ComputedLeaf) → length xs ≡ 1 → take 1 xs ≡ xs
take_one [] h = absurd (omega arith)
take_one (x ∷ []) h = refl
take_one (x ∷ y ∷ ys) h = absurd (omega arith)

length-drop_last :
    (l : ComputedLeaf) (ls : List ComputedLeaf) → length (drop (length ls) (l ∷ ls)) ≡ 1
length-drop_last l [] = refl
length-drop_last l (k ∷ ls) = length-drop_last k ls

pub last_window : (ls : List ComputedLeaf) → last (slice (length ls - 1) (length ls) ls) ≡ last ls
last_window [] = refl
last_window (l ∷ ls) =
    let start : suc (length ls) - 1 ≡ length ls = omega arith in
    let width : suc (length ls) - length ls ≡ 1 = omega arith in
    rw (start, width)
      (ap last (take_one (drop (length ls) (l ∷ ls)) (length-drop_last l ls)) ∙ last_drop l ls)

-- In a chronological list the first is not later than the last, nor the last later than the bound.
pub last-bounded :
    (ls : List ComputedLeaf) (bound : ℕ) (l : ComputedLeaf)
    → Chronological ls bound
    → last ls ≡ some l
    → l.timestamp ≤ bound
last-bounded [] bound l h e = absurd (ground arith)
last-bounded (k ∷ []) bound l h e = let same : k ≡ l = ground arith in rw (← same) (h.0)
last-bounded (k ∷ j ∷ ls) bound l h e = last-bounded (j ∷ ls) bound l h.2 e

All-last :
    (P : ComputedLeaf → Type 0) (ls : List ComputedLeaf) (l : ComputedLeaf)
    → All P ls
    → last ls ≡ some l
    → P l
All-last P [] l h e = absurd (ground arith)
All-last P (k ∷ []) l h e = let same : k ≡ l = ground arith in subst P same h.0
All-last P (k ∷ j ∷ ls) l h e = All-last P (j ∷ ls) l h.1 e

pub first-le-last :
    (ls : List ComputedLeaf) (bound : ℕ) (f l : ComputedLeaf)
    → Chronological ls bound
    → first ls ≡ some f
    → last ls ≡ some l
    → f.timestamp ≤ l.timestamp
first-le-last [] bound f l h ef el = absurd (ground arith)
first-le-last (k ∷ []) bound f l h ef el = ground arith
first-le-last (k ∷ j ∷ ls) bound f l h ef el =
    let same : k ≡ f = ground arith in
    subst (λ (z : ComputedLeaf). z.timestamp ≤ l.timestamp) same
      (All-last (λ z. k.timestamp ≤ z.timestamp) (j ∷ ls) l h.1 el)
