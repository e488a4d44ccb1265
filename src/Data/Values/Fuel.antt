-- ===== src/Data/Values/Fuel.antt =====
-- The loop of `isJsonValue` (src/data/validate.ts) ends: its fuel is enough.
use micro_jbase.Base.{
  ℕ, zero, suc, ◌+◌, ◌<◌, ◌≡◌, ◌≢◌, ◌⊎◌, ap, refl, inl, inr, false, none, some, List, [], ◌∷◌,
  arith, get_elem?, length,
}
use micro_jbase.Data.Values.{
  Value, Heap, Visit, reject, skip, enter, or_exotic, deref, children, mem, inspect, push_all, scan,
  width, pending,
}

pub length-push_all :
    (vs stack : List Value) → length (push_all vs stack) ≡ length vs + length stack
length-push_all [] stack = omega arith
length-push_all (v ∷ vs) stack = omega (arith, length-push_all vs (v ∷ stack))

-- an address that lies below the rest of the heap does not count there
pending-below :
    (h : Heap) (i a : ℕ) (seen : List ℕ) → a < i → pending h i (a ∷ seen) ≡ pending h i seen
unfolding pending
pending-below [] i a seen lt = refl
pending-below (o ∷ h) i a seen lt = ground (arith, pending-below h (suc i) a seen (omega arith))

-- to mark an object takes its values off the count
pending-enter :
    (h : Heap) (i a b : ℕ) (seen : List ℕ)
    → b ≡ i + a
    → mem b seen ≡ false
    → pending h i (b ∷ seen) + width (children (or_exotic (get_elem? h a))) ≡ pending h i seen
unfolding pending
pending-enter [] i a b seen at_a new = omega arith
pending-enter (o ∷ h) i zero b seen at_a new =
    let here : i ≡ b = omega arith in
    let new' : mem i seen ≡ false = rw here new in
    ground (arith, here, new', pending-below h (suc i) b seen (omega arith))
pending-enter (o ∷ h) i (suc a) b seen at_a new =
    let away : i ≢ b = omega arith in
    ground (arith, away, pending-enter h (suc i) a b seen (omega arith) new)

-- a round that goes on with an object makes the count of pending values smaller
pub inspect-enter :
    (h : Heap) (seen : List ℕ) (v : Value) (a : ℕ) (vs : List Value)
    → inspect h seen v ≡ enter a vs
    → (mem a seen ≡ false) × (children (deref h a) ≡ some vs) × (v ≡ Value.ref a)
unfolding inspect
inspect-enter h seen v a vs e = ground arith

pub Visit-cases :
    (w : Visit) → (w ≡ reject) ⊎ ((w ≡ skip) ⊎ ((a : ℕ) × (vs : List Value) × (w ≡ enter a vs)))
Visit-cases reject = inl refl
Visit-cases skip = inr (inl refl)
Visit-cases (enter a vs) = inr (inr (a, vs, refl))

-- With more fuel than values on the stack and pending in the heap, the loop returns.
pub scan_total :
    (f : ℕ) (h : Heap) (seen : List ℕ) (stack : List Value)
    → length stack + pending h 0 seen < f
    → scan f h seen stack ≢ none
unfolding scan
scan_total zero h seen stack lt = absurd (omega arith)
scan_total (suc f) h seen [] lt = λ e. cc
scan_total (suc f) h seen (v ∷ stack) lt = elim (Visit-cases (inspect h seen v)) [
  | inl no_json ↦ rw (no_json, scan) (λ q. cc)
  | inr (inl leaf) ↦ rw (leaf, scan) (scan_total f h seen stack (omega arith))
  | inr (inr (a, vs, object)) ↦
      rw (object, scan)
        (let (new, kids, same) = inspect-enter h seen v a vs object in
          scan_total f h (a ∷ seen) (push_all vs stack) (
            let smaller = pending-enter h 0 a a seen (omega arith) new in
            let count : width (children (deref h a)) ≡ length vs = ap width kids in
            omega (arith, smaller, count, length-push_all vs stack)))
]
