-- ===== src/Data/Values/Exact.antt =====
-- `isJsonValue` of src/data/validate.ts decides what it is meant to decide: a finite tree of JSON
-- values in which no object stands twice.
use micro_jbase.Base.{
  ℕ, zero, suc, ◌+◌, ◌≤◌, ◌≡◌, ◌≢◌, ◌↔◌, refl, inl, inr, true, false, some, List, [], ◌∷◌, arith,
  if◌then◌else◌, ==_iff,
}
use micro_jbase.Data.Values.{
  Value, Heap, undefined, null, opaque, bool, num, str, ref, skip, deref, children, mem, inspect,
  push_all, scan, pending, finished, is_json_value,
}
use micro_jbase.Data.Values.Fuel.{scan_total, inspect-enter, Visit-cases}
use micro_jbase.Data.Values.Spec.{
  IsJson, AreJson, null_json, bool_json, num_json, str_json, ref_json, none_json, more_json, uses,
  uses_all,
}

abbrev pub marked : ℕ → List ℕ → ℕ
marked x seen = if mem x seen then 1 else 0

module _ {h : Heap} where
  uncons :
      {v : Value} {vs : List Value} (js : AreJson h (v ∷ vs))
      → (j : IsJson h v) × (ks : AreJson h vs) × ((x : ℕ)
          → uses_all x js ≡ uses x j + uses_all x ks)
  unfolding uses_all
  uncons (more_json j ks) = (j, ks, λ x. refl)

  unpush :
      (vs stack : List Value) (js : AreJson h (push_all vs stack))
      → (ks : AreJson h vs) × (ls : AreJson h stack) × ((x : ℕ)
          → uses_all x js ≡ uses_all x ks + uses_all x ls)
  unfolding uses_all
  unpush [] stack js = (none_json, js, λ x. omega arith)
  unpush (v ∷ vs) stack js =
      let (ks, ls, split) = unpush vs (v ∷ stack) js in
      let (j, ls', split') = uncons ls in
      (more_json j ks, ls', λ x. omega (arith, split x, split' x))

  push :
      {vs stack : List Value} (ks : AreJson h vs) (ls : AreJson h stack)
      → (js : AreJson h (push_all vs stack)) × ((x : ℕ)
          → uses_all x js ≡ uses_all x ks + uses_all x ls)
  unfolding uses_all
  push none_json ls = (ls, λ x. omega arith)
  push (more_json j ks) ls =
      let (js, sum) = push ks (more_json j ls) in (js, λ x. omega (arith, sum x))

  inspect-skip :
      (seen : List ℕ) (v : Value)
      → inspect h seen v ≡ skip
      → (j : IsJson h v) × ((x : ℕ) → uses x j ≡ 0)
  unfolding inspect uses
  inspect-skip seen null e = (null_json, λ x. refl)
  inspect-skip seen (bool b) e = (bool_json b, λ x. refl)
  inspect-skip seen (str t) e = (str_json t, λ x. refl)
  inspect-skip seen (num n) e = (num_json n (ground arith), λ x. refl)
  inspect-skip seen (ref a) e = absurd (ground arith)
  inspect-skip seen undefined e = absurd (cc)
  inspect-skip seen opaque e = absurd (cc)

-- what the loop accepts
scan_sound :
    (f : ℕ) (h : Heap) (seen : List ℕ) (stack : List Value)
    → scan f h seen stack ≡ some true
    → (js : AreJson h stack) × ((x : ℕ) → uses_all x js + marked x seen ≤ 1)
unfolding scan uses_all uses
scan_sound zero h seen stack e = absurd (cc)
scan_sound (suc f) h seen [] e = (none_json, λ x. ground arith)
scan_sound (suc f) h seen (v ∷ stack) e = elim (Visit-cases (inspect h seen v)) [
  | inl no_json ↦ absurd (ground arith)
  | inr (inl leaf) ↦
      (let (js, once) = scan_sound f h seen stack (rw (leaf, scan) at e) in
        let (j, unused) = inspect-skip seen v leaf in
        (more_json j js, λ x. ground (arith, unused x, once x)))
  | inr (inr (a, vs, object)) ↦
      (let (js, once) = scan_sound f h (a ∷ seen) (push_all vs stack) (rw (object, scan) at e) in
        let (ks, ls, sum) = unpush vs stack js in
        let (new, kids, same) = inspect-enter h seen v a vs object in
        rw same (
          more_json (ref_json a vs kids ks) ls,
          λ x. ground (arith, sum x, once x, new, ==_iff x a),
        ))
]

scan-ref :
    (f : ℕ) (h : Heap) (seen : List ℕ) (stack : List Value) (a : ℕ) (vs : List Value)
    → mem a seen ≡ false
    → children (deref h a) ≡ some vs
    → scan (suc f) h seen (ref a ∷ stack) ≡ scan f h (a ∷ seen) (push_all vs stack)
unfolding scan inspect
scan-ref f h seen stack a vs new kids = ground (arith, new, kids)

-- what the loop rejects
scan_complete :
    (f : ℕ) (h : Heap) (seen : List ℕ) {stack : List Value} (js : AreJson h stack)
    → ((x : ℕ) → uses_all x js + marked x seen ≤ 1)
    → scan f h seen stack ≢ some false
unfolding scan inspect uses uses_all
scan_complete zero h seen js once = λ e. cc
scan_complete (suc f) h seen none_json once = λ e. cc
scan_complete (suc f) h seen (more_json null_json js) once =
    scan_complete f h seen js (λ x. omega (arith, once x))
scan_complete (suc f) h seen (more_json (bool_json b) js) once =
    scan_complete f h seen js (λ x. omega (arith, once x))
scan_complete (suc f) h seen (more_json (str_json t) js) once =
    scan_complete f h seen js (λ x. omega (arith, once x))
scan_complete (suc f) h seen (more_json (num_json n fin) js) once =
    rw (fin, scan, inspect) (scan_complete f h seen js (λ x. omega (arith, once x)))
scan_complete (suc f) h seen (more_json {vs = stack} (ref_json a vs kids ks) js) once =
    let new : mem a seen ≡ false = ground (arith, once a, ==_iff a a) in
    rw (scan-ref f h seen stack a vs new kids) (
      let (all, sum) = push ks js in
      scan_complete f h (a ∷ seen) all (λ x. ground (arith, sum x, once x, ==_iff x a, new)))

-- `isJsonValue` is true of a value exactly when it is a finite JSON tree on the heap in which no
-- object has two places.
pub is_json_value_exact :
    (h : Heap) (v : Value)
    → (is_json_value h v ≡ true) ↔ ((j : IsJson h v) × ((x : ℕ) → uses x j ≤ 1))
unfolding is_json_value uses_all
is_json_value_exact h v = (sound, complete)
  where
    fuel : ℕ
    fuel = 2 + pending h 0 []

    sound : finished (scan fuel h [] (v ∷ [])) ≡ true → (j : IsJson h v) × ((x : ℕ) → uses x j ≤ 1)
    sound e =
        let (js, once) = scan_sound fuel h [] (v ∷ []) (ground arith) in
        let (j, ks, sum) = uncons js in (j, λ x. omega (arith, sum x, once x))

    complete :
        (j : IsJson h v) × ((x : ℕ) → uses x j ≤ 1) → finished (scan fuel h [] (v ∷ [])) ≡ true
    complete (j, once) = ground (
      arith,
      scan_total fuel h [] (v ∷ []) (omega arith),
      scan_complete fuel h [] (more_json j none_json) (λ x. omega (arith, once x)),
    )
