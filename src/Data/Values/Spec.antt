-- ===== src/Data/Values/Spec.antt =====
-- What a JSON value is on a heap (the contract type `JsonValue`), and how often it uses an object.
use micro_jbase.Base.{
  ℕ, ◌+◌, ◌≡◌, Bool, true, some, List, [], ◌∷◌, if◌then◌else◌, ◌==◌, Text, Number, is_finite,
}
use micro_jbase.Data.Values.{Value, Heap, null, bool, num, str, ref, deref, children}

mutual
  -- A finite JSON tree: null, a boolean, a finite number, a text, an array with no hole of such
  -- values, or a plain object with such values.
  pub data IsJson (h : Heap) : Value → Type 0 where
    null_json : IsJson h null
    bool_json : (b : Bool) → IsJson h (bool b)
    num_json : (n : Number) → is_finite n ≡ true → IsJson h (num n)
    str_json : (t : Text) → IsJson h (str t)
    ref_json :
        (a : ℕ) (vs : List Value) → children (deref h a) ≡ some vs → AreJson h vs → IsJson h (ref a)

  pub data AreJson (h : Heap) : List Value → Type 0 where
    none_json : AreJson h []
    more_json : {v : Value} {vs : List Value} → IsJson h v → AreJson h vs → AreJson h (v ∷ vs)

-- How many nodes of the tree are the object at an address.
unfoldable mutual
  pub uses : {h : Heap} {v : Value} → ℕ → IsJson h v → ℕ
  uses x null_json = 0
  uses x (bool_json b) = 0
  uses x (num_json n f) = 0
  uses x (str_json t) = 0
  uses x (ref_json a vs kids js) = (if x == a then 1 else 0) + uses_all x js

  pub uses_all : {h : Heap} {vs : List Value} → ℕ → AreJson h vs → ℕ
  uses_all x none_json = 0
  uses_all x (more_json j js) = uses x j + uses_all x js
