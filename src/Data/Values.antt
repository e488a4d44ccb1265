-- ===== src/Data/Values.antt =====
-- The values that a request body may hold, and `isPlainObject` and `isJsonValue` of
-- src/data/validate.ts. Objects live on a heap, since `isJsonValue` compares them by identity.
pub mod Fuel
pub mod Spec
pub mod Exact
use micro_jbase.Base.{
  ℕ, zero, suc, ◌+◌, Bool, true, false, Option, none, some, List, [], ◌∷◌, if◌then◌else◌, ◌==◌,
  ◌||◌, get_elem?, length, Text, Number, is_finite,
}

-- `opaque` is a function, a symbol or a bigint; `ref` is the address of an object.
pub data Value : Type 0 where
  undefined null opaque : Value
  bool : Bool → Value
  num : Number → Value
  str : Text → Value
  ref : ℕ → Value

-- An object with `Object.prototype` or no prototype and its own keys in order; an array, where
-- `none` is a hole; any other object, such as a Date, a Buffer or an instance of a class.
pub data Obj : Type 0 where
  plain : List (Text × Value) → Obj
  array : List (Option Value) → Obj
  exotic : Obj

abbrev pub Heap : Type 0
Heap = List Obj

abbrev pub or_exotic : Option Obj → Obj
or_exotic none = exotic
or_exotic (some o) = o

abbrev pub deref : Heap → ℕ → Obj
deref h a = or_exotic (get_elem? h a)

-- isPlainObject, with the entries of the object
abbrev pub entries_of : Obj → Option (List (Text × Value))
entries_of (plain m) = some m
entries_of _ = none

unfoldable pub is_plain_object : Heap → Value → Option (List (Text × Value))
is_plain_object h (ref a) = entries_of (deref h a)
is_plain_object h _ = none

abbrev pub values_of : List (Text × Value) → List Value
values_of [] = []
values_of ((k, v) ∷ m) = v ∷ values_of m

abbrev pub cons_item : Option Value → Option (List Value) → Option (List Value)
cons_item (some v) (some vs) = some (v ∷ vs)
cons_item _ _ = none

-- the items of an array, unless it has a hole
abbrev pub items_of : List (Option Value) → Option (List Value)
items_of [] = some []
items_of (x ∷ xs) = cons_item x (items_of xs)

-- The values that an object puts on the stack; `none` where the loop returns false.
abbrev pub children : Obj → Option (List Value)
children (plain m) = some (values_of m)
children (array xs) = items_of xs
children exotic = none

abbrev pub mem : ℕ → List ℕ → Bool
mem a [] = false
mem a (b ∷ bs) = a == b || mem a bs

-- One round of the loop on the value that was popped: return false, go on, or go on with an object
-- added to `seen` and its values pushed.
pub data Visit : Type 0 where
  reject skip : Visit
  enter : ℕ → List Value → Visit

abbrev pub enter_unless_rejected : ℕ → Option (List Value) → Visit
enter_unless_rejected a none = reject
enter_unless_rejected a (some vs) = enter a vs

unfoldable pub inspect : Heap → List ℕ → Value → Visit
inspect h seen undefined = reject
inspect h seen null = skip
inspect h seen opaque = reject
inspect h seen (bool b) = skip
inspect h seen (num n) = if is_finite n then skip else reject
inspect h seen (str t) = skip
inspect h seen (ref a) =
    if mem a seen then reject else enter_unless_rejected a (children (deref h a))

-- stack.push for each value in turn; the top of the stack is the head of the list
abbrev pub push_all : List Value → List Value → List Value
push_all [] stack = stack
push_all (v ∷ vs) stack = push_all vs (v ∷ stack)

-- The `while` loop of isJsonValue; `none` means that the fuel ran out.
unfoldable pub scan : ℕ → Heap → List ℕ → List Value → Option Bool
scan zero h seen stack = none
scan (suc f) h seen [] = some true
scan (suc f) h seen (v ∷ stack) = elim (inspect h seen v) [
  | reject ↦ some false
  | skip ↦ scan f h seen stack
  | enter a vs ↦ scan f h (a ∷ seen) (push_all vs stack)
]

abbrev pub width : Option (List Value) → ℕ
width none = 0
width (some vs) = length vs

-- The values in the objects from address `i` on that are not yet seen.
unfoldable pub pending : Heap → ℕ → List ℕ → ℕ
pending [] i seen = 0
pending (o ∷ h) i seen = (if mem i seen then 0 else width (children o)) + pending h (suc i) seen

abbrev pub finished : Option Bool → Bool
finished none = false
finished (some b) = b

-- isJsonValue; its fuel is one round for each value of the heap, and two more.
unfoldable pub is_json_value : Heap → Value → Bool
unfolding scan inspect pending
is_json_value h v = finished (scan (2 + pending h 0 []) h [] (v ∷ []))
