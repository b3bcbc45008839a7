-- ===== src/Ledger/Value.antt =====
-- JSON values, as claim details and configurations hold them. A float is kept as the text that
-- `json` writes for it, since nothing modelled here computes with one.
use skateboard.Prelude.{
  ℕ, String, Bool, List, [], ◌∷◌, Option, some, none, ◌≡◌, refl, ◌==◌, string_eq, inl, inr, arith,
  Bool-cases, if◌then◌else◌,
}

pub data Integer : Type 0 where
  -- `negsuc n` is -(n + 1)
  pos negsuc : ℕ → Integer

mutual
  pub data Value : Type 0 where
    null : Value
    bool : Bool → Value
    int : Integer → Value
    float : String → Value
    str : String → Value
    arr : Items → Value
    obj : Fields → Value

  -- A dictionary in insertion order.
  pub data Fields : Type 0 where
    end : Fields
    field : String → Value → Fields → Fields

  pub data Items : Type 0 where
    nil : Items
    cons : Value → Items → Items

-- `d.get(key)` on a dictionary: `None` where the key is missing
unfoldable pub get : String → Fields → Value
get key end = null
get key (field k v rest) = let later = get key rest in if key == k then v else later

abbrev pub items : Items → List Value
items nil = []
items (cons v vs) = v ∷ items vs

abbrev pub fields : Fields → List (String × Value)
fields end = []
fields (field k v rest) = (k, v) ∷ fields rest

-- `key in d`, and the value
unfoldable pub find_key : String → Fields → Option Value
find_key key end = none
find_key key (field k v rest) = let later = find_key key rest in if key == k then some v else later

-- `isinstance(value, dict)`
abbrev pub as_mapping : Value → Option Fields
as_mapping (Value.obj d) = some d
as_mapping _ = none

pub find_key-get :
    (key : String) → (d : Fields) → (v : Value) → find_key key d ≡ some v → get key d ≡ v
unfolding find_key get
find_key-get key end v h = absurd (ground arith)
find_key-get key (field k w rest) v h = elim (Bool-cases (key == k)) [
  | inl here ↦ ground (arith, rw (here, find_key) at h)
  | inr later ↦ rw (later) (find_key-get key rest v (rw (later, find_key) at h))
]

pub find_key-missing :
    (key : String) → (d : Fields) → find_key key d ≡ none → get key d ≡ Value.null
unfolding find_key get
find_key-missing key end h = refl
find_key-missing key (field k w rest) h = elim (Bool-cases (key == k)) [
  | inl here ↦ absurd (ground (arith, rw (here, find_key) at h))
  | inr later ↦ rw (later) (find_key-missing key rest (rw (later, find_key) at h))
]
