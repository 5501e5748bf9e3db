-- ===== src/Go/GoMap.antt =====
-- Go's `map[string]V`. A map is nil, or gives for each key a value or nothing; it is seen as a
-- function, since the code modelled here never depends on an order of the entries.
use supabase_kubernetes.Go.Outcome.{Outcome, ok, panic}
use supabase_kubernetes.Prelude.{List, Option, String, [], if◌then◌else◌, none, some, ◌=s◌, ◌∷◌}

pub data GoMap (V : Type 0) : Type 0 where
  nil : GoMap V
  made : (String → Option V) → GoMap V

module _ {V : Type 0} where
  -- `v, ok := m[k]`; a nil map has no key.
  abbrev pub index : GoMap V → String → Option V
  index nil k = none
  index (made f) k = f k

  -- `make(map[string]V)`
  abbrev pub empty : GoMap V
  empty = made (λ _. none)

  abbrev or_else : Option V → Option V → Option V
  or_else none o = o
  or_else (some v) o = some v

  abbrev pub find_key : List (String × V) → String → Option V
  find_key [] k = none
  find_key ((j, v) ∷ entries) k = if j =s k then some v else find_key entries k

  -- a map literal, whose keys are distinct
  abbrev pub literal : List (String × V) → GoMap V
  literal entries = made (find_key entries)

  -- `maps.Copy(dst, src)`, into a map that is not nil.
  abbrev pub copied : (String → Option V) → GoMap V → String → Option V
  copied dst src k = or_else (index src k) (dst k)

  abbrev pub with_entry : (String → Option V) → String → V → String → Option V
  with_entry f k v j = if k =s j then some v else f j

  -- `m[k] = v`, which panics at a nil map.
  abbrev pub assign : GoMap V → String → V → Outcome (GoMap V)
  assign nil k v = panic
  assign (made f) k v = ok (made (with_entry f k v))

-- `m[k]` of a map of strings: the zero value where the key is missing.
abbrev pub text_at : GoMap String → String → String
text_at m k = elim (index m k) [ none ↦ "" | some v ↦ v ]
