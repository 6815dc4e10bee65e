-- ===== src/Snapshot/Json.antt =====
-- The values that `json` reads and writes, as aftersales/guard_snapshot.py meets them. An object is
-- a dict, so its keys are distinct.
use knowledge_agent.Prelude.{String, Bool, List, [], ◌∷◌, Result, ok, err, ◌≡◌, refl}
use knowledge_agent.Prelude.Dict.{Dict}
use knowledge_agent.Prelude.Int.{ℤ}
use knowledge_agent.Snapshot.{SnapshotError, snapshot_integrity}

-- `float` is a number that is no integer.
mutual
  pub data Json : Type 0 where
    null float : Json
    boolean : Bool → Json
    integer : ℤ → Json
    string : String → Json
    array : Items → Json
    object : Entries → Json

  pub data Items : Type 0 where
    no_items : Items
    item : Json → Items → Items

  pub data Entries : Type 0 where
    no_entries : Entries
    entry : String → Json → Entries → Entries

unfoldable pub values_of : Items → List Json
values_of no_items = []
values_of (item j js) = j ∷ values_of js

unfoldable pub entries_of : Entries → Dict Json
entries_of no_entries = []
entries_of (entry k j es) = (k, j) ∷ entries_of es

unfoldable pub to_items : List Json → Items
to_items [] = no_items
to_items (j ∷ js) = item j (to_items js)

unfoldable pub to_entries : Dict Json → Entries
to_entries [] = no_entries
to_entries ((k, j) ∷ d) = entry k j (to_entries d)

abbrev pub list_value : List Json → Json
list_value js = array (to_items js)

abbrev pub dict_value : Dict Json → Json
dict_value d = object (to_entries d)

pub values_of-to_items : (js : List Json) → values_of (to_items js) ≡ js
unfolding values_of to_items
values_of-to_items [] = refl
values_of-to_items (j ∷ js) = rw (values_of-to_items js) refl

pub entries_of-to_entries : (d : Dict Json) → entries_of (to_entries d) ≡ d
unfolding entries_of to_entries
entries_of-to_entries [] = refl
entries_of-to_entries ((k, j) ∷ d) = rw (entries_of-to_entries d) refl

-- What the parser of a document returns.
abbrev pub Parsed : Type 0 → Type 0
Parsed A = Result SnapshotError A

-- `isinstance(value, dict)`, `isinstance(value, list)`, `isinstance(value, str)`
abbrev pub as_dict : Json → Parsed (Dict Json)
as_dict (object es) = ok (entries_of es)
as_dict j = err snapshot_integrity

abbrev pub as_list : Json → Parsed (List Json)
as_list (array js) = ok (values_of js)
as_list j = err snapshot_integrity

abbrev pub as_text : Json → Parsed String
as_text (string s) = ok s
as_text j = err snapshot_integrity
