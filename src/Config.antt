-- ===== src/Config.antt =====
-- common/config.cpp and config.hpp. A variable's type is a number and its value stands in `V`; `parse` is the
-- LexicalCast of a type, `none` where it throws, and `same` the comparison of values. yaml-cpp is an
-- argument: `Node` with what the code asks of a node. `notified` has the calls of listeners.
pub mod Loading
use tirpc.Prelude.{
  ℕ, zero, suc, ◌+◌, Bool, true, false, not, ◌&&◌, ◌||◌, List, [], ◌∷◌, ◌++◌, map, Option, none,
  some, if◌then◌else◌, ◌==◌, ltb, leb, Bytes, codes, same_text, Outcome, ok, throws,
}

pub record ConfigVar (V : Type 0) : Type 0 where
  pub name : Bytes
  pub desc : Bytes
  pub kind : ℕ
  pub value : V
  -- The keys of the listeners, in their order.
  pub cbs : List ℕ
  pub notified : List (ℕ × V × V)

abbrev pub Datas : Type 0 → Type 0
Datas V = List (Bytes × ConfigVar V)

abbrev pub to_lower : ℕ → ℕ
to_lower c = if leb 65 c && leb c 90 then c + 32 else c

abbrev pub lower : Bytes → Bytes
lower s = map to_lower s

abbrev pub occurs : ℕ → Bytes → Bool
occurs c [] = false
occurs c (d ∷ s) = (d == c) || occurs c s

-- name.find_first_not_of(...) == npos
unfoldable pub is_valid_name : Bytes → Bool
is_valid_name [] = true
is_valid_name (c ∷ s) = occurs c (codes "abcdefghikjlmnopqrstuvwxyz._012345678") && is_valid_name s

abbrev pub is_empty_name : Bytes → Bool
is_empty_name [] = true
is_empty_name (c ∷ s) = false

abbrev pub remove_key : ℕ → List ℕ → List ℕ
remove_key key [] = []
remove_key key (k ∷ ks) = let rest = remove_key key ks in if k == key then rest else k ∷ rest

module _ {V : Type 0} where
  unfoldable pub new_config_var : ℕ → Bytes → V → Bytes → ConfigVar V
  new_config_var kind name default_value description = record {
    name = lower name;
    desc = description;
    kind = kind;
    value = default_value;
    cbs = [];
    notified = [];
  }

  -- `last` is the last key that was given; a new one is the greatest.
  unfoldable pub add_listener : ℕ → ConfigVar V → ℕ × ConfigVar V
  add_listener last var = (last + 1, record var { cbs = var.cbs ++ ((last + 1) ∷ []) })

  unfoldable pub del_listener : ℕ → ConfigVar V → ConfigVar V
  del_listener key var = record var { cbs = remove_key key var.cbs }

  unfoldable pub clear_listener : ConfigVar V → ConfigVar V
  clear_listener var = record var { cbs = [] }

  -- GetDatas().find(name)
  unfoldable pub lookup_base : Bytes → Datas V → Option (ConfigVar V)
  lookup_base key [] = none
  lookup_base key ((k, var) ∷ datas) =
      let rest = lookup_base key datas in if same_text k key then some var else rest

  -- A variable of another type is no result.
  unfoldable pub cast_to : ℕ → ConfigVar V → Option (ConfigVar V)
  cast_to kind var = if var.kind == kind then some var else none

  unfoldable pub lookup : ℕ → Bytes → Datas V → Option (ConfigVar V)
  unfolding lookup_base cast_to
  lookup kind key datas = elim (lookup_base key datas) [ none ↦ none | some var ↦ cast_to kind var ]

  unfoldable pub create : ℕ → Bytes → V → Bytes → Datas V → Outcome (Option (ConfigVar V) × Datas V)
  unfolding is_valid_name new_config_var
  create kind key default_value description datas =
      let var = new_config_var kind key default_value description in
      if is_valid_name key then ok (some var, (key, var) ∷ datas) else throws

  -- Lookup with a default value.
  unfoldable pub lookup_or_create :
      ℕ → Bytes → V → Bytes → Datas V → Outcome (Option (ConfigVar V) × Datas V)
  unfolding lookup_base cast_to create
  lookup_or_create kind key default_value description datas = elim (lookup_base key datas) [
    | none ↦ create kind key default_value description datas
    | some var ↦ ok (cast_to kind var, datas)
  ]

  -- A change of the variable that a key leads to.
  unfoldable pub change : Bytes → (ConfigVar V → ConfigVar V) → Datas V → Datas V
  change key f [] = []
  change key f ((k, var) ∷ datas) =
      let rest = change key f datas in
      if same_text k key then (k, f var) ∷ datas else (k, var) ∷ rest

module _ {V : Type 0} (same : V → V → Bool) (parse : ℕ → Bytes → Option V) where
  unfoldable pub set_value : V → ConfigVar V → ConfigVar V
  set_value v var = if same v var.value then var else record var {
    value = v;
    notified = var.notified ++ map (λ key. (key, var.value, v)) var.cbs;
  }

  -- The result is false in any case.
  unfoldable pub from_string : Bytes → ConfigVar V → Bool × ConfigVar V
  unfolding set_value
  from_string text var = elim (parse var.kind text) [
    | none ↦ (false, var)
    | some v ↦ (false, set_value v var)
  ]

module _ {Node : Type 0} (is_map : Node → Bool) (entries : Node → List (Bytes × Node)) where
  abbrev pub member_name : Bytes → Bytes → Bytes
  member_name prefix key = if is_empty_name prefix then key else prefix ++ (codes "." ++ key)

  abbrev pub list_each :
      (Bytes → Node → List (Bytes × Node)) → Bytes → List (Bytes × Node) → List (Bytes × Node)
  list_each list prefix [] = []
  list_each list prefix ((key, node) ∷ nodes) =
      list (member_name prefix key) node ++ list_each list prefix nodes

  -- ListAllMember, for nodes that are nested less than `depth` deep.
  unfoldable pub list_all_member : ℕ → Bytes → Node → List (Bytes × Node)
  unfolding is_valid_name
  list_all_member zero prefix node = []
  list_all_member (suc depth) prefix node =
      let members = list_each (list_all_member depth) prefix (entries node) in
      if not (is_valid_name prefix)
      then []
      else (prefix, node) ∷ (if is_map node then members else [])

module _ {V Node : Type 0} (same : V → V → Bool) (parse : ℕ → Bytes → Option V)
    (text_of : Node → Bytes) where
  -- The loop of LoadFromYaml over what ListAllMember lists; `text_of` is the scalar of a node that is one,
  -- and else what the node prints.
  unfoldable pub load_all : List (Bytes × Node) → Datas V → Datas V
  unfolding change from_string
  load_all [] datas = datas
  load_all ((key, node) ∷ nodes) datas =
      if is_empty_name key
      then load_all nodes datas
      else load_all nodes
          (change (lower key) (λ var. (from_string same parse (text_of node) var).1) datas)

  unfoldable pub load_from_yaml :
      (Node → Bool) → (Node → List (Bytes × Node)) → ℕ → Node → Datas V → Datas V
  unfolding list_all_member load_all
  load_from_yaml is_map entries depth root datas =
      load_all (list_all_member is_map entries depth [] root) datas
