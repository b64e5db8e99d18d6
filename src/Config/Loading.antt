-- ===== src/Config/Loading.antt =====
-- What a file of settings does to each variable.
use tirpc.Config.{
  ConfigVar, Datas, lower, is_empty_name, lookup_base, change, set_value, from_string, list_each,
  member_name, is_valid_name, list_all_member, load_all, load_from_yaml,
}
use tirpc.Prelude.{
  ℕ, zero, suc, ◌<◌, not, Bool, true, false, List, [], ◌∷◌, ◌++◌, Option, none, some, if◌then◌else◌,
  if_true, if_false, Bytes, same_text, ◌≡◌, refl, sym, ap, ◌∙◌, subst, arith, Bool-cases, ◌&&◌,
  ◌==◌, ==_iff, inl, inr,
}

no_both : false ≡ true → ⊥
no_both h = ground arith

same_text_eq : (s t : Bytes) → same_text s t ≡ true → s ≡ t
same_text_eq [] [] h = refl
same_text_eq [] (c ∷ t) h = ground arith
same_text_eq (b ∷ s) [] h = ground arith
same_text_eq (b ∷ s) (c ∷ t) h = elim (Bool-cases (b == c)) [
  | inl e ↦
      let rest = same_text_eq s t (sym (ap (λ x. x && same_text s t) e) ∙ h) in
      ap (λ x. x ∷ s) ((==_iff b c).0 e) ∙ ap (λ u. c ∷ u) rest
  | inr e ↦ elim (no_both (sym (ap (λ x. x && same_text s t) e) ∙ h)) [ ]
]

module _ {V : Type 0} where
  -- The variable of a key, behind a change of another key's or of its own.
  lookup_base-change_same :
      (key : Bytes) (f : ConfigVar V → ConfigVar V) (datas : Datas V) (var : ConfigVar V)
      → lookup_base key datas ≡ some var
      → lookup_base key (change key f datas) ≡ some (f var)
  unfolding lookup_base change
  lookup_base-change_same key f [] var h = ground arith
  lookup_base-change_same key f ((k, w) ∷ datas) var h = elim (Bool-cases (same_text k key)) [
    | inl e ↦
        ap (lookup_base key)
          (if_true (same_text k key) ((k, f w) ∷ datas) ((k, w) ∷ change key f datas) e)
        ∙ if_true (same_text k key) (some (f w)) (lookup_base key datas) e
        ∙ ap (λ o. elim o as (λ o'. Option (ConfigVar V)) [ none ↦ none | some u ↦ some (f u) ])
            (sym (if_true (same_text k key) (some w) (lookup_base key datas) e) ∙ h)
    | inr e ↦
        ap (lookup_base key)
          (if_false (same_text k key) ((k, f w) ∷ datas) ((k, w) ∷ change key f datas) e)
        ∙ if_false (same_text k key) (some w) (lookup_base key (change key f datas)) e
        ∙ lookup_base-change_same key f datas var
            (sym (if_false (same_text k key) (some w) (lookup_base key datas) e) ∙ h)
  ]

  lookup_base-change_other :
      (j key : Bytes) (f : ConfigVar V → ConfigVar V) (datas : Datas V)
      → same_text j key ≡ false
      → lookup_base key (change j f datas) ≡ lookup_base key datas
  unfolding lookup_base change
  lookup_base-change_other j key f [] h = refl
  lookup_base-change_other j key f ((k, w) ∷ datas) h = elim (Bool-cases (same_text k j)) [
    | inl e ↦
        let n : same_text k key ≡ false = ap (λ x. same_text x key) (same_text_eq k j e) ∙ h in
        ap (lookup_base key)
          (if_true (same_text k j) ((k, f w) ∷ datas) ((k, w) ∷ change j f datas) e)
        ∙ if_false (same_text k key) (some (f w)) (lookup_base key datas) n
        ∙ sym (if_false (same_text k key) (some w) (lookup_base key datas) n)
    | inr e ↦
        ap (lookup_base key)
          (if_false (same_text k j) ((k, f w) ∷ datas) ((k, w) ∷ change j f datas) e)
        ∙ ap (λ o. if same_text k key then some w else o) (lookup_base-change_other j key f datas h)
  ]

-- The texts that a list of nodes has for a key, the first one first.
abbrev pub texts_for : {Node : Type 0} → (Node → Bytes) → Bytes → List (Bytes × Node) → List Bytes
texts_for text_of key [] = []
texts_for text_of key ((name, node) ∷ nodes) =
    let rest = texts_for text_of key nodes in
    if is_empty_name name
    then rest
    else if same_text (lower name) key
    then text_of node ∷ rest
    else rest

-- The value of the last text that can be converted, and the old value if none can.
abbrev pub last_value : {V : Type 0} → (Bytes → Option V) → List Bytes → V → V
last_value read [] v = v
last_value read (t ∷ ts) v = last_value read ts (elim (read t) [ none ↦ v | some w ↦ w ])

module _ {V Node : Type 0} (same : V → V → Bool) (parse : ℕ → Bytes → Option V)
    (text_of : Node → Bytes) where
  -- A variable with the value `v`, whose type and name are those of `var`.
  abbrev pub Becomes : ConfigVar V → V → Option (ConfigVar V) → Type 0
  Becomes var v o =
      (var' : ConfigVar V) × (o ≡ some var')
      × (var'.value ≡ v)
      × (var'.kind ≡ var.kind)
      × (var'.name ≡ var.name)

  set_value_lem :
      ((v w : V) → same v w ≡ true → v ≡ w)
      → (v : V) (var : ConfigVar V)
      → ((set_value same parse v var).value ≡ v)
        × ((set_value same parse v var).kind ≡ var.kind)
        × ((set_value same parse v var).name ≡ var.name)
  unfolding set_value
  set_value_lem h v var = elim (Bool-cases (same v var.value)) [
    | inl e ↦ rw e (sym (h v var.value e), refl, refl)
    | inr e ↦ rw e (refl, refl, refl)
  ]

  from_string-value :
      ((v w : V) → same v w ≡ true → v ≡ w)
      → (text : Bytes) (var : ConfigVar V)
      → ((from_string same parse text var).1.value
          ≡ elim (parse var.kind text) [ none ↦ var.value | some w ↦ w ])
        × ((from_string same parse text var).1.kind ≡ var.kind)
        × ((from_string same parse text var).1.name ≡ var.name)
  unfolding from_string set_value
  from_string-value h text var =
      elim (parse var.kind text)
        as (λ o.
          let r : Bool × ConfigVar V = elim o [
            | none ↦ (false, var)
            | some v ↦ (false, set_value same parse v var)
          ] in
          (r.1.value ≡ elim o [ none ↦ var.value | some w ↦ w ])
          × (r.1.kind ≡ var.kind)
          × (r.1.name ≡ var.name)) [ none ↦ (refl, refl, refl) | some v ↦ set_value_lem h v var ]

  -- The loop of LoadFromYaml, for one variable.
  load_all-Becomes :
      ((v w : V) → same v w ≡ true → v ≡ w)
      → (nodes : List (Bytes × Node)) (key : Bytes) (datas : Datas V) (var : ConfigVar V)
      → lookup_base key datas ≡ some var
      → Becomes var
          (last_value (parse var.kind) (texts_for text_of key nodes) var.value)
          (lookup_base key (load_all same parse text_of nodes datas))
  unfolding load_all
  load_all-Becomes h [] key datas var e = (var, e, refl, refl, refl)
  load_all-Becomes h (([], node) ∷ nodes) key datas var e = load_all-Becomes h nodes key datas var e
  load_all-Becomes h ((c ∷ name, node) ∷ nodes) key datas var e =
      let f : ConfigVar V → ConfigVar V = λ u. (from_string same parse (text_of node) u).1 in
      elim (Bool-cases (same_text (lower (c ∷ name)) key)) [
        | inl m ↦
            let k = same_text_eq (lower (c ∷ name)) key m in
            let (a, b, d) = from_string-value h (text_of node) var in
            let found : lookup_base key (change (lower (c ∷ name)) f datas) ≡ some (f var) =
              ap (λ j. lookup_base key (change j f datas)) k
              ∙ lookup_base-change_same key f datas var e in
            let (var', g, x, y, z) =
              load_all-Becomes h nodes key (change (lower (c ∷ name)) f datas) (f var) found in
            (
              var',
              g,
              x
                  ∙ ap (λ kd. last_value (parse kd) (texts_for text_of key nodes) (f var).value) b
                  ∙ ap (last_value (parse var.kind) (texts_for text_of key nodes)) a
                  ∙ ap (λ ts. last_value (parse var.kind) ts var.value)
                      (sym (
                        if_true (same_text (lower (c ∷ name)) key)
                          (text_of node ∷ texts_for text_of key nodes) (texts_for text_of key nodes)
                          m)),
              y ∙ b,
              z ∙ d,
            )
        | inr m ↦
            let (var', g, x, y, z) =
              load_all-Becomes h nodes key (change (lower (c ∷ name)) f datas) var
                (lookup_base-change_other (lower (c ∷ name)) key f datas m ∙ e) in
            (
              var',
              g,
              x
                  ∙ ap (λ ts. last_value (parse var.kind) ts var.value)
                      (sym (
                        if_false (same_text (lower (c ∷ name)) key)
                          (text_of node ∷ texts_for text_of key nodes) (texts_for text_of key nodes)
                          m)),
              y,
              z,
            )
      ]

-- Nodes that are nested less deep than `h`.
abbrev pub AllBelow : {Node : Type 0} → (Node → ℕ) → ℕ → List (Bytes × Node) → Type 0
AllBelow height h [] = Unit
AllBelow height h ((key, node) ∷ nodes) = (height node < h) × AllBelow height h nodes

module _ {Node : Type 0} (is_map : Node → Bool) (entries : Node → List (Bytes × Node))
    (height : Node → ℕ) where
  list_each-same :
      (f g : Bytes → Node → List (Bytes × Node)) (h : ℕ)
      → ((prefix : Bytes) (node : Node) → height node < h → f prefix node ≡ g prefix node)
      → (prefix : Bytes) (nodes : List (Bytes × Node)) → AllBelow height h nodes
      → list_each is_map entries f prefix nodes ≡ list_each is_map entries g prefix nodes
  list_each-same f g h same prefix [] below = refl
  list_each-same f g h same prefix ((key, node) ∷ nodes) (l, below) =
      ap (λ xs. xs ++ list_each is_map entries f prefix nodes)
        (same (member_name is_map entries prefix key) node l)
      ∙ ap (λ ys. g (member_name is_map entries prefix key) node ++ ys)
          (list_each-same f g h same prefix nodes below)

  -- A depth above the height of a node is enough.
  list_all_member_enough :
      ((node : Node) → AllBelow height (height node) (entries node))
      → (d e : ℕ) (prefix : Bytes) (node : Node) → height node < d
      → height node < e
      → list_all_member is_map entries d prefix node ≡ list_all_member is_map entries e prefix node
  unfolding list_all_member
  list_all_member_enough b zero e prefix node h k = ground arith
  list_all_member_enough b (suc d) zero prefix node h k = ground arith
  list_all_member_enough b (suc d) (suc e) prefix node h k =
      ap
        (λ members.
          if not (is_valid_name prefix)
          then []
          else (prefix, node) ∷ (if is_map node then members else []))
        (list_each-same (list_all_member is_map entries d) (list_all_member is_map entries e)
          (height node) (λ p n l. list_all_member_enough b d e p n (omega arith) (omega arith))
          prefix (entries node) (b node))

module _ {V Node : Type 0} (same : V → V → Bool) (parse : ℕ → Bytes → Option V)
    (text_of : Node → Bytes) (is_map : Node → Bool) (entries : Node → List (Bytes × Node))
    (height : Node → ℕ) where
  -- LoadFromYaml, where only equal values compare as equal and nodes have a height that falls from a map to
  -- its entries: with any depth above the height of the root, a variable that exists gets the value of the
  -- last text that ListAllMember finds for its key and that can be converted, or keeps its value if there
  -- is none, and keeps its type and name.
  pub load_from_yaml-Becomes :
      ((v w : V) → same v w ≡ true → v ≡ w)
      → ((node : Node) → AllBelow height (height node) (entries node))
      → (depth : ℕ) (root : Node) (key : Bytes) (datas : Datas V) (var : ConfigVar V)
      → height root < depth
      → lookup_base key datas ≡ some var
      → Becomes same parse text_of var
          (last_value
            (parse var.kind)
            (texts_for text_of key (list_all_member is_map entries (suc (height root)) [] root))
            var.value)
          (lookup_base key (load_from_yaml same parse text_of is_map entries depth root datas))
  unfolding load_from_yaml
  load_from_yaml-Becomes h b depth root key datas var l e =
      subst
        (λ nodes.
          Becomes same parse text_of var
            (last_value (parse var.kind)
              (texts_for text_of key (list_all_member is_map entries (suc (height root)) [] root))
              var.value)
            (lookup_base key (load_all same parse text_of nodes datas)))
        (list_all_member_enough is_map entries height b (suc (height root)) depth [] root
          (omega arith) l)
        (load_all-Becomes same parse text_of h
          (list_all_member is_map entries (suc (height root)) [] root) key datas var e)
