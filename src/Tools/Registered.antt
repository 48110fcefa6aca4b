-- ===== src/Tools/Registered.antt =====
-- tools.go: which tools a registry lists, and which it finds.
use korai_sdk_go.Prelude.{
  String, ◌≡◌, refl, ap, ◌∙◌, Option, some, List, [], ◌∷◌, map, ◌==◌, eq_iff, arith, if◌then◌else◌,
  All, Bool-cases, inl, inr,
}
use korai_sdk_go.Prelude.Dict.{lookup, insert, lookup-insert, is_some}
use korai_sdk_go.Prelude.Sorting.{sort_by, insert_sorted}
use korai_sdk_go.Session.Merge.{contains}
use korai_sdk_go.Tools.{Tool, ToolRegistry, register, get, by_name, registered, list, names}

module _ {Schema Result World : Type 0} where
  -- Registrations one after another.
  abbrev pub register_all :
      List (Tool Schema Result World)
      → ToolRegistry Schema Result World
      → ToolRegistry Schema Result World
  register_all [] r = r
  register_all (t ∷ ts) r = register_all ts (register t r)

  -- The tool of this name that was registered last, if there is one, else what there was before.
  abbrev pub last_named :
      String
      → List (Tool Schema Result World)
      → Option (Tool Schema Result World)
      → Option (Tool Schema Result World)
  last_named name [] before = before
  last_named name (t ∷ ts) before = last_named name ts (if t.name == name then some t else before)

  -- After any registrations, `Get` finds the tool of the name that was registered last.
  pub get-register_all :
      (name : String) (ts : List (Tool Schema Result World)) (r : ToolRegistry Schema Result World)
      → get name (register_all ts r) ≡ last_named name ts (get name r)
  unfolding get register
  get-register_all name [] r = refl
  get-register_all name (t ∷ ts) r =
      get-register_all name ts (register t r)
      ∙ ap (last_named name ts) (lookup-insert name t.name t r)

  abbrev names_of : List (Tool Schema Result World) → List String
  names_of = map (λ (t : Tool Schema Result World). t.name)

  contains-insert_sorted :
      (name : String) (t : Tool Schema Result World) (ts : List (Tool Schema Result World))
      → contains (names_of (insert_sorted by_name t ts)) name ≡ contains (names_of (t ∷ ts)) name
  unfolding contains insert_sorted
  contains-insert_sorted name t [] = refl
  contains-insert_sorted name t (u ∷ us) = ground (arith, contains-insert_sorted name t us)

  contains-sort_by :
      (name : String) (ts : List (Tool Schema Result World))
      → contains (names_of (sort_by by_name ts)) name ≡ contains (names_of ts) name
  unfolding contains sort_by
  contains-sort_by name [] = refl
  contains-sort_by name (t ∷ ts) =
      contains-insert_sorted name t (sort_by by_name ts) ∙ ground (arith, contains-sort_by name ts)

  -- Each tool stands under its own name.
  abbrev Keyed : ToolRegistry Schema Result World → Type 0
  Keyed r = All (λ (kv : String × Tool Schema Result World). kv.1.name ≡ kv.0) r

  Keyed-insert :
      (t : Tool Schema Result World) (r : ToolRegistry Schema Result World)
      → Keyed r
      → Keyed (insert t.name t r)
  unfolding insert
  Keyed-insert t [] h = (refl, tt)
  Keyed-insert t ((name, u) ∷ r) (p, h) = elim (Bool-cases (name == t.name)) [
    | inl e ↦ rw e (refl, h)
    | inr e ↦ rw e (p, Keyed-insert t r h)
  ]

  Keyed-register_all :
      (ts : List (Tool Schema Result World)) (r : ToolRegistry Schema Result World)
      → Keyed r
      → Keyed (register_all ts r)
  unfolding register
  Keyed-register_all [] r h = h
  Keyed-register_all (t ∷ ts) r h = Keyed-register_all ts (register t r) (Keyed-insert t r h)

  contains-registered :
      (name : String) (r : ToolRegistry Schema Result World)
      → Keyed r
      → contains (names_of (registered r)) name ≡ is_some (get name r)
  unfolding contains get lookup
  contains-registered name [] h = refl
  contains-registered name ((k, t) ∷ r) (p, h) =
      ground (arith, p, contains-registered name r h, eq_iff k name, eq_iff name k)

  -- In a registry made by registrations, `Names` holds a name exactly if `Get` finds it.
  pub contains-names :
      (name : String) (ts : List (Tool Schema Result World))
      → contains (names (register_all ts [])) name ≡ is_some (get name (register_all ts []))
  unfolding names list
  contains-names name ts =
      contains-sort_by name (registered (register_all ts []))
      ∙ contains-registered name (register_all ts []) (Keyed-register_all ts [] tt)
