-- ===== src/Config/Lines/Symbols.antt =====
-- What the first passes of `ParseGraph` of state/config.go accept.
use nylon.Base.{
  ◌≡◌, refl, sym, ap, ◌∙◌, true, false, not, ◌&&◌, ◌||◌, List, [], ◌∷◌, ◌++◌, Option, none, some,
  sort, arith, is_some, Option-cases, Bool-cases, inl, inr,
}
use nylon.Base.Maps.{Map, find}
use nylon.Base.Results.{Result, err, ok, ◌>>=◌}
use nylon.Config.Lines.{
  Line, Part, first_unknown, parse_symbol_list, new_symbols, collect_symbols, dependencies,
  terminals_in,
}
use nylon.Config.Names.{has}
use nylon.Config.Names.Members.{has-append, has-sort}
use nylon.Platform.{Platform}

pub bind-ok {ℓ} :
    {E A B : Type ℓ} (r : Result E A) (f : A → Result E B) (b : B)
    → (r >>= f) ≡ ok b
    → (a : A) × (r ≡ ok a) × (f a ≡ ok b)
bind-ok (err e) f b h = absurd (ground arith)
bind-ok (ok a) f b h = (a, refl, h)

module _ ⦃P : Platform⦄ where
  open P use {NodeId, node_eq, node_le}

  -- the group that a line defines, and the groups of all lines
  abbrev pub defined : Line → Map NodeId (List NodeId)
  defined line = elim line.others [
    | [] ↦ []
    | part ∷ _ ↦ (line.head.name, sort node_le part.symbols) ∷ []
  ]

  unfoldable pub groups_of : List Line → Map NodeId (List NodeId)
  groups_of [] = []
  groups_of (line ∷ lines) = defined line ++ groups_of lines

  abbrev pub or_else : Option (List NodeId) → Option (List NodeId) → Option (List NodeId)
  or_else none o = o
  or_else (some l) o = some l

  pub find-append :
      (k : NodeId) (a b : Map NodeId (List NodeId))
      → find node_eq k (a ++ b) ≡ or_else (find node_eq k a) (find node_eq k b)
  unfolding find
  find-append k [] b = refl
  find-append k ((j, l) ∷ a) b = ground (arith, find-append k a b)

  first_unknown-none :
      (valid xs : List NodeId) (m : NodeId)
      → first_unknown valid xs ≡ none
      → has node_eq m xs ≡ true
      → has node_eq m valid ≡ true
  unfolding first_unknown
  first_unknown-none valid [] m h e = absurd (ground arith)
  first_unknown-none valid (x ∷ xs) m h e =
      let ih = first_unknown-none valid xs m in
      elim (node_eq x m) [
        | yes q ↦ ground (arith, ap (λ y. has node_eq y valid) q)
        | no n ↦ ground (arith, ih)
      ]

  pub parse_symbol_list-ok :
      (valid xs lst : List NodeId)
      → parse_symbol_list valid xs ≡ ok lst
      → (lst ≡ sort node_le xs)
        × ((m : NodeId) → has node_eq m lst ≡ true → has node_eq m valid ≡ true)
  unfolding parse_symbol_list
  parse_symbol_list-ok valid [] lst h = absurd (ground arith)
  parse_symbol_list-ok valid (x ∷ xs) lst h = elim (Option-cases (first_unknown valid (x ∷ xs))) [
    | inl e ↦
        let same : sort node_le (x ∷ xs) ≡ lst = ground arith in
        (
          sym same,
          λ m i.
              first_unknown-none valid (x ∷ xs) m e
                (sym (has-sort node_eq node_le m (x ∷ xs)) ∙ ap (has node_eq m) same ∙ i),
        )
    | inr (y, e) ↦ absurd (ground arith)
  ]

  pub has-dependencies :
      (nodes l : List NodeId) (m : NodeId)
      → has node_eq m (dependencies nodes l) ≡ (not (has node_eq m nodes) && has node_eq m l)
  unfolding dependencies
  has-dependencies nodes [] m = ground arith
  has-dependencies nodes (x ∷ xs) m = ground (arith, has-dependencies nodes xs m)

  pub has-terminals_in :
      (nodes l : List NodeId) (m : NodeId)
      → has node_eq m (terminals_in nodes l) ≡ (has node_eq m nodes && has node_eq m l)
  unfolding terminals_in
  has-terminals_in nodes [] m = ground arith
  has-terminals_in nodes (x ∷ xs) m = ground (arith, has-terminals_in nodes xs m)

  new_symbols-ok :
      (nodes : List NodeId) (head : Part) (others : List Part) (more : List NodeId)
      → let line : Line = record { head = head; others = others } in
        new_symbols nodes line ≡ ok more
        → (k : NodeId)
        → (has node_eq k more ≡ is_some (find node_eq k (defined line)))
          × (is_some (find node_eq k (defined line)) ≡ true → has node_eq k nodes ≡ false)
  unfolding new_symbols find
  new_symbols-ok nodes head [] more h k =
      let same : [] ≡ more = ground arith in (ground arith, λ e. absurd (ground arith))
  new_symbols-ok nodes head (part ∷ []) more h k = elim (Bool-cases (has node_eq head.name nodes)) [
    | inl e ↦ absurd (ground arith)
    | inr e ↦
        let same : head.name ∷ [] ≡ more = ground arith in
        (
          ap (has node_eq k) (sym same) ∙ ground arith,
          λ i. ground (arith, λ (q : head.name ≡ k). ap (λ x. has node_eq x nodes) q),
        )
  ]
  new_symbols-ok nodes head (part ∷ _ ∷ _) more h k = absurd (ground arith)

  pub collect_symbols-ok :
      (nodes : List NodeId) (lines : List Line) (symbols found : List NodeId)
      → collect_symbols nodes lines symbols ≡ ok found
      → (k : NodeId)
      → (has node_eq k found
          ≡ (has node_eq k symbols || is_some (find node_eq k (groups_of lines))))
        × (is_some (find node_eq k (groups_of lines)) ≡ true → has node_eq k nodes ≡ false)
  unfolding collect_symbols groups_of
  collect_symbols-ok nodes [] symbols found h k =
      let same : symbols ≡ found = ground arith in
      (
        unfold find in ground (arith, ap (has node_eq k) same),
        unfold find in (λ e. absurd (ground arith)),
      )
  collect_symbols-ok nodes (line ∷ lines) symbols found h k =
      let (more, e, rest) = bind-ok (new_symbols nodes line) _ found h in
      let (f, g) = collect_symbols-ok nodes lines (symbols ++ more) found rest k in
      let (f', g') = new_symbols-ok nodes line.head line.others more e k in
      let both = has-append node_eq k symbols more in
      let found_in = find-append k (defined line) (groups_of lines) in
      (ground arith, λ i. ground arith)
