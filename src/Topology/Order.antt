-- ===== src/Topology/Order.antt =====
-- Where the references of a schema form no cycle, `topologicalEntities` puts every table behind the
-- tables that it references.
use cliptown_lib_core.Prelude.{
  ℕ, ◌<◌, ◌≡◌, Bool, true, not, ◌⊎◌, inl, inr, List, [], ◌∷◌, ◌++◌, map-append, Option, none, some,
  keep, OnSome, OnSome_map, All, All-map, all_sound, not-eq-true,
}
use cliptown_lib_core.Text.{Text, is_one_of}
use cliptown_lib_core.Text.Equality.{IsIn}
use cliptown_lib_core.Schema.{Field, Reference, Entity}
use cliptown_lib_core.Schema.Normalize.{names}
use cliptown_lib_core.Topology.{is_settled, is_ready, sort_by_name, delete_all}
use cliptown_lib_core.Topology.Known.{
  Included, not-IsIn, IsIn-append_left, IsIn-append_right, keep-IsTrue, sort-All, sort-Included,
  IsIn-delete_all,
}

-- An entity of the schema that the field references is known.
abbrev pub IsMet : List Text → List Text → Field → Type 0
IsMet schema known f =
    OnSome (λ (ref : Reference). IsIn ref.entity schema → IsIn ref.entity known) f.db.references

-- Every entity references only entities of `known` and entities that stand before it.
abbrev pub IsOrdered : List Text → List Text → List Entity → Type 0
IsOrdered schema known [] = Unit
IsOrdered schema known (e ∷ es) =
    All (IsMet schema known) e.fields × IsOrdered schema (e.name ∷ known) es

-- `rank` puts every referenced entity of the schema below the one that references it.
abbrev pub IsRanked : (Text → ℕ) → List Text → Entity → Type 0
IsRanked rank schema e =
    All
      (λ f.
        OnSome (λ (ref : Reference). IsIn ref.entity schema → rank ref.entity < rank e.name)
          f.db.references)
      e.fields

module _ (schema : List Text) where
  IsMet-mono :
      (known more : List Text) (f : Field)
      → Included known more
      → IsMet schema known f
      → IsMet schema more f
  IsMet-mono known more f sub =
      OnSome_map (Wants known) (Wants more) (λ ref met wanted. sub ref.entity (met wanted))
        f.db.references
    where
      Wants : List Text → Reference → Type 0
      Wants seen ref = IsIn ref.entity schema → IsIn ref.entity seen

  -- A ready entity references no entity that remains.
  is_settled-IsMet :
      (known remaining : List Text) (f : Field)
      → ((s : Text) → IsIn s schema → IsIn s known ⊎ IsIn s remaining)
      → is_settled remaining f ≡ true
      → IsMet schema known f
  unfolding is_settled
  is_settled-IsMet known remaining f covers h = go f.db.references h
    where
      settled :
          (ref : Reference)
          → not (is_one_of ref.entity remaining) ≡ true
          → IsIn ref.entity known ⊎ IsIn ref.entity remaining
          → IsIn ref.entity known
      settled ref h (inl m) = m
      settled ref h (inr m) = absurd (not-IsIn ref.entity remaining (not-eq-true _ h) m)

      go :
          (o : Option Reference)
          → elim o [ none ↦ true | some ref ↦ not (is_one_of ref.entity remaining) ] ≡ true
          → OnSome (λ (ref : Reference). IsIn ref.entity schema → IsIn ref.entity known) o
      go none h = tt
      go (some ref) h = λ wanted. settled ref h (covers ref.entity wanted)

  All-IsOrdered :
      (known : List Text) (es : List Entity)
      → All (λ e. All (IsMet schema known) e.fields) es
      → IsOrdered schema known es
  All-IsOrdered known [] h = tt
  All-IsOrdered known (e ∷ es) h = (
    h.0,
    All-IsOrdered (e.name ∷ known) es (
        All-map (λ d. All-map (λ f. IsMet-mono known (e.name ∷ known) f (λ s m. inr m)) d.fields) es
          h.1),
  )

  IsOrdered-append :
      (known : List Text) (xs ys : List Entity)
      → IsOrdered schema known xs
      → ((more : List Text)
          → Included (names xs) more
          → Included known more
          → IsOrdered schema more ys)
      → IsOrdered schema known (xs ++ ys)
  IsOrdered-append known [] ys h rest = rest known (λ s m. absurd m) (λ s m. m)
  IsOrdered-append known (x ∷ xs) ys h rest = (
    h.0,
    IsOrdered-append (x.name ∷ known) xs ys h.1
        λ more new old. rest more (heads more new old) (λ s m. old s (inr m)),
  )
    where
      heads :
          (more : List Text)
          → Included (names xs) more
          → Included (x.name ∷ known) more
          → Included (names (x ∷ xs)) more
      heads more new old s (inl e) = old s (inl e)
      heads more new old s (inr m) = new s m

pub record Inv (schema : List Text) (result remaining : List Entity) : Type 0 where
  pub covers : (s : Text) → IsIn s schema → IsIn s (names result) ⊎ IsIn s (names remaining)
  pub ordered : IsOrdered schema [] result

module _ (le : Text → Text → Bool) (schema : List Text) (result remaining : List Entity)
    (inv : Inv schema result remaining) where
  abbrev pub ready : List Entity
  ready = keep (is_ready (names remaining)) remaining

  ready-IsMet : All (λ e. All (IsMet schema (names result)) e.fields) ready
  unfolding is_ready
  ready-IsMet =
      All-map
        (λ e h.
          All-map (λ f. is_settled-IsMet schema (names result) (names remaining) f inv.covers)
            e.fields (all_sound (is_settled (names remaining)) e.fields h))
        _ (keep-IsTrue (is_ready (names remaining)) remaining)

  abbrev pub placed : List Entity
  placed = result ++ sort_by_name le ready

  covers_next :
      (s : Text)
      → IsIn s schema
      → IsIn s (names placed) ⊎ IsIn s (names (delete_all ready remaining))
  covers_next s m = rw map-append (split (inv.covers s m))
    where
      split :
          IsIn s (names result) ⊎ IsIn s (names remaining)
          → IsIn s (names result ++ names (sort_by_name le ready))
            ⊎ IsIn s (names (delete_all ready remaining))
      split (inl old) = inl (IsIn-append_left s (names result) _ old)
      split (inr waits) = elim (IsIn-delete_all ready s remaining waits) [
        | inl now ↦ inl (IsIn-append_right s (names result) _ (sort-Included le ready s now))
        | inr later ↦ inr later
      ]

  IsOrdered-next : IsOrdered schema [] placed
  IsOrdered-next =
      IsOrdered-append schema [] result (sort_by_name le ready) inv.ordered λ more new _.
        All-IsOrdered schema more (sort_by_name le ready) (
          All-map (λ e. All-map (λ f. IsMet-mono schema (names result) more f new) e.fields)
            (sort_by_name le ready)
            (sort-All (λ e. All (IsMet schema (names result)) e.fields) le ready ready-IsMet))

  pub round-Inv : Inv schema placed (delete_all ready remaining)
  round-Inv = record { covers = covers_next; ordered = IsOrdered-next }
