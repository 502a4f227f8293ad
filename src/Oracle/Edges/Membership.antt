-- ===== src/Oracle/Edges/Membership.antt =====
-- Which edges `relation_edges` enumerates.
use fvdb_core.Prelude.{
  ◌≡◌, refl, sym, ap, ◌∙◌, ◌↔◌, Bool, true, false, Option, none, some, List, [], ◌∷◌, ◌⊎◌, inl, inr,
}
use fvdb_core.Convolution.Vectors.{Coord}
use fvdb_core.Oracle.Relation.{ConvolutionRelation, IsPositive, coarse_from_fine, fine_from_coarse}
use fvdb_core.Oracle.RoundTrip.{coarse_from_fine_iff}
use fvdb_core.Oracle.Edges.Sets.{IsIn, contains_iff, IsIn-add_edge}
use fvdb_core.Oracle.Edges.{
  RelationEdge, taps, is_admitted, add_if, add_tap, add_taps, add_fines, relation_edges,
}

-- What the relation and the set of coarse coordinates ask of an edge.
abbrev IsSolved : ConvolutionRelation → Option (List Coord) → RelationEdge → Type 0
IsSolved r coarses e =
    (coarse_from_fine r e.fine e.tap ≡ some e.coarse) × (is_admitted coarses e.coarse ≡ true)

edge-eta :
    (e : RelationEdge) (f c t : Coord)
    → e.fine ≡ f
    → e.coarse ≡ c
    → e.tap ≡ t
    → e ≡ record { fine = f; coarse = c; tap = t }
edge-eta e f c t ef ec et = λ i. record { fine = ef i; coarse = ec i; tap = et i }

IsIn-add_if :
    (admitted : Bool) (e x : RelationEdge) (es : List RelationEdge)
    → IsIn e (add_if admitted x es) ↔ (IsIn e es ⊎ ((e ≡ x) × (admitted ≡ true)))
IsIn-add_if false e x es =
    (λ h. inl h, λ h. elim h [ inl old ↦ old | inr (same, q) ↦ absurd (cc q) ])
IsIn-add_if true e x es = (
  λ h. elim ((IsIn-add_edge e x es).0 h) [ inl same ↦ inr (same, refl) | inr old ↦ inl old ],
  λ h. (IsIn-add_edge e x es).1 (elim h [ inl old ↦ inr old | inr (same, q) ↦ inl same ]),
)

IsIn-add_tap :
    (coarses : Option (List Coord)) (fine tap : Coord) (o : Option Coord) (e : RelationEdge)
    (es : List RelationEdge)
    → IsIn e (add_tap coarses fine tap o es) ↔ (
        IsIn e es
        ⊎ ((e.fine ≡ fine)
            × (e.tap ≡ tap)
            × (o ≡ some e.coarse)
            × (is_admitted coarses e.coarse ≡ true)))
IsIn-add_tap coarses fine tap none e es =
    (λ h. inl h, λ h. elim h [ inl old ↦ old | inr (f, t, q, a) ↦ absurd (cc q) ])
IsIn-add_tap coarses fine tap (some c) e es =
    let x : RelationEdge = record { fine = fine; coarse = c; tap = tap } in
    let step = IsIn-add_if (is_admitted coarses c) e x es in
    (
      λ h. elim (step.0 h) [
        | inl old ↦ inl old
        | inr (same, a) ↦
            let ec : e.coarse ≡ c = ap (λ (y : RelationEdge). y.coarse) same in
            inr (
              ap (λ (y : RelationEdge). y.fine) same,
              ap (λ (y : RelationEdge). y.tap) same,
              ap some (sym ec),
              ap (is_admitted coarses) ec ∙ a,
            )
      ],
      λ h. step.1 (elim h [
        | inl old ↦ inl old
        | inr (f, t, q, a) ↦
            let ec : c ≡ e.coarse = cc q in
            inr (edge-eta e fine c tap f (sym ec) t, ap (is_admitted coarses) ec ∙ a)
      ]),
    )

IsIn-add_taps :
    (r : ConvolutionRelation) (coarses : Option (List Coord)) (fine : Coord) (ts : List Coord)
    (e : RelationEdge) (es : List RelationEdge)
    → IsIn e (add_taps r coarses fine ts es)
      ↔ (IsIn e es ⊎ ((e.fine ≡ fine) × IsIn e.tap ts × IsSolved r coarses e))
unfolding add_taps
IsIn-add_taps r coarses fine [] e es =
    (λ h. inl h, λ h. elim h [ inl old ↦ old | inr (f, t, q) ↦ absurd t ])
IsIn-add_taps r coarses fine (tap ∷ ts) e es =
    let o : Option Coord = coarse_from_fine r fine tap in
    let here = IsIn-add_tap coarses fine tap o e es in
    let rest = IsIn-add_taps r coarses fine ts e (add_tap coarses fine tap o es) in
    (
      λ h. elim (rest.0 h) [
        | inr (f, t, q) ↦ inr (f, inr t, q)
        | inl before ↦ elim (here.0 before) [
          | inl old ↦ inl old
          | inr (f, t, q, a) ↦ inr (f, inl t, ((λ i. coarse_from_fine r (f i) (t i)) ∙ q, a))
        ]
      ],
      λ h. rest.1 (elim h [
        | inl old ↦ inl (here.1 (inl old))
        | inr (f, inl t, q) ↦
            inl (here.1 (inr (f, t, (λ i. coarse_from_fine r (sym f i) (sym t i)) ∙ q.0, q.1)))
        | inr (f, inr t, q) ↦ inr (f, t, q)
      ]),
    )

IsIn-add_fines :
    (r : ConvolutionRelation) (coarses : Option (List Coord)) (fines : List Coord)
    (e : RelationEdge) (es : List RelationEdge)
    → IsIn e (add_fines r coarses fines es)
      ↔ (IsIn e es ⊎ (IsIn e.fine fines × IsIn e.tap (taps r) × IsSolved r coarses e))
unfolding add_fines
IsIn-add_fines r coarses [] e es =
    (λ h. inl h, λ h. elim h [ inl old ↦ old | inr (f, t, q) ↦ absurd f ])
IsIn-add_fines r coarses (fine ∷ fines) e es =
    let here = IsIn-add_taps r coarses fine (taps r) e es in
    let rest = IsIn-add_fines r coarses fines e (add_taps r coarses fine (taps r) es) in
    (
      λ h. elim (rest.0 h) [
        | inr (f, t, q) ↦ inr (inr f, t, q)
        | inl before ↦ elim (here.0 before) [
          | inl old ↦ inl old
          | inr (f, t, q) ↦ inr (inl f, t, q)
        ]
      ],
      λ h. rest.1 (elim h [
        | inl old ↦ inl (here.1 (inl old))
        | inr (inl f, t, q) ↦ inl (here.1 (inr (f, t, q)))
        | inr (inr f, t, q) ↦ inr (f, t, q)
      ]),
    )

-- Every coarse coordinate, or those of a set.
abbrev pub IsAdmittedBy : Option (List Coord) → Coord → Type 0
IsAdmittedBy none c = Unit
IsAdmittedBy (some coarses) c = IsIn c coarses

is_admitted_iff :
    (coarses : Option (List Coord)) (c : Coord)
    → (is_admitted coarses c ≡ true) ↔ IsAdmittedBy coarses c
is_admitted_iff none c = (λ h. tt, λ h. refl)
is_admitted_iff (some coarses) c = contains_iff c coarses

-- With positive strides, the enumeration holds exactly the edges of a fine coordinate among those given
-- and a tap of the kernel that `fine_from_coarse` takes from the edge's coarse coordinate to its fine
-- one, restricted, where a set of coarse coordinates is given, to that set.
pub relation_edges_iff :
    (fines : List Coord) (r : ConvolutionRelation) (coarses : Option (List Coord))
    (e : RelationEdge)
    → IsPositive r.stride
    → IsIn e (relation_edges fines r coarses) ↔ (
        IsIn e.fine fines
        × IsIn e.tap (taps r)
        × (fine_from_coarse r e.coarse e.tap ≡ e.fine)
        × IsAdmittedBy coarses e.coarse)
unfolding relation_edges
relation_edges_iff fines r coarses e h =
    let all_fines = IsIn-add_fines r coarses fines e [] in
    let solved = coarse_from_fine_iff r e.fine e.coarse e.tap h in
    let admitted = is_admitted_iff coarses e.coarse in
    (
      λ q. elim (all_fines.0 q) [
        | inl old ↦ absurd old
        | inr (f, t, s) ↦ (f, t, solved.0 s.0, admitted.0 s.1)
      ],
      λ (f, t, s, a). all_fines.1 (inr (f, t, (solved.1 s, admitted.1 a))),
    )
