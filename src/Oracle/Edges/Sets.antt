-- ===== src/Oracle/Edges/Sets.antt =====
-- Membership in the sets of coordinates and of edges of
-- fvdb/utils/tests/convolution_semantics_oracle.py.
use fvdb_core.Prelude.{
  ◌≡◌, refl, ◌∙◌, ◌↔◌, Bool, true, false, ◌||◌, List, [], ◌∷◌, if◌then◌else◌, ◌⊎◌, inl, inr, arith,
}
use fvdb_core.Prelude.Int.{ℤ}
use fvdb_core.Convolution.Vectors.{Coord}
use fvdb_core.Oracle.Edges.{RelationEdge, eq_ℤ, coord_eq, edge_eq, edge_before, add_edge, contains}

abbrev pub IsIn : {A : Type 0} → A → List A → Type 0
IsIn a [] = ⊥
IsIn a (b ∷ bs) = (a ≡ b) ⊎ IsIn a bs

eq_ℤ_iff : (a b : ℤ) → (eq_ℤ a b ≡ true) ↔ (a ≡ b)
eq_ℤ_iff a b = ground arith

pub coord_eq_iff : (a b : Coord) → (coord_eq a b ≡ true) ↔ (a ≡ b)
coord_eq_iff a b = ground (arith, eq_ℤ_iff a.x b.x, eq_ℤ_iff a.y b.y, eq_ℤ_iff a.z b.z)

edge_eq_iff : (d e : RelationEdge) → (edge_eq d e ≡ true) ↔ (d ≡ e)
edge_eq_iff d e =
    ground
      (arith, coord_eq_iff d.fine e.fine, coord_eq_iff d.coarse e.coarse, coord_eq_iff d.tap e.tap)

or_iff : (a b : Bool) → ((a || b) ≡ true) ↔ ((a ≡ true) ⊎ (b ≡ true))
or_iff true b = (λ h. inl refl, λ h. refl)
or_iff false b = (λ h. inr h, λ h. elim h [ inl e ↦ absurd (cc e) | inr e ↦ e ])

pub contains_iff : (c : Coord) (cs : List Coord) → (contains c cs ≡ true) ↔ IsIn c cs
contains_iff c [] = (λ h. absurd (cc h), λ h. absurd h)
contains_iff c (d ∷ ds) = (
  λ h. elim ((or_iff (coord_eq c d) (contains c ds)).0 h) [
    | inl e ↦ inl ((coord_eq_iff c d).0 e)
    | inr e ↦ inr ((contains_iff c ds).0 e)
  ],
  λ h.
      (or_iff (coord_eq c d) (contains c ds)).1
        (elim h [ inl e ↦ inl ((coord_eq_iff c d).1 e) | inr e ↦ inr ((contains_iff c ds).1 e) ]),
)

-- One step of `add_edge`, of which `rest` is what it does to the rest.
IsIn-placed :
    (e x d : RelationEdge) (ds rest : List RelationEdge) (there before : Bool)
    → edge_eq x d ≡ there
    → (IsIn e rest ↔ ((e ≡ x) ⊎ IsIn e ds))
    → IsIn e (if there then d ∷ ds else if before then x ∷ d ∷ ds else d ∷ rest)
      ↔ ((e ≡ x) ⊎ IsIn e (d ∷ ds))
IsIn-placed e x d ds rest true before q r =
    (λ h. inr h, λ h. elim h [ inl same ↦ inl (same ∙ (edge_eq_iff x d).0 q) | inr later ↦ later ])
IsIn-placed e x d ds rest false true q r = (λ h. h, λ h. h)
IsIn-placed e x d ds rest false false q r = (
  λ h. elim h [
    | inl first ↦ inr (inl first)
    | inr later ↦ elim (r.0 later) [ inl same ↦ inl same | inr found ↦ inr (inr found) ]
  ],
  λ h. elim h [
    | inl same ↦ inr (r.1 (inl same))
    | inr (inl first) ↦ inl first
    | inr (inr found) ↦ inr (r.1 (inr found))
  ],
)

pub IsIn-add_edge :
    (e x : RelationEdge) (xs : List RelationEdge) → IsIn e (add_edge x xs) ↔ ((e ≡ x) ⊎ IsIn e xs)
unfolding add_edge
IsIn-add_edge e x [] = (λ h. h, λ h. h)
IsIn-add_edge e x (d ∷ ds) =
    IsIn-placed e x d ds (add_edge x ds) (edge_eq x d) (edge_before x d) refl (IsIn-add_edge e x ds)
