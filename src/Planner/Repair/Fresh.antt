-- ===== src/Planner/Repair/Fresh.antt =====
-- The id that the repair of a plan gives to a new node.
use glassrail.Common.{
  Bool-cases, In, List, Option-cases, [], ap, arith, elem, false, if◌then◌else◌, inl, inr, int_leb,
  int_leb_refl, int_leb_total, int_suc, negsuc, pos, refl, some, subst, suc, sym, true, zero, ℤ,
  ◌==◌, ◌∙◌, ◌∷◌, ◌≡◌, int_eq,
}
use glassrail.Core.{Members}
use glassrail.Planner.Payload.{get, as_int}
use glassrail.Planner.Repair.{node_ids, max_id, next_id}

int_leb_trans : (a b c : ℤ) → int_leb a b ≡ true → int_leb b c ≡ true → int_leb a c ≡ true
unfolding int_leb
int_leb_trans a b c p q = ground arith

max_id-top : (top : ℤ) (ids : List ℤ) → int_leb top (max_id top ids) ≡ true
unfolding max_id
max_id-top top [] = int_leb_refl top
max_id-top top (id ∷ ids) = elim (Bool-cases (int_leb id top)) [
  | inl e ↦ rw e (max_id-top top ids)
  | inr e ↦ rw e (int_leb_trans top id (max_id id ids) (int_leb_total id top e) (max_id-top id ids))
]

max_id-elem : (i top : ℤ) (ids : List ℤ) → elem i ids ≡ true → int_leb i (max_id top ids) ≡ true
unfolding max_id elem
max_id-elem i top [] m = cc
max_id-elem i top (id ∷ ids) m =
    let top' = if int_leb id top then top else id in
    let below : int_leb id top' ≡ true = elim (Bool-cases (int_leb id top)) [
      | inl e ↦ rw e e
      | inr e ↦ rw e (int_leb_refl id)
    ] in
    elim (Bool-cases (i == id)) [
      | inl e ↦
          subst (λ j. int_leb j (max_id top' ids) ≡ true) (sym ((int_eq.beq_iff i id).0 e))
            (int_leb_trans id top' (max_id top' ids) below (max_id-top top' ids))
      | inr e ↦ max_id-elem i top' ids (ground (arith, m, e))
    ]

int_suc_above : (i m : ℤ) → int_leb i m ≡ true → (i == int_suc m) ≡ false
unfolding int_leb int_suc
int_suc_above (pos i) (pos m) e = ground (arith, e)
int_suc_above (pos i) (negsuc m) e = cc
int_suc_above (negsuc i) (pos m) e = refl
int_suc_above (negsuc i) (negsuc zero) e = refl
int_suc_above (negsuc i) (negsuc (suc m)) e = ground (arith, e)

-- The id of the new node is the id of no other.
pub next_id-fresh : (ids : List ℤ) → elem (next_id ids) ids ≡ false
unfolding next_id
next_id-fresh [] = unfold elem in refl
next_id-fresh (id ∷ ids) = elim (Bool-cases (elem new (id ∷ ids))) [
  | inl m ↦ absurd (
      ground
        (arith, int_suc_above new (max_id id ids) (highest m), (int_eq.beq_iff new new).1 refl))
  | inr e ↦ e
]
  where
    new : ℤ
    new = int_suc (max_id id ids)

    highest : elem new (id ∷ ids) ≡ true → int_leb new (max_id id ids) ≡ true
    highest m = elim (Bool-cases (new == id)) [
      | inl e ↦
          subst (λ j. int_leb j (max_id id ids) ≡ true) (sym ((int_eq.beq_iff new id).0 e))
            (max_id-top id ids)
      | inr e ↦ max_id-elem new id ids (unfold elem in ground (arith, m, e))
    ]

pub node_ids-elem :
    (nodes : List Members) (m : Members) (i : ℤ)
    → In m nodes
    → as_int (get "id" m) ≡ some i
    → elem i (node_ids nodes) ≡ true
unfolding node_ids elem
node_ids-elem [] m i h e = absurd h
node_ids-elem (n ∷ nodes) m i (inl same) e =
    rw (node_ids, ap (λ x. as_int (get "id" x)) (sym same) ∙ e)
      (ground (arith, (int_eq.beq_iff i i).1 refl))
node_ids-elem (n ∷ nodes) m i (inr h) e = elim (Option-cases (as_int (get "id" n))) [
  | inl f ↦ rw (node_ids, f) (node_ids-elem nodes m i h e)
  | inr (j, f) ↦ rw (node_ids, f) (ground (arith, node_ids-elem nodes m i h e))
]
