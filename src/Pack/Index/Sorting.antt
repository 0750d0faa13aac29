-- ===== src/Pack/Index/Sorting.antt =====
-- The order of the entries in `write_v2_index` of pack.rs.
use mathlib.Core.List.{Perm}
use mathlib.Core.List.Perm
use sigmacatch.Pack.Index.{PackOffset, as_bytes, insert_sorted, sort_entries}
use sigmacatch.Prelude.{
  All, Bool, Bool-cases, List, [], ap, arith, bytes_leb, bytes_leb_total, inl, inr, length, refl,
  suc, true, ◌∙◌, ◌∷◌, ◌≡◌,
}

abbrev pub le_oid : PackOffset → PackOffset → Bool
le_oid e f = bytes_leb (as_bytes e.oid) (as_bytes f.oid)

-- Each id is at most the next one.
abbrev pub IsSorted : List PackOffset → Type 0
IsSorted [] = Unit
IsSorted (e ∷ []) = Unit
IsSorted (e ∷ f ∷ es) = (le_oid e f ≡ true) × IsSorted (f ∷ es)

insert_sorted-IsSorted :
    (e : PackOffset) (es : List PackOffset) → IsSorted es → IsSorted (insert_sorted e es)
insert_sorted-IsSorted e [] h = tt
insert_sorted-IsSorted e (f ∷ []) h = elim (Bool-cases (le_oid e f)) [
  | inl le ↦ rw le (le, tt)
  | inr gt ↦ rw gt (bytes_leb_total (as_bytes e.oid) (as_bytes f.oid) gt, tt)
]
insert_sorted-IsSorted e (f ∷ g ∷ es) (h, hs) =
    let rest = insert_sorted-IsSorted e (g ∷ es) hs in
    elim (Bool-cases (le_oid e f)) [
      | inl le ↦ rw le (le, (h, hs))
      | inr gt ↦
          let down = bytes_leb_total (as_bytes e.oid) (as_bytes f.oid) gt in
          rw gt (elim (Bool-cases (le_oid e g)) [
            | inl le ↦ rw le (down, rw le at rest)
            | inr more ↦ rw more (h, rw more at rest)
          ])
    ]

insert_sorted-perm : (e : PackOffset) (es : List PackOffset) → Perm (insert_sorted e es) (e ∷ es)
insert_sorted-perm e [] = Perm.refl (e ∷ [])
insert_sorted-perm e (f ∷ es) = elim (Bool-cases (le_oid e f)) [
  | inl le ↦ rw le (Perm.refl (e ∷ f ∷ es))
  | inr gt ↦ rw gt (Perm.trans (Perm.cons f (insert_sorted-perm e es)) (Perm.swap e f es))
]

-- The sorted entries are the given ones, in an order in which each id is at most the next.
pub sort_entries_lem :
    (es : List PackOffset) → IsSorted (sort_entries es) × Perm (sort_entries es) es
unfolding sort_entries
sort_entries_lem [] = (tt, Perm.refl [])
sort_entries_lem (e ∷ es) =
    let (s, p) = sort_entries_lem es in
    (
      insert_sorted-IsSorted e (sort_entries es) s,
      Perm.trans (insert_sorted-perm e (sort_entries es)) (Perm.cons e p),
    )

length-insert_sorted :
    (e : PackOffset) (es : List PackOffset) → length (insert_sorted e es) ≡ suc (length es)
length-insert_sorted e [] = refl
length-insert_sorted e (f ∷ es) = ground (arith, length-insert_sorted e es)

pub length-sort_entries : (es : List PackOffset) → length (sort_entries es) ≡ length es
unfolding sort_entries
length-sort_entries [] = refl
length-sort_entries (e ∷ es) =
    length-insert_sorted e (sort_entries es) ∙ ap suc (length-sort_entries es)

module _ (P : PackOffset → Type 0) where
  All-insert_sorted :
      (e : PackOffset) (es : List PackOffset) → P e → All P es → All P (insert_sorted e es)
  All-insert_sorted e [] p h = (p, tt)
  All-insert_sorted e (f ∷ es) p (q, h) = elim (Bool-cases (le_oid e f)) [
    | inl le ↦ rw le (p, (q, h))
    | inr gt ↦ rw gt (q, All-insert_sorted e es p h)
  ]

  pub All-sort_entries : (es : List PackOffset) → All P es → All P (sort_entries es)
  unfolding sort_entries
  All-sort_entries [] h = tt
  All-sort_entries (e ∷ es) (p, h) = All-insert_sorted e (sort_entries es) p (All-sort_entries es h)
