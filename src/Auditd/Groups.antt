-- ===== src/Auditd/Groups.antt =====
-- The groups of `AuditdHandler` in auditd.rs against a reference: the runs of equal ids.
use sigmacatch.Event.Payload.{Event}
use sigmacatch.Auditd.Handler.{
  AuditdHandler, Platform, flush_group, group_events, on_record, new_handler,
}
use sigmacatch.Auditd.Values.{Record, same_id, EventId}
use sigmacatch.Prelude.{
  Bool-cases, List, [], ap, append-nil, append_assoc, arith, false, if◌then◌else◌, inl, inr, refl,
  some, sym, true, ℕ, ◌++◌, ◌∙◌, ◌∷◌, ◌≡◌,
}

-- A run: the lines of its records behind one another, and the records, of which there is one.
pub record Group : Type 0 where
  pub lines : List ℕ
  pub first : Record
  pub others : List Record

abbrev pub Parsed : Type 0
Parsed = Record × List ℕ

abbrev join_run : Parsed → List Group → List Group
join_run (r, line) [] = record { lines = line; first = r; others = [] } ∷ []
join_run (r, line) (g ∷ gs) =
    if same_id r.id g.first.id
    then record { lines = line ++ g.lines; first = r; others = g.first ∷ g.others } ∷ gs
    else record { lines = line; first = r; others = [] } ∷ g ∷ gs

-- The maximal runs of neighbours with one id.
unfoldable pub runs : List Parsed → List Group
runs [] = []
runs (x ∷ xs) = join_run x (runs xs)

same_id_trans : (a b c : EventId) → same_id a b ≡ true → same_id a c ≡ same_id b c
same_id_trans a b c h = ground arith

-- The group that the handler holds, with the runs that follow.
abbrev extend : Group → List Group → List Group
extend g [] = g ∷ []
extend g (h ∷ hs) =
    if same_id g.first.id h.first.id
    then record {
      lines = g.lines ++ h.lines;
      first = g.first;
      others = g.others ++ h.first ∷ h.others;
    }
      ∷ hs
    else g ∷ h ∷ hs

abbrev push : Group → Parsed → Group
push g (r, line) = record g { lines = g.lines ++ line; others = g.others ++ r ∷ [] }

abbrev single : Parsed → Group
single (r, line) = record { lines = line; first = r; others = [] }

extend-push :
    (g : Group) (x : Parsed) (gs : List Group)
    → same_id g.first.id x.0.id ≡ true
    → extend (push g x) gs ≡ extend g (join_run x gs)
extend-push g (r, line) [] e = rw e
extend-push g (r, line) (h ∷ hs) e =
    let alike = same_id_trans g.first.id r.id h.first.id e in
    elim (Bool-cases (same_id r.id h.first.id)) [
      | inl same ↦
          rw
            (
              alike,
              same,
              e,
              append_assoc g.lines line h.lines,
              append_assoc g.others (r ∷ []) (h.first ∷ h.others),
            )
            refl
      | inr other ↦ rw (alike, other, e) refl
    ]

extend-single : (x : Parsed) (gs : List Group) → extend (single x) gs ≡ join_run x gs
extend-single x [] = refl
extend-single x (h ∷ hs) = refl

extend-other :
    (g : Group) (x : Parsed) (gs : List Group)
    → same_id g.first.id x.0.id ≡ false
    → extend g (join_run x gs) ≡ g ∷ join_run x gs
extend-other g (r, line) [] e = rw e
extend-other g (r, line) (h ∷ hs) e = elim (Bool-cases (same_id r.id h.first.id)) [
  | inl same ↦ rw (same, e)
  | inr other ↦ rw (other, e)
]

module _ (platform : Platform) where
  -- The events of some runs, in order.
  unfoldable pub events_of : List Group → List Event
  events_of [] = []
  events_of (g ∷ gs) = group_events platform g.lines (g.first ∷ g.others) ++ events_of gs

  -- What the handler gives for some records, and on the idle poll behind them.
  unfoldable pub emitted : AuditdHandler → List Parsed → List Event
  emitted h [] = (flush_group platform h).1
  emitted h ((r, line) ∷ xs) = let (out, h') = on_record platform h line r in out ++ emitted h' xs

  abbrev pub holding : Group → AuditdHandler
  holding g = record {
    group_seq = some g.first.id;
    group_lines = g.lines;
    group_records = g.first ∷ g.others;
  }

  emitted-holding :
      (g : Group) (xs : List Parsed) → emitted (holding g) xs ≡ events_of (extend g (runs xs))
  unfolding emitted runs events_of on_record flush_group
  emitted-holding g [] = sym (append-nil (group_events platform g.lines (g.first ∷ g.others)))
  emitted-holding g ((r, line) ∷ xs) = elim (Bool-cases (same_id g.first.id r.id)) [
    | inl same ↦ rw same (
        emitted-holding (push g (r, line)) xs
        ∙ ap events_of (extend-push g (r, line) (runs xs) same))
    | inr other ↦ rw other (
        ap (λ l. group_events platform g.lines (g.first ∷ g.others) ++ l)
          (emitted-holding (single (r, line)) xs ∙ ap events_of (extend-single (r, line) (runs xs)))
        ∙ ap events_of (sym (extend-other g (r, line) (runs xs) other)))
  ]

  -- From an empty handler: every record gives one event, in order, with the lines of its whole run.
  pub emitted-runs : (xs : List Parsed) → emitted new_handler xs ≡ events_of (runs xs)
  unfolding emitted runs events_of on_record flush_group
  emitted-runs [] = refl
  emitted-runs ((r, line) ∷ xs) =
      emitted-holding (single (r, line)) xs ∙ ap events_of (extend-single (r, line) (runs xs))
