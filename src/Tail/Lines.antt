-- ===== src/Tail/Lines.antt =====
-- `drain_lines` of tail.rs against a reference: the pending bytes cut behind each newline.
use sigmacatch.Tail.{
  Bytes, newline, drain_line, Channel, LineHandler, deliver, drain_lines, longer, Drained, after,
}
use sigmacatch.Prelude.{
  ==_iff, All, Bool-cases, List, Option, Option-cases, [], ap, ap₂, arith, if◌then◌else◌, inl, inr,
  length, none, refl, some, suc, sym, true, zero, ℕ, ◌++◌, ◌<◌, ◌==◌, ◌∙◌, ◌∷◌, ◌≡◌, ◌≢◌, ◌≤◌,
}

abbrev pub attach : ℕ → List Bytes × Bytes → List Bytes × Bytes
attach b ([], rest) = ([], b ∷ rest)
attach b (line ∷ lines, rest) = ((b ∷ line) ∷ lines, rest)

-- The complete lines of some bytes, each with its newline, and the bytes behind the last one.
unfoldable pub split_lines : Bytes → List Bytes × Bytes
split_lines [] = ([], [])
split_lines (b ∷ bs) =
    let (lines, rest) = split_lines bs in
    if b == newline then ((b ∷ []) ∷ lines, rest) else attach b (lines, rest)

abbrev pub concat : List Bytes → Bytes
concat [] = []
concat (l ∷ ls) = l ++ concat ls

abbrev pub HasNoNewline : Bytes → Type 0
HasNoNewline = All (λ b. b ≢ newline)

-- A line: some bytes that are no newlines, and a newline.
abbrev pub IsLine : Bytes → Type 0
IsLine [] = ⊥
IsLine (b ∷ []) = b ≡ newline
IsLine (b ∷ c ∷ bs) = (b ≢ newline) × IsLine (c ∷ bs)

abbrev pub IsCut : Bytes → List Bytes × Bytes → Type 0
IsCut bs (lines, rest) = (concat lines ++ rest ≡ bs) × All IsLine lines × HasNoNewline rest

IsCut-attach :
    (b : ℕ) (bs : Bytes) (c : List Bytes × Bytes)
    → b ≢ newline
    → IsCut bs c
    → IsCut (b ∷ bs) (attach b c)
IsCut-attach b bs ([], rest) n (e, l, r) = (ap (λ l. b ∷ l) e, tt, (n, r))
IsCut-attach b bs ([] ∷ lines, rest) n (e, (l, ls), r) = absurd l
IsCut-attach b bs ((c ∷ line) ∷ lines, rest) n (e, (l, ls), r) =
    (ap (λ l. b ∷ l) e, ((n, l), ls), r)

-- The lines and the rest are the bytes again; the lines are lines, and the rest has no newline.
pub split_lines-IsCut : (bs : Bytes) → IsCut bs (split_lines bs)
unfolding split_lines
split_lines-IsCut [] = (refl, tt, tt)
split_lines-IsCut (b ∷ bs) =
    let (e, l, r) = split_lines-IsCut bs in
    elim (Bool-cases (b == newline)) [
      | inl cut ↦ rw cut (ap (λ l. b ∷ l) e, ((==_iff b newline).0 cut, l), r)
      | inr plain ↦
          rw plain (IsCut-attach b bs (split_lines bs) (ground arith) (split_lines-IsCut bs))
    ]

abbrev resume : Bytes → Option (Bytes × Bytes) → List Bytes × Bytes
resume bs none = ([], bs)
resume bs (some (line, left)) = (line ∷ (split_lines left).0, (split_lines left).1)

attach-resume :
    (b : ℕ) (bs : Bytes) (o : Option (Bytes × Bytes))
    → attach b (resume bs o) ≡ resume (b ∷ bs) (longer b o)
attach-resume b bs none = refl
attach-resume b bs (some (line, left)) = refl

-- Draining one line is one step of the cut.
split_lines-drain_line : (bs : Bytes) → split_lines bs ≡ resume bs (drain_line bs)
unfolding drain_line split_lines
split_lines-drain_line [] = refl
split_lines-drain_line (b ∷ bs) = elim (Bool-cases (b == newline)) [
  | inl cut ↦ rw cut
  | inr plain ↦
      rw plain (ap (attach b) (split_lines-drain_line bs) ∙ attach-resume b bs (drain_line bs))
]

drain_line_shorter :
    (bs line left : Bytes) → drain_line bs ≡ some (line, left) → length left < length bs
unfolding drain_line
drain_line_shorter [] line left h = absurd (cc)
drain_line_shorter (b ∷ bs) line left h = elim (Bool-cases (b == newline)) [
  | inl cut ↦ let same : bs ≡ left = cc (rw cut at h) in rw same (omega arith)
  | inr plain ↦ elim (Option-cases (drain_line bs)) [
    | inl nothing ↦ absurd (cc (rw (plain, nothing) at h))
    | inr ((l, r), found) ↦
        let same : r ≡ left = cc (rw (plain, found) at h) in
        rw (← same) (omega (arith, drain_line_shorter bs l r found))
  ]
]

module _ {Event : Type 0} (handler : LineHandler Event) where
  open handler use {State, on_line}

  -- Each line goes to the handler, in order; an error or a closed channel leaves what is behind
  -- the line pending.
  unfoldable pub feed : List Bytes → Bytes → State → Channel Event → Drained handler
  feed [] rest h ch = (true, rest, h, ch)
  feed (line ∷ lines) rest h ch =
      let (result, h', ch') = deliver handler (on_line h line) ch in
      after handler result (concat lines ++ rest) h' ch' (feed lines rest h' ch')

  drain_none :
      (fuel : ℕ) (bs : Bytes) (h : State) (ch : Channel Event)
      → drain_line bs ≡ none
      → drain_lines handler fuel bs h ch ≡ (true, bs, h, ch)
  unfolding drain_lines
  drain_none zero bs h ch e = refl
  drain_none (suc fuel) bs h ch e = rw (e, drain_lines)

  drain_some :
      (fuel : ℕ) (bs line left : Bytes) (h : State) (ch : Channel Event)
      → drain_line bs ≡ some (line, left)
      → (let (result, h', ch') = deliver handler (on_line h line) ch in
          drain_lines handler (suc fuel) bs h ch
          ≡ after handler result left h' ch' (drain_lines handler fuel left h' ch'))
  unfolding drain_lines
  drain_some fuel bs line left h ch e = rw (e, drain_lines)

  -- With fuel for every byte, the loop hands over exactly the complete lines, in order, and keeps
  -- the bytes behind the last newline.
  pub drain_lines-feed :
      (fuel : ℕ) (bs : Bytes) (h : State) (ch : Channel Event)
      → length bs ≤ fuel
      → drain_lines handler fuel bs h ch ≡ feed (split_lines bs).0 (split_lines bs).1 h ch
  unfolding feed split_lines drain_lines
  drain_lines-feed zero [] h ch le = refl
  drain_lines-feed zero (b ∷ bs) h ch le = absurd (omega arith)
  drain_lines-feed (suc fuel) bs h ch le = elim (Option-cases (drain_line bs)) [
    | inl nothing ↦
        drain_none (suc fuel) bs h ch nothing
        ∙ ap (λ c. feed c.0 c.1 h ch) (sym (split_lines-drain_line bs ∙ ap (resume bs) nothing))
    | inr ((line, left), found) ↦
        let (result, h', ch') = deliver handler (on_line h line) ch in
        let shorter = drain_line_shorter bs line left found in
        drain_some fuel bs line left h ch found
        ∙ (ap₂ (λ l r. after handler result l h' ch' r) (sym (split_lines-IsCut left).0)
              (drain_lines-feed fuel left h' ch' (omega arith))
            ∙ ap (λ c. feed c.0 c.1 h ch) (sym (split_lines-drain_line bs ∙ ap (resume bs) found)))
  ]
