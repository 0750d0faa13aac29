-- ===== src/Event/Tables.antt =====
-- The two service tables of sigmacatch/src/types.rs against one another.
use sigmacatch.Event.Services.{channel_to_service, lookup, service_channels}
use sigmacatch.Prelude.{
  Bool, Bool-cases, List, Option, String, [], ap, arith, eq_iff, false, inl, inr, none, refl, some,
  str_eq, subst, true, ◌&&◌, ◌||◌, ◌∷◌, ◌≡◌,
}

abbrev pub has_channel : String → List String → Bool
has_channel c [] = false
has_channel c (d ∷ ds) = str_eq d c || has_channel c ds

abbrev maps_to : String → Option String → Bool
maps_to s none = false
maps_to s (some t) = str_eq t s

-- Every channel of a row leads back to the row's service.
abbrev row_agrees : List (String × String) → String × List String → Bool
row_agrees t (s, []) = true
row_agrees t (s, c ∷ cs) = maps_to s (lookup c t) && row_agrees t (s, cs)

abbrev rows_agree : List (String × String) → List (String × List String) → Bool
rows_agree t [] = true
rows_agree t (row ∷ rows) = row_agrees t row && rows_agree t rows

maps_to_sound : (s : String) (o : Option String) → maps_to s o ≡ true → o ≡ some s
maps_to_sound s none h = cc
maps_to_sound s (some t) h = ap some ((eq_iff t s).0 h)

and_true : (a b : Bool) → (a && b) ≡ true → (a ≡ true) × (b ≡ true)
and_true a b h = ground arith

row_agrees_sound :
    (t : List (String × String)) (s c : String) (cs : List String)
    → row_agrees t (s, cs) ≡ true
    → has_channel c cs ≡ true
    → lookup c t ≡ some s
row_agrees_sound t s c [] h m = cc
row_agrees_sound t s c (d ∷ ds) h m =
    let (here, later) = and_true (maps_to s (lookup d t)) (row_agrees t (s, ds)) h in
    elim (Bool-cases (str_eq d c)) [
      | inl same ↦
          let e : d ≡ c = (eq_iff d c).0 same in
          subst (λ x. lookup x t ≡ some s) e (maps_to_sound s (lookup d t) here)
      | inr other ↦ row_agrees_sound t s c ds later (rw other at m)
    ]

rows_agree_sound :
    (t : List (String × String)) (s c : String) (cs : List String)
    (rows : List (String × List String))
    → rows_agree t rows ≡ true
    → lookup s rows ≡ some cs
    → has_channel c cs ≡ true
    → lookup c t ≡ some s
unfolding lookup
rows_agree_sound t s c cs [] h e m = absurd (cc)
rows_agree_sound t s c cs ((r, ds) ∷ rows) h e m =
    let (here, later) = and_true (row_agrees t (r, ds)) (rows_agree t rows) h in
    elim (Bool-cases (str_eq r s)) [
      | inl same ↦
          let row : ds ≡ cs = cc (rw same at e) in
          let name : r ≡ s = (eq_iff r s).0 same in
          subst (λ x. lookup c t ≡ some x) name (row_agrees_sound t r c ds here (rw (← row) at m))
      | inr other ↦ rows_agree_sound t s c cs rows later (rw other at e) m
    ]

tables_agree : rows_agree channel_to_service service_channels ≡ true
unfolding lookup channel_to_service service_channels
tables_agree = refl

-- Each channel that is collected for a service is mapped back to that service when an event of the
-- channel comes in.
pub channel_to_service-service_channels :
    (service channel : String) (channels : List String)
    → lookup service service_channels ≡ some channels
    → has_channel channel channels ≡ true
    → lookup channel channel_to_service ≡ some service
channel_to_service-service_channels service channel channels h m =
    rows_agree_sound channel_to_service service channel channels service_channels tables_agree h m
