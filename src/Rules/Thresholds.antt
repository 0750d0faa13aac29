-- ===== src/Rules/Thresholds.antt =====
-- sigmacatch/src/rule/thresholds.rs: statuses, levels, their ranks and the thresholds.
use sigmacatch.Prelude.{Bool, arith, leb, refl, true, ℕ, ◌≡◌}

-- `Status` of rsigma_parser, as thresholds.rs names its cases
pub data Status : Type 0 where
  unsupported : Status
  deprecated : Status
  experimental : Status
  test : Status
  stable : Status

-- `Level` of rsigma_parser
pub data Level : Type 0 where
  informational : Level
  low : Level
  medium : Level
  high : Level
  critical : Level

-- `MinStatus::rank`
unfoldable pub status_rank : Status → ℕ
status_rank unsupported = 0
status_rank deprecated = 1
status_rank experimental = 2
status_rank test = 3
status_rank stable = 4

-- `MinStatus::accepts`, with its own table of the rule's rank
unfoldable pub accepts_status : (min : Status) → (rule_status : Status) → Bool
unfolding status_rank
accepts_status min unsupported = leb (status_rank min) 0
accepts_status min deprecated = leb (status_rank min) 1
accepts_status min experimental = leb (status_rank min) 2
accepts_status min test = leb (status_rank min) 3
accepts_status min stable = leb (status_rank min) 4

-- `MinLevel::rank`
unfoldable pub level_rank : Level → ℕ
level_rank informational = 0
level_rank low = 1
level_rank medium = 2
level_rank high = 3
level_rank critical = 4

-- `MinLevel::accepts`
unfoldable pub accepts_level : (min : Level) → (rule_level : Level) → Bool
unfolding level_rank
accepts_level min informational = leb (level_rank min) 0
accepts_level min low = leb (level_rank min) 1
accepts_level min medium = leb (level_rank min) 2
accepts_level min high = leb (level_rank min) 3
accepts_level min critical = leb (level_rank min) 4

accepts_status_rank :
    (min s : Status) → accepts_status min s ≡ leb (status_rank min) (status_rank s)
unfolding accepts_status status_rank
accepts_status_rank min unsupported = refl
accepts_status_rank min deprecated = refl
accepts_status_rank min experimental = refl
accepts_status_rank min test = refl
accepts_status_rank min stable = refl

-- The thresholds order the statuses: each accepts itself, two that accept each other are equal,
-- and what a status accepts is accepted by all that accept it.
pub accepts_status_order :
    (a b c : Status)
    → (accepts_status a a ≡ true)
      × (accepts_status a b ≡ true → accepts_status b a ≡ true → status_rank a ≡ status_rank b)
      × (accepts_status a b ≡ true → accepts_status b c ≡ true → accepts_status a c ≡ true)
accepts_status_order a b c =
    rw
      (
        accepts_status_rank a a,
        accepts_status_rank a b,
        accepts_status_rank b a,
        accepts_status_rank b c,
        accepts_status_rank a c,
      )
      (ground arith, λ p q. ground arith, λ p q. ground arith)
