-- ===== src/Ebpf/Examples.antt =====
-- A concrete query.
use sigmacatch.Ebpf.Query.{join_labels, parse_query_name}
use sigmacatch.Ebpf.QueryRoundTrip.{header, parse_query_name-write_labels, write_labels}
use sigmacatch.Prelude.{List, [], arith, none, refl, some, ℕ, ◌++◌, ◌∷◌, ◌≡◌}

abbrev plain : List ℕ → List ℕ
plain bs = bs

-- `a.bc`, behind it the type and class of the question
query_example :
    parse_query_name plain
      (header 7 7 1 0 0 1 ++ (write_labels ((97 ∷ []) ∷ (98 ∷ 99 ∷ []) ∷ []) ++ 0 ∷ 1 ∷ 0 ∷ 1 ∷ []))
    ≡ some (join_labels plain ((97 ∷ []) ∷ (98 ∷ 99 ∷ []) ∷ []))
query_example =
    parse_query_name-write_labels plain 7 7 1 0 0 1 (97 ∷ []) ((98 ∷ 99 ∷ []) ∷ [])
      (0 ∷ 1 ∷ 0 ∷ 1 ∷ []) refl (omega arith)
      ((omega arith, omega arith), ((omega arith, omega arith), tt)) (omega arith)

-- A response is refused.
response_test : parse_query_name plain (header 7 7 129 0 0 1 ++ 1 ∷ 97 ∷ 0 ∷ []) ≡ none
unfolding parse_query_name
response_test = refl
