-- ===== src/Tail/Examples.antt =====
-- The tail driver at concrete inputs, with a handler that makes an event of each line.
use sigmacatch.Tail.{
  Bytes, Calls, LineHandler, TailState, check_rotation, drain_lines, poll, run_loop,
}
use sigmacatch.Tail.Lines.{drain_lines-feed, feed, split_lines}
use sigmacatch.Tail.Polls.{
  NeverFails, absorbed, at, open_with, poll_rotated, read_all, reads, run_loop-reads,
}
use sigmacatch.Prelude.{List, [], arith, map, refl, some, true, ℕ, ◌++◌, ◌+◌, ◌∷◌, ◌≡◌}

-- Its state is the number of lines.
abbrev echo : LineHandler Bytes
echo = record {
  State = ℕ;
  on_line = λ n line. (some (line ∷ []), n + 1);
  on_idle = λ n. (some [], n);
  on_rotate = λ n. 0;
}

echo_never_fails : NeverFails echo
echo_never_fails h line = (line ∷ [], refl)

abbrev here : TailState
here = record { dev = 1; ino = 2; pending = [] }

-- `ab\nc` and `d\n`
abbrev pieces : List (ℕ × Bytes)
pieces = (97, 98 ∷ 10 ∷ 99 ∷ []) ∷ (100, 10 ∷ []) ∷ []

run_loop_example :
    run_loop echo (map (reads echo here) pieces) (at echo here [] 0 [])
    ≡ absorbed echo echo_never_fails here 0 [] (split_lines ([] ++ read_all pieces))
run_loop_example = run_loop-reads echo echo_never_fails here pieces [] 0 [] tt

run_loop_test :
    (run_loop echo (map (reads echo here) pieces) (at echo here [] 0 [])).channel.sent
    ≡ (97 ∷ 98 ∷ 10 ∷ []) ∷ (99 ∷ 100 ∷ 10 ∷ []) ∷ []
unfolding run_loop
run_loop_test = refl

drain_lines_example :
    drain_lines echo 4 (97 ∷ 10 ∷ 98 ∷ []) 0 (open_with [])
    ≡ feed echo
        (split_lines (97 ∷ 10 ∷ 98 ∷ [])).0
        (split_lines (97 ∷ 10 ∷ 98 ∷ [])).1
        0
        (open_with [])
drain_lines_example = drain_lines-feed echo 4 (97 ∷ 10 ∷ 98 ∷ []) 0 (open_with []) (omega arith)

abbrev rotation : Calls
rotation = record { metadata = some (1, 3); opened = some (1, 3); read = some (97 ∷ 10 ∷ []) }

is_rotated : check_rotation echo rotation (record here { pending = 98 ∷ [] }) ≡ true
unfolding check_rotation
is_rotated = refl

poll_rotated_example : poll echo rotation (at echo here (98 ∷ []) 5 []) ≡ (
  absorbed echo echo_never_fails
      (record { dev = 1; ino = 3; pending = [] })
      0
      []
      (split_lines (97 ∷ 10 ∷ [])),
  true,
)
poll_rotated_example =
    poll_rotated echo echo_never_fails here 1 3 (98 ∷ []) 5 [] rotation 97 (10 ∷ []) is_rotated refl
      refl

-- A receiver that is gone after one event: the second line is not read.
closed_test :
    (drain_lines echo 8
      (97 ∷ 10 ∷ 98 ∷ 10 ∷ 99 ∷ 10 ∷ [])
      0
      (record { sent = []; room = some 1 })).3.sent
    ≡ (97 ∷ 10 ∷ []) ∷ []
unfolding drain_lines
closed_test = refl
