-- ===== src/Buffer/Examples.antt =====
-- Runs of the buffer, as in tests/test_buffer.py.
use dial_pass.Prelude.{ℕ, ◌≤◌, ◌≡◌, refl, List, [], ◌∷◌, length, joined, arith}
use dial_pass.Buffer.{from_end, new_buffer, write, tail}
use dial_pass.Buffer.Window.{write_all, buffer_holds_end}

abbrev chunks : List (List ℕ)
chunks = (1 ∷ 2 ∷ 3 ∷ []) ∷ (4 ∷ []) ∷ (5 ∷ 6 ∷ []) ∷ []

-- Two seconds at 2 Hz hold four samples.
keeps_four : (write_all chunks (new_buffer 2 2)).samples ≡ 3 ∷ 4 ∷ 5 ∷ 6 ∷ []
unfolding write_all new_buffer from_end write
keeps_four = refl

buffer_holds_end_example :
    let b = write_all chunks (new_buffer 2 2) in
    (b.samples ≡ from_end 4 (joined chunks))
    × (length b.samples ≤ 4)
    × (tail 1000 b ≡ from_end 2 (joined chunks))
buffer_holds_end_example = buffer_holds_end 2 2 1000 chunks (omega arith) (omega arith)
