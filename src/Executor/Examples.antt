-- ===== src/Executor/Examples.antt =====
-- A run of the threaded executor, as in tests/test_executor.py.
use dial_pass.Prelude.{ℕ, ◌≡◌, refl, false, none}
use dial_pass.Executor.{ThreadedExecutor, threaded_submit}

abbrev idle_executor : ThreadedExecutor ℕ
idle_executor = record { future = none; dropped = 0; shut = false }

-- A second submission drops the first call.
drops_one : (threaded_submit (threaded_submit idle_executor)).dropped ≡ 1
unfolding threaded_submit
drops_one = refl
