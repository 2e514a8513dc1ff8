-- ===== src/Examples/Pools.antt =====
-- The theorems on the thread pool at concrete inputs.
use cpp_reactor_framework.Prelude.{refl, inl, [], ◌∷◌, ◌++◌}
use cpp_reactor_framework.ThreadPool.{new}
use cpp_reactor_framework.ThreadPool.Order.{
  commits, worker_turns, stops, clears, run, all_taken, IsOrderly, run-IsOrderly,
}

new-IsOrderly : IsOrderly (new 2) []
new-IsOrderly = record {
  order = refl;
  none_dropped = λ h. refl;
  cleared = inl refl;
  stopped = λ h. cc;
}

run-IsOrderly_example :
    IsOrderly
      (run (commits 7 ∷ worker_turns ∷ commits 8 ∷ stops ∷ clears ∷ []) (new 2))
      ([] ++ all_taken (commits 7 ∷ worker_turns ∷ commits 8 ∷ stops ∷ clears ∷ []) (new 2))
run-IsOrderly_example =
    run-IsOrderly (commits 7 ∷ worker_turns ∷ commits 8 ∷ stops ∷ clears ∷ []) (new 2) []
      new-IsOrderly
