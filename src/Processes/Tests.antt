-- ===== src/Processes/Tests.antt =====
-- Processes that are launched, launched again, polled and stopped.
use droidcli.Common.{false, some, [], ◌∷◌, ◌≡◌, refl, codes, ◌==◌}
use droidcli.Processes.{ProcessManager, no_processes, launch, stop, process_snapshot}
use droidcli.Processes.Groups.{start, next, launches, polls, IsAccounted, Reach-IsAccounted}

abbrev once : ProcessManager
once = (launch (some 7) (codes "a") (codes "A") [] (codes "sleep 9") no_processes).1

abbrev again : ProcessManager
again = (launch (some 8) (codes "a") (codes "A") [] (codes "sleep 9") once).1

abbrev polled : ProcessManager
polled = (process_snapshot (λ pid. pid == 7) again).1

-- The group of the first launch is signalled by the second.
first_signalled : again.signalled ≡ 7 ∷ []
unfolding launch
first_signalled = refl

second_ended : polled.ended ≡ 8 ∷ []
unfolding launch process_snapshot
second_ended = refl

stopped_too_late : (stop (codes "a") polled).0 ≡ (false, codes "process not running")
unfolding launch process_snapshot stop
stopped_too_late = refl

Reach-IsAccounted_example : IsAccounted polled
Reach-IsAccounted_example = Reach-IsAccounted polled (
    next again polled
      (next once again
        (next no_processes once start
          (launches (some 7) (codes "a") (codes "A") [] (codes "sleep 9") refl))
        (launches (some 8) (codes "a") (codes "A") [] (codes "sleep 9") refl))
      (polls (λ pid. pid == 7)))
