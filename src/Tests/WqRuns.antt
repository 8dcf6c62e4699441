-- ===== src/Tests/WqRuns.antt =====
-- wq.c on lists, in one order of the threads' steps.
use cloudcomputing_lab2_http.Prelude.{ℕ, refl, some, List, [], ◌∷◌, ◌++◌}
use cloudcomputing_lab2_http.Os.{update}
use cloudcomputing_lab2_http.Wq.{UtList, Documented, head_of, wq_push}
use cloudcomputing_lab2_http.Wq.Threads.{
  Pc, outside, push_lock, push_in, push_added, pop_lock, pop_test, pop_wait, System, call_push,
  call_pop, lock_push, add, lock_pop, wait, Reaches, starts, goes,
}
use cloudcomputing_lab2_http.Wq.Sound.{IsExclusive, IsQueue, Reaches-IsQueue}
use cloudcomputing_lab2_http.Wq.Wakeup.{IsAwake, Reaches-IsAwake}

abbrev rest_of : List ℕ → List ℕ
rest_of [] = []
rest_of (fd ∷ fds) = fds

abbrev on_lists : UtList
on_lists = record {
  Chain = List ℕ;
  null = [];
  append = λ c fd. c ++ fd ∷ [];
  first = head_of;
  delete_first = rest_of;
}

on_lists-Documented : Documented on_lists
on_lists-Documented = record {
  contents = λ c. c;
  contents-null = refl;
  contents-append = λ c fd. refl;
  first-contents = λ c. refl;
  contents-delete_first = λ c fd fds e. rw e refl;
}

-- Thread 0 waits in `wq_pop`; thread 1 has added the client 7, and has not woken it yet.
abbrev threads_then : ℕ → Pc
threads_then =
    update
      (update
        (update (update (update (update (λ t. outside) 0 pop_lock) 0 pop_test) 0 pop_wait) 1
          (push_lock 7))
        1 (push_in 7))
      1 push_added

abbrev waiting : System on_lists
waiting = record {
  queue = record { size = 1; head = 7 ∷ [] };
  owner = some 1;
  threads = threads_then;
  pushed = 7 ∷ [];
  popped = [];
}

waiting-Reaches : Reaches on_lists waiting
unfolding wq_push
waiting-Reaches =
    goes 1
      (goes 1
        (goes 1
          (goes 0 (goes 0 (goes 0 starts (call_pop refl)) (lock_pop refl refl)) (wait refl refl))
          (call_push 7 refl))
        (lock_push 7 refl refl))
      (add 7 (record { size = 1; head = 7 ∷ [] }) refl refl)

Reaches-IsQueue_example :
    IsExclusive (some 1) threads_then
    × IsQueue on_lists-Documented (record { size = 1; head = 7 ∷ [] }) (7 ∷ []) []
Reaches-IsQueue_example = Reaches-IsQueue on_lists-Documented waiting-Reaches

Reaches-IsAwake_example : IsAwake 1 (some 1) threads_then
Reaches-IsAwake_example = Reaches-IsAwake on_lists-Documented waiting-Reaches
