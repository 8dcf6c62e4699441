-- ===== src/Wq.antt =====
-- wq.c: the queue of accepted clients, over the doubly-linked list macros of utlist.h.
pub mod Threads
pub mod Sound
pub mod Wakeup
use cloudcomputing_lab2_http.Prelude.{
  ℕ, ◌+◌, ◌-◌, ◌^◌, ◌≡◌, Option, none, some, List, [], ◌∷◌, ◌++◌, ltb, if◌then◌else◌,
}
use cloudcomputing_lab2_http.Result.{Result, ok, fault, overflow, null_pointer}

-- The list macros that wq.c calls, on the items' `client_socket_fd`.
pub record UtList : Type 1 where
  pub Chain : Type 0
  -- the head pointer NULL
  pub null : Chain
  -- DL_APPEND(head, item)
  pub append : Chain → ℕ → Chain
  -- head->client_socket_fd, `none` for the head NULL
  pub first : Chain → Option ℕ
  -- DL_DELETE(head, head)
  pub delete_first : Chain → Chain

abbrev pub head_of : List ℕ → Option ℕ
head_of [] = none
head_of (fd ∷ fds) = some fd

-- What utlist.h documents: the items in order, appended at the end and deleted from the list.
pub record Documented (U : UtList) : Type 0 where
  pub contents : U.Chain → List ℕ
  pub contents-null : contents U.null ≡ []
  pub contents-append : (c : U.Chain) (fd : ℕ) → contents (U.append c fd) ≡ contents c ++ fd ∷ []
  pub first-contents : (c : U.Chain) → U.first c ≡ head_of (contents c)
  pub contents-delete_first :
      (c : U.Chain) (fd : ℕ) (fds : List ℕ)
      → contents c ≡ fd ∷ fds
      → contents (U.delete_first c) ≡ fds

-- The mutex and the condition variable are in the state of the threads.
pub record Wq (U : UtList) : Type 0 where
  pub size : ℕ
  pub head : U.Chain

module _ (U : UtList) where
  abbrev pub wq_init : Wq U
  wq_init = record { size = 0; head = U.null }

  -- What `wq_push` does with the mutex held; `size` is an int.
  unfoldable pub wq_push : ℕ → Wq U → Result (Wq U)
  wq_push client_socket_fd wq =
      if ltb (wq.size + 1) (2 ^ 31)
      then ok (record { size = wq.size + 1; head = U.append wq.head client_socket_fd })
      else fault overflow

  -- What `wq_pop` does with the mutex held, behind its loop.
  unfoldable pub wq_pop : Wq U → Result (ℕ × Wq U)
  wq_pop wq = elim (U.first wq.head) [
    | none ↦ fault null_pointer
    | some client_socket_fd ↦
        ok (client_socket_fd, record { size = wq.size - 1; head = U.delete_first wq.head })
  ]
