-- ===== src/PollVec/Tests.antt =====
-- Runs of the poll vector, and its theorems at concrete inputs.
use tcp_client_server.Prelude.{◌≡◌, refl, [], ◌∷◌, some, arith, store, shift_down, move_down}
use tcp_client_server.Prelude.Int.{ℤ, pos}
use tcp_client_server.Errors.{ok}
use tcp_client_server.Os.Script.{script_os, script_limit, idle_machine, allocate}
use tcp_client_server.PollVec.{
  PollFd, PollVec, contents, poll_vec_add_fd, poll_vec_remove_fd, grow, append_fd, close_at,
}
use tcp_client_server.PollVec.Invariant.{IsValid}
use tcp_client_server.PollVec.Contents.{
  Adds, Removes, poll_vec_add_fd-Adds, poll_vec_remove_fd-Removes, remove-add_last,
}

abbrev on : ℤ → PollFd
on fd = record { fd = fd; events = 1; revents = 0 }

-- Two entries in an array for two.
abbrev full_vec : PollVec
full_vec = record { pfds = some (on (pos 0) ∷ on (pos 3) ∷ []); nfds = 2; capacity = 2 }

abbrev grown_vec : PollVec
grown_vec = record {
  pfds = some (on (pos 0) ∷ on (pos 3) ∷ on (pos 4) ∷ []);
  nfds = 3;
  capacity = 4;
}

full_vec-IsValid : IsValid full_vec
full_vec-IsValid = omega arith

add_grows :
    poll_vec_add_fd script_os (some full_vec) (pos 4) 1 idle_machine
    ≡ (ok, some grown_vec, record idle_machine { next_address = 4097 })
unfolding poll_vec_add_fd grow append_fd allocate store
add_grows = refl

remove_first :
    (poll_vec_remove_fd script_os (some grown_vec) 0 idle_machine).1
    ≡ some
        (record { pfds = some (on (pos 3) ∷ on (pos 4) ∷ on (pos 4) ∷ []); nfds = 2; capacity = 4 })
unfolding poll_vec_remove_fd close_at shift_down move_down
remove_first = refl

poll_vec_add_fd-Adds_example :
    Adds script_os full_vec
      (pos 4)
      1
      (poll_vec_add_fd script_os (some full_vec) (pos 4) 1 idle_machine)
poll_vec_add_fd-Adds_example =
    poll_vec_add_fd-Adds script_os script_limit full_vec (pos 4) 1 idle_machine full_vec-IsValid

poll_vec_remove_fd-Removes_example :
    Removes script_os full_vec 0 idle_machine
      (poll_vec_remove_fd script_os (some full_vec) 0 idle_machine)
poll_vec_remove_fd-Removes_example =
    poll_vec_remove_fd-Removes script_os full_vec 0 idle_machine full_vec-IsValid

remove-add_last_example :
    (v : PollVec) × (poll_vec_remove_fd script_os (some grown_vec) 2 idle_machine
      ≡ (ok, some v, record idle_machine { closed = pos 4 ∷ [] }))
    × IsValid v
    × (contents v ≡ contents full_vec)
remove-add_last_example =
    remove-add_last script_os script_limit full_vec grown_vec (pos 4) 1 idle_machine
      (record idle_machine { next_address = 4097 }) idle_machine full_vec-IsValid add_grows
