-- ===== src/Agent/Examples.antt =====
-- The theorem on a shell that loses its entry, at an agent with one shell.
use telegram_remote_terminal.Prelude.{
  pos, ◌≡◌, refl, true, [], ◌∷◌, none, some, lookup, int_key, nat_key, arith,
}
use telegram_remote_terminal.Terminal.Session.{fresh_session, write_raw}
use telegram_remote_terminal.Agent.{Agent, new_agent, on_session, on_exit, close_all}
use telegram_remote_terminal.Agent.Strays.{reopened, on_exit_strays}

abbrev one_shell : Agent
one_shell = record new_agent {
  sessions = (pos 7, 0) ∷ [];
  heap = (0, fresh_session) ∷ [];
  next = 1;
}

on_exit_strays_example :
    let b = on_exit (reopened one_shell (pos 7)) (pos 7) 0 none in
    (lookup 1 b.heap ≡ some fresh_session)
    × (on_session b (pos 7) (λ s. write_raw s true (b'l' ∷ [])) ≡ b)
    × (lookup 1 (close_all b).heap ≡ some fresh_session)
unfolding lookup
on_exit_strays_example =
    on_exit_strays one_shell (pos 7) 0 none (λ s. write_raw s true (b'l' ∷ [])) refl
      (omega arith, tt) refl (omega arith)
