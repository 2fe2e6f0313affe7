-- ===== src/Server/Listen/Serving.antt =====
-- server/src/server.c, main: the loop around accept and the end of the server, while the other threads
-- run.
use c_chat.Prelude.{
  ℕ, ◌≡◌, refl, ◌∙◌, Bool, true, false, not, ◌&&◌, Option, none, some, List, [], ◌∷◌, ◌++◌, ℤ, pos,
  is_neg, All, find_index, if◌then◌else◌, arith, Bool-cases, inl, inr,
}
use c_chat.Server.Io.{Env, time_now, randombytes}
use c_chat.Server.State.{Server}
use c_chat.Server.Listen.{
  is_free, start_thread, take_slot, accept_at, accept_client, cleanup_server, Startup, init_server,
  Attempt, accept_loop, serve, main,
}
use c_chat.Server.Effects.Reach.{Reachable, started, steps, accepts}

module _ (env : Env) where
  -- What happens while an `accept` waits is made of steps of the other threads.
  abbrev pub IsStepwise : Attempt → Type 0
  IsStepwise a = (s : Server) → Reachable env s → Reachable env (a.meanwhile s)

  -- The server is stopped while this `accept` waits.
  abbrev pub IsLast : Attempt → Type 0
  IsLast a = (s : Server) → (a.meanwhile s).running ≡ false

  start_thread-running :
      (fd : ℤ) (i : ℕ) (created : Bool) (s : Server)
      → (start_thread env fd i created s).running ≡ s.running
  unfolding start_thread
  start_thread-running fd i true s = refl
  start_thread-running fd i false s = refl

  accept_client-running :
      (fd : ℤ) (created : Bool) (s : Server) → (accept_client env fd created s).running ≡ s.running
  unfolding accept_client take_slot time_now randombytes
  accept_client-running fd created s = by_slot (find_index is_free s.clients)
    where
      by_slot : (o : Option ℕ) → (accept_at env fd created o s).running ≡ s.running
      by_slot none = refl
      by_slot (some i) = start_thread-running fd i created _

  -- The loop ended in a state that the threads reach, with the server stopped.
  pub record Ends (o : Option Server) : Type 0 where
    pub last : Server
    pub result : o ≡ some last
    pub reached : Reachable env last
    pub stopped : last.running ≡ false

  tested :
      (s : Server) (o : Option Server)
      → Reachable env s
      → Ends o
      → Ends (if not s.running then some s else o)
  tested s o r e = elim (Bool-cases s.running) [
    | inr over ↦ record { last = s; result = rw over refl; reached = r; stopped = over }
    | inl on ↦ rw on e
  ]

  -- An attempt, by what follows it.
  attempt-Ends :
      (a : Attempt) (attempts : List Attempt) (s : Server)
      → Reachable env s
      → IsStepwise a
      → ((t : Server)
          → Reachable env t
          → t.running ≡ (a.meanwhile s).running
          → Ends (accept_loop env attempts t))
      → Ends (accept_loop env (a ∷ attempts) s)
  unfolding accept_loop
  attempt-Ends a attempts s r here next = tested s _ r (elim (Bool-cases (is_neg a.client_socket)) [
    | inr valid ↦ rw valid (
        next (accept_client env a.client_socket a.created s₁)
          (steps r₁ (accepts s₁ a.client_socket a.created))
          (accept_client-running a.client_socket a.created s₁))
    | inl failed ↦ elim (Bool-cases (a.interrupted && not s₁.running)) [
      | inl stopped ↦
          rw (failed, stopped)
            (record { last = s₁; result = refl; reached = r₁; stopped = ground (arith, stopped) })
      | inr again ↦ rw (failed, again) (next s₁ r₁ refl)
    ]
  ])
    where
      s₁ : Server
      s₁ = a.meanwhile s

      r₁ : Reachable env s₁
      r₁ = here s r

  ended : (t : Server) → t.running ≡ false → accept_loop env [] t ≡ some t
  unfolding accept_loop
  ended t stopped = rw stopped refl

  accept_loop-Ends :
      (attempts : List Attempt) (a : Attempt) (s : Server)
      → Reachable env s
      → All IsStepwise attempts
      → IsStepwise a
      → IsLast a
      → Ends (accept_loop env (attempts ++ a ∷ []) s)
  accept_loop-Ends [] a s r h here final =
      attempt-Ends a [] s r here (λ t r₁ e. at_end t r₁ (e ∙ final s))
    where
      at_end : (t : Server) → Reachable env t → t.running ≡ false → Ends (accept_loop env [] t)
      at_end t r₁ stopped = record {
        last = t;
        result = ended t stopped;
        reached = r₁;
        stopped = stopped;
      }
  accept_loop-Ends (b ∷ attempts) a s r (first, others) here final =
      attempt-Ends b (attempts ++ a ∷ []) s r first
        (λ t r₁ e. accept_loop-Ends attempts a t r₁ others here final)

  -- Once `init_server` has succeeded, and the server is stopped while some `accept` waits, the program
  -- ends with success at that `accept` or before it, whatever it and those before it return, where the
  -- other threads take their steps meanwhile. It ends with the clean up of a state that the threads
  -- reach and in which the server is stopped.
  pub main-cleanup_server :
      (calls : Startup) (before : Server) (attempts : List Attempt) (a : Attempt)
      → (init_server calls before).0 ≡ pos 0
      → All IsStepwise attempts
      → IsStepwise a
      → IsLast a
      → (last : Server) × (main env calls (attempts ++ a ∷ []) before
          ≡ some (true, cleanup_server last))
        × Reachable env last
        × (last.running ≡ false)
  unfolding main serve
  main-cleanup_server calls before attempts a ok others here final =
      let z =
        accept_loop-Ends attempts a (init_server calls before).1 (started calls before ok) others
          here final in
      (z.last, rw (ok, z.result) refl, z.reached, z.stopped)
