-- ===== src/Channel/Pipes/Kept.antt =====
-- The handles that the constructors of src/windows/channel.rs leave open, part by part.
use sandbox_ipc.Prelude.{ℕ, refl, Bool, List, [], ◌∷◌, Option, arith, Option-cases, inl, inr}
use sandbox_ipc.Prelude.State.{St}
use sandbox_ipc.Prelude.State
use sandbox_ipc.Channel.Owned.{Files}
use sandbox_ipc.Channel.Owned.Turns.{
  Turns, Drops, Turns-pure, Turns-Plain, Turns-same, Turns-scoped, Turns-bind, Turns-attempt,
}
use sandbox_ipc.Channel.Handles.{
  ProcessHandle, HandleTarget, nobody, current_process, remote_process,
}
use sandbox_ipc.Channel.Pipes.{
  Calls, MessageChannel, drop_handle, bool_call, handle_call, id_call, poll_evented,
  begin_connection, client_end, raw_pipe_pair, pre_pair, channel_over, pair,
}

abbrev pub target_handles : HandleTarget ProcessHandle → List ℕ
target_handles nobody = []
target_handles current_process = []
target_handles (remote_process process) = process.handle ∷ []

abbrev pub channel_handles : MessageChannel → List ℕ
channel_handles c = c.pipe ∷ target_handles c.target

module _ {W : Type 0} (calls : Calls W) where
  pub drop_handle-Drops : (h : ℕ) → Drops h (drop_handle calls h)
  drop_handle-Drops h s = (refl, refl)

  pub bool_call-Turns : (f : W → Bool × W) → Turns [] (bool_call calls f) (λ done. [])
  unfolding bool_call
  bool_call-Turns f = Turns-Plain _ (λ s. ground arith)

  pub id_call-Turns : (f : W → Option ℕ × W) → Turns [] (id_call calls f) (λ id. [])
  unfolding id_call
  id_call-Turns f = Turns-Plain _ (λ s. ground arith)

  pub begin_connection-Turns : (server : ℕ) → Turns [] (begin_connection calls server) (λ done. [])
  unfolding begin_connection bool_call
  begin_connection-Turns server = Turns-Plain _ (λ s. ground arith)

  pub handle_call-Turns : (f : W → Option ℕ × W) → Turns [] (handle_call calls f) (λ h. h ∷ [])
  unfolding handle_call
  handle_call-Turns f = record {
    turns = λ s base h y. elim (Option-cases (f s.world).0) [
      | inl e ↦ ground (arith, h y)
      | inr (a, e) ↦ ground (arith, h y)
    ];
  }

  -- A handle that a failure closes, over a part that is not given it.
  pub guarded :
      {A : Type 0} {m : St (Files W) A} {given : List ℕ} {handles : A → List ℕ} (x : ℕ)
      → Turns given m handles
      → Turns (x ∷ given) (State.scoped (drop_handle calls x) m) (λ a. x ∷ handles a)
  guarded x t = Turns-scoped (drop_handle calls x) x (drop_handle-Drops x) t

  pub poll_evented-Turns : (pipe : ℕ) → Turns (pipe ∷ []) (poll_evented calls pipe) (λ p. p ∷ [])
  unfolding poll_evented
  poll_evented-Turns pipe =
      Turns-bind (λ done. pipe ∷ []) (guarded pipe (Turns-attempt (calls.register pipe)))
        (λ done. Turns-pure pipe (λ p. p ∷ []))

  client_end-Turns : (server : ℕ) → Turns [] (client_end calls server) (λ client. client ∷ [])
  unfolding client_end
  client_end-Turns server =
      Turns-bind (λ done. []) (begin_connection-Turns server)
        (λ done.
          Turns-bind (λ client. client ∷ []) (handle_call-Turns calls.create_file)
            (λ client.
              Turns-bind (λ done. client ∷ [])
                (guarded client (bool_call-Turns (calls.get_overlapped_result server 1000)))
                (λ done. Turns-pure client (λ client. client ∷ []))))

  pub raw_pipe_pair-Turns : Turns [] (raw_pipe_pair calls) (λ pipes. pipes.0 ∷ pipes.1 ∷ [])
  unfolding raw_pipe_pair
  raw_pipe_pair-Turns =
      Turns-bind (λ done. []) (bool_call-Turns calls.initialize_security_descriptor)
        (λ done.
          Turns-bind (λ done. []) (bool_call-Turns calls.set_security_descriptor_dacl)
            (λ done.
              Turns-bind (λ server. server ∷ []) (handle_call-Turns calls.create_named_pipe)
                (λ server.
                  Turns-bind (λ client. server ∷ client ∷ [])
                    (guarded server (client_end-Turns server))
                    (λ client. Turns-pure (server, client) (λ pipes. pipes.0 ∷ pipes.1 ∷ [])))))

  pub channel_over-Turns :
      (pipe : ℕ) (server : Bool) (target : HandleTarget ProcessHandle)
      → Turns (pipe ∷ target_handles target) (channel_over calls pipe server target) channel_handles
  unfolding channel_over
  channel_over-Turns pipe server nobody =
      Turns-bind (λ p. p ∷ []) (poll_evented-Turns pipe) (λ p. Turns-pure _ channel_handles)
  channel_over-Turns pipe server current_process =
      Turns-bind (λ p. p ∷ []) (poll_evented-Turns pipe) (λ p. Turns-pure _ channel_handles)
  channel_over-Turns pipe server (remote_process process) =
      Turns-bind (λ p. p ∷ process.handle ∷ [])
        (Turns-same (pipe ∷ process.handle ∷ []) (λ p. p ∷ process.handle ∷ []) (λ y. omega arith)
          (λ p y. omega arith) (guarded process.handle (poll_evented-Turns pipe)))
        (λ p. Turns-pure _ channel_handles)

  pub pair-Turns : Turns [] (pair calls) (λ ends. ends.0.pipe ∷ ends.1.pipe ∷ [])
  unfolding pair
  pair-Turns =
      Turns-bind (λ pipes. pipes.0 ∷ pipes.1 ∷ []) raw_pipe_pair-Turns
        (λ pipes.
          Turns-bind (λ a. a ∷ pipes.1 ∷ [])
            (Turns-same (pipes.0 ∷ pipes.1 ∷ []) (λ a. a ∷ pipes.1 ∷ []) (λ y. omega arith)
              (λ a y. omega arith) (guarded pipes.1 (poll_evented-Turns pipes.0)))
            (λ a.
              Turns-bind (λ b. a ∷ b ∷ []) (guarded a (poll_evented-Turns pipes.1))
                (λ b. Turns-pure _ (λ ends. ends.0.pipe ∷ ends.1.pipe ∷ []))))

  pub pre_pair-Turns : Turns [] (pre_pair calls) (λ ends. ends.0.pipe ∷ ends.1.pipe ∷ [])
  unfolding pre_pair
  pre_pair-Turns =
      Turns-bind (λ pipes. pipes.0 ∷ pipes.1 ∷ []) raw_pipe_pair-Turns
        (λ pipes. Turns-pure _ (λ ends. ends.0.pipe ∷ ends.1.pipe ∷ []))
