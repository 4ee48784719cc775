-- ===== src/Channel/Pipes/Owners.antt =====
-- No handle is lost: what the constructors of src/windows/channel.rs leave open, however they end.
use sandbox_ipc.Prelude.{
  ℕ, ◌+◌, ◌≡◌, refl, ap, Bool, true, false, List, [], ◌∷◌, Option, none, some, arith, ◌==◌, not,
  Option-cases, inl, inr,
}
use sandbox_ipc.Prelude.Io.{Result, ErrorKind}
use sandbox_ipc.Prelude.State.{St}
use sandbox_ipc.Channel.Owned.{Files, attempt}
use sandbox_ipc.Prelude.State.{finally}
use sandbox_ipc.Channel.Owned.Turns.{
  count, owned, Turns, Turns-pure, Turns-drop, Turns-finally, Turns-call, Turns-ensure, Turns-same,
  Turns-bind, count-remove,
}
use sandbox_ipc.Channel.Handles.{ProcessHandle, remote_process}
use sandbox_ipc.Channel.Pipes.{Calls, ChildMessageChannel, drop_handle, pair, pre_pair, millis}
use sandbox_ipc.Channel.Pipes.Establish.{
  from_windows_handle_raw, modify, drop_option, drop_child, child_channel,
  establish_with_child_custom, establish_with_child, target_of, child_target, child_into_channel,
}
use sandbox_ipc.Channel.Pipes.Named.{new, open_remote, accept, connect}
use sandbox_ipc.Channel.Pipes.Kept.{
  drop_handle-Drops, target_handles, channel_handles, bool_call-Turns, id_call-Turns,
  begin_connection-Turns, handle_call-Turns, guarded, raw_pipe_pair-Turns, channel_over-Turns,
  pair-Turns, pre_pair-Turns,
}

abbrev pub option_handles : Option ℕ → List ℕ
option_handles none = []
option_handles (some handle) = handle ∷ []

abbrev pub child_handles : ChildMessageChannel → List ℕ
child_handles child = child.channel_handle ∷ option_handles child.remote_process_handle

module _ {W : Type 0} (calls : Calls W) where
  from_windows_handle_raw-Turns :
      (process : ℕ) → Turns [] (from_windows_handle_raw calls process) (λ p. p.handle ∷ [])
  unfolding from_windows_handle_raw
  from_windows_handle_raw-Turns process =
      Turns-bind (λ id. []) (Turns-call (calls.get_process_id process))
        (λ id.
          Turns-bind (λ done. []) (Turns-ensure (not (id == 0)) ErrorKind.os)
            (λ done.
              Turns-bind (λ h. h ∷ []) (handle_call-Turns calls (calls.clone_process process))
                (λ h. Turns-pure (record { handle = h; id = id }) (λ p. p.handle ∷ []))))

  modify-Turns : (handle : ℕ) → Turns (handle ∷ []) (modify calls handle) (λ h. h ∷ [])
  unfolding modify
  modify-Turns handle = record {
    turns = λ s base h y. elim (Option-cases (calls.modify handle s.world).0) [
      | inl e ↦ ground (arith, h y, count-remove y handle s.opened)
      | inr (a, e) ↦ ground (arith, h y, count-remove y handle s.opened)
    ];
  }

  child_channel-Turns :
      (client : ℕ) → Turns (client ∷ []) (child_channel calls client) child_handles
  unfolding child_channel
  child_channel-Turns client =
      Turns-bind (λ process. client ∷ process ∷ [])
        (guarded calls client (handle_call-Turns calls (calls.clone_current_process true)))
        (λ process.
          Turns-bind (λ channel. channel ∷ process ∷ [])
            (Turns-same (client ∷ process ∷ []) (λ channel. channel ∷ process ∷ [])
              (λ y. omega arith) (λ a y. omega arith) (guarded calls process (modify-Turns client)))
            (λ channel. Turns-pure _ child_handles))

  drop_option-Turns : (o : Option ℕ) → Turns (option_handles o) (drop_option calls o) (λ done. [])
  drop_option-Turns none = Turns-pure tt (λ done. [])
  drop_option-Turns (some handle) =
      Turns-drop (drop_handle calls handle) handle [] (drop_handle-Drops calls handle)

  drop_child-Turns :
      (child : ChildMessageChannel)
      → Turns (child_handles child) (drop_child calls child) (λ done. [])
  unfolding drop_child
  drop_child-Turns child =
      Turns-bind (λ done. option_handles child.remote_process_handle)
        (Turns-drop (drop_handle calls child.channel_handle) child.channel_handle _
          (drop_handle-Drops calls child.channel_handle))
        (λ done. drop_option-Turns child.remote_process_handle)

  custom-Turns :
      {T : Type 0} (transmit : ChildMessageChannel → St (Files W) (ProcessHandle × T))
      → ((child : ChildMessageChannel)
          → Turns (child_handles child) (transmit child) (λ r. r.0.handle ∷ []))
      → Turns [] (establish_with_child_custom calls transmit) (λ r. channel_handles r.0)
  unfolding establish_with_child_custom
  custom-Turns transmit closure =
      Turns-bind (λ pipes. pipes.0 ∷ pipes.1 ∷ []) (raw_pipe_pair-Turns calls)
        (λ pipes.
          Turns-bind (λ child. pipes.0 ∷ child_handles child)
            (guarded calls pipes.0 (child_channel-Turns pipes.1))
            (λ child.
              Turns-bind (λ r. pipes.0 ∷ r.0.handle ∷ []) (guarded calls pipes.0 (closure child))
                (λ r.
                  Turns-bind channel_handles
                    (channel_over-Turns calls pipes.0 true (remote_process r.0))
                    (λ channel. Turns-pure _ (λ r. channel_handles r.0)))))

  establish-Turns :
      (transmit : ChildMessageChannel → W → Result ℕ × W)
      → Turns []
          (establish_with_child calls (λ c. finally (drop_child calls c) (attempt (transmit c))))
          (λ r. channel_handles r.0)
  unfolding establish_with_child
  establish-Turns transmit = custom-Turns _ (λ to_be_sent.
      Turns-bind (λ child. [])
        (Turns-finally (attempt (transmit to_be_sent)) (λ s. refl) (drop_child-Turns to_be_sent))
        (λ child.
          Turns-bind (λ p. p.handle ∷ []) (from_windows_handle_raw-Turns child)
            (λ p. Turns-pure (p, child) (λ r. r.0.handle ∷ []))))

  open_remote-Turns :
      (get_process_id : ℕ → W → Option ℕ × W) (pipe : ℕ)
      → Turns [] (open_remote calls get_process_id pipe) (λ p. p.handle ∷ [])
  unfolding open_remote
  open_remote-Turns get_process_id pipe =
      Turns-bind (λ id. []) (id_call-Turns calls (get_process_id pipe))
        (λ id.
          Turns-bind (λ h. h ∷ []) (handle_call-Turns calls (calls.open_process id))
            (λ h. Turns-pure (record { handle = h; id = id }) (λ p. p.handle ∷ [])))

  new-Turns : Turns [] (new calls) (λ server. server ∷ [])
  unfolding new
  new-Turns =
      Turns-bind (λ server. server ∷ []) (handle_call-Turns calls calls.create_named_pipe)
        (λ server.
          Turns-bind (λ done. server ∷ [])
            (guarded calls server (begin_connection-Turns calls server))
            (λ done. Turns-pure server (λ server. server ∷ [])))

  accept-Turns :
      (server : ℕ) (timeout : Option (ℕ × ℕ))
      → Turns (server ∷ []) (accept calls server timeout) channel_handles
  unfolding accept
  accept-Turns server timeout =
      Turns-bind (λ p. server ∷ p.handle ∷ [])
        (guarded calls server (
          Turns-bind (λ done. [])
            (bool_call-Turns calls (calls.get_overlapped_result server (millis timeout)))
            (λ done. open_remote-Turns calls.get_client_process_id server)))
        (λ p. channel_over-Turns calls server true (remote_process p))

  connect-Turns :
      (valid_name : Bool) (timeout : Option (ℕ × ℕ))
      → Turns [] (connect calls valid_name timeout) channel_handles
  unfolding connect
  connect-Turns valid_name timeout =
      Turns-bind (λ done. []) (Turns-ensure valid_name ErrorKind.invalid_input)
        (λ done.
          Turns-bind (λ done. []) (bool_call-Turns calls (calls.wait_named_pipe (millis timeout)))
            (λ done.
              Turns-bind (λ client. client ∷ []) (handle_call-Turns calls calls.create_file)
                (λ client.
                  Turns-bind (λ p. client ∷ p.handle ∷ [])
                    (guarded calls client (open_remote-Turns calls.get_server_process_id client))
                    (λ p. channel_over-Turns calls client false (remote_process p)))))

  child_into_channel-Turns :
      (child : ChildMessageChannel)
      → Turns (child_handles child) (child_into_channel calls child) channel_handles
  unfolding child_into_channel
  child_into_channel-Turns child =
      Turns-same (child_handles child) channel_handles
        (λ y.
          child_targets y child.channel_handle child.remote_process_handle child.remote_process_id)
        (λ a y. refl) (channel_over-Turns calls child.channel_handle false (child_target child))
    where
      child_targets :
          (y c : ℕ) (o : Option ℕ) (id : ℕ)
          → count y (c ∷ option_handles o) ≡ count y (c ∷ target_handles (target_of o id))
      child_targets y c none id = refl
      child_targets y c (some h) id = refl

  -- A child is launched without leaks: however `establish_with_child` ends, each handle is open as
  -- often as before, and once more for the pipe and for the process handle of the parent's channel,
  -- if there is one; the handles for the child are closed, and so is everything if the launch or a
  -- later call fails. In the child, `into_channel` turns the two handles that it was sent into those
  -- of its channel, or closes both.
  pub established_kept :
      (transmit : ChildMessageChannel → W → Result ℕ × W) (child : ChildMessageChannel)
      → (s s₁ : Files W) (y : ℕ)
      → s₁.opened ≡ child.channel_handle ∷ option_handles child.remote_process_handle
      → (let (r, s') =
            establish_with_child calls
              (λ c. finally (drop_child calls c) (attempt (transmit c)))
              s in
          count y s'.opened
          ≡ count y (owned (λ established. channel_handles established.0) r) + count y s.opened)
        × (let (r, s') = child_into_channel calls child s₁ in
            count y s'.opened ≡ count y (owned channel_handles r))
  established_kept transmit child s s₁ y held = (
    (establish-Turns transmit).turns s (λ x. count x s.opened) (λ x. omega arith) y,
    omega (
      arith,
      (child_into_channel-Turns child).turns s₁ (λ x. 0) (λ x. omega (arith, ap (count x) held)) y,
    ),
  )

  -- Pairs and named channels are made without leaks: however `MessageChannel::pair`,
  -- `PreMessageChannel::pair`, `NamedMessageChannel::new` and `connect` end, each handle is open as
  -- often as before, and once more for each handle of the result, if there is one; `accept` moreover
  -- consumes the server pipe, which is open before: it is the pipe of the channel, or closed.
  pub constructors_kept :
      (server : ℕ) (timeout : Option (ℕ × ℕ)) (valid_name : Bool) (s : Files W) (before : List ℕ)
      (y : ℕ)
      → s.opened ≡ server ∷ before
      → (let (r, s') = pair calls s in
          count y s'.opened
          ≡ count y (owned (λ ends. ends.0.pipe ∷ ends.1.pipe ∷ []) r) + count y s.opened)
        × (let (r, s') = pre_pair calls s in
            count y s'.opened
            ≡ count y (owned (λ ends. ends.0.pipe ∷ ends.1.pipe ∷ []) r) + count y s.opened)
        × (let (r, s') = new calls s in
            count y s'.opened ≡ count y (owned (λ pipe. pipe ∷ []) r) + count y s.opened)
        × (let (r, s') = accept calls server timeout s in
            count y s'.opened ≡ count y (owned channel_handles r) + count y before)
        × (let (r, s') = connect calls valid_name timeout s in
            count y s'.opened ≡ count y (owned channel_handles r) + count y s.opened)
  constructors_kept server timeout valid_name s before y held = (
    (pair-Turns calls).turns s (λ x. count x s.opened) (λ x. omega arith) y,
    (pre_pair-Turns calls).turns s (λ x. count x s.opened) (λ x. omega arith) y,
    new-Turns.turns s (λ x. count x s.opened) (λ x. omega arith) y,
    (accept-Turns server timeout).turns s (λ x. count x before)
        (λ x. omega (arith, ap (count x) held)) y,
    (connect-Turns valid_name timeout).turns s (λ x. count x s.opened) (λ x. omega arith) y,
  )
