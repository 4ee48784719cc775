-- ===== src/Channel/Messages/Platforms.antt =====
-- The two platforms below src/channel.rs: src/windows/channel.rs and src/unix/channel.rs.
use sandbox_ipc.Prelude.{ℕ, Bool, List, length}
use sandbox_ipc.Prelude.State.{pure}
use sandbox_ipc.Channel.Owned.{Files}
use sandbox_ipc.Channel.Handles.{ProcessHandle}
use sandbox_ipc.Channel.Establish
use sandbox_ipc.Channel.Pipes
use sandbox_ipc.Channel.Pipes.Establish as Children
use sandbox_ipc.Channel.Pipes.Named as Named
use sandbox_ipc.Channel.Messages.{Platform}

-- `valid_name` is whether `WideCString` takes a name.
abbrev pub windows :
    {W T : Type 0}
    → Pipes.Calls W
    → (valid_name : List ℕ → Bool)
    → Platform
        (Files W)
        Pipes.MessageChannel
        Pipes.ChildMessageChannel
        Pipes.PreMessageChannel
        ProcessHandle
        ℕ
        ℕ
        T
windows calls valid_name = record {
  pair = Pipes.pair calls;
  establish_with_child = Children.establish_with_child calls;
  establish_with_child_custom = Children.establish_with_child_custom calls;
  drop_child = Children.drop_child calls;
  child_into_channel = Children.child_into_channel calls;
  named_new = Named.new calls;
  named_accept = Named.accept calls;
  named_connect = λ name timeout. Named.connect calls (valid_name name) timeout;
  pre_pair = Pipes.pre_pair calls;
  pre_into_channel = Pipes.into_channel calls;
  pre_into_sealed_channel = Pipes.into_sealed_channel calls;
}

-- A channel is its file descriptor; what the child is told closes nothing, and timeouts are not
-- looked at. `path_len` is the length of the path that a named channel draws.
abbrev pub unix :
    {W L T : Type 0}
    → Establish.Calls W
    → (path_len : ℕ) → Platform (Files W) ℕ ℕ ℕ (Unit {0}) ℕ L T
unix calls path_len = record {
  pair = Establish.pair calls;
  establish_with_child = Establish.establish_with_child calls;
  establish_with_child_custom = Establish.establish_with_child_custom calls;
  drop_child = λ child. pure tt;
  child_into_channel = Establish.poll_evented calls;
  named_new = Establish.named_new calls path_len;
  named_accept = λ named timeout. Establish.accept calls named;
  named_connect = λ name timeout. Establish.connect calls (length name);
  pre_pair = Establish.pre_pair calls;
  pre_into_channel = Establish.into_channel calls;
  pre_into_sealed_channel = Establish.into_sealed_channel calls;
}
