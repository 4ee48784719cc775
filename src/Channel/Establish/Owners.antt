-- ===== src/Channel/Establish/Owners.antt =====
-- The file descriptors that the constructors of src/unix/channel.rs leave open.
use sandbox_ipc.Prelude.{ℕ, ◌^◌, ◌≤◌, ◌<◌, ◌≡◌, ◌≢◌, List, ◌∷◌, arith, refl, ap, ◌∙◌}
use sandbox_ipc.Prelude.Io.{Result, ok, err, panic, ErrorKind}
use sandbox_ipc.Channel.Fds
use sandbox_ipc.Channel.Owned.{attempt, Files, remove, kept, remove-first, remove-second}
use sandbox_ipc.Channel.Establish.{
  Calls, sun_path_len, raw_socketpair, pair, launch, drop_guard, establish_with_child, named_new,
  accept, connect,
}

module _ {W : Type 0} (calls : Calls W) where
  named_new-kept :
      (path_len : ℕ) (s : Files W)
      → let (r, s') = named_new calls path_len s in
        s'.opened ≡ kept (λ fd opened. fd ∷ opened) r s.opened
  unfolding named_new
  named_new-kept path_len s = ground (arith, remove-first (calls.socket s.world).0 s.opened)

  accept-kept :
      (listener : ℕ) (s : Files W)
      → let (r, s') = accept calls listener s in
        s'.opened ≡ remove listener (kept (λ fd opened. fd ∷ opened) r s.opened)
  unfolding accept
  accept-kept listener s = ground (arith, remove-first (calls.accept listener s.world).0 s.opened)

  raw_socketpair_lem :
      (s : Files W) (a b : ℕ)
      → (raw_socketpair calls s).0 ≡ ok (a, b)
      → (raw_socketpair calls s).1.opened ≡ b ∷ a ∷ s.opened
  unfolding raw_socketpair
  raw_socketpair_lem s a b got = ground (arith, got)

  pair-kept :
      (s : Files W) (a b : ℕ)
      → (raw_socketpair calls s).0 ≡ ok (a, b)
      → a ≢ b
      → let (r, s') = pair calls s in
        s'.opened ≡ kept (λ fds opened. fds.1 ∷ fds.0 ∷ opened) r s.opened
  unfolding pair
  pair-kept s a b got differ = ground (
    arith,
    got,
    raw_socketpair_lem s a b got,
    remove-first a s.opened,
    remove-first b s.opened,
    remove-first b (a ∷ s.opened),
    remove-second a b s.opened differ,
  )

  launch_lem :
      {A : Type 0} (transmit : ℕ → W → Result A × W) (a b : ℕ) (s : Files W) (before : List ℕ)
      → s.opened ≡ b ∷ a ∷ before
      → a ≢ b
      → let (r, s') = launch calls (λ b. attempt (transmit b)) a b s in
        s'.opened ≡ b ∷ kept (λ fds opened. fds.0 ∷ opened) r before
  unfolding launch
  launch_lem transmit a b s before held differ =
      ground (arith, held, remove-second a b before differ)

  drop_guard_lem :
      (guard : Result (Unit {0})) (b : ℕ) (s : Files W)
      → (drop_guard calls guard b s).1.opened ≡ remove b s.opened
  unfolding drop_guard
  drop_guard_lem (ok done) b s = refl
  drop_guard_lem (err kind) b s = refl
  drop_guard_lem panic b s = refl

  establish-kept :
      {A : Type 0} (transmit : ℕ → W → Result A × W) (s : Files W) (a b : ℕ)
      → (raw_socketpair calls s).0 ≡ ok (a, b)
      → a ≢ b
      → let (r, s') = establish_with_child calls (λ b. attempt (transmit b)) s in
        s'.opened ≡ kept (λ fds opened. fds.0 ∷ opened) r s.opened
  unfolding establish_with_child
  establish-kept transmit s a b got differ =
      let s₁ = (raw_socketpair calls s).1 in
      let (guard, w) = Fds.clear_cloexec calls.libc b s₁.world in
      let s₂ = record s₁ { world = w } in
      let (r, s₃) = launch calls (λ b. attempt (transmit b)) a b s₂ in
      let same : establish_with_child calls (λ b. attempt (transmit b)) s
          ≡ (r, (drop_guard calls guard b s₃).1) =
        cc got in
      rw same (
        drop_guard_lem guard b s₃
        ∙ ap (remove b) (launch_lem transmit a b s₂ s.opened (raw_socketpair_lem s a b got) differ)
        ∙ remove-first b (kept (λ fds opened. fds.0 ∷ opened) r s.opened))

  -- Channels are made without leaks: however `pair` and `establish_with_child` go on once two different
  -- sockets are there, with any launch of a child, the file descriptors open are those before, and
  -- those of the channels of the result if there are any; likewise for `NamedMessageChannel::new`, on
  -- every path; and `accept` closes the listening socket, whatever comes of it, and leaves the file
  -- descriptor of the channel if there is one.
  pub channels_kept :
      {A : Type 0} (transmit : ℕ → W → Result A × W) (path_len listener : ℕ) (s : Files W) (a b : ℕ)
      → (raw_socketpair calls s).0 ≡ ok (a, b)
      → a ≢ b
      → (let (r, s') = pair calls s in
          s'.opened ≡ kept (λ fds opened. fds.1 ∷ fds.0 ∷ opened) r s.opened)
        × (let (r, s') = establish_with_child calls (λ b. attempt (transmit b)) s in
            s'.opened ≡ kept (λ fds opened. fds.0 ∷ opened) r s.opened)
        × (let (r, s') = named_new calls path_len s in
            s'.opened ≡ kept (λ fd opened. fd ∷ opened) r s.opened)
        × (let (r, s') = accept calls listener s in
            s'.opened ≡ remove listener (kept (λ fd opened. fd ∷ opened) r s.opened))
  channels_kept transmit path_len listener s a b got differ = (
    pair-kept s a b got differ,
    establish-kept transmit s a b got differ,
    named_new-kept path_len s,
    accept-kept listener s,
  )

  -- A connection that fails leaks its socket: if `connect` of the system fails, on a path that fits
  -- and with the flags set, then `NamedMessageChannel::connect` fails and never closes the socket.
  pub connect-leaks :
      (path_len socket : ℕ) (s : Files W) (w w' : W)
      → calls.socket s.world ≡ (socket, w)
      → Fds.set_cloexec calls.libc socket w ≡ (ok tt, w')
      → path_len < sun_path_len
      → 2 ^ 31 ≤ (calls.connect socket w').0
      → let (r, s') = connect calls path_len s in
        (r ≡ err ErrorKind.os) × (s'.opened ≡ socket ∷ s.opened)
  unfolding connect
  connect-leaks path_len socket s w w' made set fits failed = ground (arith, made, set)
