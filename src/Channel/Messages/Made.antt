-- ===== src/Channel/Messages/Made.antt =====
-- The size of the messages of a channel of src/channel.rs is the one that was asked for at either end.
use sandbox_ipc.Prelude.{
  ℕ, ◌≡◌, refl, List, Option, none, arith, inl, inr, length, length-replicate, subst,
}
use sandbox_ipc.Prelude.Io.{ok, Result-cases}
use sandbox_ipc.Prelude.State.{St, ◌>>=◌, pure, finally}
use sandbox_ipc.Channel.Messages.{
  Platform, MessageChannel, ChildMessageChannel, NamedMessageChannel, PreMessageChannel,
  message_channel, pair, establish_with_child, into_channel, accept, connect, pre_into_channel,
  pre_into_sealed_channel, named_new, pre_pair,
}

-- A new channel for messages of at most `size` bytes: its limit, the lengths of its buffers, nothing
-- that waits, and the thread-local state that it uses.
pub record Made {C G : Type 0} (size : ℕ) (locals : G) (c : MessageChannel C G) : Type 0 where
  pub max_size : c.max_message_size ≡ size
  pub limit : c.inner.limit ≡ size
  pub rx_room : length c.inner.rx_buffer ≡ size
  pub tx_room : length c.inner.tx_buffer ≡ size
  pub idle : c.inner.buffered_send ≡ none
  pub state : c.inner.locals ≡ locals

message_channel-Made :
    {C G : Type 0} (io : C) (size : ℕ) (locals : G)
    → Made size locals (message_channel io size locals)
message_channel-Made io size locals = record {
  max_size = refl;
  limit = refl;
  rx_room = length-replicate {A = ℕ} size 0;
  tx_room = length-replicate {A = ℕ} size 0;
  idle = refl;
  state = refl;
}

-- For a channel that is known by an equation.
made_by :
    {C G : Type 0} {io : C} {size : ℕ} {locals : G} {c : MessageChannel C G}
    → c ≡ message_channel io size locals
    → Made size locals c
made_by {io} {size} {locals} e = rw e (message_channel-Made io size locals)

module _ {S C K P H N L T G : Type 0} (platform : Platform S C K P H N L T) (locals : G) where
  pub pair-Made :
      (size : ℕ) (s s' : S) (a b : MessageChannel C G)
      → pair platform locals size s ≡ (ok (a, b), s')
      → Made size locals a × Made size locals b
  unfolding pair
  pair-Made size s s' a b e = elim (Result-cases (platform.pair s).0) [
    | inl ((x, y), w) ↦
        (made_by {io = x} (ground (arith, w, e)), made_by {io = y} (ground (arith, w, e)))
    | inr (inl (kind, w)) ↦ absurd (ground (arith, w, e))
    | inr (inr w) ↦ absurd (ground (arith, w, e))
  ]

  pub made :
      (size : ℕ) (m : St S C) (s s' : S) (c : MessageChannel C G)
      → (m >>= λ x. pure (message_channel x size locals)) s ≡ (ok c, s')
      → Made size locals c
  made size m s s' c e = elim (Result-cases (m s).0) [
    | inl (x, w) ↦ made_by {io = x} (ground (arith, w, e))
    | inr (inl (kind, w)) ↦ absurd (ground (arith, w, e))
    | inr (inr w) ↦ absurd (ground (arith, w, e))
  ]

  pub establish_with_child-Made :
      (size : ℕ) (transmit : ChildMessageChannel K → St S L) (s s' : S) (c : MessageChannel C G)
      (l : L)
      → establish_with_child platform locals size transmit s ≡ (ok (c, l), s')
      → Made size locals c
  unfolding establish_with_child
  establish_with_child-Made size transmit s s' c l e =
      elim (Result-cases
        (platform.establish_with_child
          (λ channel.
            finally (platform.drop_child channel)
              (transmit (record { inner = channel; max_message_size = size })))
          s).0) [
            | inl ((x, y), w) ↦ made_by {io = x} (ground (arith, w, e))
            | inr (inl (kind, w)) ↦ absurd (ground (arith, w, e))
            | inr (inr w) ↦ absurd (ground (arith, w, e))
          ]

  named_new-size :
      (size : ℕ) (s s' : S) (named : NamedMessageChannel N)
      → named_new platform size s ≡ (ok named, s')
      → named.max_message_size ≡ size
  unfolding named_new
  named_new-size size s s' named e = elim (Result-cases (platform.named_new s).0) [
    | inl (x, w) ↦ ground (arith, w, e)
    | inr (inl (kind, w)) ↦ absurd (ground (arith, w, e))
    | inr (inr w) ↦ absurd (ground (arith, w, e))
  ]

  pre_pair-size :
      (size : ℕ) (s s' : S) (a b : PreMessageChannel P)
      → pre_pair platform size s ≡ (ok (a, b), s')
      → (a.max_message_size ≡ size) × (b.max_message_size ≡ size)
  unfolding pre_pair
  pre_pair-size size s s' a b e = elim (Result-cases (platform.pre_pair s).0) [
    | inl (x, w) ↦ (ground (arith, w, e), ground (arith, w, e))
    | inr (inl (kind, w)) ↦ absurd (ground (arith, w, e))
    | inr (inr w) ↦ absurd (ground (arith, w, e))
  ]

  -- Whatever way a channel is made, its messages have the size asked for: by `pair` at both ends, by
  -- `establish_with_child` at the parent's, by `connect` at the caller's; in a child the size that
  -- its parent put into what it told the child, by `accept` that of the named channel, and over the
  -- ends of a `PreMessageChannel::pair`, sealed or not, that of the pair. The buffers of the channel
  -- have that size, its limit is that, and nothing waits in it.
  pub channels_made :
      (size : ℕ) (transmit : ChildMessageChannel K → St S L) (name : List ℕ)
      (timeout : Option (ℕ × ℕ)) (child : ChildMessageChannel K) (h : H)
      (c₁ c₂ c₃ c₄ c₅ c₆ c₇ c₈ : MessageChannel C G) (l : L) (named : NamedMessageChannel N)
      (a b : PreMessageChannel P) (s s₁ s₂ s₃ s₄ s₅ s₆ s₇ s₈ s₉ : S)
      → pair platform locals size s ≡ (ok (c₁, c₂), s₁)
      → establish_with_child platform locals size transmit s ≡ (ok (c₃, l), s₂)
      → connect platform locals name timeout size s ≡ (ok c₄, s₃)
      → into_channel platform locals child s ≡ (ok c₅, s₄)
      → named_new platform size s ≡ (ok named, s₅)
      → accept platform locals named timeout s₅ ≡ (ok c₆, s₆)
      → pre_pair platform size s ≡ (ok (a, b), s₇)
      → pre_into_channel platform locals a h s₇ ≡ (ok c₇, s₈)
      → pre_into_sealed_channel platform locals b s₈ ≡ (ok c₈, s₉)
      → Made size locals c₁
        × Made size locals c₂
        × Made size locals c₃
        × Made size locals c₄
        × Made child.max_message_size locals c₅
        × Made size locals c₆
        × Made size locals c₇
        × Made size locals c₈
  unfolding into_channel accept connect pre_into_channel pre_into_sealed_channel
  channels_made size transmit name timeout child h c₁ c₂ c₃ c₄ c₅ c₆ c₇ c₈ l named a b s s₁ s₂ s₃ s₄
        s₅ s₆ s₇ s₈ s₉ paired established connected told new accepted pres unsealed sealed =
      let (first, second) = pair-Made size s s₁ c₁ c₂ paired in
      let (size_a, size_b) = pre_pair-size size s s₇ a b pres in
      (
        first,
        second,
        establish_with_child-Made size transmit s s₂ c₃ l established,
        made size (platform.named_connect name timeout) s s₃ c₄ connected,
        made child.max_message_size (platform.child_into_channel child.inner) s s₄ c₅ told,
        resize (named_new-size size s s₅ named new) (
            made named.max_message_size (platform.named_accept named.inner timeout) s₅ s₆ c₆
              accepted),
        resize size_a
            (made a.max_message_size (platform.pre_into_channel a.inner h) s₇ s₈ c₇ unsealed),
        resize size_b
            (made b.max_message_size (platform.pre_into_sealed_channel b.inner) s₈ s₉ c₈ sealed),
      )
    where
      resize : {n : ℕ} {c : MessageChannel C G} → n ≡ size → Made n locals c → Made size locals c
      resize {c} e is_made = subst (λ n. Made n locals c) e is_made
