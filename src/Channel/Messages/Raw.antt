-- ===== src/Channel/Messages/Raw.antt =====
-- Raw channels of src/channel.rs that are upgraded.
use sandbox_ipc.Prelude.{ℕ, ◌≡◌, ◌∙◌, sym, refl, arith, inl, inr}
use sandbox_ipc.Prelude.Io.{ok, Result-cases}
use sandbox_ipc.Prelude.State.{St, ◌>>=◌, pure, finally}
use sandbox_ipc.Channel.Messages.Made.{Made, pair-Made, establish_with_child-Made, made}
use sandbox_ipc.Channel.Messages.{
  Platform, MessageChannel, ChildMessageChannel, RawMessageChannel, message_channel, pair, from_raw,
  establish_with_child, into_channel, pre_into_channel, pre_into_sealed_channel, raw_pair,
  raw_establish_with_child, raw_into_channel, into_raw_channel, into_sealed_raw_channel,
}

-- What a result is made into at the end may be made in two steps.
two_steps :
    {S X Y Z : Type 0} (m : St S X) (f : X → Y) (g : Y → St S Z) (h : X → Z) (s : S)
    → ((x : X) (t : S) → g (f x) t ≡ (ok (h x), t))
    → ((m >>= λ x. pure (f x)) >>= g) s ≡ (m >>= λ x. pure (h x)) s
two_steps m f g h s same = elim (Result-cases (m s).0) [
  | inl (x, w) ↦ ground (arith, w, same x (m s).1)
  | inr (inl (kind, w)) ↦ ground (arith, w)
  | inr (inr w) ↦ ground (arith, w)
]

module _ {S C K P H N L T G : Type 0} (platform : Platform S C K P H N L T) (locals : G) where
  -- `from_raw` of both ends.
  abbrev pub upgrade_both :
      (size : ℕ)
      → RawMessageChannel C × RawMessageChannel C
      → St S (MessageChannel C G × MessageChannel C G)
  upgrade_both size ends = do
    a ← from_raw platform locals ends.0 size
    b ← from_raw platform locals ends.1 size
    pure (a, b)

  abbrev pub upgrade_first : (size : ℕ) → RawMessageChannel C × L → St S (MessageChannel C G × L)
  upgrade_first size r = do c ← from_raw platform locals r.0 size; pure (c, r.1)

  -- Upgrading is the same as making the channel at once.
  upgrade_same :
      (size : ℕ) (transmit : ChildMessageChannel K → St S L) (k : K) (p : P) (h : H) (s : S)
      → ((raw_pair platform >>= upgrade_both size) s ≡ pair platform locals size s)
        × ((raw_establish_with_child platform (λ told.
                  finally
                    (platform.drop_child told.inner)
                    (transmit (record { inner = told.inner; max_message_size = size })))
                >>= upgrade_first size)
              s
            ≡ establish_with_child platform locals size transmit s)
        × ((raw_into_channel platform (record { inner = k }) >>= λ c.
                from_raw platform locals c size)
              s
            ≡ into_channel platform locals (record { inner = k; max_message_size = size }) s)
        × ((into_raw_channel platform (record { inner = p }) h >>= λ c.
                from_raw platform locals c size)
              s
            ≡ pre_into_channel platform locals (record { inner = p; max_message_size = size }) h s)
        × ((into_sealed_raw_channel platform (record { inner = p }) >>= λ c.
                from_raw platform locals c size)
              s
            ≡ pre_into_sealed_channel platform locals
                (record { inner = p; max_message_size = size })
                s)
  unfolding raw_pair pair raw_establish_with_child establish_with_child raw_into_channel
      into_channel into_raw_channel pre_into_channel into_sealed_raw_channel pre_into_sealed_channel
      from_raw
  upgrade_same size transmit k p h s = (
    two_steps platform.pair (λ x. (record { inner = x.0 }, record { inner = x.1 }))
        (upgrade_both size)
        (λ x. (message_channel x.0 size locals, message_channel x.1 size locals)) s (λ x t. refl),
    two_steps
        (platform.establish_with_child (λ told.
          finally (platform.drop_child told)
            (transmit (record { inner = told; max_message_size = size }))))
        (λ x. (record { inner = x.0 }, x.1)) (upgrade_first size)
        (λ x. (message_channel x.0 size locals, x.1)) s (λ x t. refl),
    upgraded (platform.child_into_channel k) size s,
    upgraded (platform.pre_into_channel p h) size s,
    upgraded (platform.pre_into_sealed_channel p) size s,
  )
    where
      upgraded :
          (m : St S C) (size : ℕ) (s : S)
          → ((m >>= λ x. pure (record { inner = x })) >>= λ c. from_raw platform locals c size) s
            ≡ (m >>= λ x. pure (message_channel x size locals)) s
      upgraded m size s =
          two_steps m (λ x. record { inner = x }) (λ c. from_raw platform locals c size)
            (λ x. message_channel x size locals) s (λ x t. refl)

  pub upgraded_made :
      (size : ℕ) (transmit : ChildMessageChannel K → St S L) (k : K) (p : P) (h : H)
      (c₁ c₂ c₃ c₄ c₅ c₆ : MessageChannel C G) (l : L) (s s₁ s₂ s₃ s₄ s₅ : S)
      → (raw_pair platform >>= upgrade_both size) s ≡ (ok (c₁, c₂), s₁)
      → (raw_establish_with_child platform (λ told.
              finally
                (platform.drop_child told.inner)
                (transmit (record { inner = told.inner; max_message_size = size })))
            >>= upgrade_first size)
          s
        ≡ (ok (c₃, l), s₂)
      → (raw_into_channel platform (record { inner = k }) >>= λ c. from_raw platform locals c size)
          s
        ≡ (ok c₄, s₃)
      → (into_raw_channel platform (record { inner = p }) h >>= λ c.
            from_raw platform locals c size)
          s
        ≡ (ok c₅, s₄)
      → (into_sealed_raw_channel platform (record { inner = p }) >>= λ c.
            from_raw platform locals c size)
          s
        ≡ (ok c₆, s₅)
      → Made size locals c₁
        × Made size locals c₂
        × Made size locals c₃
        × Made size locals c₄
        × Made size locals c₅
        × Made size locals c₆
  unfolding into_channel pre_into_channel pre_into_sealed_channel
  upgraded_made size transmit k p h c₁ c₂ c₃ c₄ c₅ c₆ l s s₁ s₂ s₃ s₄ s₅ paired established told
        unsealed sealed =
      let (same₁, same₂, same₃, same₄, same₅) = upgrade_same size transmit k p h s in
      let (first, second) = pair-Made platform locals size s s₁ c₁ c₂ (sym same₁ ∙ paired) in
      (
        first,
        second,
        establish_with_child-Made platform locals size transmit s s₂ c₃ l (sym same₂ ∙ established),
        made platform locals size (platform.child_into_channel k) s s₃ c₄ (sym same₃ ∙ told),
        made platform locals size (platform.pre_into_channel p h) s s₄ c₅ (sym same₄ ∙ unsealed),
        made platform locals size (platform.pre_into_sealed_channel p) s s₅ c₆ (sym same₅ ∙ sealed),
      )
