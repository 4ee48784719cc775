-- ===== src/Channel/Handles/AllOrNone.antt =====
-- All or none: what becomes of the handles of a message of src/windows/mod.rs, by its outcome.
use sandbox_ipc.Prelude.{ℕ, ◌≡◌, refl, Bool, ◌||◌, List, Option}
use sandbox_ipc.Prelude.Io.{Result, ok, err, panic}
use sandbox_ipc.Channel.Handles.{
  Winapi, ProcessHandle, HandleTarget, HandleSender, Locals, serialize_all, before_serialize,
  drop_serialize, commit_serialize,
}
use sandbox_ipc.Channel.Handles.Commit.{Tracked, elem, drop-restores, commit-keeps}

module _ {W : Type 0} {api : Winapi W} {target : HandleTarget ProcessHandle}
    {is_open : W → ℕ → Bool} (tracked : Tracked api is_open target) where
  -- What a commit comes to after the encoding `r` of handles: if it succeeded, the handle `x` is open
  -- in the target process exactly when it was before or is one of those encoded.
  abbrev pub Committed :
      (before after : Locals W) (saved : Option HandleSender) (x : ℕ) → Result (List ℕ) → Type 0
  Committed before after saved x (ok remotes) =
      let (c, l') = commit_serialize api saved after in
      (c ≡ ok tt)
      × (is_open l'.world x ≡ (elem x remotes || is_open before.world x))
      × (l'.sender ≡ before.sender)
  Committed before after saved x (err kind) = Unit {0}
  Committed before after saved x panic = Unit {0}

  -- All or none of the handles of a message stay: however the encoding of the handles ends, when the
  -- guard is dropped without a commit, the target process has the handles open that it had before;
  -- when the encoding succeeds and the guard is committed, it has open what it had before and the
  -- handles whose numbers are encoded. In either case the thread-local variable is as it was. The
  -- target is this process or another one, and the calls of the system for it open and close handles
  -- there as documented.
  pub message_handles :
      (handles : List ℕ) (l : Locals W) (x : ℕ)
      → let (saved, l0) = before_serialize target l in
        let (r, l1) = serialize_all api handles l0 in
        (is_open (drop_serialize api saved l1).world x ≡ is_open l.world x)
        × ((drop_serialize api saved l1).sender ≡ l.sender)
        × Committed l l1 saved x r
  message_handles handles l x =
      let (closed, same) = drop-restores tracked handles l x in (closed, same, at _ refl)
    where
      at :
          (r : Result (List ℕ))
          → (serialize_all api handles (before_serialize target l).1).0 ≡ r
          → Committed l
              (serialize_all api handles (before_serialize target l).1).1
              (before_serialize target l).0
              x
              r
      at (ok remotes) e = commit-keeps tracked handles remotes l x e
      at (err kind) e = tt
      at panic e = tt
