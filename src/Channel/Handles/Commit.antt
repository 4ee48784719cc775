-- ===== src/Channel/Handles/Commit.antt =====
-- All or nothing: the handles that a message of src/windows/mod.rs leaves in the target process.
use sandbox_ipc.Prelude.{
  ℕ, ◌≡◌, Bool, true, false, ◌||◌, ◌&&◌, not, List, [], ◌∷◌, ◌++◌, Option, none, some, ◌==◌, arith,
  refl, Bool-cases, Option-cases, inl, inr, append_assoc, append_nil,
}
use sandbox_ipc.Prelude.Io.{ok, Result-cases}
use sandbox_ipc.Channel.Handles.{
  Winapi, is_nobody, nobody, current_process, remote_process, ProcessHandle, HandleTarget,
  HandleSender, Locals, duplicate, close_in, close_all, drop_sender, send, serialize_handle,
  serialize_all, before_serialize, drop_serialize, commit_serialize,
}

-- What the system documents of a way to duplicate into a process and a way to close there, with the
-- handles that are open in that process: a duplicate is a handle that was not open, and a close
-- closes one handle.
pub record Opening {W : Type 0} (duplicate : (handle : ℕ) → W → Option ℕ × W)
    (close : (handle : ℕ) → W → W) (is_open : W → ℕ → Bool) : Type 0 where
  pub dup-some :
      (handle remote : ℕ) (w : W) → (duplicate handle w).0 ≡ some remote → is_open w remote ≡ false
  pub dup-opens :
      (handle remote x : ℕ) (w : W)
      → (duplicate handle w).0 ≡ some remote
      → is_open (duplicate handle w).1 x ≡ ((x == remote) || is_open w x)
  pub dup-none :
      (handle x : ℕ) (w : W)
      → (duplicate handle w).0 ≡ none
      → is_open (duplicate handle w).1 x ≡ is_open w x
  pub close-closes :
      (handle x : ℕ) (w : W) → is_open (close handle w) x ≡ (not (x == handle) && is_open w x)

-- The target is a process, with the calls of the system that duplicate into it and that close there:
-- for this process `DuplicateHandle` and `CloseHandle`, for another one `DuplicateHandle` with its
-- handle as the target, and as the source that is to be closed.
pub data Tracked {W : Type 0} (api : Winapi W) (is_open : W → ℕ → Bool)
    : HandleTarget ProcessHandle → Type 0 where
  here : Opening api.duplicate_here api.close is_open → Tracked api is_open current_process
  there :
      {p : ProcessHandle}
      → Opening (api.duplicate_to p.handle) (api.close_source p.handle) is_open
      → Tracked api is_open (remote_process p)

-- The calls are those that `HandleSender` makes for the target.
calls :
    {W : Type 0} (api : Winapi W) (target : HandleTarget ProcessHandle) (is_open : W → ℕ → Bool)
    → Tracked api is_open target
    → Opening (duplicate api target) (close_in api target) is_open
calls api nobody is_open tracked = elim tracked [ ]
calls api current_process is_open (here opening) = opening
calls api (remote_process p) is_open (there opening) = opening

abbrev pub elem : ℕ → List ℕ → Bool
elem x [] = false
elem x (y ∷ ys) = (x == y) || elem x ys

elem-append : (x : ℕ) (ys zs : List ℕ) → elem x (ys ++ zs) ≡ (elem x ys || elem x zs)
elem-append x [] zs = refl
elem-append x (y ∷ ys) zs = ground (arith, elem-append x ys zs)

module _ {W : Type 0} {api : Winapi W} {target : HandleTarget ProcessHandle}
    {is_open : W → ℕ → Bool} (tracked : Tracked api is_open target) where
  close_all_lem :
      (handles : List ℕ) (w : W) (x : ℕ)
      → is_open (close_all api target handles w) x ≡ (not (elem x handles) && is_open w x)
  unfolding close_all
  close_all_lem [] w x = refl
  close_all_lem (h ∷ handles) w x = ground (
    arith,
    close_all_lem handles (close_in api target h w) x,
    (calls api target is_open tracked).close-closes h x w,
  )

  -- The sender `s` of `l` has opened its handles since the state `w`, and nothing else has changed.
  record Opened (w : W) (l : Locals W) (s : HandleSender) : Type 0 where
    holds : l.sender ≡ some s
    same : s.target ≡ target
    fresh : (x : ℕ) → elem x s.handles ≡ true → is_open w x ≡ false
    state : (x : ℕ) → is_open l.world x ≡ (elem x s.handles || is_open w x)

  send_lem :
      (handle : ℕ) (w : W) (l : Locals W) (s : HandleSender)
      → Opened w l s
      → (s' : HandleSender) × Opened w (serialize_handle api handle l).1 s'
        × ((n : ℕ) → (serialize_handle api handle l).0 ≡ ok n → s'.handles ≡ s.handles ++ (n ∷ []))
  unfolding serialize_handle send
  send_lem handle w l s opened = elim (Bool-cases (is_nobody s.target)) [
    | inl e ↦ (
      s,
      record {
        holds = ground (arith, opened.holds, e);
        same = opened.same;
        fresh = opened.fresh;
        state = λ x. ground (arith, opened.holds, e, opened.state x);
      },
      λ n done. absurd (ground (arith, opened.holds, e)),
    )
    | inr e ↦ elim (Option-cases (duplicate api target handle l.world).0) [
      | inl none_left ↦ (
        s,
        record {
          holds = ground (arith, opened.holds, opened.same, e, none_left);
          same = opened.same;
          fresh = opened.fresh;
          state = λ x. ground (
            arith,
            opened.holds,
            opened.same,
            e,
            none_left,
            opened.state x,
            (calls api target is_open tracked).dup-none handle x l.world none_left,
          );
        },
        λ n done. absurd (ground (arith, opened.holds, opened.same, e, none_left)),
      )
      | inr (n, got) ↦ (
        record s { handles = s.handles ++ (n ∷ []) },
        record {
          holds = ground (arith, opened.holds, opened.same, e, got);
          same = opened.same;
          fresh = λ x there. ground (
            arith,
            elem-append x s.handles (n ∷ []),
            opened.fresh x,
            opened.state x,
            (calls api target is_open tracked).dup-some handle n l.world got,
            opened.state n,
          );
          state = λ x. ground (
            arith,
            opened.holds,
            opened.same,
            e,
            got,
            elem-append x s.handles (n ∷ []),
            opened.state x,
            (calls api target is_open tracked).dup-opens handle n x l.world got,
          );
        },
        λ m done. ground (arith, opened.holds, opened.same, e, got),
      )
    ]
  ]

  all_lem :
      (handles : List ℕ) (w : W) (l : Locals W) (s : HandleSender)
      → Opened w l s
      → (s' : HandleSender) × Opened w (serialize_all api handles l).1 s'
        × ((ns : List ℕ) → (serialize_all api handles l).0 ≡ ok ns → s'.handles ≡ s.handles ++ ns)
  unfolding serialize_all
  all_lem [] w l s opened = (s, opened, λ ns done. ground (arith, done, append_nil s.handles))
  all_lem (h ∷ handles) w l s opened =
      let (s', opened', pushed) = send_lem h w l s opened in
      let l' = (serialize_handle api h l).1 in
      elim (Result-cases (serialize_handle api h l).0) [
        | inl (n, e) ↦
            let (s'', opened'', pushed') = all_lem handles w l' s' opened' in
            let same : (serialize_all api (h ∷ handles) l).1 ≡ (serialize_all api handles l').1 =
              ground (arith, e) in
            (
              s'',
              rw same opened'',
              λ ns done. elim (Result-cases (serialize_all api handles l').0) [
                | inl (rest, e') ↦
                    let split : ns ≡ n ∷ rest = ground (arith, done, e, e') in
                    cc (split, pushed n e, pushed' rest e', append_assoc s.handles (n ∷ []) rest)
                | inr (inl (kind, e')) ↦ absurd (ground (arith, done, e, e'))
                | inr (inr e') ↦ absurd (ground (arith, done, e, e'))
              ],
            )
        | inr (inl (kind, e)) ↦
            let same : (serialize_all api (h ∷ handles) l).1 ≡ l' = ground (arith, e) in
            (s', rw same opened', λ ns done. absurd (ground (arith, done, e)))
        | inr (inr e) ↦
            let same : (serialize_all api (h ∷ handles) l).1 ≡ l' = ground (arith, e) in
            (s', rw same opened', λ ns done. absurd (ground (arith, done, e)))
      ]

  started :
      (l : Locals W)
      → Opened l.world (before_serialize target l).1 (record { target = target; handles = [] })
  unfolding before_serialize
  started l = record { holds = refl; same = refl; fresh = λ x there. cc; state = λ x. refl }

  pub drop-restores :
      (handles : List ℕ) (l : Locals W) (x : ℕ)
      → let (saved, l0) = before_serialize target l in
        let l' = drop_serialize api saved (serialize_all api handles l0).1 in
        (is_open l'.world x ≡ is_open l.world x) × (l'.sender ≡ l.sender)
  unfolding drop_serialize drop_sender before_serialize
  drop-restores handles l x =
      let (s, opened, pushed) =
        all_lem handles l.world (before_serialize target l).1 _ (started l) in
      let world = (serialize_all api handles (before_serialize target l).1).1.world in
      (
        ground (
          arith,
          opened.holds,
          opened.same,
          close_all_lem s.handles world x,
          opened.state x,
          opened.fresh x,
        ),
        refl,
      )

  pub commit-keeps :
      (handles remotes : List ℕ) (l : Locals W) (x : ℕ)
      → (serialize_all api handles (before_serialize target l).1).0 ≡ ok remotes
      → let (saved, l0) = before_serialize target l in
        let (r, l') = commit_serialize api saved (serialize_all api handles l0).1 in
        (r ≡ ok tt)
        × (is_open l'.world x ≡ (elem x remotes || is_open l.world x))
        × (l'.sender ≡ l.sender)
  unfolding commit_serialize drop_serialize drop_sender close_all before_serialize
  commit-keeps handles remotes l x done =
      let (s, opened, pushed) =
        all_lem handles l.world (before_serialize target l).1 _ (started l) in
      (
        ground (arith, opened.holds),
        ground (arith, opened.holds, opened.state x, pushed remotes done),
        ground (arith, opened.holds),
      )
