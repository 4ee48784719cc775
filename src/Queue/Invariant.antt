-- ===== src/Queue/Invariant.antt =====
-- The invariant of a queue (`Inv`) holds in each state that its agents can reach, up to the
-- wrap-around that src/shm/queue.rs leaves unimplemented.
mod Defs
mod Moves
pub use Defs.*
pub use Moves.{tally-sending-le, tally-receiving-le}
use Moves.{Move-Inv}
use sandbox_ipc.Prelude.{ℕ, ◌+◌, ◌≤◌, ◌<◌, ◌≡◌, ◌≢◌, refl, List, arith, ◌==◌, inl, inr, Bool-cases}
use sandbox_ipc.Prelude.Word.{isize_max}
use sandbox_ipc.Prelude.Agents.{update, tally, tally-constant}
use sandbox_ipc.Queue.Agent.{Shared, Pc, idle, wrapped, Move, try_push}
use sandbox_ipc.Queue.Steps.{System, new_control, init, Step, pick, Steps, stay, more, Reach}

-- An agent that has met the wrap-around makes no further move.
Move-ne-wrapped :
    {item_count : ℕ} {m m' : Shared} {p p' : Pc} → Move item_count m p m' p' → p ≢ wrapped
Move-ne-wrapped try_push e = cc
Move-ne-wrapped mv e = cc

module _ {item_count n : ℕ} where
  pub init-Inv :
      (slots : ℕ → List ℕ)
      → item_count + n ≤ isize_max
      → Inv item_count n (new_control slots) (λ _. idle)
  init-Inv slots few = record {
    few = few;
    ls_word = omega arith;
    lr_word = omega arith;
    ns_word = omega arith;
    nr_word = omega arith;
    sends = omega (arith, tally-constant sending n idle refl);
    recvs = omega (arith, tally-constant receiving n idle refl);
    order = omega arith;
    room = omega arith;
    send_range = λ a i e. cc;
    recv_range = λ a i e. cc;
    send_unique = λ a b i e f. cc;
    recv_unique = λ a b i e f. cc;
    may_write = λ a i e. cc;
    may_read = λ a i e. cc;
  }

  pub Step-IsWrapped : {s t : System} → Step item_count n s t → IsWrapped s.pc → IsWrapped t.pc
  Step-IsWrapped {s} (pick a lt mv) (b, e) = elim (Bool-cases (b == a)) [
    | inl same ↦ absurd (Move-ne-wrapped mv (ground arith))
    | inr other ↦ (b, ground arith)
  ]

  pub Steps-IsWrapped : {s t : System} → Steps item_count n s t → IsWrapped s.pc → IsWrapped t.pc
  Steps-IsWrapped stay w = w
  Steps-IsWrapped (more r st) w = Step-IsWrapped st (Steps-IsWrapped r w)

  pub Step-Inv :
      {s t : System}
      → Step item_count n s t
      → ¬ IsWrapped t.pc
      → Inv item_count n s.mem s.pc
      → Inv item_count n t.mem t.pc
  Step-Inv (pick a lt mv) calm inv = Move-Inv inv a lt mv (λ e. calm (a, ground arith))

  pub Steps-Inv :
      {s t : System}
      → Inv item_count n s.mem s.pc
      → Steps item_count n s t
      → ¬ IsWrapped t.pc
      → Inv item_count n t.mem t.pc
  Steps-Inv inv stay calm = inv
  Steps-Inv inv (more r st) calm =
      Step-Inv st calm (Steps-Inv inv r (λ w. calm (Step-IsWrapped st w)))

  -- Every reachable state has the invariant, if the queue and its agents are fewer than `isize::MAX`
  -- and no agent has met the wrap-around.
  pub Reach-Inv :
      {s : System}
      → item_count + n ≤ isize_max
      → Reach item_count n s
      → ¬ IsWrapped s.pc
      → Inv item_count n s.mem s.pc
  Reach-Inv few (slots, r) calm = Steps-Inv (init-Inv slots few) r calm
