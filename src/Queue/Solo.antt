-- ===== src/Queue/Solo.antt =====
-- `try_push` and `try_pop` of src/shm/queue.rs as loops that run to their return: what a call does
-- while no other agent moves and no compare-exchange fails without cause.
pub mod Returns
use sandbox_ipc.Prelude.{
  ℕ, zero, suc, ◌+◌, ◌≤◌, ◌<◌, ◌≡◌, ◌≢◌, refl, sym, ◌∙◌, Bool, true, false, Option, none, some,
  arith, ◌==◌, ltb, if◌then◌else◌, inl, inr, Bool-cases,
}
use sandbox_ipc.Prelude.Word.{isize_max, usize_max, usize_mod, wrapping_add}
use sandbox_ipc.Queue.Agent.{
  Shared, Pc, idle, push_check, push_full, push_hold, pop_check, pop_empty, pop_clear, pop_hold,
  wrapped, claim_send, claim_recv, check_send, check_recv, Move, try_push, load_recvd,
  put_back_send, retry_send, try_pop, load_sent, put_back_recv, retry_recv, load_poison,
}
use sandbox_ipc.Queue.Steps.{System, Steps, pick, stay, more, Reach}
use sandbox_ipc.Queue.Invariant.{
  sent, recvd, Inv, IsWrapped, Reach-Inv, tally-sending-le, tally-receiving-le,
}

-- The next access of a call that stands at a program counter.
abbrev pub access : ℕ → Shared → Pc → Shared × Pc
access item_count m (push_check i) = (m, check_send item_count m.last_recvd_index i)
access item_count m (push_full i) =
    if m.next_send_index == wrapping_add i 1
    then (record m { next_send_index = i }, idle)
    else (m, push_check i)
access item_count m (pop_check i) = (m, check_recv m.last_sent_index i)
access item_count m (pop_empty i) =
    if m.next_recv_index == wrapping_add i 1
    then (record m { next_recv_index = i }, idle)
    else (m, pop_check i)
access item_count m (pop_clear i) = (m, pop_hold i 0 m.poison)
access item_count m p = (m, p)

-- A call has returned: with a guard, with `None`, or by the panic of `unimplemented!()`.
abbrev pub returned : Pc → Bool
returned (push_check i) = false
returned (push_full i) = false
returned (pop_check i) = false
returned (pop_empty i) = false
returned (pop_clear i) = false
returned p = true

-- The rest of a call, of at most `fuel` accesses.
pub finish : (fuel item_count : ℕ) → Shared → Pc → Option (Shared × Pc)
finish zero item_count m p = if returned p then some (m, p) else none
finish (suc fuel) item_count m p = elim (returned p) [
  | true ↦ some (m, p)
  | false ↦ let (m', p') = access item_count m p in finish fuel item_count m' p'
]

-- A call of `try_push`, and one of `try_pop`, with their first access, the `fetch_add`.
abbrev pub call_push : ℕ → ℕ → Shared → Option (Shared × Pc)
call_push fuel item_count m =
    finish fuel item_count (record m { next_send_index = wrapping_add m.next_send_index 1 })
      (claim_send m.next_send_index)

abbrev pub call_pop : ℕ → ℕ → Shared → Option (Shared × Pc)
call_pop fuel item_count m =
    finish fuel item_count (record m { next_recv_index = wrapping_add m.next_recv_index 1 })
      (claim_recv m.next_recv_index)

-- A guard of the next index, or `None`.
abbrev pub push_result : Bool → Shared → Shared × Pc
push_result true m =
    (record m { next_send_index = m.next_send_index + 1 }, push_hold m.next_send_index 0)
push_result false m = (m, idle)

abbrev pub pop_result : Bool → Shared → Shared × Pc
pop_result true m =
    (record m { next_recv_index = m.next_recv_index + 1 }, pop_hold m.next_recv_index 0 m.poison)
pop_result false m = (m, idle)

-- Each access of a call that has not returned is one that the agents may make.
access-Move :
    (item_count : ℕ) (m : Shared) (p : Pc)
    → returned p ≡ false
    → Move item_count m p (access item_count m p).0 (access item_count m p).1
access-Move item_count m (push_check i) h = load_recvd
access-Move item_count m (push_full i) h =
    elim (Bool-cases (m.next_send_index == wrapping_add i 1)) [
      | inl last ↦ rw last (put_back_send (ground arith))
      | inr other ↦ rw other retry_send
    ]
access-Move item_count m (pop_check i) h = load_sent
access-Move item_count m (pop_empty i) h =
    elim (Bool-cases (m.next_recv_index == wrapping_add i 1)) [
      | inl last ↦ rw last (put_back_recv (ground arith))
      | inr other ↦ rw other retry_recv
    ]
access-Move item_count m (pop_clear i) h = load_poison
access-Move item_count m p h = cc

-- A state that some steps lead to, with the memory and the program counter of one agent given.
abbrev pub Reached : (item_count n : ℕ) → System → ℕ → Shared → Pc → Type 0
Reached item_count n s a m p = (t : System) × Steps item_count n s t × (t.mem ≡ m) × (t.pc a ≡ p)

pub finish-returned :
    (fuel item_count : ℕ) (m : Shared) (p : Pc)
    → returned p ≡ true
    → finish fuel item_count m p ≡ some (m, p)
unfolding finish
finish-returned zero item_count m p h = rw (h, finish) refl
finish-returned (suc fuel) item_count m p h = rw (h, finish) refl

finish-out :
    (item_count : ℕ) (m : Shared) (p : Pc) → returned p ≡ false → finish 0 item_count m p ≡ none
unfolding finish
finish-out item_count m p h = rw (h, finish) refl

pub finish-access :
    (fuel item_count : ℕ) (m : Shared) (p : Pc)
    → returned p ≡ false
    → finish (suc fuel) item_count m p
      ≡ finish fuel item_count (access item_count m p).0 (access item_count m p).1
unfolding finish
finish-access fuel item_count m p h = rw (h, finish) refl

more_access :
    {item_count n : ℕ} {s : System} {m : Shared} (a : ℕ) (p : Pc)
    → a < n
    → returned p ≡ false
    → Reached item_count n s a m p
    → Reached item_count n s a (access item_count m p).0 (access item_count m p).1
more_access {item_count} {m} a p lt under (t, r, mem, pc) = (
  _,
  more r (
      pick a {m = (access item_count m p).0} {p = (access item_count m p).1} lt
        (rw mem (rw pc (access-Move item_count m p under)))),
  refl,
  ground arith,
)

returned_same :
    {item_count n : ℕ} {s : System} {m m' : Shared} {p' : Pc} (fuel a : ℕ) (p : Pc)
    → returned p ≡ true
    → Reached item_count n s a m p
    → finish fuel item_count m p ≡ some (m', p')
    → Reached item_count n s a m' p'
returned_same {item_count} {m} fuel a p over (t, r, mem, pc) e =
    let same : some (m, p) ≡ some (_, _) = sym (finish-returned fuel item_count m p over) ∙ e in
    (t, r, mem ∙ cc same, pc ∙ cc same)

-- What a call does from its counter on is a run of the agent that makes it.
pub finish-Steps :
    {item_count n : ℕ} {s : System} {m' : Shared} {p' : Pc} (fuel a : ℕ) (m : Shared) (p : Pc)
    → a < n
    → Reached item_count n s a m p
    → finish fuel item_count m p ≡ some (m', p')
    → Reached item_count n s a m' p'
unfolding finish
finish-Steps {item_count} zero a m p lt at e = elim (Bool-cases (returned p)) [
  | inl over ↦ returned_same zero a p over at e
  | inr under ↦ absurd (ground (arith, finish-out item_count m p under))
]
finish-Steps {item_count} (suc fuel) a m p lt at e = elim (Bool-cases (returned p)) [
  | inl over ↦ returned_same (suc fuel) a p over at e
  | inr under ↦
      finish-Steps fuel a (access item_count m p).0 (access item_count m p).1 lt
        (more_access a p lt under at) (sym (finish-access fuel item_count m p under) ∙ e)
]

pub first_access :
    {item_count n : ℕ} {s : System} {m : Shared} {p : Pc} (a : ℕ)
    → a < n
    → s.pc a ≡ idle
    → Move item_count s.mem idle m p
    → Reached item_count n s a m p
first_access {m} {p} a lt at mv =
    (_, more stay (pick a {m = m} {p = p} lt (rw at mv)), refl, ground arith)
