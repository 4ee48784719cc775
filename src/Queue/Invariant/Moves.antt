-- ===== src/Queue/Invariant/Moves.antt =====
-- A move of agent `a` keeps each field of `Inv`, unless it meets the wrap-around.
use sandbox_ipc.Prelude.{ℕ, ◌+◌, ◌≤◌, ◌<◌, ◌≡◌, ◌≢◌, refl, some, arith}
use sandbox_ipc.Prelude.Word.{usize_mod}
use sandbox_ipc.Prelude.Agents.{update, tally, tally-update, tally-le}
use sandbox_ipc.Queue.Agent.{
  Shared, Pc, wrapped, Move, try_push, load_recvd, put_back_send, publish, try_pop, load_sent,
  put_back_recv, release,
}
use sandbox_ipc.Queue.Invariant.Defs.{
  sent, recvd, send_index, recv_index, writes, reads, sending, receiving, Inv,
}

pub tally-sending-le : (n : ℕ) (pc : ℕ → Pc) → tally sending n pc ≤ n
tally-sending-le = tally-le sending (λ p. ground arith)

pub tally-receiving-le : (n : ℕ) (pc : ℕ → Pc) → tally receiving n pc ≤ n
tally-receiving-le = tally-le receiving (λ p. ground arith)

module _ {item_count n : ℕ} {m : Shared} {pc : ℕ → Pc} (inv : Inv item_count n m pc) (a : ℕ) where
  open inv use {
    few, ls_word, lr_word, ns_word, nr_word, sends, recvs, order, room, send_range, recv_range,
    send_unique, recv_unique, may_write, may_read,
  }

  -- Agent `a` goes from `p` to `p'`. A match on `Move` needs the variable `p` for `pc a`.
  record Mover (p p' : Pc) : Type 0 where
    here : pc a ≡ p
    going : p' ≢ wrapped
    senders : sending p + tally sending n (update pc a p') ≡ sending p' + tally sending n pc
    receivers :
        receiving p + tally receiving n (update pc a p') ≡ receiving p' + tally receiving n pc
    send_bound : tally sending n pc ≤ n
    recv_bound : tally receiving n pc ≤ n

  mover : a < n → (p' : Pc) → p' ≢ wrapped → Mover (pc a) p'
  mover lt p' ne = record {
    here = refl;
    going = ne;
    senders = tally-update sending n a pc p' lt;
    receivers = tally-update receiving n a pc p' lt;
    send_bound = tally-sending-le n pc;
    recv_bound = tally-receiving-le n pc;
  }

  Move-counts : {p p' : Pc} {m' : Shared} → Move item_count m p m' p' → Mover p p' → record {
    ls_word : m'.last_sent_index < usize_mod;
    lr_word : m'.last_recvd_index < usize_mod;
    ns_word : m'.next_send_index < usize_mod;
    nr_word : m'.next_recv_index < usize_mod;
    sends : m'.next_send_index ≡ sent m' + tally sending n (update pc a p');
    recvs : m'.next_recv_index ≡ recvd m' + tally receiving n (update pc a p');
    order : recvd m' ≤ sent m';
    room : sent m' ≤ recvd m' + item_count;
  }
  Move-counts try_push f = ground arith
  Move-counts (put_back_send {i} g) f = ground (arith, send_range a i)
  Move-counts (publish {i} g) f = ground (arith, send_range a i, may_write a i)
  Move-counts (release {i} g) f = ground (arith, recv_range a i, may_read a i)
  Move-counts (put_back_recv {i} g) f = ground (arith, recv_range a i)
  Move-counts mv f = ground arith

  Move-send_range :
      {p p' : Pc} {m' : Shared}
      → Move item_count m p m' p'
      → Mover p p'
      → (b i : ℕ) → send_index (update pc a p' b) ≡ some i
      → (sent m' ≤ i) × (i < m'.next_send_index)
  Move-send_range try_push f b i e = ground (arith, send_range b i)
  Move-send_range (put_back_send {i = k} g) f b i e =
      ground (arith, send_range a k, send_range b i, send_unique a b i)
  Move-send_range (publish {i = k} g) f b i e =
      ground (arith, send_range a k, send_range b i, send_unique a b i)
  Move-send_range mv f b i e = ground (arith, send_range b i)

  Move-recv_range :
      {p p' : Pc} {m' : Shared}
      → Move item_count m p m' p'
      → Mover p p'
      → (b i : ℕ) → recv_index (update pc a p' b) ≡ some i
      → (recvd m' ≤ i) × (i < m'.next_recv_index)
  Move-recv_range try_push f b i e = ground (arith, recv_range b i)
  Move-recv_range (put_back_recv {i = k} g) f b i e =
      ground (arith, recv_range a k, recv_range b i, recv_unique a b i)
  Move-recv_range (release {i = k} g) f b i e =
      ground (arith, recv_range a k, recv_range b i, recv_unique a b i)
  Move-recv_range mv f b i e = ground (arith, recv_range b i)

  Move-send_unique :
      {p p' : Pc} {m' : Shared}
      → Move item_count m p m' p'
      → Mover p p'
      → (b c i : ℕ) → send_index (update pc a p' b) ≡ some i
      → send_index (update pc a p' c) ≡ some i
      → b ≡ c
  Move-send_unique try_push f b c i eb ec =
      ground (arith, send_range b i, send_range c i, send_unique b c i)
  Move-send_unique mv f b c i eb ec =
      ground (arith, send_unique b c i, send_unique a c i, send_unique b a i)

  Move-recv_unique :
      {p p' : Pc} {m' : Shared}
      → Move item_count m p m' p'
      → Mover p p'
      → (b c i : ℕ) → recv_index (update pc a p' b) ≡ some i
      → recv_index (update pc a p' c) ≡ some i
      → b ≡ c
  Move-recv_unique try_pop f b c i eb ec =
      ground (arith, recv_range b i, recv_range c i, recv_unique b c i)
  Move-recv_unique mv f b c i eb ec =
      ground (arith, recv_unique b c i, recv_unique a c i, recv_unique b a i)

  Move-may_write :
      {p p' : Pc} {m' : Shared}
      → Move item_count m p m' p'
      → Mover p p'
      → (b i : ℕ) → writes (update pc a p' b) ≡ some i
      → i < recvd m' + item_count
  Move-may_write try_push f b i e = ground (arith, may_write b i)
  Move-may_write (load_recvd {i = k}) f b i e = ground (arith, may_write b i, send_range a k)
  Move-may_write (release {i = k} g) f b i e =
      ground (arith, may_write b i, recv_range a k, may_read a k)
  Move-may_write mv f b i e = ground (arith, may_write b i)

  Move-may_read :
      {p p' : Pc} {m' : Shared}
      → Move item_count m p m' p'
      → Mover p p'
      → (b i : ℕ) → reads (update pc a p' b) ≡ some i
      → i < sent m'
  Move-may_read try_push f b i e = ground (arith, may_read b i)
  Move-may_read (load_sent {i = k}) f b i e = ground (arith, may_read b i, recv_range a k)
  Move-may_read (publish {i = k} g) f b i e = ground (arith, may_read b i, send_range a k)
  Move-may_read mv f b i e = ground (arith, may_read b i)

  pub Move-Inv :
      {p' : Pc} {m' : Shared}
      → a < n
      → Move item_count m (pc a) m' p'
      → p' ≢ wrapped
      → Inv item_count n m' (update pc a p')
  Move-Inv {p'} lt mv ne =
      let counts = Move-counts mv (mover lt p' ne) in
      record {
        few = few;
        ls_word = counts.ls_word;
        lr_word = counts.lr_word;
        ns_word = counts.ns_word;
        nr_word = counts.nr_word;
        sends = counts.sends;
        recvs = counts.recvs;
        order = counts.order;
        room = counts.room;
        send_range = Move-send_range mv f;
        recv_range = Move-recv_range mv f;
        send_unique = Move-send_unique mv f;
        recv_unique = Move-recv_unique mv f;
        may_write = Move-may_write mv f;
        may_read = Move-may_read mv f;
      }
    where
      f : Mover (pc a) p'
      f = mover lt p' ne
