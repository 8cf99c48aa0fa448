-- ===== src/Bcache.antt =====
-- The buffer cache: kernel/bio.c.
-- A buffer is an index of `bcache.buf`, and `bcache.head` is the index NBUF. What an operation does
-- under `bcache.lock` is one function; the sleep lock of a buffer is a field of it.
pub mod Rings
pub mod Moves
pub mod Lists
pub mod Search
pub mod Ops
pub mod Refs
pub mod Keeps
pub mod Unique
mod Tests
use so_final_proyect.Prelude.{
  ℕ, zero, suc, ◌+◌, ◌-◌, ◌^◌, Bool, true, false, ◌&&◌, Option, none, some, List, [], ◌∷◌, ◌==◌,
  if◌then◌else◌, update, Result, ok, panic, ◌>>=◌,
}

-- NBUF of kernel/param.h.
abbrev pub nbuf : ℕ
nbuf = 30

abbrev pub head : ℕ
head = nbuf

-- `struct buf`, less its links and its mark for the disk; `holder` is the pid in its sleep lock.
pub record Buf : Type 0 where
  pub valid : Bool
  pub dev : ℕ
  pub blockno : ℕ
  pub refcnt : ℕ
  pub holder : Option ℕ
  pub bytes : List ℕ

-- The buffers and the links of the list.
pub record Bcache : Type 0 where
  pub buf : ℕ → Buf
  pub next : ℕ → ℕ
  pub prev : ℕ → ℕ

abbrev pub set_next : ℕ → ℕ → Bcache → Bcache
set_next b c t = record t { next = update t.next b c }

abbrev pub set_prev : ℕ → ℕ → Bcache → Bcache
set_prev b c t = record t { prev = update t.prev b c }

abbrev pub set_buf : ℕ → Buf → Bcache → Bcache
set_buf b v t = record t { buf = update t.buf b v }

-- `b` goes in after the head.
pub push_front : ℕ → Bcache → Bcache
push_front b t =
    let t1 = set_next b (t.next head) t in
    let t2 = set_prev b head t1 in let t3 = set_prev (t2.next head) b t2 in set_next head b t3

pub unlink : ℕ → Bcache → Bcache
unlink b t = let t1 = set_prev (t.next b) (t.prev b) t in set_next (t1.prev b) (t1.next b) t1

-- The loop of `binit`, from buffer `b` on.
pub binit_from : ℕ → ℕ → Bcache → Bcache
unfolding push_front
binit_from zero b t = t
binit_from (suc left) b t = binit_from left (b + 1) (push_front b t)

pub binit : Bcache → Bcache
unfolding binit_from
binit t = binit_from nbuf 0 (set_next head head (set_prev head head t))

abbrev pub is_block : ℕ → ℕ → Buf → Bool
is_block dev blockno v = v.dev == dev && v.blockno == blockno

-- The first loop of `bget`, at `b`; `fuel` bounds its rounds.
pub find_from : ℕ → ℕ → ℕ → ℕ → Bcache → Option ℕ
find_from zero b dev blockno t = none
find_from (suc fuel) b dev blockno t =
    let rest = find_from fuel (t.next b) dev blockno t in
    if b == head then none else if is_block dev blockno (t.buf b) then some b else rest

-- The second loop of `bget`.
pub unused_from : ℕ → ℕ → Bcache → Option ℕ
unused_from zero b t = none
unused_from (suc fuel) b t =
    let rest = unused_from fuel (t.prev b) t in
    if b == head then none else if (t.buf b).refcnt == 0 then some b else rest

abbrev pub recycle : ℕ → ℕ → Option ℕ → Bcache → Result (ℕ × Bcache)
recycle dev blockno none t = panic "bget: no buffers"
recycle dev blockno (some b) t =
    ok (
      b,
      set_buf b (record (t.buf b) { dev = dev; blockno = blockno; valid = false; refcnt = 1 }) t,
    )

abbrev pub reuse : ℕ → ℕ → Option ℕ → Option ℕ → Bcache → Result (ℕ × Bcache)
reuse dev blockno (some b) u t =
    ok (b, set_buf b (record (t.buf b) { refcnt = (t.buf b).refcnt + 1 }) t)
reuse dev blockno none u t = recycle dev blockno u t

-- `bget` up to its call of `acquiresleep`.
pub bget : ℕ → ℕ → Bcache → Result (ℕ × Bcache)
bget dev blockno t =
    reuse dev blockno (find_from (nbuf + 1) (t.next head) dev blockno t)
      (unused_from (nbuf + 1) (t.prev head) t) t

-- The part of `bread` after `bget`; `read` is what the disk holds.
abbrev pub fill_buf : (ℕ → ℕ → List ℕ) → ℕ → Bcache → Bcache
fill_buf read b t =
    if (t.buf b).valid
    then t
    else set_buf b (record (t.buf b) { bytes = read (t.buf b).dev (t.buf b).blockno; valid = true })
        t

abbrev pub is_pid : ℕ → Option ℕ → Bool
is_pid pid none = false
is_pid pid (some q) = q == pid

-- `acquiresleep` of kernel/sleeplock.c when it runs: it sleeps, or the buffer is locked.
abbrev pub acquiresleep : ℕ → Buf → Option Buf
acquiresleep pid v = elim v.holder [ none ↦ some (record v { holder = some pid }) | some q ↦ none ]

abbrev pub releasesleep : Buf → Buf
releasesleep v = record v { holder = none }

-- The end of `bread` by process `pid`, which has the lock or sleeps.
abbrev pub read_locked : (ℕ → ℕ → List ℕ) → ℕ → Option Buf → Bcache → Bool × ℕ × Bcache
read_locked read b none t = (false, b, t)
read_locked read b (some v) t = (true, b, fill_buf read b (set_buf b v t))

pub bread : (ℕ → ℕ → List ℕ) → ℕ → ℕ → ℕ → Bcache → Result (Bool × ℕ × Bcache)
unfolding bget
bread read pid dev blockno t = do
  (b, u) ← bget dev blockno t
  ok (read_locked read b (acquiresleep pid (u.buf b)) u)

-- `bwrite` by process `pid`: the block that is written.
pub bwrite : ℕ → ℕ → Bcache → Result (ℕ × ℕ × List ℕ)
bwrite pid b t =
    if is_pid pid (t.buf b).holder
    then ok ((t.buf b).dev, (t.buf b).blockno, (t.buf b).bytes)
    else panic "bwrite"

-- `b->refcnt--` on a uint, which wraps at 0.
abbrev pub less_one : ℕ → ℕ
less_one n = if n == 0 then 2 ^ 32 - 1 else n - 1

-- `brelse` after `releasesleep`.
pub drop_ref : ℕ → Bcache → Bcache
unfolding unlink push_front
drop_ref b t =
    let u = set_buf b (record (t.buf b) { refcnt = less_one (t.buf b).refcnt }) t in
    if (u.buf b).refcnt == 0 then push_front b (unlink b u) else u

pub brelse : ℕ → ℕ → Bcache → Result Bcache
unfolding drop_ref
brelse pid b t =
    if is_pid pid (t.buf b).holder
    then ok (drop_ref b (set_buf b (releasesleep (t.buf b)) t))
    else panic "brelse"

pub bpin : ℕ → Bcache → Bcache
bpin b t = set_buf b (record (t.buf b) { refcnt = (t.buf b).refcnt + 1 }) t

pub bunpin : ℕ → Bcache → Bcache
bunpin b t = set_buf b (record (t.buf b) { refcnt = less_one (t.buf b).refcnt }) t
