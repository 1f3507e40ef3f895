-- ===== src/Helper/Gate.antt =====
-- crates/neutra-helper/src/watch_sweep/gate.rs: the ticket lock in front of the store.
--
-- A state is what the mutex guards and the threads with a ticket, in the order in which they took it.
-- A step is what one thread does while it holds the mutex; a thread that wakes up may look at
-- `serving` at any time, so that the calls of `notify_all` are not modelled; nor is a poisoned mutex.
pub mod Order
mod Examples
use neutrasearch.Base.{
  ℕ, zero, suc, ◌+◌, ◌%◌, ◌≡◌, ◌<◌, Bool, true, false, List, [], ◌∷◌, ◌++◌, some, length, get_elem?,
  set, ◌==◌, u64_mod,
}

-- A thread with a ticket: it waits in `ticket`, or is past the loop and holds the `Ticket`.
pub record Waiter : Type 0 where
  pub mine : ℕ
  pub inside : Bool

pub record WriteGate : Type 0 where
  pub next : ℕ
  pub serving : ℕ
  pub line : List Waiter

-- `WriteGate::default`
abbrev pub new_gate : WriteGate
new_gate = record { next = 0; serving = 0; line = [] }

-- The first part of `ticket`, up to the loop.
unfoldable pub take_ticket : WriteGate → WriteGate
take_ticket gate = record {
  next = (gate.next + 1) % u64_mod;
  serving = gate.serving;
  line = gate.line ++ record { mine = gate.next; inside = false } ∷ [];
}

-- `turn.serving == mine`, where the loop ends.
unfoldable pub is_served : WriteGate → Waiter → Bool
is_served gate w = gate.serving == w.mine

-- The end of `ticket` for the thread at place `i`.
unfoldable pub enter : ℕ → Waiter → WriteGate → WriteGate
enter i w gate = record {
  next = gate.next;
  serving = gate.serving;
  line = set gate.line i record { mine = w.mine; inside = true };
}

abbrev pub remove_at : ℕ → List Waiter → List Waiter
remove_at i [] = []
remove_at zero (w ∷ line) = line
remove_at (suc i) (w ∷ line) = w ∷ remove_at i line

-- `drop` of the ticket of the thread at place `i`.
unfoldable pub drop_ticket : ℕ → WriteGate → WriteGate
drop_ticket i gate = record {
  next = gate.next;
  serving = (gate.serving + 1) % u64_mod;
  line = remove_at i gate.line;
}

-- What may happen, with fewer than 2^64 threads.
pub data Step : WriteGate → WriteGate → Type 0 where
  takes :
      {gate gate' : WriteGate}
      → length gate.line + 1 < u64_mod
      → gate' ≡ take_ticket gate
      → Step gate gate'
  enters :
      {gate gate' : WriteGate} (i : ℕ) (w : Waiter)
      → get_elem? gate.line i ≡ some w
      → is_served gate w ≡ true
      → gate' ≡ enter i w gate
      → Step gate gate'
  drops :
      {gate gate' : WriteGate} (i : ℕ) (w : Waiter)
      → get_elem? gate.line i ≡ some w
      → w.inside ≡ true
      → gate' ≡ drop_ticket i gate
      → Step gate gate'

-- Some steps from the start.
pub data Reaches : WriteGate → Type 0 where
  start : {gate : WriteGate} → gate ≡ new_gate → Reaches gate
  later : {gate gate' : WriteGate} → Reaches gate → Step gate gate' → Reaches gate'
