-- ===== src/Helper/Gate/Order.antt =====
-- The tickets of the threads are consecutive, so only the first in line is inside.
use neutrasearch.Base.{
  ℕ, zero, suc, ◌+◌, ◌%◌, ◌≡◌, ◌<◌, ◌∙◌, sym, ap, refl, arith, true, false, List, [], ◌∷◌, ◌++◌,
  some, length, length-append, length-set, get_elem?, get_elem?-set_self, get_elem?-set_ne, set,
  ==_iff, ℕ_discrete, u64_mod, inr, inl, ◌⊎◌,
}
use mathlib.Core.Path.{subst}
use mathlib.Core.Option.{some-injective}
use neutrasearch.Helper.Gate.{
  Waiter, WriteGate, take_ticket, is_served, enter, remove_at, drop_ticket, Step, takes, enters,
  drops, Reaches, start, later,
}

pub record IsOrdered (gate : WriteGate) : Type 0 where
  pub few : length gate.line < u64_mod
  pub word : gate.serving < u64_mod
  pub end : gate.next ≡ (gate.serving + length gate.line) % u64_mod
  pub tickets :
      (i : ℕ) (w : Waiter) → get_elem? gate.line i ≡ some w → w.mine ≡ (gate.serving + i) % u64_mod
  pub first : (i : ℕ) (w : Waiter) → get_elem? gate.line i ≡ some w → w.inside ≡ true → i ≡ 0

-- A new thread stands behind the others.
at_end :
    (line : List Waiter) (v : Waiter) (i : ℕ) (w : Waiter)
    → get_elem? (line ++ v ∷ []) i ≡ some w
    → (get_elem? line i ≡ some w) ⊎ ((i ≡ length line) × (v ≡ w))
at_end [] v zero w h = inr (refl, some-injective v w h)
at_end [] v (suc i) w h = cc
at_end (u ∷ line) v zero w h = inl h
at_end (u ∷ line) v (suc i) w h = elim (at_end line v i w h) [
  | inl there ↦ inl there
  | inr (last, same) ↦ inr (ap suc last, same)
]

get_elem?-bound :
    (line : List Waiter) (i : ℕ) {w : Waiter} → get_elem? line i ≡ some w → i < length line
get_elem?-bound [] i h = cc
get_elem?-bound (u ∷ line) zero h = omega arith
get_elem?-bound (u ∷ line) (suc i) h = omega (arith, get_elem?-bound line i h)

take_ticket-IsOrdered :
    (gate : WriteGate)
    → length gate.line + 1 < u64_mod
    → IsOrdered gate
    → IsOrdered (take_ticket gate)
unfolding take_ticket
take_ticket-IsOrdered gate room h = record {
  few =
      rw (length-append gate.line (record { mine = gate.next; inside = false } ∷ [])) (omega arith);
  word = h.word;
  end =
      rw (length-append gate.line (record { mine = gate.next; inside = false } ∷ []))
        (omega (arith, h.end));
  tickets = λ i w there. elim (at_end gate.line _ i w there) [
    | inl before ↦ h.tickets i w before
    | inr (last, same) ↦
        sym (ap (λ (v : Waiter). v.mine) same)
        ∙ h.end
        ∙ ap (λ (n : ℕ). (gate.serving + n) % u64_mod) (sym last)
  ];
  first = λ i w there inside. elim (at_end gate.line _ i w there) [
    | inl before ↦ h.first i w before inside
    | inr (last, same) ↦ let out = ap (λ (v : Waiter). v.inside) same in cc
  ];
}

enter-IsOrdered :
    (gate : WriteGate) (i : ℕ) (w : Waiter)
    → get_elem? gate.line i ≡ some w
    → is_served gate w ≡ true
    → IsOrdered gate
    → IsOrdered (enter i w gate)
unfolding enter is_served
enter-IsOrdered gate i w here served h =
    let bound = get_elem?-bound gate.line i here in
    let few = h.few in
    let word = h.word in
    let ticket = h.tickets i w here in
    let equal : gate.serving ≡ w.mine = (==_iff gate.serving w.mine).0 served in
    let head : i ≡ 0 = omega arith in
    let v : Waiter = record { mine = w.mine; inside = true } in
    record {
      few = rw (length-set gate.line i v) few;
      word = word;
      end = rw (length-set gate.line i v) h.end;
      tickets = λ j u there. elim (ℕ_discrete i j) [
        | yes same ↦
            let now : v ≡ u = some-injective v u (
              sym (get_elem?-set_self gate.line i v bound)
              ∙ ap (get_elem? (set gate.line i v)) same
              ∙ there) in
            sym (ap (λ (x : Waiter). x.mine) now)
            ∙ ticket
            ∙ ap (λ (n : ℕ). (gate.serving + n) % u64_mod) same
        | no other ↦ h.tickets j u (sym (get_elem?-set_ne gate.line i j v other) ∙ there)
      ];
      first = λ j u there inside. elim (ℕ_discrete i j) [
        | yes same ↦ sym same ∙ head
        | no other ↦ h.first j u (sym (get_elem?-set_ne gate.line i j v other) ∙ there) inside
      ];
    }

-- The line behind its first thread.
behind_first :
    (line : List Waiter) (j : ℕ) (u : Waiter)
    → get_elem? (remove_at 0 line) j ≡ some u
    → get_elem? line (suc j) ≡ some u
behind_first [] j u h = cc
behind_first (w ∷ line) j u h = h

length-remove_first :
    (line : List Waiter) → 0 < length line → length (remove_at 0 line) + 1 ≡ length line
length-remove_first [] h = absurd (omega arith)
length-remove_first (w ∷ line) h = omega arith

drop_ticket-IsOrdered :
    (gate : WriteGate) (i : ℕ) (w : Waiter)
    → get_elem? gate.line i ≡ some w
    → w.inside ≡ true
    → IsOrdered gate
    → IsOrdered (drop_ticket i gate)
unfolding drop_ticket
drop_ticket-IsOrdered gate i w here inside h =
    let few = h.few in
    let word = h.word in
    let end = h.end in
    let bound = get_elem?-bound gate.line i here in
    let head : i ≡ 0 = h.first i w here inside in
    let shorter = length-remove_first gate.line (omega arith) in
    let done : IsOrdered (drop_ticket 0 gate) = record {
      few = omega arith;
      word = omega arith;
      end = omega arith;
      tickets = λ j u there.
          let mine = h.tickets (suc j) u (behind_first gate.line j u there) in omega arith;
      first = λ j u there in_there.
          let ahead = h.first (suc j) u (behind_first gate.line j u there) in_there in
          absurd (omega arith);
    } in
    subst (λ (n : ℕ). IsOrdered (drop_ticket n gate)) (sym head) done

Step-IsOrdered : (gate gate' : WriteGate) → Step gate gate' → IsOrdered gate → IsOrdered gate'
Step-IsOrdered gate gate' (takes room same) h = rw same (take_ticket-IsOrdered gate room h)
Step-IsOrdered gate gate' (enters i w here served same) h =
    rw same (enter-IsOrdered gate i w here served h)
Step-IsOrdered gate gate' (drops i w here inside same) h =
    rw same (drop_ticket-IsOrdered gate i w here inside h)

-- In every state that the gate reaches, the tickets of the threads run from `serving` on in the order
-- in which they were taken, modulo 2^64, and up to `next`; and a thread past the loop of `ticket` is
-- the first of them, so no two are, and none passes another.
pub Reaches-IsOrdered : (gate : WriteGate) → Reaches gate → IsOrdered gate
Reaches-IsOrdered gate (start same) = rw same record {
  few = omega arith;
  word = omega arith;
  end = omega arith;
  tickets = λ i w there. cc;
  first = λ i w there inside. cc;
}
Reaches-IsOrdered gate (later {gate = before} reached step) =
    Step-IsOrdered before gate step (Reaches-IsOrdered before reached)
