-- ===== src/Helper/Gate/Examples.antt =====
-- A gate with one thread inside and one that waits.
use neutrasearch.Base.{refl, arith, [], ◌∷◌, true, false}
use neutrasearch.Helper.Gate.{
  WriteGate, new_gate, take_ticket, is_served, enter, takes, enters, Reaches, start, later,
}
use neutrasearch.Helper.Gate.Order.{IsOrdered, Reaches-IsOrdered}

abbrev two : WriteGate
two = record {
  next = 2;
  serving = 0;
  line = record { mine = 0; inside = true } ∷ record { mine = 1; inside = false } ∷ [];
}

two-Reaches : Reaches two
unfolding take_ticket enter is_served
two-Reaches =
    later
      (later (later {gate = new_gate} (start refl) (takes (omega arith) refl))
        (enters 0 record { mine = 0; inside = false } refl refl refl))
      (takes (omega arith) refl)

Reaches-IsOrdered_example : IsOrdered two
Reaches-IsOrdered_example = Reaches-IsOrdered two two-Reaches
