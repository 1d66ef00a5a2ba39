-- ===== src/Examples/Repetition.antt =====
-- A side that gives one turn twice.
use quaestor.Base.{◌≡◌, ◌↔◌, some, none, String, List, [], ◌∷◌}
use quaestor.Relay.Ledger.{Message, from_execution, observed}
use quaestor.Relay.Repetition.{recent_digests, loop_stop, repetition_stop}
use quaestor.Relay.Repetition.Looped.{copies, stopped_iff_repeats}

abbrev reply : Message
reply = record {
  message_id = "m";
  direction = from_execution;
  content_digest = "d";
  chars = 1;
  observed_at = 1;
  delivered_at = none;
  delivery_state = observed;
  delivery_id = "";
  native_id = "";
  exchange_no = 1;
  causal_parent = "";
  text = "t";
}

abbrev replies : List Message
replies = reply ∷ record reply { message_id = "n"; exchange_no = 2 } ∷ []

stopped_iff_repeats_example :
    (repetition_stop 1 replies from_execution ≡ some (loop_stop from_execution))
    ↔ ((d : String) × (recent_digests replies from_execution 2 ≡ copies 2 d))
stopped_iff_repeats_example = stopped_iff_repeats 1 replies from_execution
