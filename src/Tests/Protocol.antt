-- ===== src/Tests/Protocol.antt =====
-- Sequence numbers at concrete databases.
use lfontes_nanoclaw.Prelude.{first, ℕ, ◌≡◌, refl, inl, inr, none, some, List, [], ◌∷◌, arith}
use lfontes_nanoclaw.SessionDb.{NewMessage}
use lfontes_nanoclaw.Container.MessagesOut.{
  WriteMessageOut, get_message_id_by_seq, get_routing_by_seq,
}
use lfontes_nanoclaw.Protocol.Seq.{
  AreSeparate, Write, insert, sync, reply, run_writes, run_writes-AreSeparate,
}
use lfontes_nanoclaw.Protocol.Lookup.{lookup_inbound, lookup_outbound}
use lfontes_nanoclaw.Tests.Data.{message, out, in_db, out_db}
use lfontes_nanoclaw.SessionDb.{pending}

in_db-AreSeparate : AreSeparate in_db out_db
in_db-AreSeparate = record {
  even = omega arith;
  odd = omega arith;
  distinct_in = omega arith;
  distinct_out = omega arith;
}

abbrev hello : NewMessage
hello = record {
  id = "m-9";
  kind = "chat";
  timestamp = 0;
  platform_id = none;
  channel_type = none;
  thread_id = none;
  content = "hello";
  process_after = none;
  recurrence = none;
  trigger = none;
  source_session_id = none;
  on_wake = none;
}

abbrev answer : WriteMessageOut
answer = record {
  id = "o-9";
  in_reply_to = some "m-9";
  deliver_after = none;
  recurrence = none;
  kind = "chat";
  platform_id = none;
  channel_type = none;
  thread_id = none;
  content = "{}";
}

abbrev traffic : List (ℕ × Write)
traffic = (5000, insert hello) ∷ (6000, reply answer) ∷ (7000, sync) ∷ []

run_writes-AreSeparate_example :
    AreSeparate (run_writes traffic (in_db, out_db)).0 (run_writes traffic (in_db, out_db)).1
run_writes-AreSeparate_example = run_writes-AreSeparate traffic in_db out_db in_db-AreSeparate

lookup_inbound_example :
    (get_message_id_by_seq in_db out_db 4 ≡ some "m-2")
    × (get_routing_by_seq in_db out_db 4 ≡ some (some "telegram", some "42", none))
lookup_inbound_example =
    lookup_inbound in_db out_db (message "m-2" 4 pending 1) in_db-AreSeparate (inr (inl refl))

lookup_outbound_example :
    (get_message_id_by_seq in_db out_db 3 ≡ some "77")
    × (get_routing_by_seq in_db out_db 3 ≡ some (some "telegram", some "42", none))
unfolding first
lookup_outbound_example = lookup_outbound in_db out_db (out "o-1" 3) in_db-AreSeparate (inl refl)
